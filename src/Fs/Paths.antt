-- ===== src/Fs/Paths.antt =====
-- `localize_path` and `globalize_path` of backstitch/src/project/branch_db/util.rs, with the join of two
-- paths of the standard library on Unix. A path is the list of its bytes, and valid UTF-8.
use backstitch.Prelude.{
  ◌≡◌, refl, ap, ◌∙◌, Bool, true, false, ◌||◌, Option, none, some, [], ◌∷◌, ◌++◌, Str, bytes, eqb,
  is_empty, if◌then◌else◌,
}
use backstitch.Text.{strip_prefix}
use backstitch.Text.Laws.{strip_prefix-append}
use backstitch.Text.Patterns.{ends_with}

abbrev res : Str
res = bytes "res://"

-- `replace("\\", "/")`
unfoldable pub slashes : Str → Str
slashes [] = []
slashes (c ∷ s) = (if eqb c 92 then 47 else c) ∷ slashes s

abbrev pub is_absolute : Str → Bool
is_absolute [] = false
is_absolute (c ∷ s) = eqb c 47

-- `PathBuf::join`: an absolute path replaces the one it is joined to
unfoldable pub join : Str → Str → Str
unfolding ends_with
join base path =
    if is_absolute path
    then path
    else if is_empty base || ends_with (bytes "/") base
    then base ++ path
    else base ++ (bytes "/" ++ path)

abbrev local_of : Str → Option Str → Str
local_of path none = path
local_of path (some rest) = join res rest

unfoldable pub localize_path : Str → Str → Str
unfolding slashes join strip_prefix
localize_path project_dir path =
    local_of (slashes path) (strip_prefix (slashes project_dir) (slashes path))

abbrev global_of : Str → Str → Option Str → Str
global_of project_dir path none = path
global_of project_dir path (some rest) = join project_dir rest

unfoldable pub globalize_path : Str → Str → Str
unfolding join strip_prefix
globalize_path project_dir path = global_of project_dir path (strip_prefix res path)

slashes-++ : (a b : Str) → slashes (a ++ b) ≡ slashes a ++ slashes b
unfolding slashes
slashes-++ [] b = refl
slashes-++ (c ∷ a) b = ap (λ s. (if eqb c 92 then 47 else c) ∷ s) (slashes-++ a b)

-- a relative path without a backslash, behind a directory that ends in a slash and has no backslash
module _ (project_dir path : Str) (dir_ends : ends_with (bytes "/") project_dir ≡ true)
    (dir_slashes : slashes project_dir ≡ project_dir) (path_slashes : slashes path ≡ path)
    (relative : is_absolute path ≡ false) where
  localize_inside : localize_path project_dir (project_dir ++ path) ≡ res ++ path
  unfolding localize_path join ends_with strip_prefix
  localize_inside =
      ap (λ (s : Str). local_of s (strip_prefix (slashes project_dir) s))
        (slashes-++ project_dir path ∙ rw (dir_slashes, path_slashes) refl)
      ∙ ap (λ d. local_of (project_dir ++ path) (strip_prefix d (project_dir ++ path))) dir_slashes
      ∙ ap (local_of (project_dir ++ path)) (strip_prefix-append project_dir path)
      ∙ rw relative refl

  globalize_inside : globalize_path project_dir (res ++ path) ≡ project_dir ++ path
  unfolding globalize_path join
  globalize_inside =
      ap (global_of project_dir (res ++ path)) (strip_prefix-append res path)
      ∙ if_ends (is_empty project_dir)
    where
      if_ends :
          (b : Bool)
          → (if is_absolute path
              then path
              else if b || ends_with (bytes "/") project_dir
              then project_dir ++ path
              else project_dir ++ (bytes "/" ++ path))
            ≡ project_dir ++ path
      if_ends true = rw relative refl
      if_ends false = rw (relative, dir_ends) refl

  -- Such a path of a file of the project is found again on the disk, and the other way round.
  pub globalize_path-localize_path :
      (globalize_path project_dir (localize_path project_dir (project_dir ++ path))
        ≡ project_dir ++ path)
      × (localize_path project_dir (globalize_path project_dir (res ++ path)) ≡ res ++ path)
  globalize_path-localize_path = (
    ap (globalize_path project_dir) localize_inside ∙ globalize_inside,
    ap (localize_path project_dir) globalize_inside ∙ localize_inside,
  )
