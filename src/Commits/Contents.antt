-- ===== src/Commits/Contents.antt =====
-- What is read of the files after a commit.
use backstitch.Prelude.{
  panic, ◌≡◌, refl, ap, ◌∙◌, Bool, true, false, Option, none, some, List, [], ◌∷◌, ◌++◌, Str, bytes,
  Outcome, ok, ◌==◌, beq_refl, list_eq, nat_eq, if◌then◌else◌,
}
use backstitch.Scene.{GodotScene}
use backstitch.Diff.Contents.{FileContent, string, scene_content}
use backstitch.BranchDb.Files.{Hydrated, content, link, bad}
use backstitch.Commits.Entries.{
  map_object, Value, text_object, text_scalar, byte_scalar, structured, other, FilesMap, Entry,
  binary_entry, text_entry, scene_entry, delete_entry, content_key, url_key, commit_binary,
  with_text,
}
use backstitch.Commits.Views.{
  IsMap, View, no_values, view, view-hash, view-url, view-put_map, view-content,
}

abbrev pub with_url : Option Value → View → View
with_url value v = record v { url_value = value }

abbrev pub with_scene : Option Value → View → View
with_scene value v = record v { scene_value = value }

abbrev pub with_content : Option Value → View → View
with_content value v = record v { content_value = value }

abbrev pub path_in : {D K : Type 0} → Entry D K → Str
path_in (binary_entry path handle hash) = path
path_in (text_entry path text hash) = path
path_in (scene_entry path scene hash) = path
path_in (delete_entry path) = path

-- The content that an entry commits.
abbrev pub scene_read :
    {D : Type 0} → Option GodotScene → Outcome (Unit {0}) (Hydrated D FileContent)
scene_read none = panic
scene_read (some scene) = ok (content (scene_content scene))

abbrev pub content_in :
    {D K : Type 0}
    → (GodotScene → Option GodotScene)
    → Entry D K
    → Outcome (Unit {0}) (Hydrated D FileContent)
content_in hydrate_scene (binary_entry path handle hash) = ok (link handle)
content_in hydrate_scene (text_entry path text hash) = ok (content (string text))
content_in hydrate_scene (scene_entry path scene hash) = scene_read (hydrate_scene scene)
content_in hydrate_scene (delete_entry path) = ok bad

-- What is read of a path after entries: the content of the last one of the path.
abbrev pub committed_at :
    {D K : Type 0}
    → (GodotScene → Option GodotScene)
    → List (Entry D K)
    → Str
    → Outcome (Unit {0}) (Hydrated D FileContent)
    → Outcome (Unit {0}) (Hydrated D FileContent)
committed_at hydrate_scene [] path before = before
committed_at hydrate_scene (entry ∷ entries) path before =
    committed_at hydrate_scene entries path
      (if path_in entry == path then content_in hydrate_scene entry else before)

-- a view that is changed at the path that is read
pub at_path :
    (b : Bool) (f : View → View) (v w : View)
    → v ≡ w
    → (if b then f v else v) ≡ (if b then f w else w)
at_path b f v w same = ap (λ x. if b then f x else x) same

pub twice :
    (b : Bool) (f g : View → View) (v : View)
    → (if b then f (if b then g v else v) else (if b then g v else v)) ≡ (if b then f (g v) else v)
twice true f g v = refl
twice false f g v = refl

-- What is left of a view but the content.
abbrev pub without_content : View → View
without_content v = with_content none v

module _ {T D K : Type 0} (files : FilesMap T) (laws : IsMap files) (hash_bytes : K → Str)
    (show_id : D → Str) where
  open files use {kind, value, put_map, put, update_text, delete_key, delete, reconcile}

  pub kind-put_map_here : (t : T) (p : Str) → kind (put_map t p) p ≡ map_object
  kind-put_map_here t p =
      laws.kind-put_map t p p ∙ ap (λ b. if b then map_object else kind t p) (beq_refl p)

  pub view-commit_binary :
      (t : T) (p q : Str) (handle : D) (hash : K)
      → view files laws (commit_binary files hash_bytes show_id t p handle hash) q ≡ (
          if p == q
          then with_url (some (text_scalar (bytes "automerge:" ++ show_id handle))) no_values
          else view files laws t q)
  unfolding commit_binary
  view-commit_binary t p q handle hash =
      view-hash files laws _ p q _ (laws.kind-put _ p url_key p _ ∙ kind-put_map_here t p)
      ∙ view-url files laws (put_map t p) p q _ (kind-put_map_here t p)
      ∙ at_path (p == q) (with_url (some (text_scalar (bytes "automerge:" ++ show_id handle)))) _ _
          (view-put_map files laws t p q)
      ∙ twice (p == q) (with_url (some (text_scalar (bytes "automerge:" ++ show_id handle))))
          (λ v. no_values) (view files laws t q)

  -- The content that `with_text` leaves, and that it is a text.
  abbrev pub IsText : T → Str → Type 0
  IsText t p = (s : Str) × (value t p content_key ≡ some (text_object s))

  IsText-put :
      (t : T) (p : Str) → kind t p ≡ map_object → IsText (put t p content_key (text_object [])) p
  IsText-put t p is_map = (
    [],
    laws.value-put t p content_key p content_key (text_object []) is_map
        ∙ ap (λ b. if b then some (text_object []) else value t p content_key) (beq_refl p),
  )

  pub IsText-with_text :
      (v : Option Value) (t : T) (p : Str)
      → value t p content_key ≡ v
      → kind t p ≡ map_object
      → IsText (with_text files hash_bytes show_id v t p) p
  IsText-with_text (some (text_object s)) t p was is_map = (s, was)
  IsText-with_text none t p was is_map = IsText-put t p is_map
  IsText-with_text (some (text_scalar s)) t p was is_map = IsText-put t p is_map
  IsText-with_text (some (byte_scalar s)) t p was is_map = IsText-put t p is_map
  IsText-with_text (some (structured s)) t p was is_map = IsText-put t p is_map
  IsText-with_text (some other) t p was is_map = IsText-put t p is_map

  view-put_content :
      (t : T) (p q : Str) (v : Value)
      → kind t p ≡ map_object
      → (if p == q
          then without_content (view files laws (put t p content_key v) q)
          else view files laws (put t p content_key v) q)
        ≡ (if p == q then without_content (view files laws t q) else view files laws t q)
  view-put_content t p q v is_map =
      at_path (p == q) without_content _ _ (view-content files laws t p q v is_map)
      ∙ twice (p == q) without_content (with_content (some v)) (view files laws t q)

  pub view-with_text :
      (v : Option Value) (t : T) (p q : Str)
      → kind t p ≡ map_object
      → (if p == q
          then without_content (view files laws (with_text files hash_bytes show_id v t p) q)
          else view files laws (with_text files hash_bytes show_id v t p) q)
        ≡ (if p == q then without_content (view files laws t q) else view files laws t q)
  view-with_text (some (text_object s)) t p q is_map = refl
  view-with_text none t p q is_map = view-put_content t p q _ is_map
  view-with_text (some (text_scalar s)) t p q is_map = view-put_content t p q _ is_map
  view-with_text (some (byte_scalar s)) t p q is_map = view-put_content t p q _ is_map
  view-with_text (some (structured s)) t p q is_map = view-put_content t p q _ is_map
  view-with_text (some other) t p q is_map = view-put_content t p q _ is_map
