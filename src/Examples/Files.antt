-- ===== src/Examples/Files.antt =====
-- The files of the main branch at two refs: a script with its hash, and a picture without one.
use backstitch.Prelude.{
  ℕ, ◌≡◌, refl, Bool, true, false, Option, none, some, List, [], ◌∷◌, Str, bytes, Outcome, ok,
  nat_eq, list_eq, list_beq, if◌then◌else◌,
}
use backstitch.Prelude.Maps.{Map, get, ForEach, ForEach-cons}
use backstitch.BranchDb.Store.{Store, shadow_of}
use backstitch.BranchDb.Files.{Entry, content, link, FileReads, get_hash_index}
use backstitch.BranchDb.HashIndex.{hash_of, content_of, IsHonest, get_hash_index-content_of}
use backstitch.Examples.BranchDb.{changes}
use backstitch.Examples.Branches.{documents, three_branches, ref_to}

abbrev script : Entry ℕ Str Str
script = record {
  hashes = some (some (b'#' ∷ bytes "x") ∷ []);
  hydrated = ok (content (bytes "x"));
}

abbrev picture : Entry ℕ Str Str
picture = record { hashes = some []; hydrated = ok (link 9) }

abbrev two_entries : Map Str (Entry ℕ Str Str)
two_entries = (bytes "res://a.gd", script) ∷ (bytes "res://b.png", picture) ∷ []

abbrev one_entry : Map Str (Entry ℕ Str Str)
one_entry = (bytes "res://a.gd", script) ∷ []

abbrev entries_at : List Bool → Option (Map Str (Entry ℕ Str Str))
entries_at (true ∷ heads) = some two_entries
entries_at _ = some one_entry

abbrev reads : FileReads documents Str Str
reads = record {
  hash_eq = list_eq;
  to_hash = λ c. b'#' ∷ c;
  files_at = λ d heads. entries_at heads;
  linked_content = λ d. some (bytes "png");
  put_hashes = λ d heads hashes username. d;
  is_ignored = λ path. list_beq path (bytes "res://.godot");
}

abbrev with_picture : Store documents
with_picture = record three_branches {
  db = record three_branches.db { binary_states = (9, some 9) ∷ [] };
}

main_document : shadow_of documents 1 with_picture ≡ (with_picture, ok (changes true false))
unfolding shadow_of get
main_document = refl

two_trusted : IsHonest reads with_picture two_entries
unfolding get
two_trusted =
    ForEach-cons _ ((bytes "res://b.png", picture) ∷ []) (bytes "res://a.gd") script (λ k e. cc)
      (ForEach-cons _ [] (bytes "res://b.png") picture (λ k e. absurd (cc))
        (λ p v found. absurd (cc)))

get_hash_index-content_of_example :
    (index : Map Str Str) × (((get_hash_index reads (ref_to 1 true) with_picture).1 ≡ ok index)
      × ((path : Str)
          → get index path ≡ (
              if list_beq path (bytes "res://.godot")
              then none
              else hash_of reads (content_of reads with_picture (get two_entries path)))))
unfolding get
get_hash_index-content_of_example =
    get_hash_index-content_of reads with_picture (ref_to 1 true) (changes true false) two_entries
      main_document refl (refl, (refl, tt)) two_trusted
      ((content (bytes "x"), refl), ((link 9, refl), tt))

abbrev old_index : Map Str Str
old_index = (bytes "res://a.gd", b'#' ∷ bytes "x") ∷ []

abbrev new_index : Map Str Str
new_index = (bytes "res://a.gd", b'#' ∷ bytes "x") ∷ (bytes "res://b.png", b'#' ∷ bytes "png") ∷ []

abbrev after_new : Store documents
after_new = (get_hash_index reads (ref_to 1 true) with_picture).0

abbrev after_old : Store documents
after_old = (get_hash_index reads (ref_to 1 false) after_new).0

new_hashed : get_hash_index reads (ref_to 1 true) with_picture ≡ (after_new, ok new_index)
unfolding get_hash_index get
new_hashed = refl

old_hashed : get_hash_index reads (ref_to 1 false) after_new ≡ (after_old, ok old_index)
unfolding get_hash_index get backstitch.Prelude.Maps.insert
old_hashed = refl
