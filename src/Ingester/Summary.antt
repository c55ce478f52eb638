-- ===== src/Ingester/Summary.antt =====
-- The text of a commit: `get_change_summary` of backstitch/src/project/change_ingester.rs, and
-- `summarize_changes` with the metadata of commits of backstitch/src/helpers/utils.rs.
use backstitch.Prelude.{
  Bool, true, false, Option, none, some, List, [], ◌∷◌, ◌++◌, Str, bytes, Outcome, ok, ◌>>=◌,
  length, is_empty, if◌then◌else◌,
}
use backstitch.Text.{join_text, slice}
use backstitch.Fs.Traversal.{ChangeType, created, deleted, modified}
use backstitch.Scene.Numbers.{ℤ, show_nat}
use backstitch.BranchDb.Store.{MergeMetadata}

pub record ChangedFile : Type 0 where
  pub change_type : ChangeType
  pub path : Str

pub record CommitMetadata (D H : Type 0) : Type 0 where
  pub username : Option Str
  pub branch_id : Option D
  pub merge_metadata : Option (MergeMetadata D H)
  pub reverted_to : Option (List H)
  pub changed_files : Option (List ChangedFile)
  pub is_setup : Option Bool

pub record CommitInfo (D H : Type 0) : Type 0 where
  pub hash : H
  pub timestamp : ℤ
  pub metadata : Option (CommitMetadata D H)
  pub synced : Bool
  pub summary : Str

abbrev is_of : ChangeType → ChangeType → Bool
is_of created created = true
is_of deleted deleted = true
is_of modified modified = true
is_of _ _ = false

abbrev files_of : ChangeType → List ChangedFile → List ChangedFile
files_of operation [] = []
files_of operation (c ∷ changes) =
    let filtered = files_of operation changes in
    if is_of c.change_type operation then c ∷ filtered else filtered

abbrev unwrap_or : {A : Type 0} → Option A → A → A
unwrap_or none a = a
unwrap_or (some b) a = b

-- `file_name` is that of `std::path`
unfoldable pub summary_of : (Str → Option Str) → Str → List ChangedFile → Str
unfolding show_nat
summary_of file_name display [] = []
summary_of file_name display (c ∷ []) =
    display ++ (bytes " " ++ unwrap_or (file_name c.path) c.path)
summary_of file_name display (c ∷ d ∷ rest) =
    display ++ (bytes " " ++ (show_nat (length (c ∷ d ∷ rest)) ++ bytes " files"))

-- the texts that are not empty
abbrev not_empty : List Str → List Str
not_empty [] = []
not_empty (s ∷ ss) = let strings = not_empty ss in if is_empty s then strings else s ∷ strings

abbrev summarized : Str → List Str → Str
summarized author (a ∷ []) = author ++ (bytes " " ++ a)
summarized author (a ∷ b ∷ []) = author ++ (bytes " " ++ (a ++ (bytes " and " ++ b)))
summarized author _ = author ++ bytes " made some changes"

unfoldable pub summarize_changes : (Str → Option Str) → Str → List ChangedFile → Str
unfolding summary_of
summarize_changes file_name author changes = summarized author (
    not_empty (
      summary_of file_name (bytes "added") (files_of created changes)
      ∷ summary_of file_name (bytes "removed") (files_of deleted changes)
      ∷ summary_of file_name (bytes "edited") (files_of modified changes)
      ∷ []))

-- `↪` and `↩`
abbrev merge_arrow : Str
merge_arrow = 0xE2 ∷ 0x86 ∷ 0xAA ∷ []

abbrev revert_arrow : Str
revert_arrow = 0xE2 ∷ 0x86 ∷ 0xA9 ∷ []

module _ {D H : Type 0} (doc_to_string : D → Str) (hash_to_string : H → Str)
    (file_name : Str → Option Str) (branch_name : D → Option Str) where
  -- `s.to_string()[..7]` of each head
  unfoldable pub short_texts : List H → Outcome (Unit {0}) (List Str)
  unfolding slice
  short_texts [] = ok []
  short_texts (h ∷ hs) = do
    text ← slice (hash_to_string h) 0 7
    texts ← short_texts hs
    ok (text ∷ texts)

  abbrev is_true : Option Bool → Bool
  is_true none = false
  is_true (some b) = b

  abbrev setup_summary : Option (List ChangedFile) → Str
  setup_summary none = bytes "Initialized repository"
  setup_summary (some files) = bytes "Checked-in " ++ (show_nat (length files) ++ bytes " files")

  abbrev files_summary : Str → Option (List ChangedFile) → Option Str
  files_summary author none = none
  files_summary author (some files) = some (summarize_changes file_name author files)

  abbrev other_summary : Str → CommitMetadata D H → Option Str
  other_summary author meta =
      if is_true meta.is_setup
      then some (setup_summary meta.changed_files)
      else files_summary author meta.changed_files

  abbrev meta_summary :
      Str
      → CommitMetadata D H
      → Option (MergeMetadata D H)
      → Option (List H)
      → Outcome (Unit {0}) (Option Str)
  meta_summary author meta (some merge_info) reverted_to =
      let id = merge_info.merged_branch_id in
      ok (
        some (
          merge_arrow
          ++ (bytes " "
              ++ (author ++ (bytes " merged " ++ unwrap_or (branch_name id) (doc_to_string id))))))
  meta_summary author meta none (some revert_info) = do
    heads ← short_texts revert_info
    ok (
        some (
          revert_arrow
          ++ (bytes " " ++ (author ++ (bytes " reverted to " ++ join_text (bytes ", ") heads)))))
  meta_summary author meta none none = ok (other_summary author meta)

  unfoldable pub get_change_summary : CommitInfo D H → Outcome (Unit {0}) (Option Str)
  unfolding short_texts summarize_changes join_text
  get_change_summary change = elim change.metadata [
    | none ↦ ok none
    | some meta ↦
        meta_summary (unwrap_or meta.username (bytes "Anonymous")) meta meta.merge_metadata
          meta.reverted_to
  ]
