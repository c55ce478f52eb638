-- ===== src/Diff/Contents.antt =====
-- `FileContent` of backstitch/src/fs/file_utils.rs, and the diffs of text and binary files:
-- backstitch/src/diff/text_differ.rs and backstitch/src/diff/resource_differ.rs. The crate `similar`
-- computes the hunks of two texts: it is a parameter.
use backstitch.Prelude.{
  ℕ, ◌+◌, ◌-◌, Option, none, some, List, [], ◌∷◌, ◌++◌, Str, bytes, Outcome, ok, panic, ◌>>=◌,
  if◌then◌else◌,
}
use backstitch.History.Ids.{Ids}
use backstitch.History.Ref.{HistoryRef}
use backstitch.Fs.Traversal.{ChangeType}
use backstitch.Scene.Numbers.{ℤ, pos, negsuc, show_int}
use backstitch.Scene.{GodotScene, StillRunning}
use backstitch.Scene.Document.{serialize}
use backstitch.Text.Patterns.{ends_with}
use backstitch.Diff.Values.{VariantValue, unwrap}
use backstitch.Diff.Properties.{load_value}

pub data FileContent : Type 0 where
  string : Str → FileContent
  binary : Str → FileContent
  scene_content : GodotScene → FileContent

-- ChangeTag of `similar`
pub data ChangeTag : Type 0 where
  equal delete insert_line : ChangeTag

-- a line of a hunk of `similar`, with its number in each of the texts that have it
pub record LineChange : Type 0 where
  pub old_index : Option ℕ
  pub new_index : Option ℕ
  pub tag : ChangeTag
  pub as_str : Option Str

-- a range of the old and the new lines
pub record DiffOp : Type 0 where
  pub old_start : ℕ
  pub old_end : ℕ
  pub new_start : ℕ
  pub new_end : ℕ

pub record SimilarHunk : Type 0 where
  pub ops : List DiffOp
  pub changes : List LineChange

pub record TextDiffLine : Type 0 where
  pub new_line_no : ℤ
  pub old_line_no : ℤ
  pub content : Str
  pub status : Str

pub record TextDiffHunk : Type 0 where
  pub new_start : ℤ
  pub old_start : ℤ
  pub new_lines : ℤ
  pub old_lines : ℤ
  pub diff_lines : List TextDiffLine

pub record TextDiff : Type 0 where
  pub path : Str
  pub diff_hunks : List TextDiffHunk
  pub change_type : ChangeType

-- BinaryResourceDiff
pub record BinaryResourceDiff : Type 0 where
  pub path : Str
  pub change_type : ChangeType
  pub old_resource : Option VariantValue
  pub new_resource : Option VariantValue

-- the last item behind a first one
abbrev last_of : {A : Type 0} → A → List A → A
last_of a [] = a
last_of a (b ∷ rest) = last_of b rest

-- `get_range`, which panics without an operation: (old_start, new_start, old_lines, new_lines). A
-- range ends behind its start, and numbers of lines are below the bounds of `i64`.
unfoldable pub get_range : List DiffOp → Outcome StillRunning (ℤ × ℤ × ℤ × ℤ)
get_range [] = panic
get_range (first ∷ rest) =
    let last = last_of first rest in
    ok (
      pos (first.old_start + 1),
      pos (first.new_start + 1),
      pos (last.old_end - first.old_start),
      pos (last.new_end - first.new_start),
    )

abbrev line_no : Option ℕ → ℤ
line_no none = negsuc 0
line_no (some index) = pos (index + 1)

abbrev status_of : ChangeTag → Str
status_of equal = bytes " "
status_of delete = bytes "-"
status_of insert_line = bytes "+"

unfoldable pub diff_lines_of : List LineChange → Outcome StillRunning (List TextDiffLine)
diff_lines_of [] = ok []
diff_lines_of (change ∷ changes) = do
  content ← unwrap change.as_str
  rest ← diff_lines_of changes
  ok (
      record {
        new_line_no = line_no change.new_index;
        old_line_no = line_no change.old_index;
        content = content;
        status = status_of change.tag;
      }
      ∷ rest)

unfoldable pub hunks_of : List SimilarHunk → Outcome StillRunning (List TextDiffHunk)
unfolding get_range diff_lines_of
hunks_of [] = ok []
hunks_of (hunk ∷ hunks) = do
  range ← get_range hunk.ops
  lines ← diff_lines_of hunk.changes
  rest ← hunks_of hunks
  ok (
      record {
        new_start = range.1;
        old_start = range.0;
        new_lines = range.3;
        old_lines = range.2;
        diff_lines = lines;
      }
      ∷ rest)

-- `TextDiff::create`
unfoldable pub create :
    (Str → Str → List SimilarHunk) → Str → Str → Str → ChangeType → Outcome StillRunning TextDiff
unfolding hunks_of
create iter_hunks path old_text new_text change_type = do
  hunks ← hunks_of (iter_hunks old_text new_text)
  ok (record { path = path; diff_hunks = hunks; change_type = change_type })

unfoldable pub show_lines : List TextDiffLine → Str
show_lines [] = []
show_lines (line ∷ lines) =
    line.status
    ++ (line.content
        ++ ((if ends_with (bytes "\n") line.content then [] else bytes "\n") ++ show_lines lines))

unfoldable pub show_hunks : List TextDiffHunk → Str
unfolding show_int show_lines
show_hunks [] = []
show_hunks (hunk ∷ hunks) =
    bytes "@@ -"
    ++ (show_int hunk.old_start
        ++ (bytes ","
            ++ (show_int hunk.old_lines
                ++ (bytes " +"
                    ++ (show_int hunk.new_start
                        ++ (bytes ","
                            ++ (show_int hunk.new_lines
                                ++ (bytes " @@\n"
                                    ++ (show_lines hunk.diff_lines ++ show_hunks hunks)))))))))

unfoldable pub to_unified : TextDiff → Str
unfolding show_hunks
to_unified diff =
    bytes "--- "
    ++ (diff.path
        ++ (bytes "\n"
            ++ (bytes "+++ " ++ (diff.path ++ (bytes "\n" ++ show_hunks diff.diff_hunks)))))

-- the fuel is that of the loops of `serialize`
unfoldable pub content_to_cow : Ids → ℕ → Option FileContent → Outcome StillRunning Str
unfolding serialize
content_to_cow ids fuel none = ok []
content_to_cow ids fuel (some (binary contents)) = ok (bytes "<BINARY DATA>")
content_to_cow ids fuel (some (string text)) = ok text
content_to_cow ids fuel (some (scene_content scene)) = serialize ids fuel scene

unfoldable pub get_text_diff :
    Ids
    → (Str → Str → List SimilarHunk)
    → ℕ
    → Str
    → ChangeType
    → Option FileContent
    → Option FileContent
    → Outcome StillRunning TextDiff
unfolding content_to_cow create
get_text_diff ids iter_hunks fuel path change_type old_content new_content = do
  old_text ← content_to_cow ids fuel old_content
  new_text ← content_to_cow ids fuel new_content
  create iter_hunks path old_text new_text change_type

module _ (ids : Ids) where
  open ids use {DocumentId, ChangeHash}

  unfoldable pub get_resource :
      Str
      → Option FileContent
      → HistoryRef DocumentId ChangeHash
      → Outcome StillRunning (Option VariantValue)
  unfolding load_value
  get_resource path none ref_ = ok none
  get_resource path (some content) ref_ = do value ← load_value ids path ref_; ok (some value)

  unfoldable pub get_binary_resource_diff :
      Str
      → ChangeType
      → Option FileContent
      → Option FileContent
      → HistoryRef DocumentId ChangeHash
      → HistoryRef DocumentId ChangeHash
      → Outcome StillRunning BinaryResourceDiff
  unfolding get_resource
  get_binary_resource_diff path change_type old_content new_content before after = do
    old ← get_resource path old_content before
    new ← get_resource path new_content after
    ok (record { path = path; change_type = change_type; old_resource = old; new_resource = new })
