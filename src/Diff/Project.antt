-- ===== src/Diff/Project.antt =====
-- backstitch/src/diff/differ.rs: the diff of two refs of a project.
use backstitch.Prelude.{
  ℕ, zero, suc, Bool, true, false, ◌||◌, Option, none, some, List, [], ◌∷◌, ◌++◌, Str, bytes,
  Outcome, ok, panic, ◌>>=◌, length, is_empty, list_beq, list_eq, nat_eq, if◌then◌else◌,
}
use backstitch.Prelude.Maps.{Map, get, keys, has_value}
use backstitch.History.Ids.{Ids}
use backstitch.History.Ref.{HistoryRef, ref_beq}
use backstitch.Fs.Traversal.{ChangeType}
use backstitch.Scene.{GodotScene, StillRunning}
use backstitch.Scene.Serialize.{sort_by}
use backstitch.Scene.Document.{str_le}
use backstitch.Diff.Scenes.{
  SceneDiff, TextResourceDiff, type_of_either, get_scene_diff, get_text_resource_diff,
}
use backstitch.Diff.Contents.{
  FileContent, string, binary, SimilarHunk, TextDiff, BinaryResourceDiff, get_text_diff,
  get_binary_resource_diff,
}
use backstitch.Diff.Instances.{InstancePath, as_scene, resolve_nodes, paths_to_load, set_types}

-- Diff
pub data Diff : Type 0 where
  scene : SceneDiff → Diff
  text_resource_diff : TextResourceDiff → Diff
  binary_resource : BinaryResourceDiff → Diff
  text : TextDiff → Diff

unfoldable pub get_diff_file_path : Diff → Str
get_diff_file_path (scene d) = d.path
get_diff_file_path (text_resource_diff d) = d.path
get_diff_file_path (binary_resource d) = d.path
get_diff_file_path (text d) = d.path

pub record ProjectDiff : Type 0 where
  pub file_diffs : List Diff

abbrev pub is_scene : Option FileContent → Bool
is_scene content = has_value (as_scene content)

abbrev pub is_string : Option FileContent → Bool
is_string (some (string s)) = true
is_string _ = false

abbrev pub is_binary : Option FileContent → Bool
is_binary (some (binary b)) = true
is_binary _ = false

-- The loop's variables. The keys of `diff_idx_to_needed_map` are positions in `diffs`.
pub record Progress : Type 0 where
  pub diffs : List Diff
  pub old_scenes_to_load : List Str
  pub new_scenes_to_load : List Str
  pub diff_idx_to_needed_map : Map ℕ (Map ℕ InstancePath)

-- `BranchDb`, as the differ calls it: none for an error
pub record DiffStore (ids : Ids) : Type 0 where
  pub get_changed_files_between_refs :
      HistoryRef ids.DocumentId ids.ChangeHash
      → HistoryRef ids.DocumentId ids.ChangeHash
      → Option (Map Str ChangeType)
  pub get_files_at_ref :
      HistoryRef ids.DocumentId ids.ChangeHash → List Str → Option (Map Str FileContent)

abbrev pub push_diff : Diff → Progress → Progress
push_diff d progress = record progress { diffs = progress.diffs ++ d ∷ [] }

-- what a scene diff asks to load is kept under its position
abbrev pub push_scene_diff : SceneDiff → Map ℕ InstancePath → Progress → Progress
push_scene_diff d needed progress = record {
  diffs = progress.diffs ++ scene d ∷ [];
  old_scenes_to_load = paths_to_load false needed progress.old_scenes_to_load;
  new_scenes_to_load = paths_to_load true needed progress.new_scenes_to_load;
  diff_idx_to_needed_map =
      if is_empty needed
      then progress.diff_idx_to_needed_map
      else (length progress.diffs, needed) ∷ progress.diff_idx_to_needed_map;
}

abbrev pub no_progress : Progress
no_progress = record {
  diffs = [];
  old_scenes_to_load = [];
  new_scenes_to_load = [];
  diff_idx_to_needed_map = [];
}

abbrev pub path_le : Diff → Diff → Bool
path_le a b = str_le (get_diff_file_path a) (get_diff_file_path b)

-- `unwrap_or(HashMap::new())`
abbrev or_no_files : Option (Map Str FileContent) → Map Str FileContent
or_no_files none = []
or_no_files (some files) = files

-- `diffs[diff_idx]` with its types set, where it is the diff of a scene
unfoldable pub set_types_at :
    Map Str FileContent
    → Map Str FileContent
    → ℕ
    → Map ℕ InstancePath
    → List Diff
    → Outcome StillRunning (List Diff)
unfolding set_types
set_types_at old_needed new_needed diff_idx needed [] = panic
set_types_at old_needed new_needed zero needed (scene d ∷ rest) = do
  nodes ← set_types old_needed new_needed needed d.changed_nodes
  ok (scene (record d { changed_nodes = nodes }) ∷ rest)
set_types_at old_needed new_needed zero needed (d ∷ rest) = ok (d ∷ rest)
set_types_at old_needed new_needed (suc diff_idx) needed (d ∷ rest) = do
  diffs ← set_types_at old_needed new_needed diff_idx needed rest
  ok (d ∷ diffs)

unfoldable pub set_all_types :
    Map Str FileContent
    → Map Str FileContent
    → Map ℕ (Map ℕ InstancePath)
    → List Diff
    → Outcome StillRunning (List Diff)
unfolding set_types_at
set_all_types old_needed new_needed [] diffs = ok diffs
set_all_types old_needed new_needed ((diff_idx, needed) ∷ rest) diffs = do
  set ← set_types_at old_needed new_needed diff_idx needed diffs
  set_all_types old_needed new_needed rest set

module _ (ids : Ids) (iter_hunks : Str → Str → List SimilarHunk) (store : DiffStore ids)
    (fuel : ℕ) where
  open ids use {DocumentId, ChangeHash}

  module _ (before after : HistoryRef DocumentId ChangeHash)
      (old_file_contents new_file_contents : Map Str FileContent) where
    abbrev pub diff_text :
        Str
        → ChangeType
        → Option FileContent
        → Option FileContent
        → Progress
        → Outcome StillRunning Progress
    diff_text path change_type old new progress = do
      d ← get_text_diff ids iter_hunks fuel path change_type old new
      ok (push_diff (text d) progress)

    abbrev pub diff_scene :
        Str → Option GodotScene → Option GodotScene → Progress → Outcome StillRunning Progress
    diff_scene path old new progress = do
      d ← get_scene_diff ids fuel old new before after path
      resolved ← resolve_nodes old new old_file_contents new_file_contents 0 d.changed_nodes
      ok (push_scene_diff (record d { changed_nodes = resolved.0 }) resolved.1 progress)

    abbrev pub diff_resource :
        Str → Option GodotScene → Option GodotScene → Progress → Outcome StillRunning Progress
    diff_resource path old new progress = do
      d ← get_text_resource_diff ids fuel old new before after path
      ok (push_diff (text_resource_diff d) progress)

    abbrev pub diff_binary :
        Str
        → ChangeType
        → Option FileContent
        → Option FileContent
        → Progress
        → Outcome StillRunning Progress
    diff_binary path change_type old new progress = do
      d ← get_binary_resource_diff ids path change_type old new before after
      ok (push_diff (binary_resource d) progress)

    -- one changed file
    unfoldable pub diff_file :
        Str
        → ChangeType
        → Option FileContent
        → Option FileContent
        → Progress
        → Outcome StillRunning Progress
    unfolding get_text_diff get_scene_diff resolve_nodes get_text_resource_diff
        get_binary_resource_diff
    diff_file path change_type old new progress =
        if is_scene old || is_scene new
        then (if is_string old || is_string new
            then diff_text path change_type old new progress
            else if list_beq (type_of_either (as_scene old) (as_scene new)) (bytes "PackedScene")
            then diff_scene path (as_scene old) (as_scene new) progress
            else diff_resource path (as_scene old) (as_scene new) progress)
        else if is_binary old || is_binary new
        then diff_binary path change_type old new progress
        else if is_string old || is_string new
        then diff_text path change_type old new progress
        else ok progress

    unfoldable pub diff_files : Map Str ChangeType → Progress → Outcome StillRunning Progress
    unfolding diff_file
    diff_files [] progress = ok progress
    diff_files ((path, change_type) ∷ rest) progress = do
      next ←
          diff_file path change_type (get old_file_contents path) (get new_file_contents path)
            progress
      diff_files rest next

  -- what follows the loads of the contents of the changed files
  unfoldable pub diff_contents :
      HistoryRef DocumentId ChangeHash
      → HistoryRef DocumentId ChangeHash
      → Map Str ChangeType
      → Map Str FileContent
      → Map Str FileContent
      → Outcome StillRunning ProjectDiff
  unfolding diff_files set_all_types sort_by get_diff_file_path
  diff_contents before after changed_files old_file_contents new_file_contents = do
    progress ← diff_files before after old_file_contents new_file_contents changed_files no_progress
    let old_needed = or_no_files (store.get_files_at_ref before progress.old_scenes_to_load)
    let new_needed = or_no_files (store.get_files_at_ref after progress.new_scenes_to_load)
    diffs ← set_all_types old_needed new_needed progress.diff_idx_to_needed_map progress.diffs
    ok (record { file_diffs = sort_by path_le diffs })

  abbrev pub load_and_diff :
      HistoryRef DocumentId ChangeHash
      → HistoryRef DocumentId ChangeHash
      → Map Str ChangeType
      → Option (Map Str FileContent)
      → Option (Map Str FileContent)
      → Outcome StillRunning (Option ProjectDiff)
  load_and_diff before after changed_files (some new) (some old) = do
    d ← diff_contents before after changed_files old new
    ok (some d)
  load_and_diff before after changed_files _ _ = ok none

  unfoldable pub get_diff :
      HistoryRef DocumentId ChangeHash
      → HistoryRef DocumentId ChangeHash
      → Outcome StillRunning (Option ProjectDiff)
  unfolding ref_beq diff_contents
  get_diff before after =
      if ref_beq ⦃d = ids.doc_eq⦄ ⦃h = ids.hash_ord.eq⦄ before after
      then ok none
      else elim (store.get_changed_files_between_refs before after) [
        | none ↦ ok none
        | some changed_files ↦
            if is_empty changed_files
            then ok none
            else load_and_diff before after changed_files
                (store.get_files_at_ref after (keys changed_files))
                (store.get_files_at_ref before (keys changed_files))
      ]
