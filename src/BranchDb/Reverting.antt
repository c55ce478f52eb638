-- ===== src/BranchDb/Reverting.antt =====
-- `create_revert_preview_branch` of backstitch/src/project/branch_db/merge_revert.rs.
use backstitch.Prelude.{
  false, Option, none, some, List, [], ◌∷◌, ◌++◌, Str, bytes, Eq, list_eq, nat_eq,
}
use backstitch.Prelude.Maps.{Map, get, keys}
use backstitch.Prelude.Actions.{◌>>=◌, give, require, current}
use backstitch.History.Ref.{HistoryRef, new}
use backstitch.Fs.Traversal.{ChangeType, created, deleted, modified}
use backstitch.Diff.Contents.{FileContent}
use backstitch.BranchDb.Sync.{update_branch_sync_state}
use backstitch.BranchDb.Store.{
  repo_stopped, Documents, On, resolve_username, get_latest_ref_on_branch,
}
use backstitch.BranchDb.Branches.{add_branch_to_meta, write_new_doc}
use backstitch.BranchDb.Merging.{merge_into_doc, reconciled}
use backstitch.BranchDb.Files.{FileReads, get_changed_files_between_refs, get_files_at_ref}
use backstitch.Commits.Changes.{Transactions, commit_fs_changes}

module _ {C : Type 0} where
  -- a file that is there at the ref needs a content; the loop takes each content once, and each path
  -- of the map is met once
  abbrev changed_file : Str → ChangeType → Option C → List (Str × Option C) → List (Str × Option C)
  changed_file path deleted content rest = (path, none) ∷ rest
  changed_file path created none rest = rest
  changed_file path created (some content) rest = (path, some content) ∷ rest
  changed_file path modified none rest = rest
  changed_file path modified (some content) rest = (path, some content) ∷ rest

  unfoldable pub changes_to : Map Str C → Map Str ChangeType → List (Str × Option C)
  changes_to contents [] = []
  changes_to contents ((path, change) ∷ changes) =
      changed_file path change (get contents path) (changes_to contents changes)

module _ {D H K : Type 0} ⦃e : Eq D⦄ (docs : Documents D H) (reads : FileReads docs FileContent K)
    (txs : Transactions docs K) (short_heads : HistoryRef D H → Str) where
  open docs use {am}

  abbrev update_sync : D → List H → On docs (Unit {0})
  update_sync handle heads s = reconciled docs s (update_branch_sync_state am s.db handle heads [])

  -- The branch is in the metadata document, and its state is made, before the files are committed;
  -- `binary_ids` are the ids that the repo gives to the documents of binary files.
  unfoldable pub create_revert_preview_branch :
      Option D → List (Option D) → D → HistoryRef D H → On docs D
  unfolding merge_into_doc get_latest_ref_on_branch add_branch_to_meta resolve_username changes_to
      update_branch_sync_state new get_changed_files_between_refs get_files_at_ref commit_fs_changes
  create_revert_preview_branch new_doc binary_ids branch ref_ = do
    current_ref ← get_latest_ref_on_branch docs branch
    id ← require new_doc repo_stopped
    _ ← write_new_doc docs id (docs.created id)
    _ ← merge_into_doc docs id branch
    s ← current
    _ ← add_branch_to_meta docs (record {
      name = short_heads ref_ ++ (bytes " <- " ++ short_heads current_ref);
      id = id;
      forked_from = some current_ref;
      merge_into = none;
      reverted_to = some ref_;
      created_by = resolve_username docs s;
    })
    changed_files ← get_changed_files_between_refs reads (some current_ref) ref_
    contents ← get_files_at_ref reads ref_ (keys changed_files)
    _ ← update_sync id current_ref.heads
    _ ←
        commit_fs_changes docs txs binary_ids (changes_to contents changed_files)
          (new ⦃o = am.hash_ord⦄ id current_ref.heads) (some ref_) false
    give id
