-- ===== src/BranchDb/Branches.antt =====
-- backstitch/src/project/branch_db/branch.rs: branches are added to the metadata document, removed
-- from it and forked.
use backstitch.Prelude.{Option, none, some, Str, ok, Eq}
use backstitch.Prelude.Maps.{insert, remove}
use backstitch.Prelude.Actions.{◌>>=◌, give, require, current}
use backstitch.BranchDb.State.{write_doc}
use backstitch.BranchDb.Store.{
  Branch, BranchesMetadataDoc, no_metadata_state, thread, repo_stopped, hydrate_error,
  reconcile_error, Documents, On, resolve_username, shadow_of, get_latest_ref_on_branch,
}

module _ {D H : Type 0} ⦃e : Eq D⦄ (docs : Documents D H) where
  abbrev pub handle_of : Option (D × BranchesMetadataDoc D H) → Option D
  handle_of none = none
  handle_of (some (handle, m)) = some handle

  abbrev pub write_meta : D → docs.MetaDoc → On docs (Unit {0})
  write_meta handle written s =
      (record s { metadata_docs = write_doc s.metadata_docs handle written }, ok tt)

  -- the document of a new handle
  abbrev pub write_new_doc : D → docs.am.Doc → On docs (Unit {0})
  write_new_doc id d s = (record s { db = record s.db { repo = write_doc s.db.repo id d } }, ok tt)

  unfoldable pub add_branch_to_meta : Branch D H → On docs (Unit {0})
  add_branch_to_meta branch = do
    s ← current
    meta_handle ← require (handle_of s.metadata_state) no_metadata_state
    branches_metadata ← require (docs.hydrate (s.metadata_docs meta_handle)) hydrate_error
    written ←
        require
          (docs.reconcile (s.metadata_docs meta_handle) (record branches_metadata {
            branches = insert branches_metadata.branches branch.id branch;
          }))
          reconcile_error
    write_meta meta_handle written

  -- what the transaction leaves, in which a failed write is passed over
  abbrev written_or_not : docs.MetaDoc → Option docs.MetaDoc → docs.MetaDoc
  written_or_not d none = d
  written_or_not d (some written) = written

  -- the `unwrap` of the hydration panics on a thread of its own, which the caller gets as an error
  unfoldable pub remove_branch_from_meta : D → On docs (Unit {0})
  remove_branch_from_meta branch = do
    s ← current
    meta_handle ← require (handle_of s.metadata_state) no_metadata_state
    let d = s.metadata_docs meta_handle
    branches_metadata ← require (docs.hydrate d) thread
    write_meta meta_handle (
        written_or_not d (
          docs.reconcile d
            (record branches_metadata { branches = remove branches_metadata.branches branch })))

  unfoldable pub delete_branch : D → On docs (Unit {0})
  unfolding remove_branch_from_meta
  delete_branch branch = remove_branch_from_meta branch

  -- `new_doc` is the id that the repo gives to the new document, none when it has stopped
  unfoldable pub clone_branch : Option D → D → On docs D
  unfolding shadow_of
  clone_branch new_doc branch = do
    d ← shadow_of docs branch
    id ← require new_doc repo_stopped
    _ ← write_new_doc id d
    give id

  unfoldable pub fork_branch : Option D → Str → D → On docs D
  unfolding clone_branch get_latest_ref_on_branch add_branch_to_meta resolve_username
  fork_branch new_doc name source = do
    latest_ref ← get_latest_ref_on_branch docs source
    id ← clone_branch new_doc source
    s ← current
    _ ← add_branch_to_meta (record {
      name = name;
      id = id;
      forked_from = some latest_ref;
      merge_into = none;
      reverted_to = none;
      created_by = resolve_username docs s;
    })
    give id
