-- ===== src/BranchDb/Merging.antt =====
-- backstitch/src/project/branch_db/merge_revert.rs: previews of merges and of reverts, and what a
-- preview does to the branch that it is for.
use backstitch.Prelude.{
  Option, none, some, ◌++◌, bytes, Outcome, ok, err, panic, Eq, ◌==◌, if◌then◌else◌,
}
use backstitch.Prelude.Maps.{Map, get, insert}
use backstitch.Prelude.Actions.{continue_with, ◌>>=◌, give, require, unwrap, current}
use backstitch.History.Ref.{HistoryRef}
use backstitch.BranchDb.Docs.{AutomergeError}
use backstitch.BranchDb.State.{BranchSyncState, BranchDb}
use backstitch.BranchDb.Sync.{reconcile_branch}
use backstitch.BranchDb.Store.{
  Branch, MergeMetadata, DbError, no_branch, bad_branch_state, automerge, Documents, Store, On,
  resolve_username, shadow_of, get_latest_ref_on_branch, get_branch_state, get_branch_name,
}
use backstitch.BranchDb.Branches.{add_branch_to_meta, write_new_doc}

module _ {D H : Type 0} ⦃e : Eq D⦄ (docs : Documents D H) where
  open docs use {am}

  -- the shadow document of a branch that has one
  abbrev pub with_shadow :
      am.Doc
      → Option (BranchSyncState D H am.Doc)
      → D
      → Map D (BranchSyncState D H am.Doc)
      → Map D (BranchSyncState D H am.Doc)
  with_shadow d none branch states = states
  with_shadow d (some state) branch states =
      insert states branch (record state { shadow_doc = some d })

  unfoldable pub write_shadow : D → am.Doc → On docs (Unit {0})
  write_shadow branch d s = (
    record s {
      db = record s.db {
        branch_sync_states =
            with_shadow d (get s.db.branch_sync_states branch) branch s.db.branch_sync_states;
      };
    },
    ok tt,
  )

  -- `preview_doc.merge(d)` for the shadow document of a branch, its error passed over
  unfoldable pub merge_into_doc : D → D → On docs (Unit {0})
  unfolding shadow_of
  merge_into_doc id branch = do
    d ← shadow_of docs branch
    s ← current
    write_new_doc docs id (am.merge (s.db.repo id) d).0

  -- a new document, into which the shadow documents of the source and of the target are merged
  unfoldable pub create_merge_preview_branch : Option D → D → D → On docs D
  unfolding merge_into_doc get_latest_ref_on_branch get_branch_name add_branch_to_meta
      resolve_username
  create_merge_preview_branch new_doc source target = do
    source_name ← get_branch_name docs source
    target_name ← get_branch_name docs target
    source_ref ← get_latest_ref_on_branch docs source
    target_ref ← get_latest_ref_on_branch docs target
    id ← unwrap new_doc
    _ ← write_new_doc docs id (docs.created id)
    _ ← merge_into_doc id source
    _ ← merge_into_doc id target
    s ← current
    _ ← add_branch_to_meta docs (record {
      name = target_name ++ (bytes " <- " ++ source_name);
      id = id;
      forked_from = some source_ref;
      merge_into = some target_ref;
      reverted_to = none;
      created_by = resolve_username docs s;
    })
    give id

  -- Where the branch that the preview is of was forked from nothing, the `unwrap` panics.
  abbrev pub metadata_from :
      D → Outcome (DbError D) (Branch D H) → On docs (Option (MergeMetadata D H))
  metadata_from forked_from (ok original_state) s =
      continue_with (unwrap original_state.forked_from s) (λ original.
        give (some (record { merged_branch_id = forked_from; forked_at_heads = original.heads })))
  metadata_from forked_from (err x) s = (s, ok none)
  metadata_from forked_from panic s = (s, panic)

  -- The metadata of the merge of a preview branch into its target.
  unfoldable pub merge_metadata_of : Branch D H → D → On docs (Option (MergeMetadata D H))
  unfolding get_branch_state
  merge_metadata_of source_state forked_from s = elim source_state.merge_into [
    | none ↦ (s, ok none)
    | some target_ref ↦ metadata_from forked_from (get_branch_state docs forked_from s).1 s
  ]

  -- the commit to which the metadata is attached
  unfoldable pub commit_merge_metadata : D → Option (MergeMetadata D H) → On docs (Unit {0})
  unfolding shadow_of write_shadow resolve_username
  commit_merge_metadata target none = give tt
  commit_merge_metadata target (some metadata) = do
    s ← current
    d ← shadow_of docs target
    write_shadow target (docs.commit_merge d (resolve_username docs s) target metadata)

  abbrev pub reconciled :
      Store docs
      → BranchDb D H am.Doc × Outcome AutomergeError (Unit {0})
      → Store docs × Outcome (DbError D) (Unit {0})
  reconciled s (db, ok u) = (record s { db = db }, ok u)
  reconciled s (db, err x) = (record s { db = db }, err (automerge x))
  reconciled s (db, panic) = (record s { db = db }, panic)

  unfoldable pub reconcile_target : D → On docs (Unit {0})
  unfolding reconcile_branch
  reconcile_target target s = elim (get s.db.branch_sync_states target) [
    | none ↦ (s, err (no_branch target))
    | some state ↦ reconciled s (reconcile_branch am s.db target state)
  ]

  -- the source's shadow document is merged into the target's, an error of the merge passed over
  unfoldable pub merge_shadows : D → D → On docs (Unit {0})
  unfolding shadow_of write_shadow
  merge_shadows source target = do
    source_doc ← shadow_of docs source
    target_doc ← shadow_of docs target
    write_shadow target (am.merge target_doc source_doc).0

  abbrev pub branch_of : Option (HistoryRef D H) → Option D
  branch_of none = none
  branch_of (some ref_) = some ref_.branch

  abbrev pub merge_distinct : Branch D H → D → D → On docs (Unit {0})
  merge_distinct source_state source target = do
    _ ← merge_shadows source target
    forked_from ← unwrap (branch_of source_state.forked_from)
    merge_metadata ← merge_metadata_of source_state forked_from
    _ ← commit_merge_metadata target merge_metadata
    reconcile_target target

  unfoldable pub merge_branch : D → D → On docs (Unit {0})
  unfolding merge_shadows merge_metadata_of commit_merge_metadata reconcile_target
  merge_branch source target = do
    source_state ← get_branch_state docs source
    if source == target then give tt else merge_distinct source_state source target

  -- the merge of a confirmed preview into its target, whose errors are all `unwrap`ped
  abbrev confirm_merge : am.Doc × Option AutomergeError → D → On docs (Unit {0})
  confirm_merge (d, none) target s = write_shadow target d s
  confirm_merge (d, some x) target s = ((write_shadow target d s).0, panic)

  -- `unwrap()` of a result
  abbrev unwrapped :
      {A : Type 0} → Store docs × Outcome (DbError D) A → Store docs × Outcome (DbError D) A
  unwrapped (t, ok a) = (t, ok a)
  unwrapped (t, err x) = (t, panic)
  unwrapped (t, panic) = (t, panic)

  abbrev or_panic : {A : Type 0} → On docs A → On docs A
  or_panic m s = unwrapped (m s)

  -- The two branches are not the same: both documents stay locked.
  unfoldable pub merge_preview : D → D → On docs (Unit {0})
  unfolding shadow_of write_shadow
  merge_preview preview_branch target = or_panic (do
    source_doc ← shadow_of docs preview_branch
    target_doc ← shadow_of docs target
    confirm_merge (am.merge target_doc source_doc) target)

  unfoldable pub confirm_revert_preview_branch : D → On docs (Unit {0})
  unfolding merge_preview reconcile_target get_branch_state
  confirm_revert_preview_branch preview_branch = do
    preview_state ← get_branch_state docs preview_branch
    _ ← require preview_state.reverted_to (bad_branch_state preview_branch)
    target ← require preview_state.forked_from (bad_branch_state preview_branch)
    _ ← merge_preview preview_branch target.branch
    reconcile_target target.branch
