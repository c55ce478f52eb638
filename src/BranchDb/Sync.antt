-- ===== src/BranchDb/Sync.antt =====
-- The operations of backstitch/src/project/branch_db/branch_sync.rs on the state of BranchDb. Each
-- holds the locks of the maps that it uses from its start to its end, so it is one step.
pub mod Agreement
pub mod Arrival
pub mod Ready
pub mod Reachable
use backstitch.Prelude.{
  ℕ, ◌+◌, Bool, true, false, not, Option, none, some, List, [], ◌∷◌, map, Outcome, ok, err, panic,
  Eq, any, is_empty, if◌then◌else◌,
}
use backstitch.Prelude.Maps.{Map, get, insert, keys}
use backstitch.BranchDb.Docs.{Automerge, AutomergeError}
use backstitch.BranchDb.State.{
  BinaryDocStatus, pending, failed, okay, CanonicalBranchStatus, is_pending, branch_not_ingested,
  binary_doc_not_found, healthy, BranchSyncState, new_sync_state, BranchDb, write_doc,
}
use backstitch.BranchDb.Reconcile.{resolved_all_canonical_binary_docs, try_reconcile_branch}

abbrev pub is_failed : BinaryDocStatus → Bool
is_failed failed = true
is_failed okay = false
is_failed pending = false

abbrev pub is_status_pending : BinaryDocStatus → Bool
is_status_pending pending = true
is_status_pending failed = false
is_status_pending okay = false

-- the status of a linked document in `binary_states`
abbrev pub status_of : {D : Type 0} → Option (Option D) → BinaryDocStatus
status_of (some (some handle)) = okay
status_of (some none) = failed
status_of none = pending

abbrev pub status_of_docs : {D : Type 0} → Map D BinaryDocStatus → CanonicalBranchStatus
status_of_docs docs =
    if any (λ entry. is_failed entry.1) docs
    then binary_doc_not_found
    else if any (λ entry. is_status_pending entry.1) docs
    then is_pending
    else healthy

-- the linked documents of a branch with what is known of each
unfoldable pub link_docs :
    {D : Type 0} ⦃e : Eq D⦄ → Map D (Option D) → List D → Map D BinaryDocStatus
link_docs states [] = []
link_docs states (id ∷ ids) = (id, status_of (get states id)) ∷ link_docs states ids

module _ {H : Type 0} (am : Automerge H) where
  open am use {Doc, get_heads}

  abbrev pub has_heads : Option Doc → Bool
  has_heads none = false
  has_heads (some shadow) = not (is_empty (get_heads shadow))

module _ {D H : Type 0} ⦃e : Eq D⦄ (am : Automerge H) where
  open am use {Doc}

  unfoldable pub is_branch_loaded : BranchDb D H Doc → D → Bool
  is_branch_loaded db id = elim (get db.branch_sync_states id) [
    | none ↦ false
    | some state ↦ has_heads am state.shadow_doc
  ]

  unfoldable pub clear_branch_states : BranchDb D H Doc → BranchDb D H Doc
  clear_branch_states db = record db { branch_sync_states = []; binary_states = [] }

  unfoldable pub canonical_branch_status : BranchDb D H Doc → D → CanonicalBranchStatus
  canonical_branch_status db id = elim (get db.branch_sync_states id) [
    | none ↦ branch_not_ingested
    | some state ↦ status_of_docs state.canonical_binary_docs
  ]

  unfoldable pub has_binary_doc : BranchDb D H Doc → D → Bool
  has_binary_doc db id = elim (get db.binary_states id) [ none ↦ false | some handle ↦ true ]

  -- the `?` behind a step: an error keeps what was written and skips the rest
  abbrev pub and_then :
      BranchDb D H Doc × Outcome AutomergeError (Unit {0})
      → (BranchDb D H Doc → BranchDb D H Doc × Outcome AutomergeError (Unit {0}))
      → BranchDb D H Doc × Outcome AutomergeError (Unit {0})
  and_then (db, ok u) rest = rest db
  and_then (db, err x) rest = (db, err x)
  and_then (db, panic) rest = (db, panic)

  -- `self.try_reconcile_branch(state_arc.clone()).await` for the branch of a key
  unfoldable pub reconcile_branch :
      BranchDb D H Doc
      → D
      → BranchSyncState D H Doc
      → BranchDb D H Doc × Outcome AutomergeError (Unit {0})
  reconcile_branch db branch state =
      let r = try_reconcile_branch am state (db.repo state.canonical_doc) in
      (
        record db {
          branch_sync_states = insert db.branch_sync_states branch r.state;
          repo = write_doc db.repo state.canonical_doc r.canonical;
          sent = if r.notified then db.sent + 1 else db.sent;
        },
        r.result,
      )

  -- one round of the loop of `ingest_binary_doc`
  unfoldable pub ingest_for_branch :
      D
      → BinaryDocStatus
      → D
      → BranchDb D H Doc
      → BranchDb D H Doc × Outcome AutomergeError (Unit {0})
  ingest_for_branch id status branch db = elim (get db.branch_sync_states branch) [
    | none ↦ (db, ok tt)
    | some state ↦ elim (get state.canonical_binary_docs id) [
      | none ↦ (db, ok tt)
      | some old ↦
          reconcile_branch db branch
            (record state { canonical_binary_docs = insert state.canonical_binary_docs id status })
    ]
  ]

  -- the loop: the `?` of the first error ends it
  unfoldable pub ingest_for_branches :
      D
      → BinaryDocStatus
      → List D
      → BranchDb D H Doc
      → BranchDb D H Doc × Outcome AutomergeError (Unit {0})
  ingest_for_branches id status [] db = (db, ok tt)
  ingest_for_branches id status (branch ∷ branches) db =
      and_then (ingest_for_branch id status branch db) (ingest_for_branches id status branches)

  unfoldable pub ingest_binary_doc :
      BranchDb D H Doc → D → Option D → BranchDb D H Doc × Outcome AutomergeError (Unit {0})
  unfolding ingest_for_branches
  ingest_binary_doc db id handle =
      ingest_for_branches id (status_of (some handle)) (keys db.branch_sync_states)
        (record db { binary_states = insert db.binary_states id handle })

  -- `entry(id).or_insert(BranchSyncState::new(handle))`
  abbrev pub state_or_new : Option (BranchSyncState D H Doc) → D → BranchSyncState D H Doc
  state_or_new none handle = new_sync_state handle
  state_or_new (some state) handle = state

  -- `branch_change_tx.send`
  abbrev announce : BranchDb D H Doc → BranchDb D H Doc × Outcome AutomergeError (Unit {0})
  announce db = (record db { sent = db.sent + 1 }, ok tt)

  -- `handle` is the id of the canonical document of the branch; `linked_docs` is a set
  unfoldable pub update_branch_sync_state :
      BranchDb D H Doc → D → List H → List D → BranchDb D H Doc × Outcome AutomergeError (Unit {0})
  update_branch_sync_state db handle heads linked_docs =
      let state = record (state_or_new (get db.branch_sync_states handle) handle) {
        canonical_binary_docs = link_docs db.binary_states linked_docs;
        last_tracked = heads;
      } in
      let tracked = record db { branch_sync_states = insert db.branch_sync_states handle state } in
      and_then
        (if resolved_all_canonical_binary_docs state.canonical_binary_docs
          then reconcile_branch tracked handle state
          else (tracked, ok tt))
        announce
