-- ===== src/BranchDb/Sync/Agreement.antt =====
-- How what each branch records of its linked documents agrees with `binary_states`.
use backstitch.Prelude.{
  ◌≡◌, Bool, true, false, Option, List, [], ◌∷◌, Outcome, ok, err, panic, Eq, ◌==◌, Bool-cases, inl,
  inr, arith, if◌then◌else◌,
}
use backstitch.Prelude.Maps.{Map, get, insert, ForEach, ForEach-insert}
use backstitch.BranchDb.Docs.{Automerge, AutomergeError}
use backstitch.BranchDb.State.{BinaryDocStatus, BranchSyncState, BranchDb}
use backstitch.BranchDb.Reconcile.{try_reconcile_branch}
use backstitch.BranchDb.Sync.{
  status_of, link_docs, reconcile_branch, state_or_new, and_then, update_branch_sync_state,
}

module _ {D : Type 0} ⦃e : Eq D⦄ where
  -- each status recorded is that of the document in `binary_states`
  abbrev pub DocsAgree : Map D (Option D) → Map D BinaryDocStatus → Type 0
  DocsAgree states docs = ForEach (λ id s. s ≡ status_of (get states id)) docs

  link_docs-DocsAgree :
      (states : Map D (Option D)) (ids : List D) → DocsAgree states (link_docs states ids)
  unfolding link_docs get
  link_docs-DocsAgree states [] id s h = absurd (cc)
  link_docs-DocsAgree states (i ∷ ids) id s h = elim (Bool-cases (i == id)) [
    | inl here ↦ ground (arith, e.beq_iff i id)
    | inr other ↦ link_docs-DocsAgree states ids id s (rw other at h)
  ]

module _ {D H : Type 0} ⦃e : Eq D⦄ (am : Automerge H) where
  open am use {Doc}

  pub docs-try_reconcile_branch :
      (state : BranchSyncState D H Doc) (d : Doc)
      → (try_reconcile_branch am state d).state.canonical_binary_docs ≡ state.canonical_binary_docs
  unfolding try_reconcile_branch
  docs-try_reconcile_branch state d = ground arith

  -- The records of all branches agree with `binary_states`.
  pub record Agrees (db : BranchDb D H Doc) : Type 0 where
    pub branches :
        ForEach
          (λ branch state. DocsAgree db.binary_states state.canonical_binary_docs)
          db.branch_sync_states

  reconcile_branch-Agrees :
      (db : BranchDb D H Doc) (branch : D) (state : BranchSyncState D H Doc)
      → Agrees db
      → DocsAgree db.binary_states state.canonical_binary_docs
      → Agrees (reconcile_branch am db branch state).0
  unfolding reconcile_branch
  reconcile_branch-Agrees db branch state agrees here = record {
    branches =
        ForEach-insert
          (λ b (st : BranchSyncState D H Doc). DocsAgree db.binary_states st.canonical_binary_docs)
          db.branch_sync_states branch _ agrees.branches
          (rw (docs-try_reconcile_branch state (db.repo state.canonical_doc)) here);
  }

  and_then-Agrees :
      (p : BranchDb D H Doc × Outcome AutomergeError (Unit {0}))
      (f : BranchDb D H Doc → BranchDb D H Doc × Outcome AutomergeError (Unit {0}))
      → Agrees p.0
      → ((db : BranchDb D H Doc) → Agrees db → Agrees (f db).0)
      → Agrees (and_then am p f).0
  and_then-Agrees (db, ok u) f h keep = keep db h
  and_then-Agrees (db, err x) f h keep = h
  and_then-Agrees (db, panic) f h keep = h

  if-Agrees :
      (c : Bool) (p q : BranchDb D H Doc × Outcome AutomergeError (Unit {0}))
      → Agrees p.0
      → Agrees q.0
      → Agrees (if c then p else q).0
  if-Agrees true p q hp hq = hp
  if-Agrees false p q hp hq = hq

  -- Whatever a branch links, tracking new heads of it leaves all records in agreement, also where a
  -- merge fails.
  pub update_branch_sync_state-Agrees :
      (db : BranchDb D H Doc) (handle : D) (heads : List H) (linked_docs : List D)
      → Agrees db
      → Agrees (update_branch_sync_state am db handle heads linked_docs).0
  unfolding update_branch_sync_state
  update_branch_sync_state-Agrees db handle heads linked_docs agrees =
      and_then-Agrees _ _
        (if-Agrees _ _ _ (reconcile_branch-Agrees tracked handle state tracked-Agrees docs)
          tracked-Agrees)
        (λ db' h. record { branches = h.branches })
    where
      state : BranchSyncState D H Doc
      state = record (state_or_new am (get db.branch_sync_states handle) handle) {
        canonical_binary_docs = link_docs db.binary_states linked_docs;
        last_tracked = heads;
      }

      tracked : BranchDb D H Doc
      tracked = record db { branch_sync_states = insert db.branch_sync_states handle state }

      docs : DocsAgree db.binary_states state.canonical_binary_docs
      docs = link_docs-DocsAgree db.binary_states linked_docs

      tracked-Agrees : Agrees tracked
      tracked-Agrees = record {
        branches =
            ForEach-insert
              (λ b (st : BranchSyncState D H Doc).
                DocsAgree db.binary_states st.canonical_binary_docs)
              db.branch_sync_states handle state agrees.branches docs;
      }
