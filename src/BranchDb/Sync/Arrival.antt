-- ===== src/BranchDb/Sync/Arrival.antt =====
-- The arrival of a binary document at the branches that link it.
use backstitch.Prelude.{
  ◌≡◌, refl, ◌⊎◌, true, Option, none, some, List, [], ◌∷◌, Outcome, ok, err, panic, Eq, ◌==◌,
  contains, Bool-cases, Option-cases, inl, inr, arith,
}
use mathlib.Core.Path.{subst}
use backstitch.Prelude.Maps.{
  get, insert, keys, get-insert, ForEach, ForEach-insert_ne, contains-keys,
}
use backstitch.BranchDb.Docs.{Automerge, AutomergeError}
use backstitch.BranchDb.State.{BinaryDocStatus, BranchSyncState, BranchDb}
use backstitch.BranchDb.Sync.{
  status_of, reconcile_branch, and_then, ingest_for_branch, ingest_for_branches, ingest_binary_doc,
}
use backstitch.BranchDb.Sync.Agreement.{Agrees, docs-try_reconcile_branch}

module _ {D H : Type 0} ⦃e : Eq D⦄ (am : Automerge H) where
  open am use {Doc}

  pub and_then_ok :
      (p : BranchDb D H Doc × Outcome AutomergeError (Unit {0}))
      (f : BranchDb D H Doc → BranchDb D H Doc × Outcome AutomergeError (Unit {0}))
      → (and_then am p f).1 ≡ ok tt
      → and_then am p f ≡ f p.0
  and_then_ok (db, ok u) f h = refl
  and_then_ok (db, err x) f h = absurd (cc)
  and_then_ok (db, panic) f h = absurd (cc)

  pub and_then_first :
      (p : BranchDb D H Doc × Outcome AutomergeError (Unit {0}))
      (f : BranchDb D H Doc → BranchDb D H Doc × Outcome AutomergeError (Unit {0}))
      → (and_then am p f).1 ≡ ok tt
      → p.1 ≡ ok tt
  and_then_first (db, ok u) f h = refl
  and_then_first (db, err x) f h = absurd (cc)
  and_then_first (db, panic) f h = absurd (cc)

  -- The three cases of a round of the loop.
  pub ingest_gone :
      (id : D) (status : BinaryDocStatus) (b : D) (db : BranchDb D H Doc)
      → get db.branch_sync_states b ≡ none
      → ingest_for_branch am id status b db ≡ (db, ok tt)
  unfolding ingest_for_branch
  ingest_gone id status b db gone = ground arith

  pub ingest_unlinked :
      (id : D) (status : BinaryDocStatus) (b : D) (db : BranchDb D H Doc)
      (st : BranchSyncState D H Doc)
      → get db.branch_sync_states b ≡ some st
      → get st.canonical_binary_docs id ≡ none
      → ingest_for_branch am id status b db ≡ (db, ok tt)
  unfolding ingest_for_branch
  ingest_unlinked id status b db st there unlinked = ground arith

  abbrev pub with_status : BranchSyncState D H Doc → D → BinaryDocStatus → BranchSyncState D H Doc
  with_status st id status = record st {
    canonical_binary_docs = insert st.canonical_binary_docs id status;
  }

  pub ingest_linked :
      (id : D) (status : BinaryDocStatus) (b : D) (db : BranchDb D H Doc)
      (st : BranchSyncState D H Doc) (old : BinaryDocStatus)
      → get db.branch_sync_states b ≡ some st
      → get st.canonical_binary_docs id ≡ some old
      → ingest_for_branch am id status b db ≡ reconcile_branch am db b (with_status st id status)
  unfolding ingest_for_branch
  ingest_linked id status b db st old there linked = rw (there, ingest_for_branch) (rw linked)

  -- On the way through the loop of `ingest_binary_doc`: only the entries for `id`, and only at the
  -- branches that the loop has not reached, may still differ.
  abbrev Partly : D → List D → BranchDb D H Doc → Type 0
  Partly id branches db =
      ForEach
        (λ b (st : BranchSyncState D H Doc).
          ForEach
            (λ j s.
              (s ≡ status_of (get db.binary_states j)) ⊎ ((id ≡ j) × (contains branches b ≡ true)))
            st.canonical_binary_docs)
        db.branch_sync_states

  Partly-unchanged :
      (id b : D) (bs : List D) (db : BranchDb D H Doc)
      → ((st : BranchSyncState D H Doc)
          → get db.branch_sync_states b ≡ some st
          → get st.canonical_binary_docs id ≡ none)
      → Partly id (b ∷ bs) db
      → Partly id bs db
  Partly-unchanged id b bs db unlinked partly b0 st found j s recorded =
      elim (partly b0 st found j s recorded) [
        | inl agrees ↦ inl agrees
        | inr (same, open_) ↦ elim (Bool-cases (b == b0)) [
          | inr other ↦ inr (same, rw other at open_)
          | inl here ↦ absurd (
              clash (rw (← same) at recorded)
                (unlinked st (rw (← (e.beq_iff b b0).0 here) at found)))
        ]
      ]
    where
      clash : {V : Type 0} {v : V} {o : Option V} → o ≡ some v → o ≡ none → ⊥
      clash p q = cc

  Partly-reconcile_branch :
      (id : D) (status : BinaryDocStatus) (b : D) (bs : List D) (db : BranchDb D H Doc)
      (st : BranchSyncState D H Doc)
      → status ≡ status_of (get db.binary_states id)
      → get db.branch_sync_states b ≡ some st
      → Partly id (b ∷ bs) db
      → Partly id bs (reconcile_branch am db b (with_status st id status)).0
  unfolding reconcile_branch
  Partly-reconcile_branch id status b bs db st known there partly =
      ForEach-insert_ne
        (λ b0 (st0 : BranchSyncState D H Doc).
          ForEach
            (λ j s. (s ≡ status_of (get db.binary_states j)) ⊎ ((id ≡ j) × (contains bs b0 ≡ true)))
            st0.canonical_binary_docs)
        db.branch_sync_states b _
        (λ b0 st0 other found j s recorded. elim (partly b0 st0 found j s recorded) [
          | inl agrees ↦ inl agrees
          | inr (same, open_) ↦ inr (same, rw other at open_)
        ])
        (rw (docs-try_reconcile_branch am (with_status st id status) (db.repo st.canonical_doc)) (
          ForEach-insert_ne
            (λ j s. (s ≡ status_of (get db.binary_states j)) ⊎ ((id ≡ j) × (contains bs b ≡ true)))
            st.canonical_binary_docs id status
            (λ j s other recorded. elim (partly b st there j s recorded) [
              | inl agrees ↦ inl agrees
              | inr (same, open_) ↦ absurd (ground (arith, e.beq_iff id j))
            ])
            (inl known)))

  Partly-ingest_for_branch :
      (id : D) (status : BinaryDocStatus) (b : D) (bs : List D) (db : BranchDb D H Doc)
      → status ≡ status_of (get db.binary_states id)
      → Partly id (b ∷ bs) db
      → Partly id bs (ingest_for_branch am id status b db).0
  Partly-ingest_for_branch id status b bs db known partly =
      elim (Option-cases (get db.branch_sync_states b)) [
        | inl gone ↦
            rw (ingest_gone id status b db gone)
              (Partly-unchanged id b bs db (λ st there. absurd (cc)) partly)
        | inr (st, there) ↦ elim (Option-cases (get st.canonical_binary_docs id)) [
          | inl unlinked ↦ rw (ingest_unlinked id status b db st there unlinked) (
              Partly-unchanged id b bs db
                (λ st' there'.
                  let same : st ≡ st' = ground arith in
                  subst (λ (x : BranchSyncState D H Doc). get x.canonical_binary_docs id ≡ none)
                    same unlinked)
                partly)
          | inr (old, linked) ↦
              rw (ingest_linked id status b db st old there linked)
                (Partly-reconcile_branch id status b bs db st known there partly)
        ]
      ]

  binary_states-reconcile_branch :
      (db : BranchDb D H Doc) (b : D) (st : BranchSyncState D H Doc)
      → (reconcile_branch am db b st).0.binary_states ≡ db.binary_states
  unfolding reconcile_branch
  binary_states-reconcile_branch db b st = refl

  pub binary_states-ingest_for_branch :
      (id : D) (status : BinaryDocStatus) (b : D) (db : BranchDb D H Doc)
      → (ingest_for_branch am id status b db).0.binary_states ≡ db.binary_states
  binary_states-ingest_for_branch id status b db =
      elim (Option-cases (get db.branch_sync_states b)) [
        | inl gone ↦ rw (ingest_gone id status b db gone)
        | inr (st, there) ↦ elim (Option-cases (get st.canonical_binary_docs id)) [
          | inl unlinked ↦ rw (ingest_unlinked id status b db st there unlinked)
          | inr (old, linked) ↦
              rw (ingest_linked id status b db st old there linked)
                (binary_states-reconcile_branch db b (with_status st id status))
        ]
      ]

  ingest_for_branches-Agrees :
      (id : D) (status : BinaryDocStatus) (bs : List D) (db : BranchDb D H Doc)
      → status ≡ status_of (get db.binary_states id)
      → Partly id bs db
      → (ingest_for_branches am id status bs db).1 ≡ ok tt
      → Agrees am (ingest_for_branches am id status bs db).0
  unfolding ingest_for_branches
  ingest_for_branches-Agrees id status [] db known partly done = record {
    branches = λ b st found j s recorded. elim (partly b st found j s recorded) [
      | inl agrees ↦ agrees
      | inr (same, open_) ↦ absurd (cc)
    ];
  }
  ingest_for_branches-Agrees id status (b ∷ bs) db known partly done =
      let one =
        and_then_ok (ingest_for_branch am id status b db) (ingest_for_branches am id status bs)
          done in
      rw one (
        ingest_for_branches-Agrees id status bs (ingest_for_branch am id status b db).0
          (rw (binary_states-ingest_for_branch id status b db) known)
          (Partly-ingest_for_branch id status b bs db known partly) (rw one at done))

  -- When a binary document arrives, or is given up, and no merge fails, all records agree again.
  pub ingest_binary_doc-Agrees :
      (db : BranchDb D H Doc) (id : D) (handle : Option D)
      → Agrees am db
      → (ingest_binary_doc am db id handle).1 ≡ ok tt
      → Agrees am (ingest_binary_doc am db id handle).0
  unfolding ingest_binary_doc
  ingest_binary_doc-Agrees db id handle agrees done =
      ingest_for_branches-Agrees id (status_of (some handle)) (keys db.branch_sync_states)
        (record db { binary_states = insert db.binary_states id handle })
        (ground (arith, get-insert db.binary_states id id handle, e.beq_iff id id))
        (λ b st found j s recorded. elim (Bool-cases (id == j)) [
          | inl here ↦ inr ((e.beq_iff id j).0 here, contains-keys db.branch_sync_states b st found)
          | inr other ↦ inl (
              ground (
                arith,
                get-insert db.binary_states id j handle,
                agrees.branches b st found j s recorded,
              ))
        ])
        done
