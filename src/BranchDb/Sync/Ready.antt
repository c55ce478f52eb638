-- ===== src/BranchDb/Sync/Ready.antt =====
-- The branches whose linked documents have all arrived: their shadow documents and their waiters.
use backstitch.Prelude.{
  ◌≡◌, refl, ◌⊎◌, true, false, Option, none, some, List, [], ◌∷◌, Outcome, ok, err, panic, Eq, ◌==◌,
  Bool-cases, Option-cases, inl, inr, arith, if◌then◌else◌,
}
use backstitch.Prelude.Maps.{
  get, insert, keys, ForEach, ForEach-insert, ForEach-insert_ne, get-insert, Distinct,
  Distinct-insert,
}
use backstitch.BranchDb.Docs.{Automerge, AutomergeError}
use backstitch.BranchDb.State.{BinaryDocStatus, BranchSyncState, new_sync_state, BranchDb}
use backstitch.BranchDb.Reconcile.{
  try_reconcile_branch, is_up_to_date, resolved_all_canonical_binary_docs,
}
use backstitch.BranchDb.Reconcile.Settles.{
  try_reconcile_branch-IsSynced, try_reconcile_branch_rests,
}
use backstitch.BranchDb.Sync.{
  status_of, reconcile_branch, state_or_new, and_then, announce, ingest_for_branch,
  ingest_for_branches, ingest_binary_doc,
}
use backstitch.BranchDb.Sync.Agreement.{docs-try_reconcile_branch}
use backstitch.BranchDb.Sync.Arrival.{
  and_then_ok, and_then_first, ingest_gone, ingest_unlinked, ingest_linked, with_status,
}

module _ {D H : Type 0} ⦃e : Eq D⦄ where
  -- A branch whose linked documents are all resolved has released the waiters for its shadow
  -- document, and so has one that has a shadow document.
  pub record IsReady {Doc : Type 0} (state : BranchSyncState D H Doc) : Type 0 where
    pub resolved :
        resolved_all_canonical_binary_docs state.canonical_binary_docs ≡ true
        → state.shadow_doc_init ≡ true
    pub shadowed : (state.shadow_doc ≡ none) ⊎ (state.shadow_doc_init ≡ true)
    pub distinct : Distinct state.canonical_binary_docs

module _ {D H : Type 0} ⦃e : Eq D⦄ (am : Automerge H) where
  open am use {Doc}

  abbrev pub Shadowed : BranchSyncState D H Doc → Type 0
  Shadowed state = (state.shadow_doc ≡ none) ⊎ (state.shadow_doc_init ≡ true)

  up_to_date-init :
      (state : BranchSyncState D H Doc)
      → Shadowed state
      → is_up_to_date am state ≡ true
      → state.shadow_doc_init ≡ true
  unfolding is_up_to_date
  up_to_date-init state s current = ground arith

  try_reconcile_branch-IsReady :
      (state : BranchSyncState D H Doc) (d : Doc)
      → Shadowed state
      → Distinct state.canonical_binary_docs
      → (try_reconcile_branch am state d).result ≡ ok tt
      → IsReady (try_reconcile_branch am state d).state
  try_reconcile_branch-IsReady state d s dist done =
      elim (Bool-cases (resolved_all_canonical_binary_docs state.canonical_binary_docs)) [
        | inr waiting ↦
            rw (try_reconcile_branch_rests am state d (inl waiting))
              (record { resolved = λ r. absurd (cc); shadowed = s; distinct = dist })
        | inl resolved ↦ elim (Bool-cases (is_up_to_date am state)) [
          | inl current ↦ rw (try_reconcile_branch_rests am state d (inr current)) (record {
            resolved = λ r. up_to_date-init state s current;
            shadowed = s;
            distinct = dist;
          })
          | inr behind ↦
              let (shadow, synced) =
                try_reconcile_branch-IsSynced am state d resolved behind done in
              record {
                resolved = λ r. synced.initialised;
                shadowed = inr synced.initialised;
                distinct = rw (docs-try_reconcile_branch am state d) dist;
              }
        ]
      ]

  pub record AllReady (db : BranchDb D H Doc) : Type 0 where
    pub branches : ForEach (λ branch state. IsReady state) db.branch_sync_states

  reconcile_branch-AllReady :
      (db : BranchDb D H Doc) (branch : D) (state : BranchSyncState D H Doc)
      → ((j : D) (w : BranchSyncState D H Doc)
          → (branch == j) ≡ false
          → get db.branch_sync_states j ≡ some w
          → IsReady w)
      → Shadowed state
      → Distinct state.canonical_binary_docs
      → (reconcile_branch am db branch state).1 ≡ ok tt
      → AllReady (reconcile_branch am db branch state).0
  unfolding reconcile_branch
  reconcile_branch-AllReady db branch state others s dist done = record {
    branches =
        ForEach-insert_ne (λ b (st : BranchSyncState D H Doc). IsReady st) db.branch_sync_states
          branch _ others
          (try_reconcile_branch-IsReady state (db.repo state.canonical_doc) s dist done);
  }

  ingest_for_branch-AllReady :
      (id : D) (status : BinaryDocStatus) (b : D) (db : BranchDb D H Doc)
      → AllReady db
      → (ingest_for_branch am id status b db).1 ≡ ok tt
      → AllReady (ingest_for_branch am id status b db).0
  ingest_for_branch-AllReady id status b db ready done =
      elim (Option-cases (get db.branch_sync_states b)) [
        | inl gone ↦ rw (ingest_gone am id status b db gone) ready
        | inr (st, there) ↦ elim (Option-cases (get st.canonical_binary_docs id)) [
          | inl unlinked ↦ rw (ingest_unlinked am id status b db st there unlinked) ready
          | inr (old, linked) ↦
              let step = ingest_linked am id status b db st old there linked in
              rw step (
                reconcile_branch-AllReady db b (with_status am st id status)
                  (λ j w other found. ready.branches j w found) (ready.branches b st there).shadowed
                  (Distinct-insert st.canonical_binary_docs id status
                    (ready.branches b st there).distinct)
                  (rw step at done))
        ]
      ]

  ingest_for_branches-AllReady :
      (id : D) (status : BinaryDocStatus) (bs : List D) (db : BranchDb D H Doc)
      → AllReady db
      → (ingest_for_branches am id status bs db).1 ≡ ok tt
      → AllReady (ingest_for_branches am id status bs db).0
  unfolding ingest_for_branches
  ingest_for_branches-AllReady id status [] db ready done = ready
  ingest_for_branches-AllReady id status (b ∷ bs) db ready done =
      let one =
        and_then_ok am (ingest_for_branch am id status b db) (ingest_for_branches am id status bs)
          done in
      rw one (
        ingest_for_branches-AllReady id status bs (ingest_for_branch am id status b db).0
          (ingest_for_branch-AllReady id status b db ready (
            and_then_first am (ingest_for_branch am id status b db)
              (ingest_for_branches am id status bs) done))
          (rw one at done))

  -- The arrival of a binary document keeps every branch ready, if no merge fails.
  pub ingest_binary_doc-AllReady :
      (db : BranchDb D H Doc) (id : D) (handle : Option D)
      → AllReady db
      → (ingest_binary_doc am db id handle).1 ≡ ok tt
      → AllReady (ingest_binary_doc am db id handle).0
  unfolding ingest_binary_doc
  ingest_binary_doc-AllReady db id handle ready done =
      ingest_for_branches-AllReady id (status_of (some handle)) (keys db.branch_sync_states)
        (record db { binary_states = insert db.binary_states id handle })
        (record { branches = ready.branches }) done

  pub state_or_new-Shadowed :
      (o : Option (BranchSyncState D H Doc)) (handle : D)
      → ((st : BranchSyncState D H Doc) → o ≡ some st → Shadowed st)
      → Shadowed (state_or_new am o handle)
  unfolding new_sync_state
  state_or_new-Shadowed none handle h = inl refl
  state_or_new-Shadowed (some st) handle h = h st refl

  pub announce-AllReady :
      (p : BranchDb D H Doc × Outcome AutomergeError (Unit {0}))
      → (p.1 ≡ ok tt → AllReady p.0)
      → (and_then am p (announce am)).1 ≡ ok tt
      → AllReady (and_then am p (announce am)).0
  announce-AllReady (db, ok u) h done = record { branches = (h refl).branches }
  announce-AllReady (db, err x) h done = absurd (cc)
  announce-AllReady (db, panic) h done = absurd (cc)

  pub tracked-AllReady :
      (db : BranchDb D H Doc) (handle : D) (state : BranchSyncState D H Doc)
      → AllReady db
      → Shadowed state
      → Distinct state.canonical_binary_docs
      → let tracked = record db {
        branch_sync_states = insert db.branch_sync_states handle state;
      } in
        let p =
          if resolved_all_canonical_binary_docs state.canonical_binary_docs
          then reconcile_branch am tracked handle state
          else (tracked, ok tt) in
        p.1 ≡ ok tt → AllReady p.0
  tracked-AllReady db handle state ready s dist =
      elim (Bool-cases (resolved_all_canonical_binary_docs state.canonical_binary_docs)) [
        | inl resolved ↦ rw resolved (
            reconcile_branch-AllReady _ handle state
              (λ j w other found.
                ready.branches j w
                  (ground (arith, get-insert db.branch_sync_states handle j state)))
              s dist)
        | inr waiting ↦ rw waiting λ done. record {
          branches =
              ForEach-insert (λ b (st : BranchSyncState D H Doc). IsReady st) db.branch_sync_states
                handle state ready.branches
                (record { resolved = λ r. absurd (cc); shadowed = s; distinct = dist });
        }
      ]
