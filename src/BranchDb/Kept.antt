-- ===== src/BranchDb/Kept.antt =====
-- What the shadow document of a branch keeps when it is written and reconciled.
use mathlib.Core.Path.{subst}
use backstitch.Prelude.{
  ◌⊎◌, ◌≡◌, refl, ap, ◌∙◌, Bool, true, false, Option, none, some, Option-cases, Bool-cases, inl,
  inr, Outcome, ok, err, panic, Eq, beq_refl, arith, ok-injective,
}
use backstitch.Prelude.Maps.{get, get-insert}
use backstitch.BranchDb.Docs.{AutomergeError}
use backstitch.BranchDb.State.{BranchSyncState, BranchDb}
use backstitch.BranchDb.Reconcile.{
  Reconciled, resolved_all_canonical_binary_docs, is_up_to_date, try_reconcile_branch,
}
use backstitch.BranchDb.Reconcile.Settles.{
  IsSynced, shadow_has, try_reconcile_branch-IsSynced, try_reconcile_branch_rests,
}
use backstitch.BranchDb.Sync.{reconcile_branch}
use backstitch.BranchDb.Store.{DbError, Documents, Store, shadow_of_state, shadow_of}
use backstitch.BranchDb.Merging.{with_shadow, write_shadow, reconciled, reconcile_target}

module _ {D H : Type 0} ⦃e : Eq D⦄ (docs : Documents D H) where
  open docs use {am}

  -- the shadow document of the branch has every change that `P` is true of
  abbrev pub HasAll : (H → Bool) → D → Store docs → Type 0
  HasAll p branch s =
      (state : BranchSyncState D H am.Doc) × (d : am.Doc) × ((get s.db.branch_sync_states branch
          ≡ some state)
        × (state.shadow_doc ≡ some d)
        × ((h : H) → p h ≡ true → am.has d h ≡ true))

  -- a shadow document, as the state has it
  pub shadow_in :
      (branch : D) (o : Option (BranchSyncState D H am.Doc)) (d : am.Doc)
      → shadow_of_state docs branch o ≡ ok d
      → (state : BranchSyncState D H am.Doc) × ((o ≡ some state) × (state.shadow_doc ≡ some d))
  shadow_in branch none d h = absurd (cc)
  shadow_in branch (some state) d h = elim (Option-cases state.shadow_doc) [
    | inl absent ↦ absurd (cc (rw absent at h))
    | inr (x, has_doc) ↦ (state, (refl, has_doc ∙ ap some (ok-injective (rw has_doc at h))))
  ]

  pub HasAll-write_shadow :
      (p : H → Bool) (s t : Store docs) (branch : D) (state : BranchSyncState D H am.Doc)
      (d : am.Doc)
      → get s.db.branch_sync_states branch ≡ some state
      → write_shadow docs branch d s ≡ (t, ok tt)
      → ((h : H) → p h ≡ true → am.has d h ≡ true)
      → HasAll p branch t
  unfolding write_shadow
  HasAll-write_shadow p s t branch state d found written has_all =
      subst (HasAll p branch)
        (ap (λ (q : Store docs × Outcome (DbError D) (Unit {0})). q.0) written)
        (record state { shadow_doc = some d }, d, (got, refl, has_all))
    where
      got :
          get
            (with_shadow docs d (get s.db.branch_sync_states branch) branch s.db.branch_sync_states)
            branch
          ≡ some (record state { shadow_doc = some d })
      got = rw found (
          get-insert s.db.branch_sync_states branch branch (record state { shadow_doc = some d })
          ∙ rw (beq_refl branch) refl)

  -- A reconcile that succeeds keeps the changes of the shadow document.
  try_reconcile_branch-keeps :
      (p : H → Bool) (state : BranchSyncState D H am.Doc) (canonical d : am.Doc)
      → state.shadow_doc ≡ some d
      → ((h : H) → p h ≡ true → am.has d h ≡ true)
      → (try_reconcile_branch am state canonical).result ≡ ok tt
      → (after : am.Doc) × (((try_reconcile_branch am state canonical).state.shadow_doc
            ≡ some after)
          × ((h : H) → p h ≡ true → am.has after h ≡ true))
  try_reconcile_branch-keeps p state canonical d has_doc has_all done =
      elim (Bool-cases (resolved_all_canonical_binary_docs state.canonical_binary_docs)) [
        | inr waiting ↦ rested (inl waiting)
        | inl resolved ↦ elim (Bool-cases (is_up_to_date am state)) [
          | inl upto ↦ rested (inr upto)
          | inr behind ↦
              synced (try_reconcile_branch-IsSynced am state canonical resolved behind done)
        ]
      ]
    where
      rested :
          (resolved_all_canonical_binary_docs state.canonical_binary_docs ≡ false)
            ⊎ (is_up_to_date am state ≡ true)
          → (after : am.Doc) × (((try_reconcile_branch am state canonical).state.shadow_doc
                ≡ some after)
              × ((h : H) → p h ≡ true → am.has after h ≡ true))
      rested why = (
        d,
        (
          ap (λ (r : Reconciled D H am.Doc). r.state.shadow_doc)
                (try_reconcile_branch_rests am state canonical why)
              ∙ has_doc,
          has_all,
        ),
      )

      synced :
          (shadow : am.Doc) × IsSynced am state canonical
              (try_reconcile_branch am state canonical)
              shadow
          → (after : am.Doc) × (((try_reconcile_branch am state canonical).state.shadow_doc
                ≡ some after)
              × ((h : H) → p h ≡ true → am.has after h ≡ true))
      synced (shadow, i) = (
        shadow,
        (
          i.has_shadow,
          λ h q.
              ground (arith, i.same h, i.keeps h, ap (λ o. shadow_has am o h) has_doc, has_all h q),
        ),
      )

  pub its_shadow :
      (s : Store docs) (target : D) (state : BranchSyncState D H am.Doc) (d : am.Doc)
      → get s.db.branch_sync_states target ≡ some state
      → state.shadow_doc ≡ some d
      → shadow_of docs target s ≡ (s, ok d)
  unfolding shadow_of
  its_shadow s target state d found has_doc = rw (found, has_doc) refl

  reconciled_parts :
      (s t : Store docs) (p : BranchDb D H am.Doc × Outcome AutomergeError (Unit {0}))
      → reconciled docs s p ≡ (t, ok tt)
      → (p.1 ≡ ok tt) × (record s { db = p.0 } ≡ t)
  reconciled_parts s t (db, ok u) h =
      (refl, ap (λ (q : Store docs × Outcome (DbError D) (Unit {0})). q.0) h)
  reconciled_parts s t (db, err x) h =
      absurd (cc (ap (λ (q : Store docs × Outcome (DbError D) (Unit {0})). q.1) h))
  reconciled_parts s t (db, panic) h =
      absurd (cc (ap (λ (q : Store docs × Outcome (DbError D) (Unit {0})). q.1) h))

  pub HasAll-reconcile_target :
      (p : H → Bool) (s t : Store docs) (target : D)
      → HasAll p target s
      → reconcile_target docs target s ≡ (t, ok tt)
      → HasAll p target t
  unfolding reconcile_target
  HasAll-reconcile_target p s t target (state, d, (found, has_doc, has)) done =
      let after_state : BranchSyncState D H am.Doc =
        (try_reconcile_branch am state (s.db.repo state.canonical_doc)).state in
      let (result, at_end) =
        reconciled_parts s t (reconcile_branch am s.db target state)
          (rw (found, reconcile_target) at done) in
      let (after, (kept, has_after)) =
        try_reconcile_branch-keeps p state (s.db.repo state.canonical_doc) d has_doc has result in
      subst (HasAll p target) at_end (
        after_state,
        after,
        (
          get-insert s.db.branch_sync_states target target after_state ∙ rw (beq_refl target) refl,
          kept,
          has_after,
        ),
      )
