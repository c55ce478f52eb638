-- ===== src/BranchDb/Reconcile/Settles.antt =====
-- What a reconcile leaves in the two documents of a branch, and what a second one does.
use backstitch.Prelude.{
  ◌≡◌, refl, ◌↔◌, Bool, true, false, ◌||◌, Option, none, some, List, ok, list_beq_iff, ◌∙◌, ◌⊎◌,
  sym, Bool-cases, inl, inr, arith,
}
use backstitch.Prelude.Sorting.{Ord, SameItems, sort, sort-eq_iff}
use backstitch.BranchDb.Docs.{Automerge, AutomergeError}
use backstitch.BranchDb.State.{BranchSyncState}
use backstitch.BranchDb.Reconcile.{
  are_heads_equivalent, resolved_all_canonical_binary_docs, Reconciled, is_up_to_date,
  shadow_or_fork, merge_back, merge_shadow, try_reconcile_branch,
}

-- The test of the code for equal heads says whether the lists hold the same heads in some order.
pub are_heads_equivalent_iff :
    {H : Type 0} ⦃o : Ord H⦄ (a b : List H) → (are_heads_equivalent a b ≡ true) ↔ SameItems a b
unfolding are_heads_equivalent
are_heads_equivalent_iff ⦃o⦄ a b = (
  λ h. (sort-eq_iff a b).0 ((list_beq_iff ⦃e = o.eq⦄ (sort a) (sort b)).0 h),
  λ same. (list_beq_iff ⦃e = o.eq⦄ (sort a) (sort b)).1 ((sort-eq_iff a b).1 same),
)

module _ {H : Type 0} (am : Automerge H) where
  open am use {Doc, get_heads, fork, merge, hash_ord, has, has_fork, has_merge, heads_of_changes}

  -- The changes of a shadow document that may not exist yet.
  abbrev pub shadow_has : Option Doc → H → Bool
  shadow_has none h = false
  shadow_has (some shadow) h = has shadow h

  shadow_or_fork-has :
      (o : Option Doc) (d : Doc) (h : H)
      → has (shadow_or_fork am o d) h || has d h ≡ has d h || shadow_has o h
  shadow_or_fork-has none d h = ground (arith, has_fork d h)
  shadow_or_fork-has (some s) d h = ground arith

module _ {D H : Type 0} (am : Automerge H) where
  open am use {Doc, get_heads, merge, hash_ord, has, has_merge, heads_of_changes}

  -- What a reconcile that ran leaves, from the state and the canonical document before it.
  pub record IsSynced (before : BranchSyncState D H Doc) (d : Doc) (after : Reconciled D H Doc)
      (shadow : Doc) : Type 0 where
    pub has_shadow : after.state.shadow_doc ≡ some shadow
    pub same : (h : H) → has shadow h ≡ has after.canonical h
    pub keeps : (h : H) → has after.canonical h ≡ has d h || shadow_has am before.shadow_doc h
    pub tracked : after.state.last_tracked ≡ get_heads after.canonical
    pub reconciled : after.state.last_reconciled ≡ get_heads after.canonical
    pub initialised : after.state.shadow_doc_init ≡ true
    pub notified : after.notified ≡ true

  merge_back-IsSynced :
      (state : BranchSyncState D H Doc) (d shadow : Doc) (m : Doc × Option AutomergeError)
      → ((h : H) → has shadow h ≡ has d h || shadow_has am state.shadow_doc h)
      → (m.1 ≡ none → (h : H) → has m.0 h ≡ has d h || has shadow h)
      → (merge_back am state shadow m).result ≡ ok tt
      → IsSynced state d (merge_back am state shadow m) shadow
  unfolding merge_back
  merge_back-IsSynced state d shadow (d', some e) hs hm done = absurd (cc)
  merge_back-IsSynced state d shadow (d', none) hs hm done = record {
    has_shadow = refl;
    same = λ h. ground (arith, hs h, hm refl h);
    keeps = λ h. ground (arith, hs h, hm refl h);
    tracked = refl;
    reconciled = refl;
    initialised = refl;
    notified = refl;
  }

  merge_shadow-IsSynced :
      (state : BranchSyncState D H Doc) (d : Doc) (m : Doc × Option AutomergeError)
      → (m.1 ≡ none → (h : H) → has m.0 h ≡ has d h || shadow_has am state.shadow_doc h)
      → (merge_shadow am state d m).result ≡ ok tt
      → IsSynced state d (merge_shadow am state d m) m.0
  unfolding merge_shadow
  merge_shadow-IsSynced state d (shadow, some e) hm done = absurd (cc)
  merge_shadow-IsSynced state d (shadow, none) hm done =
      merge_back-IsSynced state d shadow (merge d shadow) (hm refl) (λ e h. has_merge d shadow h e)
        done

  -- A reconcile of a branch whose linked documents are all resolved, and which is not up to date,
  -- leaves, if no merge fails, a shadow document with the same changes as the canonical one. These
  -- are the changes that either had before, the heads recorded are those of the canonical document,
  -- the waiters for the shadow document are released and the change is announced.
  pub try_reconcile_branch-IsSynced :
      (state : BranchSyncState D H Doc) (d : Doc)
      → resolved_all_canonical_binary_docs state.canonical_binary_docs ≡ true
      → is_up_to_date am state ≡ false
      → (try_reconcile_branch am state d).result ≡ ok tt
      → (shadow : Doc) × IsSynced state d (try_reconcile_branch am state d) shadow
  unfolding try_reconcile_branch
  try_reconcile_branch-IsSynced state d resolved behind done =
      let m = merge (shadow_or_fork am state.shadow_doc d) d in
      (
        m.0,
        rw (resolved, behind)
            (merge_shadow-IsSynced state d m
              (λ e h. has_merge _ d h e ∙ shadow_or_fork-has am state.shadow_doc d h)
              (rw (resolved, behind) at done)),
      )

  merge_back-ok :
      (state : BranchSyncState D H Doc) (shadow : Doc) (m : Doc × Option AutomergeError)
      → m.1 ≡ none
      → (merge_back am state shadow m).result ≡ ok tt
  unfolding merge_back
  merge_back-ok state shadow (d, none) h = refl
  merge_back-ok state shadow (d, some x) h = absurd (cc)

  merge_shadow-ok :
      (state : BranchSyncState D H Doc) (d : Doc) (m : Doc × Option AutomergeError)
      → ((a b : Doc) → (merge a b).1 ≡ none)
      → m.1 ≡ none
      → (merge_shadow am state d m).result ≡ ok tt
  unfolding merge_shadow
  merge_shadow-ok state d (shadow, none) merges h =
      merge_back-ok state shadow (merge d shadow) (merges d shadow)
  merge_shadow-ok state d (shadow, some x) merges h = absurd (cc)

  -- Where merges do not fail, a reconcile succeeds.
  pub try_reconcile_branch-ok :
      (state : BranchSyncState D H Doc) (d : Doc)
      → ((a b : Doc) → (merge a b).1 ≡ none)
      → (try_reconcile_branch am state d).result ≡ ok tt
  unfolding try_reconcile_branch
  try_reconcile_branch-ok state d merges =
      elim (Bool-cases (resolved_all_canonical_binary_docs state.canonical_binary_docs)) [
        | inr waiting ↦ rw waiting refl
        | inl resolved ↦ elim (Bool-cases (is_up_to_date am state)) [
          | inl current ↦ rw (resolved, current) refl
          | inr behind ↦ rw (resolved, behind) (merge_shadow-ok state d _ merges (merges _ d))
        ]
      ]

  abbrev rest : BranchSyncState D H Doc → Doc → Reconciled D H Doc
  rest state d = record { state = state; canonical = d; notified = false; result = ok tt }

  pub try_reconcile_branch_rests :
      (state : BranchSyncState D H Doc) (d : Doc)
      → (resolved_all_canonical_binary_docs state.canonical_binary_docs ≡ false)
        ⊎ (is_up_to_date am state ≡ true)
      → try_reconcile_branch am state d ≡ rest state d
  unfolding try_reconcile_branch
  try_reconcile_branch_rests state d (inl waiting) = rw waiting
  try_reconcile_branch_rests state d (inr current) =
      elim (Bool-cases (resolved_all_canonical_binary_docs state.canonical_binary_docs)) [
        | inl e ↦ rw (e, current)
        | inr e ↦ rw e
      ]

  IsSynced-is_up_to_date :
      (state : BranchSyncState D H Doc) (d : Doc) (after : Reconciled D H Doc) (shadow : Doc)
      → IsSynced state d after shadow
      → is_up_to_date am after.state ≡ true
  unfolding is_up_to_date
  IsSynced-is_up_to_date state d after shadow s = rw (
    s.reconciled,
    s.tracked,
    s.has_shadow,
    (are_heads_equivalent_iff ⦃o = hash_ord⦄ (get_heads after.canonical)
          (get_heads after.canonical)).1
        (λ h. refl),
    (are_heads_equivalent_iff ⦃o = hash_ord⦄ (get_heads after.canonical) (get_heads shadow)).1
        (heads_of_changes after.canonical shadow (λ h. sym (s.same h))),
  )

  settles_of_rest :
      (state : BranchSyncState D H Doc) (d : Doc)
      → (resolved_all_canonical_binary_docs state.canonical_binary_docs ≡ false)
        ⊎ (is_up_to_date am state ≡ true)
      → let after = try_reconcile_branch am state d in
        try_reconcile_branch am after.state after.canonical ≡ rest after.state after.canonical
  settles_of_rest state d h =
      rw (try_reconcile_branch_rests state d h) (try_reconcile_branch_rests state d h)

  -- A reconcile settles: another one right after it, with the document that it left, changes nothing
  -- and announces nothing.
  pub try_reconcile_branch_settles :
      (state : BranchSyncState D H Doc) (d : Doc)
      → (try_reconcile_branch am state d).result ≡ ok tt
      → let after = try_reconcile_branch am state d in
        try_reconcile_branch am after.state after.canonical ≡ rest after.state after.canonical
  try_reconcile_branch_settles state d done =
      elim (Bool-cases (resolved_all_canonical_binary_docs state.canonical_binary_docs)) [
        | inr waiting ↦ settles_of_rest state d (inl waiting)
        | inl resolved ↦ elim (Bool-cases (is_up_to_date am state)) [
          | inl current ↦ settles_of_rest state d (inr current)
          | inr behind ↦
              let (shadow, s) = try_reconcile_branch-IsSynced state d resolved behind done in
              try_reconcile_branch_rests _ _
                (inr (IsSynced-is_up_to_date state d (try_reconcile_branch am state d) shadow s))
        ]
      ]
