-- ===== src/Driver/Branching.antt =====
-- The operations of backstitch/src/project/driver.rs on branches: each calls the store and asks for a
-- checkout.
use backstitch.Prelude.{
  ◌≡◌, refl, ap, ◌∙◌, ◌⊎◌, inl, inr, Bool, true, false, Option, none, some, Option-cases,
  Bool-cases, Str, if◌then◌else◌,
}

-- The operations of BranchDb on branches: none or false for an error, which keeps what was done until
-- then.
pub record BranchStore (D R : Type 0) : Type 1 where
  pub Db : Type 0
  pub branch : R → D
  pub get_checked_out_ref : Db → Option R
  -- the id of a branch and the ref that it is forked from
  pub get_branch_state : Db → D → Option (D × Option R)
  pub fork_branch : Db → Str → D → Db × Option D
  pub merge_branch : Db → D → D → Db × Bool
  pub delete_branch : Db → D → Db × Bool
  pub create_merge_preview_branch : Db → D → D → Db × Option D
  pub create_revert_preview_branch : Db → D → R → Db × Option D
  pub confirm_revert_preview_branch : Db → D → Db × Bool

module _ {D R : Type 0} (store : BranchStore D R) where
  open store use {Db}

  -- the store, and `requested_checkout`
  pub record Asking : Type 0 where
    pub db : Db
    pub requested_checkout : Option D

  unfoldable pub request_checkout : Asking → D → Asking
  request_checkout s branch = record s { requested_checkout = some branch }

  -- the request for a branch that was made, and whether it was
  abbrev request_made : Option D → Db × Option D → Asking × Bool
  request_made requested (db, none) = (record { db = db; requested_checkout = requested }, false)
  request_made requested (db, some id) = (record { db = db; requested_checkout = some id }, true)

  unfoldable pub fork_branch : Asking → Str → D → Asking
  fork_branch s name branch =
      (request_made s.requested_checkout (store.fork_branch s.db name branch)).0

  -- the source is deleted and the target requested also where the merge fails
  unfoldable pub merge_branch : Asking → D → D → Asking
  unfolding request_checkout
  merge_branch s source target =
      let merged = store.merge_branch s.db source target in
      let deleted = store.delete_branch merged.0 source in
      request_checkout (record s { db = deleted.0 }) target

  abbrev discard_forked : Asking → D × Option R → Asking
  discard_forked s (id, none) = s
  discard_forked s (id, some fork_info) = record {
    db = (store.delete_branch s.db id).0;
    requested_checkout = some (store.branch fork_info);
  }

  abbrev discard_state : Asking → Option (D × Option R) → Asking
  discard_state s none = s
  discard_state s (some state) = discard_forked s state

  unfoldable pub discard_current_branch : Asking → Asking
  discard_current_branch s = elim (store.get_checked_out_ref s.db) [
    | none ↦ s
    | some checked_out_ref ↦
        discard_state s (store.get_branch_state s.db (store.branch checked_out_ref))
  ]

  unfoldable pub create_merge_preview_branch : Asking → D → D → Asking × Bool
  create_merge_preview_branch s source target =
      request_made s.requested_checkout (store.create_merge_preview_branch s.db source target)

  unfoldable pub create_revert_preview_branch : Asking → R → Asking × Bool
  create_revert_preview_branch s ref_ =
      request_made s.requested_checkout
        (store.create_revert_preview_branch s.db (store.branch ref_) ref_)

  -- behind the confirmation
  abbrev confirmed : Asking → D → R → Db × Bool → Asking
  confirmed s branch forked_from (db, false) = record s { db = db }
  confirmed s branch forked_from (db, true) =
      let deleted = store.delete_branch db branch in
      if deleted.1
      then record { db = deleted.0; requested_checkout = some (store.branch forked_from) }
      else record s { db = deleted.0 }

  abbrev confirm_state : Asking → D → Option (D × Option R) → Asking
  confirm_state s branch none = s
  confirm_state s branch (some (id, none)) = s
  confirm_state s branch (some (id, some forked_from)) =
      confirmed s branch forked_from (store.confirm_revert_preview_branch s.db branch)

  unfoldable pub confirm_revert_preview_branch : Asking → Asking
  confirm_revert_preview_branch s = elim (store.get_checked_out_ref s.db) [
    | none ↦ s
    | some ref_ ↦
        confirm_state s (store.branch ref_) (store.get_branch_state s.db (store.branch ref_))
  ]

  -- The branch that a confirmed preview goes back to: the one it is forked from, where the revert was
  -- confirmed and the preview deleted.
  pub record GoesBack (s : Asking) (ref_ : R) : Type 0 where
    pub checked_out : store.get_checked_out_ref s.db ≡ some ref_
    pub confirmed_there : (store.confirm_revert_preview_branch s.db (store.branch ref_)).1 ≡ true
    pub deleted :
        (store.delete_branch
          (store.confirm_revert_preview_branch s.db (store.branch ref_)).0
          (store.branch ref_)).1
        ≡ true

  confirmed-request :
      (s : Asking) (branch : D) (forked_from : R) (p : Db × Bool)
      → ((confirmed s branch forked_from p).requested_checkout ≡ s.requested_checkout)
        ⊎ ((p.1 ≡ true)
            × ((store.delete_branch p.0 branch).1 ≡ true)
            × ((confirmed s branch forked_from p).requested_checkout
                ≡ some (store.branch forked_from)))
  confirmed-request s branch forked_from (db, false) = inl refl
  confirmed-request s branch forked_from (db, true) =
      elim (Bool-cases (store.delete_branch db branch).1) [
        | inl gone ↦ inr (refl, gone, rw gone refl)
        | inr failed ↦ inl (rw failed refl)
      ]

  -- Confirming a revert preview leaves the request alone, or the preview that is checked out was
  -- confirmed and deleted, and the request is for the branch that it was forked from.
  pub confirm_revert_preview_branch-GoesBack :
      (s : Asking)
      → ((confirm_revert_preview_branch s).requested_checkout ≡ s.requested_checkout)
        ⊎ ((ref_ : R) × (id : D) × (forked_from : R) × (store.get_branch_state s.db
                (store.branch ref_)
              ≡ some (id, some forked_from))
            × GoesBack s ref_
            × ((confirm_revert_preview_branch s).requested_checkout
                ≡ some (store.branch forked_from)))
  unfolding confirm_revert_preview_branch
  confirm_revert_preview_branch-GoesBack s = elim (Option-cases (store.get_checked_out_ref s.db)) [
    | inl nothing ↦ inl (rw (nothing, confirm_revert_preview_branch) refl)
    | inr (ref_, out) ↦ elim (Option-cases (store.get_branch_state s.db (store.branch ref_))) [
      | inl unknown ↦ inl (rw (out, unknown, confirm_revert_preview_branch) refl)
      | inr ((id, none), found) ↦ inl (rw (out, found, confirm_revert_preview_branch) refl)
      | inr ((id, some forked_from), found) ↦
          let run : confirm_revert_preview_branch s
              ≡ confirmed s (store.branch ref_) forked_from
                  (store.confirm_revert_preview_branch s.db (store.branch ref_)) =
            rw (out, found, confirm_revert_preview_branch) refl in
          elim (confirmed-request s (store.branch ref_) forked_from
            (store.confirm_revert_preview_branch s.db (store.branch ref_))) [
              | inl kept ↦ inl (ap (λ (t : Asking). t.requested_checkout) run ∙ kept)
              | inr (there, gone, asked) ↦ inr (
                ref_,
                id,
                forked_from,
                found,
                record { checked_out = out; confirmed_there = there; deleted = gone },
                ap (λ (t : Asking). t.requested_checkout) run ∙ asked,
              )
            ]
    ]
  ]
