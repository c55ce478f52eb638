-- ===== src/Driver/Choice.antt =====
-- Which ref a sync goes for.
use mathlib.Core.Option
use backstitch.Prelude.{
  ◌≡◌, refl, ap, Option, none, some, List, [], ◌∷◌, Option-cases, inl, inr, if◌then◌else◌,
}
use backstitch.Prelude.Maps.{has_value}
use backstitch.Driver.{Branches, latest_on, or_else, get_ref_for_sync}

-- the first that is there
abbrev pub first_of : {A : Type 0} → List (Option A) → Option A
first_of [] = none
first_of (some a ∷ rest) = some a
first_of (none ∷ rest) = first_of rest

or_else-first_of : {R : Type 0} (a b : Option R) → or_else a b ≡ first_of (a ∷ b ∷ [])
or_else-first_of (some a) b = refl
or_else-first_of none none = refl
or_else-first_of none (some b) = refl

module _ {D R : Type 0} (branches : Branches D R) where
  -- The sync goes for the latest ref of the first branch that has one, of the branch requested, the
  -- branch checked out and the main branch in this order; and the request stays exactly while its
  -- branch has no latest ref.
  pub get_ref_for_sync-first_of :
      (requested : Option D) (checked_out : Option R)
      → get_ref_for_sync branches requested checked_out ≡ (
        first_of (
            latest_on branches requested
            ∷ latest_on branches (Option.map branches.branch checked_out)
            ∷ latest_on branches branches.get_main_branch
            ∷ []),
        if has_value (latest_on branches requested) then none else requested,
      )
  unfolding get_ref_for_sync
  get_ref_for_sync-first_of requested checked_out =
      elim (Option-cases (latest_on branches requested)) [
        | inl none_yet ↦
            rw (none_yet, get_ref_for_sync) (ap (λ r. (r, requested)) (or_else-first_of _ _))
        | inr (latest, found) ↦ rw (found, get_ref_for_sync) refl
      ]

  -- no request with a ref to check out is left
  pub latest_on-get_ref_for_sync :
      (requested : Option D) (checked_out : Option R)
      → latest_on branches (get_ref_for_sync branches requested checked_out).1 ≡ none
  unfolding get_ref_for_sync
  latest_on-get_ref_for_sync requested checked_out =
      elim (Option-cases (latest_on branches requested)) [
        | inl none_yet ↦ rw (none_yet, get_ref_for_sync) none_yet
        | inr (latest, found) ↦ rw (found, get_ref_for_sync) refl
      ]
