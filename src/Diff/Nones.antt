-- ===== src/Diff/Nones.antt =====
-- What does not give none, and what holds of all names of a set of properties.
use mathlib.Core.Path.{subst}
use backstitch.Prelude.{
  ◌≡◌, ◌≢◌, refl, Bool, true, false, Option, none, some, List, [], ◌∷◌, ◌++◌, Str, Outcome, ok, err,
  panic, ◌>>=◌, ok-injective, inl, inr, Bool-cases, All, contains, list_beq, list_beq_iff, list_eq,
  nat_eq, is_empty, arith, if◌then◌else◌,
}
use backstitch.Prelude.Maps.{Map, insert}
use backstitch.Scene.{StillRunning}
use backstitch.Diff.Properties.{PropertyDiff, insert_all}

pub insert_not_empty :
    (m : Map Str PropertyDiff) (k : Str) (v : PropertyDiff) → is_empty (insert m k v) ≡ false
unfolding insert
insert_not_empty [] k v = refl
insert_not_empty (entry ∷ m) k v = ground arith

-- Chains whose end is not none.
pub never_none :
    {A B D : Type 0} (m : Outcome StillRunning A) (n : Outcome StillRunning B) (f : A → B → D)
    → (do a ← m; b ← n; ok (some (f a b))) ≢ ok none
never_none (ok a) (ok b) f h = absurd (cc)
never_none (ok a) (err e) f h = absurd (cc)
never_none (ok a) panic f h = absurd (cc)
never_none (err e) n f h = absurd (cc)
never_none panic n f h = absurd (cc)

pub never_none_later :
    {A D : Type 0} (m : Outcome StillRunning A) (f : Option A → Option D)
    → ((a : A) → f (some a) ≢ none)
    → (do p ← (do a ← m; ok (some a)); ok (f p)) ≢ ok none
never_none_later (ok a) f always h = absurd (always a (ok-injective h))
never_none_later (err e) f always h = absurd (cc)
never_none_later panic f always h = absurd (cc)

-- A comparison of two values, with a result made only when they differ.
module _ {V D : Type 0} (make : V → V → Outcome StillRunning (Option D)) where
  abbrev when_changed : V → V → Outcome StillRunning Bool → Outcome StillRunning (Option D)
  when_changed a b changed = do c ← changed; if c then make a b else ok none

  pub same_of_none :
      (a b : V) (changed : Outcome StillRunning Bool)
      → (make a b ≢ ok none)
      → when_changed a b changed ≡ ok none
      → changed ≡ ok false
  same_of_none a b (ok true) always h = absurd (always h)
  same_of_none a b (ok false) always h = refl
  same_of_none a b (err e) always h = absurd (cc)
  same_of_none a b panic always h = absurd (cc)

module _ (P : Str → Type 0) where
  pub All-split : (xs ys : List Str) → All P (xs ++ ys) → All P xs × All P ys
  All-split [] ys h = (tt, h)
  All-split (x ∷ xs) ys h = let (left, right) = All-split xs ys h.1 in ((h.0, left), right)

  pub All-join : (xs ys : List Str) → All P xs → All P ys → All P (xs ++ ys)
  All-join [] ys h k = k
  All-join (x ∷ xs) ys h k = (h.0, All-join xs ys h.1 k)

  All-contains : (xs : List Str) (x : Str) → All P xs → contains xs x ≡ true → P x
  All-contains [] x h found = absurd (cc)
  All-contains (y ∷ xs) x h found = elim (Bool-cases (list_beq y x)) [
    | inl here ↦ subst P ((list_beq_iff y x).0 here) h.0
    | inr other ↦ All-contains xs x h.1 (rw other at found)
  ]

  pub All-insert_all : (ks set : List Str) → All P ks → All P set → All P (insert_all ks set)
  All-insert_all [] set h k = k
  All-insert_all (x ∷ ks) set h k = elim (Bool-cases (contains (insert_all ks set) x)) [
    | inl known ↦ rw known (All-insert_all ks set h.1 k)
    | inr new ↦ rw new (h.0, All-insert_all ks set h.1 k)
  ]

  pub All-of_insert_all : (ks set : List Str) → All P (insert_all ks set) → All P ks × All P set
  All-of_insert_all [] set h = (tt, h)
  All-of_insert_all (x ∷ ks) set h = elim (Bool-cases (contains (insert_all ks set) x)) [
    | inl known ↦
        let inserted : All P (insert_all ks set) = rw known at h in
        let (left, right) = All-of_insert_all ks set inserted in
        ((All-contains (insert_all ks set) x inserted known, left), right)
    | inr new ↦
        let added : All P (x ∷ insert_all ks set) = rw new at h in
        let (left, right) = All-of_insert_all ks set added.1 in ((added.0, left), right)
  ]
