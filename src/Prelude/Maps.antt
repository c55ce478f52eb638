-- ===== src/Prelude/Maps.antt =====
-- `HashMap` as an association list. Nothing in the program depends on the order of its entries but
-- where a comment says so.
use backstitch.Prelude.Equality.{Eq, ◌==◌, contains, beq_refl}
use backstitch.Prelude.Tests.{if◌then◌else◌, Bool-cases}
use backstitch.Prelude.Lists.{all}
use mathlib.Core.Path.{◌≡◌, refl, subst, subst₂}
use mathlib.Core.Bool.{Bool, true, false}
use mathlib.Core.Logic.{inl, inr}
use mathlib.Core.List.{List, [], ◌∷◌}
use mathlib.Core.Option.{Option, none, some}
use native.Mathlib.Omega.{arith}

abbrev pub Map {ℓ κ} : Type ℓ → Type κ → Type (ℓ ⊔ κ)
Map K V = List (K × V)

abbrev pub has_value {μ} : {A : Type μ} → Option A → Bool
has_value none = false
has_value (some v) = true

module _ {ℓ κ} {K : Type ℓ} {V : Type κ} ⦃e : Eq K⦄ where
  unfoldable pub get : Map K V → K → Option V
  get [] k = none
  get ((j, v) ∷ m) k = if j == k then some v else get m k

  unfoldable pub insert : Map K V → K → V → Map K V
  insert [] k v = (k, v) ∷ []
  insert ((j, w) ∷ m) k v = if j == k then (k, v) ∷ m else (j, w) ∷ insert m k v

  unfoldable pub remove : Map K V → K → Map K V
  remove [] k = []
  remove ((j, w) ∷ m) k = let rest = remove m k in if j == k then rest else (j, w) ∷ rest

  pub get-insert :
      (m : Map K V) (k j : K) (v : V) → get (insert m k v) j ≡ (if k == j then some v else get m j)
  unfolding get insert
  get-insert [] k j v = refl
  get-insert ((i, w) ∷ m) k j v =
      ground (arith, e.beq_iff k j, e.beq_iff i k, e.beq_iff i j, get-insert m k j v)

  pub get-remove : (m : Map K V) (k j : K) → get (remove m k) j ≡ (if k == j then none else get m j)
  unfolding get remove
  get-remove [] k j = ground arith
  get-remove ((i, w) ∷ m) k j =
      ground (arith, e.beq_iff k j, e.beq_iff i k, e.beq_iff i j, get-remove m k j)

  abbrev pub keys : Map K V → List K
  keys [] = []
  keys ((k, v) ∷ m) = k ∷ keys m

  -- Every entry that a lookup finds satisfies the predicate.
  abbrev pub ForEach {μ} : (K → V → Type μ) → Map K V → Type (ℓ ⊔ κ ⊔ μ)
  ForEach P m = (k : K) (v : V) → get m k ≡ some v → P k v

  -- Only the entries of other keys are asked for.
  pub ForEach-insert_ne {μ} :
      (P : K → V → Type μ) (m : Map K V) (k : K) (v : V)
      → ((j : K) (w : V) → (k == j) ≡ false → get m j ≡ some w → P j w)
      → P k v
      → ForEach P (insert m k v)
  ForEach-insert_ne P m k v others p j w found = elim (Bool-cases (k == j)) [
    | inl same ↦ subst₂ P ((e.beq_iff k j).0 same) (found_here same) p
    | inr other ↦ others j w other (ground (arith, get-insert m k j v))
  ]
    where
      found_here : (k == j) ≡ true → v ≡ w
      found_here same = ground (arith, get-insert m k j v)

  pub ForEach-insert {μ} :
      (P : K → V → Type μ) (m : Map K V) (k : K) (v : V)
      → ForEach P m
      → P k v
      → ForEach P (insert m k v)
  ForEach-insert P m k v all p = ForEach-insert_ne P m k v (λ j w _ found. all j w found) p

  pub ForEach-cons {μ} :
      (P : K → V → Type μ) (m : Map K V) (k : K) (v : V)
      → P k v
      → ForEach P m
      → ForEach P ((k, v) ∷ m)
  unfolding get
  ForEach-cons P m k v p all j w found = elim (Bool-cases (k == j)) [
    | inl same ↦ subst₂ P ((e.beq_iff k j).0 same) (found_here same) p
    | inr other ↦ all j w (rw other at found)
  ]
    where
      found_here : (k == j) ≡ true → v ≡ w
      found_here same = ground arith

  pub contains-keys : (m : Map K V) (k : K) (v : V) → get m k ≡ some v → contains (keys m) k ≡ true
  unfolding get
  contains-keys [] k v h = cc
  contains-keys ((j, w) ∷ m) k v h = elim (Bool-cases (j == k)) [
    | inl here ↦ rw here
    | inr other ↦ rw other (contains-keys m k v (rw other at h))
  ]

  -- No key has two entries, as in a `HashMap`.
  abbrev pub Distinct : Map K V → Type κ
  Distinct [] = Unit
  Distinct ((k, v) ∷ m) = (get m k ≡ none) × Distinct m

  pub Distinct-insert : (m : Map K V) (k : K) (v : V) → Distinct m → Distinct (insert m k v)
  unfolding insert get
  Distinct-insert [] k v d = (refl, tt)
  Distinct-insert ((j, w) ∷ m) k v d = elim (Bool-cases (j == k)) [
    | inl here ↦ rw here (subst (λ x. get m x ≡ none) ((e.beq_iff j k).0 here) d.0, d.1)
    | inr other ↦ rw other (absent other, Distinct-insert m k v d.1)
  ]
    where
      absent : (j == k) ≡ false → get (insert m k v) j ≡ none
      absent other = ground (arith, get-insert m k j v, e.beq_iff j k, e.beq_iff k j, d.0)

  -- A test of all entries, by lookups.
  pub all_of_get :
      (p : V → Bool) (m : Map K V)
      → Distinct m
      → ((k : K) (v : V) → get m k ≡ some v → p v ≡ true)
      → all (λ (entry : K × V). p entry.1) m ≡ true
  unfolding get
  all_of_get p [] d h = refl
  all_of_get p ((k, v) ∷ m) d h = rw (h k v (rw (beq_refl k))) (all_of_get p m d.1 tail)
    where
      tail : (j : K) (w : V) → get m j ≡ some w → p w ≡ true
      tail j w found = elim (Bool-cases (k == j)) [
        | inl here ↦ absurd (ground (arith, e.beq_iff k j, d.0))
        | inr other ↦ h j w (rw other found)
      ]

  pub contains-keys_eq : (m : Map K V) (k : K) → contains (keys m) k ≡ has_value (get m k)
  unfolding get
  contains-keys_eq [] k = refl
  contains-keys_eq ((j, w) ∷ m) k = ground (arith, contains-keys_eq m k)
