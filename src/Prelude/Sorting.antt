-- ===== src/Prelude/Sorting.antt =====
-- `Vec::sort`, and what makes its result depend only on how often each item stands in the list.
use backstitch.Prelude.Equality.{Eq}
use backstitch.Prelude.Tests.{if◌then◌else◌, Bool-cases}
use backstitch.Prelude.Lists.{All}
use Prim.Native.Nat.{ℕ, suc, ◌<◌}
use mathlib.Core.Path.{◌≡◌, refl, subst, ap}
use mathlib.Core.Bool.{Bool, true, false}
use mathlib.Core.Logic.{◌⊎◌, ◌↔◌, inl, inr}
use mathlib.Core.List.{List, [], ◌∷◌}
use native.Mathlib.Omega.{arith}

pub record Ord {ℓ} (A : Type ℓ) : Type ℓ where
  pub eq : Eq A
  pub le : A → A → Bool
  pub total : (a b : A) → (le a b ≡ true) ⊎ (le b a ≡ true)
  pub trans : (a b c : A) → le a b ≡ true → le b c ≡ true → le a c ≡ true
  pub antisym : (a b : A) → le a b ≡ true → le b a ≡ true → a ≡ b

module _ {ℓ} {A : Type ℓ} ⦃o : Ord A⦄ where
  unfoldable pub insert_sorted : A → List A → List A
  insert_sorted a [] = a ∷ []
  insert_sorted a (x ∷ xs) = if o.le a x then a ∷ x ∷ xs else x ∷ insert_sorted a xs

  unfoldable pub sort : List A → List A
  unfolding insert_sorted
  sort [] = []
  sort (x ∷ xs) = insert_sorted x (sort xs)

  unfoldable pub count : A → List A → ℕ
  count a [] = 0
  count a (x ∷ xs) = if o.eq.beq x a then suc (count a xs) else count a xs

  -- The two lists hold the same items, each as often.
  abbrev pub SameItems : List A → List A → Type ℓ
  SameItems xs ys = (a : A) → count a xs ≡ count a ys

  abbrev pub IsSorted : List A → Type ℓ
  IsSorted [] = Unit
  IsSorted (x ∷ xs) = All (λ y. o.le x y ≡ true) xs × IsSorted xs

  insert_sorted-All {κ} :
      (P : A → Type κ) (a : A) (xs : List A) → P a → All P xs → All P (insert_sorted a xs)
  unfolding insert_sorted
  insert_sorted-All P a [] p h = (p, tt)
  insert_sorted-All P a (x ∷ xs) p h = elim (Bool-cases (o.le a x)) [
    | inl e ↦ rw e (p, h)
    | inr e ↦ rw e (h.0, insert_sorted-All P a xs p h.1)
  ]

  All-le_trans :
      (a x : A) (xs : List A)
      → o.le a x ≡ true
      → All (λ y. o.le x y ≡ true) xs
      → All (λ y. o.le a y ≡ true) xs
  All-le_trans a x [] h k = tt
  All-le_trans a x (y ∷ ys) h k = (o.trans a x y h k.0, All-le_trans a x ys h k.1)

  le_of_not_le : (a b : A) → o.le a b ≡ false → o.le b a ≡ true
  le_of_not_le a b h = elim (o.total a b) [ inl p ↦ cc | inr q ↦ q ]

  insert_sorted-IsSorted : (a : A) (xs : List A) → IsSorted xs → IsSorted (insert_sorted a xs)
  unfolding insert_sorted
  insert_sorted-IsSorted a [] h = (tt, tt)
  insert_sorted-IsSorted a (x ∷ xs) h = elim (Bool-cases (o.le a x)) [
    | inl e ↦ rw e ((e, All-le_trans a x xs e h.0), h)
    | inr e ↦ rw e (
      insert_sorted-All (λ y. o.le x y ≡ true) a xs (le_of_not_le a x e) h.0,
      insert_sorted-IsSorted a xs h.1,
    )
  ]

  pub sort-IsSorted : (xs : List A) → IsSorted (sort xs)
  unfolding sort
  sort-IsSorted [] = tt
  sort-IsSorted (x ∷ xs) = insert_sorted-IsSorted x (sort xs) (sort-IsSorted xs)

  count-insert_sorted : (b a : A) (xs : List A) → count b (insert_sorted a xs) ≡ count b (a ∷ xs)
  unfolding insert_sorted count
  count-insert_sorted b a [] = refl
  count-insert_sorted b a (x ∷ xs) = ground (arith, count-insert_sorted b a xs)

  pub count-sort : (xs : List A) → SameItems (sort xs) xs
  unfolding sort count
  count-sort [] b = refl
  count-sort (x ∷ xs) b = ground (arith, count-insert_sorted b x (sort xs), count-sort xs b)

  -- an item that a list holds is above whatever is below all of the list
  le_of_count :
      (a b : A) (xs : List A) → All (λ y. o.le a y ≡ true) xs → 0 < count b xs → o.le a b ≡ true
  unfolding count
  le_of_count a b [] h c = absurd (omega arith)
  le_of_count a b (x ∷ xs) h c = elim (Bool-cases (o.eq.beq x b)) [
    | inl e ↦ subst (λ t. o.le a t ≡ true) ((o.eq.beq_iff x b).0 e) h.0
    | inr e ↦ le_of_count a b xs h.1 (rw e at c)
  ]

  heads_agree :
      (x y : A) (xs ys : List A)
      → IsSorted (x ∷ xs)
      → IsSorted (y ∷ ys)
      → SameItems (x ∷ xs) (y ∷ ys)
      → x ≡ y
  unfolding count
  heads_agree x y xs ys hx hy same = elim (Bool-cases (o.eq.beq x y)) [
    | inl e ↦ (o.eq.beq_iff x y).0 e
    | inr e ↦
        o.antisym x y
          (le_of_count x y xs hx.0 (ground (arith, same y, o.eq.beq_iff y y, o.eq.beq_iff x y)))
          (le_of_count y x ys hy.0
            (ground (arith, same x, o.eq.beq_iff x x, o.eq.beq_iff x y, o.eq.beq_iff y x)))
  ]

  -- Two sorted lists of the same items are equal.
  pub eq_of_IsSorted : (xs ys : List A) → IsSorted xs → IsSorted ys → SameItems xs ys → xs ≡ ys
  unfolding count
  eq_of_IsSorted [] [] hx hy same = refl
  eq_of_IsSorted [] (y ∷ ys) hx hy same = absurd (ground (arith, same y, o.eq.beq_iff y y))
  eq_of_IsSorted (x ∷ xs) [] hx hy same = absurd (ground (arith, same x, o.eq.beq_iff x x))
  eq_of_IsSorted (x ∷ xs) (y ∷ ys) hx hy same =
      let e = heads_agree x y xs ys hx hy same in
      cc (e, eq_of_IsSorted xs ys hx.1 hy.1 (λ a. ground (arith, same a, e)))

  -- Sorting forgets exactly the order.
  pub sort-eq_iff : (xs ys : List A) → (sort xs ≡ sort ys) ↔ SameItems xs ys
  sort-eq_iff xs ys = (
    λ e a. cc (count-sort xs a, count-sort ys a, ap (count a) e),
    λ same.
        eq_of_IsSorted (sort xs) (sort ys) (sort-IsSorted xs) (sort-IsSorted ys)
          (λ a. cc (count-sort xs a, count-sort ys a, same a)),
  )
