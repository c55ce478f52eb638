-- ===== src/Prelude/Equality.antt =====
-- `PartialEq` and `Ord` of the program's types, as instances, and texts as lists of bytes.
use Prim.Native.Char.{code}
use Prim.Native.Nat.{ℕ}
use Prim.Native.String.{String}
use mathlib.Core.Path.{◌≡◌, refl}
use mathlib.Core.Logic.{◌↔◌, ◌⊎◌}
use mathlib.Core.Bool.{Bool, true, false, ◌&&◌}
use mathlib.Core.List.{List, [], ◌∷◌, ◌++◌}
use mathlib.Core.Option.{Option, none, some}
use native.Mathlib.Omega.{arith}
use backstitch.Prelude.Tests.{eqb, eqb_iff, if◌then◌else◌}

pub record Eq {ℓ} (T : Type ℓ) : Type ℓ where
  pub beq : (x y : T) → Bool
  -- the test holds of equal values only, and of all of them
  pub beq_iff : (x y : T) → (beq x y ≡ true) ↔ (x ≡ y)

instance abbrev pub nat_eq : Eq ℕ
nat_eq = record { beq_iff = eqb_iff; beq = eqb }

abbrev pub ◌==◌ {ℓ} : {T : Type ℓ} ⦃same : Eq T⦄ (x y : T) → Bool
◌==◌ ⦃same⦄ x y = same.beq x y

infix 50 ◌==◌
module _ {ℓ} {A : Type ℓ} ⦃e : Eq A⦄ where
  abbrev pub list_beq : List A → List A → Bool
  list_beq [] [] = true
  list_beq (x ∷ xs) (y ∷ ys) = x == y && list_beq xs ys
  list_beq _ _ = false

  pub list_beq_iff : (xs ys : List A) → (list_beq xs ys ≡ true) ↔ (xs ≡ ys)
  list_beq_iff [] [] = ground arith
  list_beq_iff [] (y ∷ ys) = ground arith
  list_beq_iff (x ∷ xs) [] = ground arith
  list_beq_iff (x ∷ xs) (y ∷ ys) = ground (arith, e.beq_iff x y, list_beq_iff xs ys)

  abbrev pub option_beq : Option A → Option A → Bool
  option_beq none none = true
  option_beq (some a) (some b) = a == b
  option_beq _ _ = false

  pub option_beq_iff : (a b : Option A) → (option_beq a b ≡ true) ↔ (a ≡ b)
  option_beq_iff none none = ground arith
  option_beq_iff none (some b) = ground arith
  option_beq_iff (some a) none = ground arith
  option_beq_iff (some a) (some b) = ground (arith, e.beq_iff a b)

  pub beq_refl : (a : A) → (a == a) ≡ true
  beq_refl a = (e.beq_iff a a).1 refl

  abbrev pub contains : (items : List A) → A → Bool
  contains [] wanted = false
  contains (x ∷ xs) wanted = if x == wanted then true else contains xs wanted

  pub contains-append_left :
      (xs ys : List A) (x : A) → contains xs x ≡ true → contains (xs ++ ys) x ≡ true
  contains-append_left [] ys x h = absurd (cc)
  contains-append_left (y ∷ xs) ys x h = ground (arith, contains-append_left xs ys x)

  pub contains-append_last : (xs : List A) (x : A) → contains (xs ++ x ∷ []) x ≡ true
  contains-append_last [] x = ground (arith, beq_refl x)
  contains-append_last (y ∷ xs) x = ground (arith, contains-append_last xs x)

  pub contains-append_cases :
      (xs : List A) (y x : A)
      → contains (xs ++ y ∷ []) x ≡ true
      → (contains xs x ≡ true) ⊎ ((y == x) ≡ true)
  contains-append_cases [] y x h = ground arith
  contains-append_cases (z ∷ xs) y x h = ground (arith, contains-append_cases xs y x)

instance abbrev pub list_eq {ℓ} : {A : Type ℓ} ⦃e : Eq A⦄ → Eq (List A)
list_eq = record { beq = list_beq; beq_iff = list_beq_iff }

instance abbrev pub option_eq {ℓ} : {A : Type ℓ} ⦃e : Eq A⦄ → Eq (Option A)
option_eq = record { beq = option_beq; beq_iff = option_beq_iff }

-- A `str` is the list of its bytes.
abbrev pub Str : Type 0
Str = List ℕ

-- The bytes of an ASCII literal.
abbrev pub bytes : String → Str
bytes String.[] = []
bytes (String.◌∷◌ c s) = code c ∷ bytes s
