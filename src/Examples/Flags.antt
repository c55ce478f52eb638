-- ===== src/Examples/Flags.antt =====
-- An order on two flags, which the examples take for hashes and identifiers.
use backstitch.Prelude.{◌≡◌, refl, ◌↔◌, ◌⊎◌, inl, inr, Bool, true, false, Eq, arith}
use backstitch.Prelude.Sorting.{Ord}

abbrev pub same_bool : Bool → Bool → Bool
same_bool true true = true
same_bool false false = true
same_bool true false = false
same_bool false true = false

pub same_bool_iff : (a b : Bool) → (same_bool a b ≡ true) ↔ (a ≡ b)
same_bool_iff true true = ground arith
same_bool_iff true false = ground arith
same_bool_iff false true = ground arith
same_bool_iff false false = ground arith

abbrev pub bool_eq : Eq Bool
bool_eq = record { beq = same_bool; beq_iff = same_bool_iff }

abbrev pub bool_le : Bool → Bool → Bool
bool_le true false = false
bool_le true true = true
bool_le false b = true

pub bool_total : (a b : Bool) → (bool_le a b ≡ true) ⊎ (bool_le b a ≡ true)
bool_total true true = inl refl
bool_total true false = inr refl
bool_total false b = inl refl

pub bool_trans : (a b c : Bool) → bool_le a b ≡ true → bool_le b c ≡ true → bool_le a c ≡ true
bool_trans true true c h k = k
bool_trans true false c h k = absurd (ground arith)
bool_trans false b c h k = refl

pub bool_antisym : (a b : Bool) → bool_le a b ≡ true → bool_le b a ≡ true → a ≡ b
bool_antisym true true h k = refl
bool_antisym true false h k = absurd (ground arith)
bool_antisym false true h k = absurd (ground arith)
bool_antisym false false h k = refl

abbrev pub bool_ord : Ord Bool
bool_ord = record {
  eq = bool_eq;
  le = bool_le;
  total = bool_total;
  trans = bool_trans;
  antisym = bool_antisym;
}
