-- ===== src/Scene/Numbers.antt =====
-- The text of an `i32` and its parse, of Rust's `Display` and `FromStr`.
use Prim.Native.Nat.{◌/◌, ◌%◌}
use backstitch.Prelude.{
  ℕ, zero, suc, ◌+◌, ◌-◌, ◌*◌, ◌<◌, ◌≡◌, ap, ◌∙◌, true, Option, none, some, [], ◌∷◌, Str, All,
  is_empty, eqb, ltb, Bool-cases, inl, inr, arith, if◌then◌else◌,
}
use backstitch.Text.{is_ascii_digit}

-- An integer, as the library's: `negsuc n` is - (n + 1).
pub data ℤ : Type 0 where
  pos negsuc : ℕ → ℤ

-- the decimal digits of a number before a text; the number has fewer digits than the fuel
unfoldable pub show_digits : ℕ → ℕ → Str → Str
show_digits zero n tail = tail
show_digits (suc fuel) n tail =
    let rest = show_digits fuel (n / 10) ((48 + n % 10) ∷ tail) in
    if ltb n 10 then (48 + n) ∷ tail else rest

unfoldable pub show_nat : ℕ → Str
unfolding show_digits
show_nat n = show_digits (suc n) n []

unfoldable pub show_int : ℤ → Str
unfolding show_nat
show_int (pos n) = show_nat n
show_int (negsuc n) = b'-' ∷ show_nat (suc n)

unfoldable pub parse_digits : ℕ → Str → Option ℕ
parse_digits n [] = some n
parse_digits n (c ∷ s) =
    let rest = parse_digits (n * 10 + (c - 48)) s in if is_ascii_digit c then rest else none

abbrev in_range : Option ℕ → Option ℤ
in_range none = none
in_range (some n) = if ltb n 2147483648 then some (pos n) else none

abbrev negated : Option ℕ → Option ℤ
negated none = none
negated (some zero) = some (pos 0)
negated (some (suc n)) = if ltb n 2147483648 then some (negsuc n) else none

-- what follows the sign
unfoldable pub parse_nat : Str → Option ℕ
unfolding parse_digits
parse_nat s = if is_empty s then none else parse_digits 0 s

-- `parse::<i32>()`
unfoldable pub parse_i32 : Str → Option ℤ
unfolding parse_nat
parse_i32 [] = none
parse_i32 (c ∷ s) =
    if eqb c b'-'
    then negated (parse_nat s)
    else if eqb c b'+'
    then in_range (parse_nat s)
    else in_range (parse_nat (c ∷ s))

parse-show_digits :
    (fuel n : ℕ) (tail : Str)
    → n < fuel
    → parse_digits 0 (show_digits fuel n tail) ≡ parse_digits n tail
unfolding show_digits parse_digits
parse-show_digits zero n tail h = absurd (omega arith)
parse-show_digits (suc fuel) n tail h = elim (Bool-cases (ltb n 10)) [
  | inl last ↦ rw (last, show_digits) (ground arith)
  | inr more ↦
      rw (more, show_digits)
        (parse-show_digits fuel (n / 10) ((48 + n % 10) ∷ tail) (ground arith) ∙ parsed_digit)
]
  where
    digit : is_ascii_digit (48 + n % 10) ≡ true
    digit = ground arith

    parsed_digit : parse_digits (n / 10) ((48 + n % 10) ∷ tail) ≡ parse_digits n tail
    parsed_digit = rw digit (ap (λ k. parse_digits k tail) (omega arith))

-- a text that begins with a digit
abbrev pub BeginsWithDigit : Str → Type 0
BeginsWithDigit [] = is_ascii_digit 0 ≡ true
BeginsWithDigit (c ∷ s) = is_ascii_digit c ≡ true

show_digits-BeginsWithDigit :
    (fuel n : ℕ) (tail : Str) → n < fuel → BeginsWithDigit (show_digits fuel n tail)
unfolding show_digits
show_digits-BeginsWithDigit zero n tail h = absurd (omega arith)
show_digits-BeginsWithDigit (suc fuel) n tail h = elim (Bool-cases (ltb n 10)) [
  | inl last ↦ rw (last, show_digits) (ground arith)
  | inr more ↦
      rw (more, show_digits)
        (show_digits-BeginsWithDigit fuel (n / 10) ((48 + n % 10) ∷ tail) (ground arith))
]

All-show_digits {κ} :
    (P : ℕ → Type κ) (fuel n : ℕ) (tail : Str)
    → ((d : ℕ) → d < 10 → P (48 + d))
    → All P tail
    → All P (show_digits fuel n tail)
unfolding show_digits
All-show_digits P zero n tail digits h = h
All-show_digits P (suc fuel) n tail digits h = elim (Bool-cases (ltb n 10)) [
  | inl last ↦ rw (last, show_digits) (digits n (ground arith), h)
  | inr more ↦
      rw (more, show_digits)
        (All-show_digits P fuel (n / 10) ((48 + n % 10) ∷ tail) digits
          (digits (n % 10) (omega arith), h))
]

pub All-show_nat {κ} :
    (P : ℕ → Type κ) (n : ℕ) → ((d : ℕ) → d < 10 → P (48 + d)) → All P (show_nat n)
unfolding show_nat
All-show_nat P n digits = All-show_digits P (suc n) n [] digits tt

parse_i32_digits :
    (s : Str) (n : ℕ)
    → BeginsWithDigit s
    → parse_digits 0 s ≡ some n
    → n < 2147483648
    → parse_i32 s ≡ some (pos n)
unfolding parse_i32 parse_nat
parse_i32_digits [] n d e h = absurd (cc)
parse_i32_digits (c ∷ s) n d e h = ground arith

-- The text of a number that is not negative parses to the number.
pub parse_i32-show_nat : (n : ℕ) → n < 2147483648 → parse_i32 (show_nat n) ≡ some (pos n)
unfolding show_nat parse_digits
parse_i32-show_nat n h =
    parse_i32_digits (show_digits (suc n) n []) n
      (show_digits-BeginsWithDigit (suc n) n [] (omega arith))
      (parse-show_digits (suc n) n [] (omega arith)) h
