-- ===== src/Text.antt =====
-- The operations of Rust's `str` that the program uses, over lists of bytes.
pub mod Laws
pub mod Patterns
use backstitch.Prelude.{
  ℕ, zero, suc, ◌-◌, Bool, true, false, not, ◌&&◌, ◌||◌, Option, none, some, List, [], ◌∷◌, ◌++◌,
  Outcome, ok, panic, Str, eqb, leb, length, take, drop, if◌then◌else◌,
}

-- `s.strip_prefix(p)`
unfoldable pub strip_prefix : Str → Str → Option Str
strip_prefix [] s = some s
strip_prefix (c ∷ p) [] = none
strip_prefix (c ∷ p) (d ∷ s) = if eqb c d then strip_prefix p s else none

-- `s.split_once(c)` at an ASCII character
unfoldable pub split_once : ℕ → Str → Option (Str × Str)
split_once c [] = none
split_once c (d ∷ s) =
    let rest = split_once c s in
    if eqb d c then some ([], s) else elim rest [ none ↦ none | some (a, b) ↦ some (d ∷ a, b) ]

abbrev pub cons_head : ℕ → List Str → List Str
cons_head d [] = (d ∷ []) ∷ []
cons_head d (p ∷ ps) = (d ∷ p) ∷ ps

-- `s.split(c)` at an ASCII character: always at least one part
unfoldable pub split : ℕ → Str → List Str
split c [] = [] ∷ []
split c (d ∷ s) = let rest = split c s in if eqb d c then [] ∷ rest else cons_head d rest

-- `parts.join(c)`
unfoldable pub join : ℕ → List Str → Str
join c [] = []
join c (p ∷ []) = p
join c (p ∷ q ∷ ps) = p ++ c ∷ join c (q ∷ ps)

-- `parts.join(sep)` for a separator of several characters
unfoldable pub join_text : Str → List Str → Str
join_text sep [] = []
join_text sep (p ∷ []) = p
join_text sep (p ∷ q ∷ ps) = p ++ (sep ++ join_text sep (q ∷ ps))

-- `s.find(p)`: the first position where `p` begins
unfoldable pub find : Str → Str → Option ℕ
find p [] = elim (strip_prefix p []) [ none ↦ none | some _ ↦ some 0 ]
find p (c ∷ s) =
    let later = find p s in
    elim (strip_prefix p (c ∷ s)) [
      | none ↦ elim later [ none ↦ none | some i ↦ some (suc i) ]
      | some _ ↦ some 0
    ]

-- a byte that continues a character of several bytes
abbrev pub is_continuation : ℕ → Bool
is_continuation b = leb 128 b && leb b 191

-- `s.is_char_boundary(i)`
unfoldable pub is_char_boundary : Str → ℕ → Bool
is_char_boundary s zero = true
is_char_boundary [] (suc i) = false
is_char_boundary (c ∷ []) (suc zero) = true
is_char_boundary (c ∷ d ∷ s) (suc zero) = not (is_continuation d)
is_char_boundary (c ∷ s) (suc i) = is_char_boundary s i

-- `&s[a..b]`, which panics out of range and inside a character
unfoldable pub slice : {E : Type 0} → Str → ℕ → ℕ → Outcome E Str
unfolding is_char_boundary
slice s a b =
    if leb a b && is_char_boundary s a && is_char_boundary s b
    then ok (take (b - a) (drop a s))
    else panic

abbrev pub is_ascii_digit : ℕ → Bool
is_ascii_digit c = leb b'0' c && leb c b'9'

abbrev pub is_ascii_alphabetic : ℕ → Bool
is_ascii_alphabetic c = (leb b'a' c && leb c b'z') || (leb b'A' c && leb c b'Z')

abbrev pub is_ascii_alphanumeric : ℕ → Bool
is_ascii_alphanumeric c = is_ascii_alphabetic c || is_ascii_digit c
