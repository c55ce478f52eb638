-- ===== src/Text/Patterns.antt =====
-- The operations of `str` that take a text as their pattern, and `trim`.
use backstitch.Prelude.{
  ℕ, zero, suc, length, Bool, ◌&&◌, ◌||◌, Option, none, some, [], ◌∷◌, Str, eqb, leb, if◌then◌else◌,
}
use backstitch.Prelude.Maps.{has_value}
use backstitch.Text.{strip_prefix}
use mathlib.Core.List.{reverse}

abbrev pub starts_with : Str → Str → Bool
starts_with p s = has_value (strip_prefix p s)

-- `s.ends_with(p)`
unfoldable pub ends_with : Str → Str → Bool
ends_with p s = has_value (strip_prefix (reverse p) (reverse s))

-- `s.split_once(p)`
unfoldable pub split_once_text : Str → Str → Option (Str × Str)
split_once_text p [] = elim (strip_prefix p []) [ none ↦ none | some rest ↦ some ([], rest) ]
split_once_text p (c ∷ s) =
    let later = split_once_text p s in
    elim (strip_prefix p (c ∷ s)) [
      | none ↦ elim later [ none ↦ none | some (a, b) ↦ some (c ∷ a, b) ]
      | some rest ↦ some ([], rest)
    ]

-- `s.split(p).nth(0)`
unfoldable pub before : Str → Str → Str
before p s = elim (split_once_text p s) [ none ↦ s | some (a, b) ↦ a ]

-- `s.split(p).nth(1)`
unfoldable pub second_part : Str → Str → Option Str
second_part p s = elim (split_once_text p s) [ none ↦ none | some (a, b) ↦ some (before p b) ]

-- `s.contains(p)`
abbrev pub contains_text : Str → Str → Bool
contains_text p s = has_value (split_once_text p s)

-- White_Space of one byte
abbrev is_ascii_space : ℕ → Bool
is_ascii_space c = (leb 9 c && leb c 13) || eqb c 32

-- White_Space of two bytes: U+0085 and U+00A0
abbrev is_space_2 : ℕ → ℕ → Bool
is_space_2 c d = eqb c 0xC2 && (eqb d 0x85 || eqb d 0xA0)

-- White_Space of three bytes: U+1680, U+2000 to U+200A, U+2028, U+2029, U+202F, U+205F and U+3000
abbrev is_space_3 : ℕ → ℕ → ℕ → Bool
is_space_3 c d e =
    (eqb c 0xE1 && (eqb d 0x9A && eqb e 0x80))
    || ((eqb c 0xE2
          && ((eqb d 0x80
                && ((leb 0x80 e && leb e 0x8A) || (eqb e 0xA8 || (eqb e 0xA9 || eqb e 0xAF))))
              || (eqb d 0x81 && eqb e 0x9F)))
        || (eqb c 0xE3 && (eqb d 0x80 && eqb e 0x80)))

-- what is left behind the spaces at the start; a space of several bytes is taken off whole
unfoldable pub trim_start : Str → Str
trim_start [] = []
trim_start (c ∷ []) = if is_ascii_space c then [] else c ∷ []
trim_start (c ∷ d ∷ []) =
    let rest = trim_start (d ∷ []) in
    if is_ascii_space c then rest else if is_space_2 c d then [] else c ∷ d ∷ []
trim_start (c ∷ d ∷ e ∷ s) =
    let one = trim_start (d ∷ e ∷ s) in
    let two = trim_start (e ∷ s) in
    let three = trim_start s in
    if is_ascii_space c
    then one
    else if is_space_2 c d
    then two
    else if is_space_3 c d e
    then three
    else c ∷ d ∷ e ∷ s

-- the same on the reversed bytes
unfoldable pub trim_back : Str → Str
trim_back [] = []
trim_back (c ∷ []) = if is_ascii_space c then [] else c ∷ []
trim_back (c ∷ d ∷ []) =
    let rest = trim_back (d ∷ []) in
    if is_ascii_space c then rest else if is_space_2 d c then [] else c ∷ d ∷ []
trim_back (c ∷ d ∷ e ∷ s) =
    let one = trim_back (d ∷ e ∷ s) in
    let two = trim_back (e ∷ s) in
    let three = trim_back s in
    if is_ascii_space c
    then one
    else if is_space_2 d c
    then two
    else if is_space_3 e d c
    then three
    else c ∷ d ∷ e ∷ s

-- `s.trim()`
unfoldable pub trim : Str → Str
unfolding trim_start trim_back
trim s = reverse (trim_back (reverse (trim_start s)))

-- what is left when the pattern is taken off the start as often as it stands there; each time takes a
-- byte at least, so that the length of the text is enough fuel
unfoldable pub strip_all : ℕ → Str → Str → Str
strip_all zero p s = s
strip_all (suc fuel) p s = elim (strip_prefix p s) [ none ↦ s | some rest ↦ strip_all fuel p rest ]

-- `s.trim_start_matches(p)` and `s.trim_end_matches(p)` for a pattern that is not empty
unfoldable pub trim_start_matches : Str → Str → Str
unfolding strip_all
trim_start_matches p s = strip_all (length s) p s

unfoldable pub trim_end_matches : Str → Str → Str
unfolding trim_start_matches
trim_end_matches p s = reverse (trim_start_matches (reverse p) (reverse s))
