-- ===== src/Text/Laws.antt =====
-- Laws of the text operations: a text that was put together is taken apart again.
use backstitch.Prelude.{
  zero, suc, panic, ◌<◌, ◌∙◌, ap, ◌+◌, ◌-◌, ok, take, drop, length, leb, length-append,
  append_assoc, ℕ, ◌≡◌, refl, List, [], ◌∷◌, ◌++◌, some, true, false, arith, eqb, Str, All,
}
use backstitch.Text.{
  is_continuation, is_char_boundary, slice, find, strip_prefix, split_once, split, join,
}

-- The character does not occur in the text.
abbrev pub Avoids : ℕ → Str → Type 0
Avoids c = All (λ d. eqb d c ≡ false)

pub strip_prefix-append : (p s : Str) → strip_prefix p (p ++ s) ≡ some s
unfolding strip_prefix
strip_prefix-append [] s = refl
strip_prefix-append (c ∷ p) s = ground (arith, strip_prefix-append p s)

pub split_once-append : (c : ℕ) (a b : Str) → Avoids c a → split_once c (a ++ c ∷ b) ≡ some (a, b)
unfolding split_once
split_once-append c [] b h = ground arith
split_once-append c (d ∷ a) b h = ground (arith, split_once-append c a b h.1)

split-append : (c : ℕ) (a b : Str) → Avoids c a → split c (a ++ c ∷ b) ≡ a ∷ split c b
unfolding split
split-append c [] b h = ground arith
split-append c (d ∷ a) b h = ground (arith, split-append c a b h.1)

split_self : (c : ℕ) (a : Str) → Avoids c a → split c a ≡ a ∷ []
unfolding split
split_self c [] h = refl
split_self c (d ∷ a) h = ground (arith, split_self c a h.1)

-- Parts that avoid the separator are found again.
pub split-join :
    (c : ℕ) (p : Str) (ps : List Str) → All (Avoids c) (p ∷ ps) → split c (join c (p ∷ ps)) ≡ p ∷ ps
unfolding join
split-join c p [] h = split_self c p h.0
split-join c p (q ∷ ps) h =
    split-append c p (join c (q ∷ ps)) h.0 ∙ ap (λ r. p ∷ r) (split-join c q ps h.1)

-- The text does not begin inside a character.
abbrev pub StartsClean : Str → Type 0
StartsClean [] = Unit
StartsClean (c ∷ s) = is_continuation c ≡ false

pub is_char_boundary-append :
    (a b : Str) → StartsClean b → is_char_boundary (a ++ b) (length a) ≡ true
unfolding is_char_boundary
is_char_boundary-append [] b h = refl
is_char_boundary-append (x ∷ []) [] h = refl
is_char_boundary-append (x ∷ []) (c ∷ b) h = ground arith
is_char_boundary-append (x ∷ y ∷ a) b h = is_char_boundary-append (y ∷ a) b h

drop-append : (a b : Str) → drop (length a) (a ++ b) ≡ b
drop-append [] b = refl
drop-append (x ∷ a) b = drop-append a b

take-append : (a b : Str) → take (length a) (a ++ b) ≡ a
take-append [] b = refl
take-append (x ∷ a) b = ap (λ r. x ∷ r) (take-append a b)

-- A slice of `a ++ m ++ b` between the two seams is `m`.
pub slice-append :
    {E : Type 0} (a m b : Str) (i j : ℕ)
    → i ≡ length a
    → j ≡ length a + length m
    → StartsClean (m ++ b)
    → StartsClean b
    → slice {E = E} (a ++ (m ++ b)) i j ≡ ok m
unfolding slice
slice-append {E} a m b i j hi hj cm cb = rw (
  hi,
  hj,
  is_char_boundary-append a (m ++ b) cm,
  drop-append a (m ++ b),
  ends,
  sub_length,
  take-append m b,
  within,
)
  where
    within : leb (length a) (length a + length m) ≡ true
    within = ground arith

    sub_length : length a + length m - length a ≡ length m
    sub_length = omega arith

    ends : is_char_boundary (a ++ (m ++ b)) (length a + length m) ≡ true
    ends =
        rw (← append_assoc a m b) (rw (← length-append a m) (is_char_boundary-append (a ++ m) b cb))

-- A text that avoids `:` has the first `:/` right behind it.
pub find-append :
    (a b : Str) → Avoids b':' a → find (b':' ∷ b'/' ∷ []) (a ++ b':' ∷ b'/' ∷ b) ≡ some (length a)
unfolding find strip_prefix
find-append [] b h = refl
find-append (x ∷ a) b h = ground (arith, find-append a b h.1)

is_char_boundary_past : (s : Str) (i : ℕ) → length s < i → is_char_boundary s i ≡ false
unfolding is_char_boundary
is_char_boundary_past s zero h = elim h [ ]
is_char_boundary_past [] (suc i) h = refl
is_char_boundary_past (c ∷ []) (suc zero) h = absurd (omega arith)
is_char_boundary_past (c ∷ []) (suc (suc i)) h = refl
is_char_boundary_past (c ∷ d ∷ s) (suc zero) h = absurd (omega arith)
is_char_boundary_past (c ∷ d ∷ s) (suc (suc i)) h =
    is_char_boundary_past (d ∷ s) (suc i) (omega arith)

-- A slice that ends behind the text panics.
pub slice_past : {E : Type 0} (s : Str) (i j : ℕ) → length s < j → slice {E = E} s i j ≡ panic
unfolding slice
slice_past s i j h = ground (arith, is_char_boundary_past s j)
