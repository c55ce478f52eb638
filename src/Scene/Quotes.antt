-- ===== src/Scene/Quotes.antt =====
-- `unquote` of backstitch/src/parser/godot_parser.rs.
use backstitch.Prelude.{
  ℕ, ◌-◌, ◌≡◌, refl, Bool, true, false, ◌&&◌, [], ◌∷◌, ◌++◌, Str, Outcome, ok, eqb, length,
  length-append, arith, if◌then◌else◌,
}
use backstitch.Text.{slice}
use backstitch.Text.Laws.{StartsClean, slice-append}

abbrev quote : ℕ
quote = b'"'

abbrev starts_with_quote : Str → Bool
starts_with_quote [] = false
starts_with_quote (c ∷ s) = eqb c quote

abbrev pub ends_with_quote : Str → Bool
ends_with_quote [] = false
ends_with_quote (c ∷ []) = eqb c quote
ends_with_quote (c ∷ d ∷ s) = ends_with_quote (d ∷ s)

-- `unquote` does not return an error, but the slice may panic
pub data NoError : Type 0 where

unfoldable pub unquote : Str → Outcome NoError Str
unquote string =
    if starts_with_quote string && ends_with_quote string
    then slice string 1 (length string - 1)
    else ok string

ends_with_quote-append : (s : Str) → ends_with_quote (s ++ quote ∷ []) ≡ true
ends_with_quote-append [] = refl
ends_with_quote-append (c ∷ []) = refl
ends_with_quote-append (c ∷ d ∷ s) = ends_with_quote-append (d ∷ s)

ends_after_quote : (s : Str) → ends_with_quote (quote ∷ (s ++ quote ∷ [])) ≡ true
ends_after_quote [] = refl
ends_after_quote (c ∷ s) = ends_with_quote-append (c ∷ s)

clean_append : (s : Str) → StartsClean s → StartsClean (s ++ quote ∷ [])
clean_append [] h = refl
clean_append (c ∷ s) h = h

-- The quotes around a text, which does not begin inside a character, are taken off.
pub unquote-quoted : (s : Str) → StartsClean s → unquote (quote ∷ (s ++ quote ∷ [])) ≡ ok s
unfolding unquote
unquote-quoted s clean = rw (ends_after_quote s) (
    slice-append (quote ∷ []) s (quote ∷ []) 1 (length (quote ∷ (s ++ quote ∷ [])) - 1) refl
      (omega (arith, length-append s (quote ∷ []))) (clean_append s clean) refl)
