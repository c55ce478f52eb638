-- ===== src/History/RoundTrip.antt =====
-- How the text of a ref, and of a file at a ref, is read back.
use backstitch.Prelude.{
  ℕ, ◌≡◌, refl, ap, ◌≢◌, ◌<◌, ◌↔◌, ok_or, ok-injective, >>=_ok, Bool-cases, sym, not, ◌∙◌, true,
  false, List, [], ◌∷◌, ◌++◌, map, append_assoc, Str, ok, err, panic, length, eqb, arith, All, inl,
  inr, Option-cases, is_empty, if◌then◌else◌,
}
use mathlib.Core.Path.{subst}
use backstitch.Prelude.Sorting.{Ord, SameItems, sort-eq_iff}
use backstitch.Text.{is_ascii_alphanumeric, join, split, split_once}
use backstitch.Text.Laws.{Avoids, split_once-append, split-join, strip_prefix-append}
use backstitch.History.Ids.{Ids}
use backstitch.History.Ref.{
  HistoryRef, invalid_ref, invalid_string, invalid_document_id, new, is_valid, to_string,
  to_uri_scheme_prefix, parse_heads, from_str, scheme_prefix,
}
use backstitch.History.Path
use backstitch.History.Path.{HistoryRefPath, make_path_string, repair}

-- Two lists of heads make the same ref of a branch exactly when they hold the same heads, each as
-- often: `new` forgets their order and nothing else.
pub new-eq_iff :
    {D H : Type 0} ⦃o : Ord H⦄ (branch : D) (xs ys : List H)
    → (new branch xs ≡ new branch ys) ↔ SameItems xs ys
unfolding new
new-eq_iff {D} {H} ⦃o⦄ branch xs ys = (
  λ e. (sort-eq_iff xs ys).0 (ap (λ (r : HistoryRef D H). r.heads) e),
  λ same. ap (λ hs. record { branch = branch; heads = hs }) ((sort-eq_iff xs ys).1 same),
)

alphanumeric-Avoids :
    (c : ℕ) (s : Str)
    → is_ascii_alphanumeric c ≡ false
    → All (λ d. is_ascii_alphanumeric d ≡ true) s
    → Avoids c s
alphanumeric-Avoids c [] h all = tt
alphanumeric-Avoids c (d ∷ s) h all = (avoid, alphanumeric-Avoids c s h all.1)
  where
    avoid : eqb d c ≡ false
    avoid = ground arith

Avoids-append : (c : ℕ) (a b : Str) → Avoids c a → Avoids c b → Avoids c (a ++ b)
Avoids-append c [] b ha hb = hb
Avoids-append c (x ∷ a) b ha hb = (ha.0, Avoids-append c a b ha.1 hb)

Avoids-join : (c s : ℕ) (ps : List Str) → eqb s c ≡ false → All (Avoids c) ps → Avoids c (join s ps)
unfolding join
Avoids-join c s [] e h = tt
Avoids-join c s (p ∷ []) e h = h.0
Avoids-join c s (p ∷ q ∷ ps) e h =
    Avoids-append c p (s ∷ join s (q ∷ ps)) h.0 (e, Avoids-join c s (q ∷ ps) e h.1)

is_empty_of_length : (a : Str) → 0 < length a → is_empty a ≡ false
is_empty_of_length [] h = elim h [ ]
is_empty_of_length (x ∷ a) h = refl

is_empty-append : (a b : Str) → 0 < length a → is_empty (a ++ b) ≡ false
is_empty-append [] b h = elim h [ ]
is_empty-append (x ∷ a) b h = refl

module _ (ids : Ids) where
  open ids use {
    DocumentId, ChangeHash, doc_to_string, hash_to_string, doc_parses, doc_chars, hash_parses,
    hash_chars, hash_length,
  }

  hashes-Avoids :
      (c : ℕ) (hs : List ChangeHash)
      → is_ascii_alphanumeric c ≡ false
      → All (Avoids c) (map hash_to_string hs)
  hashes-Avoids c [] h = tt
  hashes-Avoids c (x ∷ hs) h =
      (alphanumeric-Avoids c (hash_to_string x) h (hash_chars x), hashes-Avoids c hs h)

  parse_heads-map : (hs : List ChangeHash) → parse_heads ids (map hash_to_string hs) ≡ ok hs
  unfolding parse_heads
  parse_heads-map [] = refl
  parse_heads-map (h ∷ hs) = rw (hash_parses h, parse_heads-map hs)

  abbrev heads_text : List ChangeHash → Str
  heads_text hs = join b'.' (map hash_to_string hs)

  text_nonempty : (h : ChangeHash) (hs : List ChangeHash) → is_empty (heads_text (h ∷ hs)) ≡ false
  unfolding join
  text_nonempty h [] = is_empty_of_length (hash_to_string h) (omega (arith, hash_length h))
  text_nonempty h (g ∷ hs) =
      is_empty-append (hash_to_string h) (b'.' ∷ heads_text (g ∷ hs)) (omega (arith, hash_length h))

  split-heads_text :
      (h : ChangeHash) (hs : List ChangeHash)
      → split b'.' (heads_text (h ∷ hs)) ≡ map hash_to_string (h ∷ hs)
  split-heads_text h hs =
      split-join b'.' (hash_to_string h) (map hash_to_string hs) (hashes-Avoids b'.' (h ∷ hs) refl)

  from_str-text :
      (d : DocumentId) (h : ChangeHash) (hs : List ChangeHash)
      → from_str ids (doc_to_string d ++ b'+' ∷ heads_text (h ∷ hs))
        ≡ ok (record { branch = d; heads = h ∷ hs })
  unfolding from_str
  from_str-text d h hs = rw (
    split_once-append b'+' (doc_to_string d) (heads_text (h ∷ hs))
        (alphanumeric-Avoids b'+' (doc_to_string d) refl (doc_chars d)),
    doc_parses d,
    text_nonempty h hs,
    split-heads_text h hs,
    parse_heads-map (h ∷ hs),
  )

  from_str_fields :
      (d : DocumentId) (hs : List ChangeHash) (s : Str)
      → to_string ids (record { branch = d; heads = hs }) ≡ ok s
      → from_str ids s ≡ ok (record { branch = d; heads = hs })
  unfolding to_string
  from_str_fields d [] s e = cc
  from_str_fields d (h ∷ hs) s e = rw (← ok-injective e) (from_str-text d h hs)

  -- Where a ref has a text, parsing the text gives back the ref, with its heads in the order in
  -- which the ref holds them.
  pub from_str-to_string :
      (r : HistoryRef DocumentId ChangeHash) (s : Str)
      → to_string ids r ≡ ok s
      → from_str ids s ≡ ok r
  from_str-to_string r s h = from_str_fields r.branch r.heads s h

  parse_heads-ne-panic : (ps : List Str) → parse_heads ids ps ≢ panic
  unfolding parse_heads
  parse_heads-ne-panic [] e = cc
  parse_heads-ne-panic (p ∷ ps) e = ground (arith, parse_heads-ne-panic ps)

  heads_or_none-ne-panic :
      (t : Str) → (if is_empty t then ok [] else parse_heads ids (split b'.' t)) ≢ panic
  heads_or_none-ne-panic t e = ground (arith, parse_heads-ne-panic (split b'.' t))

  -- No text makes the parse of a ref panic.
  pub from_str-ne-panic : (s : Str) → from_str ids s ≢ panic
  unfolding from_str
  from_str-ne-panic s e = elim (Option-cases (split_once b'+' s)) [
    | inl n ↦ ground arith
    | inr (parts, p) ↦ ground (arith, heads_or_none-ne-panic parts.1)
  ]

  abbrev IsValid : HistoryRef DocumentId ChangeHash → Type 0
  IsValid r = is_valid r ≡ true

  validate-IsValid :
      (x r : HistoryRef DocumentId ChangeHash)
      → (if not (is_valid x) then err invalid_ref else ok x) ≡ ok r
      → IsValid r
  validate-IsValid x r h = ground arith

  from_str-IsValid :
      (s : Str) (r : HistoryRef DocumentId ChangeHash) → from_str ids s ≡ ok r → IsValid r
  unfolding from_str
  from_str-IsValid s = >>=_ok IsValid (ok_or (split_once b'+' s) invalid_string) _ λ parts.
      >>=_ok IsValid (ok_or (ids.doc_from_str parts.0) invalid_document_id) _ λ branch.
        >>=_ok IsValid (if is_empty parts.1 then ok [] else parse_heads ids (split b'.' parts.1)) _
          λ heads. validate-IsValid (record { branch = branch; heads = heads })

  text_of :
      (r : HistoryRef DocumentId ChangeHash) → IsValid r → (t : Str) × (to_string ids r ≡ ok t)
  unfolding to_string
  text_of r v = (doc_to_string r.branch ++ b'+' ∷ heads_text r.heads, rw v)

  -- What the parse of a ref accepts has a text, and that text is read back as the same ref.
  pub from_str_stable :
      (s : Str) (r : HistoryRef DocumentId ChangeHash)
      → from_str ids s ≡ ok r
      → (t : Str) × (to_string ids r ≡ ok t) × (from_str ids t ≡ ok r)
  from_str_stable s r h =
      let (t, e) = text_of r (from_str-IsValid s r h) in (t, e, from_str-to_string r t e)

  divided :
      (r : HistoryRef DocumentId ChangeHash)
      → Avoids b'-' (doc_to_string r.branch ++ b'+' ∷ heads_text r.heads)
  divided r =
      Avoids-append b'-' (doc_to_string r.branch) (b'+' ∷ heads_text r.heads)
        (alphanumeric-Avoids b'-' (doc_to_string r.branch) refl (doc_chars r.branch))
        (
          refl,
          Avoids-join b'-' b'.' (map hash_to_string r.heads) refl (hashes-Avoids b'-' r.heads refl),
        )

  pub ref_text-Avoids :
      (r : HistoryRef DocumentId ChangeHash) (s : Str) → to_string ids r ≡ ok s → Avoids b'-' s
  unfolding to_string
  ref_text-Avoids r s h = elim (Bool-cases (is_empty r.heads)) [
    | inl e ↦ absurd (ground arith)
    | inr e ↦ subst (Avoids b'-') (ok-injective (rw e at h)) (divided r)
  ]

  path_text :
      (r : HistoryRef DocumentId ChangeHash) (path s : Str)
      → make_path_string ids r path ≡ ok s
      → (t : Str) × (to_string ids r ≡ ok t) × (s ≡ scheme_prefix ++ (t ++ b'-' ∷ path))
  unfolding make_path_string to_uri_scheme_prefix to_string
  path_text r path s h = elim (Bool-cases (is_empty r.heads)) [
    | inl e ↦ absurd (ground arith)
    | inr e ↦ (
      doc_to_string r.branch ++ b'+' ∷ heads_text r.heads,
      rw e,
      sym (ok-injective (rw e at h)) ∙ append_assoc scheme_prefix _ (b'-' ∷ path),
    )
  ]

  -- Parsing a URL gives the ref of its first part and the repaired path of its second.
  pub from_str-url :
      (r : HistoryRef DocumentId ChangeHash) (t path fixed : Str)
      → to_string ids r ≡ ok t
      → repair path ≡ ok fixed
      → Path.from_str ids (scheme_prefix ++ (t ++ b'-' ∷ path))
        ≡ ok (record { ref_ = r; path = fixed })
  unfolding Path.from_str
  from_str-url r t path fixed e p = rw (
    strip_prefix-append scheme_prefix (t ++ b'-' ∷ path),
    split_once-append b'-' t path (ref_text-Avoids r t e),
    p,
    from_str-to_string r t e,
  )

  -- Where a file at a ref has a URL, parsing it gives back the ref, and the path as `repair` leaves
  -- it.
  pub from_str-make_path_string :
      (r : HistoryRef DocumentId ChangeHash) (path fixed s : Str)
      → make_path_string ids r path ≡ ok s
      → repair path ≡ ok fixed
      → Path.from_str ids s ≡ ok (record { ref_ = r; path = fixed })
  from_str-make_path_string r path fixed s h p =
      let (t, e, text) = path_text r path s h in rw text (from_str-url r t path fixed e p)
