-- ===== src/History/Mangled.antt =====
-- What the parse of a URL makes of a path whose `://` the engine's `simplify_path()` may have cut to
-- `:/`.
use backstitch.Prelude.{
  ℕ, ◌+◌, ◌≡◌, refl, true, false, [], ◌∷◌, ◌++◌, append-nil, append_assoc, Str, bytes, ok, panic,
  length, length-append, eqb, leb, ◌<◌, arith, all,
}
use backstitch.Text.{slice}
use backstitch.Text.Laws.{
  Avoids, StartsClean, slice_past, strip_prefix-append, split_once-append, slice-append,
  find-append,
}
use backstitch.History.Ids.{Ids}
use backstitch.History.Ref.{HistoryRef, scheme_prefix, to_string}
use backstitch.History.Path.{
  PathError, ref_divider, is_valid_uri_scheme, is_valid_uri_scheme_char, repair_at, repair,
  from_str,
}
use backstitch.History.RoundTrip.{from_str-url, ref_text-Avoids}

IsValid-Avoids : (s : Str) → is_valid_uri_scheme s ≡ true → Avoids b':' s
unfolding is_valid_uri_scheme
IsValid-Avoids [] h = cc
IsValid-Avoids (c ∷ s) h = (ground arith, rest s (ground arith))
  where
    rest : (t : Str) → all is_valid_uri_scheme_char t ≡ true → Avoids b':' t
    rest [] k = tt
    rest (d ∷ t) k = (ground arith, rest t (ground arith))

scheme_clean : (s t : Str) → is_valid_uri_scheme s ≡ true → StartsClean (s ++ t)
unfolding is_valid_uri_scheme
scheme_clean [] t h = absurd (cc)
scheme_clean (c ∷ s) t h = ground arith

-- the slices that `repair_at` makes of a scheme, `:/` and what follows
module _ (scheme : Str) where
  abbrev cut_path : Str → Str
  cut_path path = scheme ++ b':' ∷ b'/' ∷ path

  slice_scheme :
      (path : Str)
      → is_valid_uri_scheme scheme ≡ true
      → slice {E = PathError} (cut_path path) 0 (length scheme) ≡ ok scheme
  slice_scheme path v =
      slice-append [] scheme (b':' ∷ b'/' ∷ path) 0 (length scheme) refl (omega arith)
        (scheme_clean scheme _ v) refl

  length-cut_path : (path : Str) → length (cut_path path) ≡ length scheme + 2 + length path
  length-cut_path path = omega (arith, length-append scheme (b':' ∷ b'/' ∷ path))

  slice_behind :
      (m b : Str) (j : ℕ)
      → j ≡ length scheme + 2 + length m
      → StartsClean (m ++ b)
      → StartsClean b
      → slice {E = PathError} (cut_path (m ++ b)) (length scheme + 2) j ≡ ok m
  slice_behind m b j e cm cb = rw (← append_assoc scheme (bytes ":/") (m ++ b)) (
      slice-append (scheme ++ bytes ":/") m b (length scheme + 2) j
        (omega (arith, length-append scheme (bytes ":/")))
        (omega (arith, length-append scheme (bytes ":/"))) cm cb)

  fits : (path : Str) → leb (length scheme + 2) (length (cut_path path)) ≡ true
  fits path = ground (arith, length-cut_path path)

  -- with nothing behind `:/` the slice of the next byte is out of range
  slice_end : slice {E = PathError} (cut_path []) (length scheme + 2) (length scheme + 3) ≡ panic
  slice_end = slice_past (cut_path []) _ _ (omega (arith, length-cut_path []))

module _ (scheme : Str) (v : is_valid_uri_scheme scheme ≡ true) where
  repair-cut_path :
      (path : Str)
      → repair (cut_path scheme path) ≡ repair_at (cut_path scheme path) (length scheme)
  unfolding repair
  repair-cut_path path = rw (find-append scheme path (IsValid-Avoids scheme v), repair)

  -- A path that was cut to one slash gets the second back.
  pub repair_cut :
      (c : ℕ) (path : Str)
      → eqb c b'/' ≡ false
      → c < 128
      → StartsClean path
      → repair (scheme ++ (bytes ":/" ++ c ∷ path)) ≡ ok (scheme ++ (bytes "://" ++ c ∷ path))
  unfolding repair_at
  repair_cut c path h k clean = rw (
    repair-cut_path (c ∷ path),
    slice_scheme scheme (c ∷ path) v,
    v,
    fits scheme (c ∷ path),
    slice_behind scheme (c ∷ []) path (length scheme + 3) (omega arith) (ground arith) clean,
    h,
    rest,
  )
    where
      ends : length (cut_path scheme (c ∷ path)) ≡ length scheme + 2 + length (c ∷ path)
      ends = length-cut_path scheme (c ∷ path)

      rest :
          slice {E = PathError}
            (cut_path scheme (c ∷ path))
            (length scheme + 2)
            (length (cut_path scheme (c ∷ path)))
          ≡ ok (c ∷ path)
      rest = rw append-nil at (slice_behind scheme (c ∷ path) [] _ ends (ground arith) tt)

  -- A path with both slashes stays.
  pub repair_whole :
      (path : Str)
      → StartsClean path
      → repair (scheme ++ (bytes "://" ++ path)) ≡ ok (scheme ++ (bytes "://" ++ path))
  unfolding repair_at
  repair_whole path clean = rw (
    repair-cut_path (b'/' ∷ path),
    slice_scheme scheme (b'/' ∷ path) v,
    v,
    fits scheme (b'/' ∷ path),
    slice_behind scheme (b'/' ∷ []) path (length scheme + 3) (omega arith) refl clean,
  )

  -- A path that ends behind `:/` makes the repair panic.
  pub repair_end : repair (scheme ++ bytes ":/") ≡ panic
  unfolding repair_at
  repair_end =
      rw (repair-cut_path [], slice_scheme scheme [] v, v, fits scheme [], slice_end scheme)

module _ (ids : Ids) where
  open ids use {DocumentId, ChangeHash}

  -- The URL of a file at a ref, cut by `simplify_path()` to one slash behind the scheme of its path,
  -- is parsed as the ref and the path with both slashes.
  pub from_str_cut :
      (r : HistoryRef DocumentId ChangeHash) (t scheme : Str) (c : ℕ) (path : Str)
      → to_string ids r ≡ ok t
      → is_valid_uri_scheme scheme ≡ true
      → eqb c b'/' ≡ false
      → c < 128
      → StartsClean path
      → from_str ids (scheme_prefix ++ (t ++ ref_divider ∷ (scheme ++ (bytes ":/" ++ c ∷ path))))
        ≡ ok (record { ref_ = r; path = scheme ++ (bytes "://" ++ c ∷ path) })
  from_str_cut r t scheme c path e v h k clean =
      from_str-url ids r t _ _ e (repair_cut scheme v c path h k clean)

  -- The URL of a file at a ref whose path ends behind `:/` makes the parse panic.
  pub from_str_end_panics :
      (r : HistoryRef DocumentId ChangeHash) (t scheme : Str)
      → to_string ids r ≡ ok t
      → is_valid_uri_scheme scheme ≡ true
      → from_str ids (scheme_prefix ++ (t ++ ref_divider ∷ (scheme ++ bytes ":/"))) ≡ panic
  unfolding from_str
  from_str_end_panics r t scheme e v = rw (
    strip_prefix-append scheme_prefix (t ++ ref_divider ∷ (scheme ++ bytes ":/")),
    split_once-append ref_divider t (scheme ++ bytes ":/") (ref_text-Avoids ids r t e),
    repair_end scheme v,
  )
