-- ===== src/History/Path.antt =====
-- backstitch/src/helpers/history_path.rs: a file at a ref, as a URL that a resource loader knows.
use backstitch.Prelude.{
  ℕ, ◌+◌, Bool, true, false, not, ◌&&◌, ◌||◌, none, some, [], ◌∷◌, ◌++◌, Str, bytes, Outcome, ok_or,
  ok, err, panic, ◌>>=◌, length, leb, eqb, all, list_beq, nat_eq, if◌then◌else◌,
}
use backstitch.History.Ids.{Ids}
use backstitch.History.Ref.{
  HistoryRef, FmtError, fmt_error, RefError, is_valid, scheme_prefix, to_uri_scheme_prefix,
  from_str as ref_from_str,
}
use backstitch.Text.{
  strip_prefix, split_once, find, slice, is_ascii_alphabetic, is_ascii_alphanumeric,
}

pub record HistoryRefPath (D H : Type 0) : Type 0 where
  pub ref_ : HistoryRef D H
  pub path : Str

pub data PathError : Type 0 where
  invalid_path : PathError
  bad_ref : RefError → PathError

-- REF_DIVIDER
abbrev pub ref_divider : ℕ
ref_divider = b'-'

abbrev pub is_valid_uri_scheme_char : ℕ → Bool
is_valid_uri_scheme_char c = is_ascii_alphanumeric c || (eqb c b'-' || eqb c b'.' || eqb c b'+')

-- On the bytes of a text: those of a character beyond ASCII fail each test, as the character does.
unfoldable pub is_valid_uri_scheme : Str → Bool
is_valid_uri_scheme [] = false
is_valid_uri_scheme (first ∷ chars) =
    is_ascii_alphabetic first && all is_valid_uri_scheme_char chars

-- The branch of `from_str` on a path with `:/` at `pos`. The first slice reads the scheme; the test
-- of the byte behind `:/` slices once more, behind the two tests that `&&` puts before it.
unfoldable pub repair_at : Str → ℕ → Outcome PathError Str
repair_at path pos = do
  uri_scheme ← slice path 0 pos
  if is_valid_uri_scheme uri_scheme && leb (pos + 2) (length path)
      then (do
        next ← slice path (pos + 2) (pos + 3)
        if not (list_beq next (bytes "/"))
            then (do
              rest ← slice path (pos + 2) (length path)
              ok (uri_scheme ++ (bytes "://" ++ rest)))
            else ok path)
      else ok path

-- `simplify_path()` of the engine makes `res:/foo` of `res://foo`; this undoes it.
unfoldable pub repair : Str → Outcome PathError Str
unfolding repair_at
repair path = elim (find (bytes ":/") path) [ none ↦ ok path | some pos ↦ repair_at path pos ]

abbrev lift_ref : {A : Type 0} → Outcome RefError A → Outcome PathError A
lift_ref (ok a) = ok a
lift_ref (err e) = err (bad_ref e)
lift_ref panic = panic

module _ (ids : Ids) where
  open ids use {DocumentId, ChangeHash}

  unfoldable pub make_path_string : HistoryRef DocumentId ChangeHash → Str → Outcome FmtError Str
  unfolding to_uri_scheme_prefix
  make_path_string ref_ path =
      if not (is_valid ref_)
      then err fmt_error
      else do prefix ← to_uri_scheme_prefix ids ref_; ok (prefix ++ ref_divider ∷ path)

  unfoldable pub from_str : Str → Outcome PathError (HistoryRefPath DocumentId ChangeHash)
  unfolding repair
  from_str text = do
    rest ← ok_or (strip_prefix scheme_prefix text) invalid_path
    parts ← ok_or (split_once ref_divider rest) invalid_path
    path ← repair parts.1
    ref_ ← lift_ref (ref_from_str ids parts.0)
    ok (record { ref_ = ref_; path = path })

  -- `from_str(path).is_ok()`; a panic of the parse is one of the test
  unfoldable pub recognize_path : Str → Outcome PathError Bool
  unfolding from_str
  recognize_path path = elim (from_str path) [ ok r ↦ ok true | err e ↦ ok false | panic ↦ panic ]
