-- ===== src/History/Ref.antt =====
-- backstitch/src/helpers/history_ref.rs: a branch with heads on it, its text and the parse of it.
use backstitch.Prelude.{
  ℕ, Bool, not, ◌&&◌, List, [], ◌∷◌, ◌++◌, map, Str, bytes, Outcome, ok_or, ok, err, panic, ◌>>=◌,
  is_empty, take, list_beq, Eq, ◌==◌, if◌then◌else◌,
}
use backstitch.Prelude.Sorting.{Ord, sort}
use backstitch.History.Ids.{Ids}
use backstitch.Text.{split_once, split, join, join_text}

-- `std::fmt::Error`
pub data FmtError : Type 0 where
  fmt_error : FmtError

-- the error texts of `from_str`
pub data RefError : Type 0 where
  invalid_string invalid_document_id invalid_change_hash invalid_ref : RefError

pub record HistoryRef (D H : Type 0) : Type 0 where
  pub branch : D
  pub heads : List H

-- HistoryRef::new sorts the heads
unfoldable pub new : {D H : Type 0} ⦃o : Ord H⦄ → D → List H → HistoryRef D H
new branch heads = record { branch = branch; heads = sort heads }

-- `eq` of the two fields
unfoldable pub ref_beq :
    {D H : Type 0} ⦃d : Eq D⦄ ⦃h : Eq H⦄ → HistoryRef D H → HistoryRef D H → Bool
ref_beq a b = a.branch == b.branch && list_beq a.heads b.heads

abbrev pub is_valid : {D H : Type 0} → HistoryRef D H → Bool
is_valid r = not (is_empty r.heads)

-- BACKSTITCH_SCHEME_PREFIX, BRANCH_DIVIDER and CHANGE_HASH_DIVIDER
abbrev pub scheme_prefix : Str
scheme_prefix = bytes "backstitch-"

abbrev pub branch_divider : ℕ
branch_divider = b'+'

abbrev pub change_hash_divider : ℕ
change_hash_divider = b'.'

module _ (ids : Ids) where
  open ids use {DocumentId, ChangeHash, doc_to_string, doc_from_str, hash_to_string, hash_from_str}

  -- the `Display` of a ref, which fails without heads
  unfoldable pub to_string : HistoryRef DocumentId ChangeHash → Outcome FmtError Str
  to_string r =
      if not (is_valid r)
      then err fmt_error
      else ok (
          doc_to_string r.branch
          ++ branch_divider ∷ join change_hash_divider (map hash_to_string r.heads))

  -- `format!` panics where a `Display` fails
  abbrev pub format : {E : Type 0} → Outcome FmtError Str → Outcome E Str
  format (ok s) = ok s
  format (err e) = panic
  format panic = panic

  unfoldable pub to_uri_scheme_prefix :
      {E : Type 0} → HistoryRef DocumentId ChangeHash → Outcome E Str
  unfolding to_string
  to_uri_scheme_prefix r = do s ← format (to_string r); ok (scheme_prefix ++ s)

  unfoldable pub short_heads : HistoryRef DocumentId ChangeHash → Str
  short_heads r =
      bytes "["
      ++ (join_text (bytes ", ") (map (λ h. take 7 (hash_to_string h)) r.heads) ++ bytes "]")

  -- `map(...).collect::<Result<Vec<_>, _>>()`
  unfoldable pub parse_heads : List Str → Outcome RefError (List ChangeHash)
  parse_heads [] = ok []
  parse_heads (p ∷ ps) = do
    h ← ok_or (hash_from_str p) invalid_change_hash
    hs ← parse_heads ps
    ok (h ∷ hs)

  abbrev validate :
      HistoryRef DocumentId ChangeHash → Outcome RefError (HistoryRef DocumentId ChangeHash)
  validate result = if not (is_valid result) then err invalid_ref else ok result

  unfoldable pub from_str : Str → Outcome RefError (HistoryRef DocumentId ChangeHash)
  unfolding parse_heads
  from_str s = do
    parts ← ok_or (split_once branch_divider s) invalid_string
    branch ← ok_or (doc_from_str parts.0) invalid_document_id
    heads ← if is_empty parts.1 then ok [] else parse_heads (split change_hash_divider parts.1)
    validate (record { branch = branch; heads = heads })
