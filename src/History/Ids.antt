-- ===== src/History/Ids.antt =====
-- The identifiers of samod and automerge, which the program takes from those crates: an interface of
-- operations, with what the crates document of their texts as laws.
use backstitch.Prelude.{◌≡◌, true, Option, some, Str, Eq, length, All}
use backstitch.Prelude.Sorting.{Ord}
use backstitch.Text.{is_ascii_alphanumeric}

pub record Ids : Type 1 where
  pub DocumentId : Type 0
  pub doc_eq : Eq DocumentId
  -- `Display` and `FromStr` of samod::DocumentId
  pub doc_to_string : DocumentId → Str
  pub doc_from_str : Str → Option DocumentId
  pub ChangeHash : Type 0
  pub hash_ord : Ord ChangeHash
  -- `Display` and `FromStr` of automerge::ChangeHash
  pub hash_to_string : ChangeHash → Str
  pub hash_from_str : Str → Option ChangeHash
  -- a DocumentId is base58 and a ChangeHash is 32 bytes in hexadecimal
  pub doc_parses : (d : DocumentId) → doc_from_str (doc_to_string d) ≡ some d
  pub doc_chars : (d : DocumentId) → All (λ c. is_ascii_alphanumeric c ≡ true) (doc_to_string d)
  pub hash_parses : (h : ChangeHash) → hash_from_str (hash_to_string h) ≡ some h
  pub hash_chars : (h : ChangeHash) → All (λ c. is_ascii_alphanumeric c ≡ true) (hash_to_string h)
  pub hash_length : (h : ChangeHash) → length (hash_to_string h) ≡ 64
