-- ===== src/Examples/History.antt =====
-- Refs and their texts at concrete inputs, with two documents and two changes.
use backstitch.Prelude.{
  ◌≡◌, refl, ◌≢◌, Bool, true, false, ◌&&◌, Option, none, some, [], ◌∷◌, ◌++◌, Str, bytes, ok, panic,
  list_beq, nat_eq, length, All, arith, if◌then◌else◌,
}
use backstitch.Examples.Flags.{bool_eq, bool_ord}
use backstitch.Text.{is_ascii_alphanumeric}
use backstitch.History.Ids.{Ids}
use backstitch.History.Ref.{HistoryRef, to_string, from_str, scheme_prefix}
use backstitch.History.Path.{
  HistoryRefPath, ref_divider, make_path_string, repair, from_str as path_from_str,
}
use backstitch.History.RoundTrip.{from_str-to_string, from_str-ne-panic, from_str-make_path_string}
use backstitch.History.Mangled.{from_str_end_panics}

abbrev doc_text : Bool → Str
doc_text false = bytes "2ab"
doc_text true = bytes "3cd"

abbrev doc_parse : Str → Option Bool
doc_parse s =
    if list_beq s (bytes "2ab")
    then some false
    else if list_beq s (bytes "3cd")
    then some true
    else none

abbrev hash_text : Bool → Str
hash_text false = bytes "0123456789abcdef0123456789abcdef0123456789abcdef0123456789abcdef"
hash_text true = bytes "fedcba9876543210fedcba9876543210fedcba9876543210fedcba9876543210"

abbrev hash_parse : Str → Option Bool
hash_parse s =
    if list_beq s (hash_text false)
    then some false
    else if list_beq s (hash_text true)
    then some true
    else none

pub doc_parses : (d : Bool) → doc_parse (doc_text d) ≡ some d
doc_parses false = refl
doc_parses true = refl

pub hash_parses : (h : Bool) → hash_parse (hash_text h) ≡ some h
hash_parses false = refl
hash_parses true = refl

pub hash_length : (h : Bool) → length (hash_text h) ≡ 64
hash_length false = refl
hash_length true = refl

abbrev all_alphanumeric : Str → Bool
all_alphanumeric [] = true
all_alphanumeric (c ∷ s) = is_ascii_alphanumeric c && all_alphanumeric s

All-of_test : (s : Str) → all_alphanumeric s ≡ true → All (λ c. is_ascii_alphanumeric c ≡ true) s
All-of_test [] h = tt
All-of_test (c ∷ s) h = (ground arith, All-of_test s (ground arith))

pub doc_chars : (d : Bool) → All (λ c. is_ascii_alphanumeric c ≡ true) (doc_text d)
doc_chars false = All-of_test (doc_text false) refl
doc_chars true = All-of_test (doc_text true) refl

pub hash_chars : (h : Bool) → All (λ c. is_ascii_alphanumeric c ≡ true) (hash_text h)
hash_chars false = All-of_test (hash_text false) refl
hash_chars true = All-of_test (hash_text true) refl

abbrev pub two_ids : Ids
two_ids = record {
  DocumentId = Bool;
  doc_eq = bool_eq;
  doc_to_string = doc_text;
  doc_from_str = doc_parse;
  ChangeHash = Bool;
  hash_ord = bool_ord;
  hash_to_string = hash_text;
  hash_from_str = hash_parse;
  doc_parses = doc_parses;
  doc_chars = doc_chars;
  hash_parses = hash_parses;
  hash_chars = hash_chars;
  hash_length = hash_length;
}

abbrev pub both : HistoryRef Bool Bool
both = record { branch = false; heads = true ∷ false ∷ [] }

abbrev both_text : Str
both_text = doc_text false ++ b'+' ∷ (hash_text true ++ b'.' ∷ hash_text false)

to_string-both : to_string two_ids both ≡ ok both_text
unfolding to_string backstitch.Text.join
to_string-both = refl

from_str-to_string_example : from_str two_ids both_text ≡ ok both
from_str-to_string_example = from_str-to_string two_ids both both_text to_string-both

from_str-ne-panic_example : from_str two_ids (bytes "2ab+..") ≢ panic
from_str-ne-panic_example = from_str-ne-panic two_ids (bytes "2ab+..")

from_str-both : from_str two_ids both_text ≡ ok both
unfolding from_str backstitch.Text.split_once backstitch.Text.split
from_str-both = refl

path_both :
    make_path_string two_ids both (bytes "res:/a.gd")
    ≡ ok (scheme_prefix ++ (both_text ++ ref_divider ∷ bytes "res:/a.gd"))
unfolding make_path_string backstitch.Text.join
path_both = refl

pub repair_cut_path : repair (bytes "res:/a.gd") ≡ ok (bytes "res://a.gd")
unfolding repair backstitch.Text.find backstitch.Text.strip_prefix backstitch.Text.slice
    backstitch.History.Path.is_valid_uri_scheme
repair_cut_path = refl

from_str-make_path_string_example :
    path_from_str two_ids (scheme_prefix ++ (both_text ++ ref_divider ∷ bytes "res:/a.gd"))
    ≡ ok (record { ref_ = both; path = bytes "res://a.gd" })
from_str-make_path_string_example =
    from_str-make_path_string two_ids both (bytes "res:/a.gd") (bytes "res://a.gd")
      (scheme_prefix ++ (both_text ++ ref_divider ∷ bytes "res:/a.gd")) path_both repair_cut_path

from_str_end_panics_example :
    path_from_str two_ids
      (scheme_prefix ++ (both_text ++ ref_divider ∷ (bytes "res" ++ bytes ":/")))
    ≡ panic
unfolding backstitch.History.Path.is_valid_uri_scheme
from_str_end_panics_example =
    from_str_end_panics two_ids both both_text (bytes "res") to_string-both refl
