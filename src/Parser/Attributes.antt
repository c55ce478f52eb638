-- ===== src/Parser/Attributes.antt =====
-- The attributes and properties of a section, of the captures of `parse_scene` in
-- backstitch/src/parser/godot_parser.rs, with the values that are read of them.
use backstitch.Prelude.{
  ℕ, Option, none, some, List, [], ◌∷◌, ◌++◌, map, Str, Outcome, ok, err, panic, ◌>>=◌, bytes, zero,
  suc, eqb, ltb, length, nat_eq, list_eq, if◌then◌else◌,
}
use backstitch.Prelude.Maps.{Map, get, insert}
use backstitch.Text.{strip_prefix, split}
use backstitch.Text.Patterns.{trim}
use backstitch.Scene.Numbers.{ℤ, pos, negsuc, parse_nat, parse_i32}
use backstitch.Scene.Ids.{NodeId}
use backstitch.Scene.Quotes.{NoError, unquote}
use backstitch.Scene.{OrderedProperty}
use mathlib.Core.List.{reverse}

-- the errors of `parse_scene`, by what their texts tell
pub data ParseError : Type 0 where
  missing : Str → Str → ParseError
  invalid_parent_path : Str → ParseError
  already_exists : NodeId → ParseError
  no_parent_in_path : Str → ParseError
  no_parent_node : NodeId → NodeId → ParseError
  no_node : Str → ParseError
  missing_header : ParseError
  failed_to_parse : ParseError
  -- a loop has not ended within the fuel
  runs_on : ParseError

abbrev pub Parses {ℓ} : Type ℓ → Type ℓ
Parses A = Outcome ParseError A

-- A capture of the query: its index, and its text where that is UTF-8.
pub record Capture : Type 0 where
  pub index : ℕ
  pub text : Option Str

pub record Section : Type 0 where
  pub section_id : Str
  pub heading : Map Str Str
  pub properties : List (Str × OrderedProperty)

abbrev pub no_section : Section
no_section = record { section_id = []; heading = []; properties = [] }

abbrev text_of_next : List Capture → Option Str
text_of_next [] = none
text_of_next (c ∷ cs) = c.text

abbrev insert_attribute : Str → Option Str → Section → Section
insert_attribute key none s = s
insert_attribute key (some value) s = record s { heading = insert s.heading key value }

abbrev push_property : Str → Option Str → Section → Section
push_property key none s = s
push_property key (some value) s = record s {
  properties =
      s.properties ++ (key, record { value = value; order = pos (length s.properties) }) ∷ [];
}

abbrev capture_in : ℕ → Str → Option Str → Section → Section
capture_in index text next s =
    if eqb index 0
    then record s { section_id = text }
    else if eqb index 1
    then insert_attribute text next s
    else if eqb index 3
    then push_property text next s
    else s

abbrev capture_of : ℕ → Option Str → Option Str → Section → Section
capture_of index none next s = s
capture_of index (some text) next s = capture_in index text next s

-- the loop over the captures of a match
unfoldable pub read_captures : List Capture → Section → Section
read_captures [] s = s
read_captures (c ∷ cs) s = read_captures cs (capture_of c.index c.text (text_of_next cs) s)

-- a call that returns no error
abbrev pub lifted : {A : Type 0} → Outcome NoError A → Parses A
lifted (ok a) = ok a
lifted (err e) = elim e [ ]
lifted panic = panic

abbrev each_unquoted : Option Str → Parses (Option Str)
each_unquoted none = ok none
each_unquoted (some value) = do s ← lifted (unquote value); ok (some s)

-- an attribute that a section may have, unquoted
unfoldable pub optional_attribute : Map Str Str → Str → Parses (Option Str)
unfolding unquote
optional_attribute heading key = each_unquoted (get heading key)

abbrev required_value : Str → Str → Option Str → Parses Str
required_value section key none = err (missing section key)
required_value section key (some value) = lifted (unquote value)

-- an attribute that a section must have, unquoted
unfoldable pub required : Str → Map Str Str → Str → Parses Str
unfolding unquote
required section heading key = required_value section key (get heading key)

abbrev i64_end : ℕ
i64_end = 9223372036854775808

abbrev i64_pos : Option ℕ → Option ℤ
i64_pos none = none
i64_pos (some n) = if ltb n i64_end then some (pos n) else none

abbrev i64_neg : Option ℕ → Option ℤ
i64_neg none = none
i64_neg (some zero) = some (pos 0)
i64_neg (some (suc n)) = if ltb n i64_end then some (negsuc n) else none

-- `parse::<i64>().ok()`
unfoldable pub parse_i64 : Str → Option ℤ
unfolding parse_nat
parse_i64 [] = none
parse_i64 (c ∷ s) =
    if eqb c b'-'
    then i64_neg (parse_nat s)
    else if eqb c b'+'
    then i64_pos (parse_nat s)
    else i64_pos (parse_nat (c ∷ s))

abbrev number_of : Option Str → Option ℤ
number_of none = none
number_of (some s) = parse_i64 s

-- an attribute that is an integer as it stands
unfoldable pub number : Map Str Str → Str → Option ℤ
unfolding parse_i64
number heading key = number_of (get heading key)

abbrev pub or_zero : Option ℤ → ℤ
or_zero none = pos 0
or_zero (some n) = n

abbrev unwrapped : {A : Type 0} → Option A → Parses A
unwrapped none = panic
unwrapped (some a) = ok a

abbrev strip_suffix : Str → Str → Option Str
strip_suffix p s = elim (strip_prefix (reverse p) (reverse s)) [
  | none ↦ none
  | some rest ↦ some (reverse rest)
]

-- `parse_int32_array`
unfoldable pub parse_int32_array : Str → Parses (List ℤ)
unfolding strip_prefix trim split parse_i32
parse_int32_array string = do
  rest ← unwrapped (strip_prefix (bytes "PackedInt32Array(") string)
  items ← unwrapped (strip_suffix (bytes ")") rest)
  ok (map (λ s. or_zero (parse_i32 (trim s))) (split b',' (trim items)))

abbrev each_array : Option Str → Parses (Option (List ℤ))
each_array none = ok none
each_array (some value) = do items ← parse_int32_array value; ok (some items)

unfoldable pub array : Map Str Str → Str → Parses (Option (List ℤ))
unfolding parse_int32_array
array heading key = each_array (get heading key)

-- `collect` into a `HashMap`
unfoldable pub collect_properties :
    List (Str × OrderedProperty) → Map Str OrderedProperty → Map Str OrderedProperty
collect_properties [] m = m
collect_properties ((key, p) ∷ rest) m = collect_properties rest (insert m key p)
