-- ===== src/Scene/Ids.antt =====
-- The id of a node, its text and the parse of it.
use backstitch.Prelude.{
  ℕ, ◌<◌, ◌≡◌, ◌≢◌, refl, ap, ◌∙◌, true, false, Option, none, some, List, [], ◌∷◌, ◌++◌, append-nil,
  map, Str, All, Outcome, ok_or, ok, err, ◌>>=◌, eqb, arith,
}
use backstitch.Text.{split, join}
use backstitch.Text.Laws.{Avoids, split-join}
use backstitch.Scene.Numbers.{ℤ, pos, negsuc, show_int, parse_i32, parse_i32-show_nat, All-show_nat}

pub record NodeId : Type 0 where
  pub id : ℤ
  pub root_instance_id : Option (List ℤ)

-- `Invalid node id`
pub data NodeIdError : Type 0 where
  invalid_node_id : NodeIdError

-- the loop of `Display`
unfoldable pub show_tail : List ℤ → Str
show_tail [] = []
show_tail (i ∷ is) = b'-' ∷ (show_int i ++ show_tail is)

abbrev pub instances : Option (List ℤ) → List ℤ
instances none = []
instances (some is) = is

-- `Display` of a NodeId
unfoldable pub to_string : NodeId → Str
unfolding show_tail
to_string n = show_int n.id ++ show_tail (instances n.root_instance_id)

-- `map(...).collect::<Result<Vec<_>, _>>()`
unfoldable pub parse_ids : List Str → Outcome NodeIdError (List ℤ)
parse_ids [] = ok []
parse_ids (p ∷ ps) = do i ← ok_or (parse_i32 p) invalid_node_id; is ← parse_ids ps; ok (i ∷ is)

abbrev parse_instances : List Str → Outcome NodeIdError (Option (List ℤ))
parse_instances [] = ok none
parse_instances (p ∷ ps) = do is ← parse_ids (p ∷ ps); ok (some is)

abbrev from_parts : List Str → Outcome NodeIdError NodeId
from_parts [] = err invalid_node_id
from_parts (p ∷ ps) = do
  id ← ok_or (parse_i32 p) invalid_node_id
  root_instance_id ← parse_instances ps
  ok (record { id = id; root_instance_id = root_instance_id })

-- `FromStr` of a NodeId
unfoldable pub from_str : Str → Outcome NodeIdError NodeId
unfolding parse_ids
from_str s = from_parts (split b'-' s)

-- An `i32` that is not negative.
abbrev pub IsNatural : ℤ → Type 0
IsNatural (pos n) = n < 2147483648
IsNatural (negsuc n) = false ≡ true

parse-show_int : (i : ℤ) → IsNatural i → parse_i32 (show_int i) ≡ some i
unfolding show_int
parse-show_int (pos n) h = parse_i32-show_nat n h
parse-show_int (negsuc n) h = absurd (cc)

show_int-Avoids : (i : ℤ) → IsNatural i → Avoids b'-' (show_int i)
unfolding show_int
show_int-Avoids (pos n) h = All-show_nat (λ d. eqb d b'-' ≡ false) n (λ d k. ground arith)
show_int-Avoids (negsuc n) h = absurd (cc)

show-join : (i : ℤ) (is : List ℤ) → show_int i ++ show_tail is ≡ join b'-' (map show_int (i ∷ is))
unfolding show_tail join
show-join i [] = append-nil (show_int i)
show-join i (j ∷ is) = ap (λ t. show_int i ++ b'-' ∷ t) (show-join j is)

ids-Avoids : (is : List ℤ) → All IsNatural is → All (Avoids b'-') (map show_int is)
ids-Avoids [] h = tt
ids-Avoids (i ∷ is) h = (show_int-Avoids i h.0, ids-Avoids is h.1)

parse_ids-map : (is : List ℤ) → All IsNatural is → parse_ids (map show_int is) ≡ ok is
unfolding parse_ids
parse_ids-map [] h = refl
parse_ids-map (i ∷ is) h = rw (parse-show_int i h.0, parse_ids-map is h.1) refl

split-to_string :
    (i : ℤ) (is : List ℤ)
    → All IsNatural (i ∷ is)
    → split b'-' (show_int i ++ show_tail is) ≡ show_int i ∷ map show_int is
split-to_string i is h =
    ap (split b'-') (show-join i is)
    ∙ split-join b'-' (show_int i) (map show_int is) (ids-Avoids (i ∷ is) h)

-- The text of a node id whose numbers are not negative, and whose list of instances is absent or not
-- empty, parses to the id.
pub from_str-to_string_id :
    (n : NodeId)
    → All IsNatural (n.id ∷ instances n.root_instance_id)
    → n.root_instance_id ≢ some []
    → from_str (to_string n) ≡ ok n
unfolding from_str to_string
from_str-to_string_id n natural full = parts_of n.root_instance_id natural full
  where
    parts_of :
        (o : Option (List ℤ))
        → All IsNatural (n.id ∷ instances o)
        → o ≢ some []
        → from_parts (split b'-' (show_int n.id ++ show_tail (instances o)))
          ≡ ok (record { id = n.id; root_instance_id = o })
    parts_of none h f = rw (split-to_string n.id [] h, parse-show_int n.id h.0) refl
    parts_of (some []) h f = absurd (f refl)
    parts_of (some (i ∷ is)) h f =
        rw
          (
            split-to_string n.id (i ∷ is) h,
            parse-show_int n.id h.0,
            parse-show_int i h.1.0,
            parse_ids-map is h.1.1,
          )
          refl

-- The text of a node id whose first number is negative does not parse.
pub from_str-to_string_negative :
    (n : ℕ) (is : Option (List ℤ))
    → from_str (to_string (record { id = negsuc n; root_instance_id = is })) ≡ err invalid_node_id
unfolding from_str to_string show_int split parse_i32
from_str-to_string_negative n is = refl
