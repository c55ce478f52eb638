-- ===== src/Parser/Placing.antt =====
-- The first loop over the nodes in `parse_scene` of backstitch/src/parser/godot_parser.rs: each node
-- gets its id and is found by its path.
use backstitch.Prelude.{
  ℕ, zero, suc, Bool, true, false, not, Option, none, some, List, [], ◌∷◌, ◌++◌, Str, bytes, ok,
  err, ◌>>=◌, contains, eqb, is_empty, list_beq, list_eq, nat_eq, if◌then◌else◌,
}
use backstitch.Prelude.Maps.{Map, get, insert, has_value}
use backstitch.Scene.Numbers.{ℤ}
use backstitch.Scene.Ids.{NodeId}
use backstitch.Scene.{
  TypeOrInstance, instance_id, GodotNode, node_id_eq, node_id_beq, int_eq,
  unique_scene_id_unassigned, root_or_unassigned,
}
use backstitch.Parser.Attributes.{Parses, invalid_parent_path, already_exists, runs_on}
use mathlib.Core.List.{reverse}

-- the variables of the loop, with the number of random numbers that were drawn
pub record Placed : Type 0 where
  pub parsed_node_ids : List NodeId
  pub root_node_id : Option NodeId
  pub node_id_by_node_path : Map Str NodeId
  pub nodes : Map NodeId GodotNode
  pub keys : List NodeId
  pub drawn : ℕ

abbrev plain_id : ℤ → NodeId
plain_id n = record { id = n; root_instance_id = none }

-- The draw of an id, again while it is taken: `random` gives the numbers that `rand` draws.
unfoldable pub draw : (ℕ → ℤ) → ℕ → ℕ → List NodeId → Parses (NodeId × ℕ)
draw random zero drawn ids = err runs_on
draw random (suc fuel) drawn ids =
    let again = draw random fuel (suc drawn) ids in
    if contains ids (plain_id (random drawn))
    then again
    else ok (plain_id (random drawn), suc drawn)

abbrev pub up_to_slash : Str → Option Str
up_to_slash [] = none
up_to_slash (c ∷ s) = elim (up_to_slash s) [
  | some front ↦ some (c ∷ front)
  | none ↦ if eqb c b'/' then some [] else none
]

-- the path up to its last slash, or the empty one: `rfind` and the slice
abbrev pub pop_path : Str → Str
pop_path s = elim (up_to_slash s) [ none ↦ [] | some front ↦ front ]

-- the ids that are not there yet, each put at the front
abbrev pub insert_front : List ℤ → List ℤ → List ℤ
insert_front [] ids = ids
insert_front (i ∷ is) ids = insert_front is (if contains ids i then ids else i ∷ ids)

abbrev pub or_first : Option NodeId → NodeId → Option NodeId
or_first none id = some id
or_first (some first) id = some first

abbrev is_instance : Option TypeOrInstance → Bool
is_instance (some (instance_id i)) = true
is_instance _ = false

-- what is found of a path: no node, a node that is an override itself, or another one
abbrev pub instances_above : NodeId → GodotNode → List ℤ → List ℤ
instances_above node_id parent parent_id_path =
    if is_instance parent.type_or_instance then node_id.id ∷ parent_id_path else parent_id_path

-- The loop that pops the elements of the path; `none => continue` asks for the same path again.
unfoldable pub climb :
    ℕ
    → Map Str NodeId
    → Map NodeId GodotNode
    → Str
    → Option NodeId
    → List ℤ
    → Parses (Option NodeId × List ℤ)
climb zero paths nodes path parent_id parent_id_path = err runs_on
climb (suc fuel) paths nodes path parent_id parent_id_path =
    if is_empty path then ok (parent_id, parent_id_path) else elim (get paths path) [
      | none ↦ climb fuel paths nodes path parent_id parent_id_path
      | some node_id ↦ elim (get nodes node_id) [
        | none ↦ climb fuel paths nodes (pop_path path) parent_id parent_id_path
        | some parent ↦ elim parent.id.root_instance_id [
          | some pid ↦
              ok (
                or_first parent_id node_id,
                insert_front (reverse pid) (node_id.id ∷ parent_id_path),
              )
          | none ↦
              climb fuel paths nodes (pop_path path) (or_first parent_id node_id)
                (instances_above node_id parent parent_id_path)
        ]
      ]
    ]

abbrev pub or_empty : Option Str → Str
or_empty none = []
or_empty (some s) = s

abbrev pub has_items : Option (List ℤ) → Bool
has_items none = false
has_items (some is) = not (is_empty is)

abbrev pub drop_if : Bool → GodotNode → GodotNode
drop_if b node = if b then record node { parent_path_fallback = none } else node

abbrev pub with_override : GodotNode → Option NodeId × Option (List ℤ) → GodotNode
with_override node found = record node {
  id = record { id = node.id.id; root_instance_id = found.1 };
  parent_id = found.0;
}

abbrev pub climbed : GodotNode → Parses (Option NodeId × List ℤ) → Parses GodotNode
climbed node found = found >>= (λ f. ok (with_override node (f.0, some f.1)))

-- a node of an instance that the scene edits
unfoldable pub place_override :
    ℕ → Option NodeId → Map Str NodeId → Map NodeId GodotNode → GodotNode → Parses GodotNode
unfolding climb
place_override fuel root paths nodes node =
    if list_beq (or_empty node.parent_path_fallback) (bytes ".")
    then ok (
        with_override node
          (some (root_or_unassigned root), some ((root_or_unassigned root).id ∷ [])))
    else if has_items node.parent_id_path
    then ok (with_override node (none, node.parent_id_path))
    else if not (is_empty (or_empty node.parent_path_fallback))
    then climbed (drop_if (has_value (get paths (or_empty node.parent_path_fallback))) node)
        (climb fuel paths nodes (or_empty node.parent_path_fallback) none [])
    else err (invalid_parent_path node.name)

abbrev pub node_path_of : Option Str → Str → Str
node_path_of none name = bytes "."
node_path_of (some parent_path) name =
    if list_beq parent_path (bytes ".") then name else parent_path ++ b'/' ∷ name

abbrev root_of : Option Str → NodeId → Option NodeId → Option NodeId
root_of none id root = some id
root_of (some parent_path) id root = root

unfoldable pub assign_if : (ℕ → ℤ) → ℕ → Bool → GodotNode → Placed → Parses (GodotNode × Placed)
unfolding draw
assign_if random fuel true node p = do
  d ← draw random fuel p.drawn p.parsed_node_ids
  ok (record node { id = d.0 }, record p { parsed_node_ids = d.0 ∷ p.parsed_node_ids; drawn = d.1 })
assign_if random fuel false node p = ok (node, p)

-- a node that has no id of its own gets one
unfoldable pub assign_id : (ℕ → ℤ) → ℕ → GodotNode → Placed → Parses (GodotNode × Placed)
unfolding assign_if
assign_id random fuel node p =
    assign_if random fuel (node_id_beq node.id unique_scene_id_unassigned) node p

unfoldable pub override_by : ℕ → Option TypeOrInstance → GodotNode → Placed → Parses GodotNode
unfolding place_override
override_by fuel (some t) node p = ok node
override_by fuel none node p =
    place_override fuel p.root_node_id p.node_id_by_node_path p.nodes node

-- a node without a type or an instance is an override
unfoldable pub find_override : ℕ → GodotNode → Placed → Parses GodotNode
unfolding override_by
find_override fuel node p = override_by fuel node.type_or_instance node p

-- the node stands under its path and its id
unfoldable pub register_node : Option Str → GodotNode → Placed → Parses Placed
register_node parent_path node p =
    if has_value (get p.nodes node.id)
    then err (already_exists node.id)
    else ok (record p {
      root_node_id = root_of parent_path node.id p.root_node_id;
      node_id_by_node_path =
          insert p.node_id_by_node_path (node_path_of parent_path node.name) node.id;
      nodes = insert p.nodes node.id node;
      keys = p.keys ++ node.id ∷ [];
    })

unfoldable pub place_node : (ℕ → ℤ) → ℕ → GodotNode → Option Str → Placed → Parses Placed
unfolding assign_id find_override register_node
place_node random fuel node parent_path p = do
  (with_id, q) ← assign_id random fuel node p
  placed ← find_override fuel with_id q
  register_node parent_path placed q

unfoldable pub place_nodes : (ℕ → ℤ) → ℕ → List (GodotNode × Option Str) → Placed → Parses Placed
unfolding place_node
place_nodes random fuel [] p = ok p
place_nodes random fuel ((node, parent_path) ∷ rest) p = do
  q ← place_node random fuel node parent_path p
  place_nodes random fuel rest q
