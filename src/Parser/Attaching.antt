-- ===== src/Parser/Attaching.antt =====
-- The second loop over the nodes in `parse_scene` of backstitch/src/parser/godot_parser.rs: each node
-- becomes a child of its parent.
use backstitch.Prelude.{
  ℕ, zero, suc, Option, none, some, List, [], ◌∷◌, ◌++◌, Str, ok, err, panic, ◌>>=◌, is_empty,
  length, list_eq, nat_eq, if◌then◌else◌,
}
use backstitch.Prelude.Maps.{Map, get, insert}
use backstitch.Scene.Ids.{NodeId}
use backstitch.Scene.{GodotNode, node_id_eq}
use backstitch.Parser.Attributes.{Parses, no_parent_in_path, no_parent_node}
use backstitch.Parser.Placing.{pop_path}

-- The nearest node above, of a path that no node has. Each round takes a byte off at least, so that the
-- length of the path is enough fuel.
unfoldable pub nearest : ℕ → Map Str NodeId → Str → Option NodeId
nearest zero paths path = none
nearest (suc fuel) paths path =
    let above = nearest fuel paths (pop_path path) in
    if is_empty path
    then none
    else elim (get paths path) [ some node_id ↦ some node_id | none ↦ above ]

abbrev pub nearest_parent : Map Str NodeId → Str → GodotNode → Option NodeId → Parses GodotNode
nearest_parent paths parent_path node none = err (no_parent_in_path node.name)
nearest_parent paths parent_path node (some id) = ok (record node { parent_id = some id })

unfoldable pub parent_at : Map Str NodeId → Str → GodotNode → Option NodeId → Parses GodotNode
unfolding nearest
parent_at paths parent_path node (some id) =
    ok (record node { parent_path_fallback = none; parent_id = some id })
parent_at paths parent_path node none =
    nearest_parent paths parent_path node (nearest (suc (length parent_path)) paths parent_path)

unfoldable pub by_fallback : Map Str NodeId → GodotNode → Option Str → Parses GodotNode
unfolding parent_at
by_fallback paths node none = ok node
by_fallback paths node (some parent_path) = parent_at paths parent_path node (get paths parent_path)

unfoldable pub parent_by : Map Str NodeId → GodotNode → Option NodeId → Parses GodotNode
unfolding by_fallback
parent_by paths node none = by_fallback paths node node.parent_path_fallback
parent_by paths node (some id) = ok node

-- the node with its parent
unfoldable pub find_parent : Map Str NodeId → GodotNode → Parses GodotNode
unfolding parent_by
find_parent paths node = parent_by paths node node.parent_id

abbrev pub add_child : NodeId → GodotNode → GodotNode
add_child uid parent = record parent { child_node_ids = parent.child_node_ids ++ uid ∷ [] }

abbrev pub attach_to :
    NodeId → NodeId → Map NodeId GodotNode → Option GodotNode → Parses (Map NodeId GodotNode)
attach_to uid parent_id nodes none = err (no_parent_node parent_id uid)
attach_to uid parent_id nodes (some parent) = ok (insert nodes parent_id (add_child uid parent))

-- the child is pushed to its parent, where it has one
unfoldable pub attach :
    NodeId → Option NodeId → Map NodeId GodotNode → Parses (Map NodeId GodotNode)
attach uid none nodes = ok nodes
attach uid (some parent_id) nodes = attach_to uid parent_id nodes (get nodes parent_id)

abbrev pub taken : {A : Type 0} → Option A → Parses A
taken none = panic
taken (some a) = ok a

unfoldable pub attach_node :
    Map Str NodeId → NodeId → Map NodeId GodotNode → Parses (Map NodeId GodotNode)
unfolding find_parent attach
attach_node paths uid nodes = do
  node ← taken (get nodes uid)
  found ← find_parent paths node
  attach uid found.parent_id (insert nodes uid found)

unfoldable pub attach_nodes :
    Map Str NodeId → List NodeId → Map NodeId GodotNode → Parses (Map NodeId GodotNode)
unfolding attach_node
attach_nodes paths [] nodes = ok nodes
attach_nodes paths (uid ∷ keys) nodes = do
  next ← attach_node paths uid nodes
  attach_nodes paths keys next
