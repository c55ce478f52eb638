-- ===== src/Scene/Document.antt =====
-- `serialize_with_ext_resource_override` as a whole: the connections, and the parts put together.
use backstitch.Prelude.{
  ℕ, Bool, true, false, not, ◌&&◌, ◌||◌, Option, none, some, List, [], ◌∷◌, ◌++◌, Str, bytes,
  list_eq, nat_eq, Outcome, ok, ◌>>=◌, is_empty, eqb, ltb, list_beq, if◌then◌else◌,
}
use backstitch.Prelude.Maps.{Map, get}
use backstitch.History.Ids.{Ids}
use backstitch.History.Ref.{HistoryRef}
use backstitch.Scene.Numbers.{ℤ, pos, negsuc, show_int}
use backstitch.Scene.Ids.{NodeId, to_string}
use backstitch.Scene.{
  int_beq, node_id_eq, GodotNode, GodotConnection, ExternalResourceNode, SubResourceNode,
  GodotScene, StillRunning, get_node_path,
}
use backstitch.Scene.Serialize.{
  int_le, newline, quoted, optional, array_attribute, sort_by, each, show_properties, show_header,
  show_ext_resources, show_sub_resource, Written, serialize_node,
}

-- `GodotConnection::id`
unfoldable pub connection_id : GodotConnection → Str
connection_id c =
    c.signal
    ++ b'-'
      ∷ (to_string c.from_node_id
          ++ b'-'
            ∷ (to_string c.to_node_id
                ++ b'-'
                  ∷ (c.method
                      ++ b'-'
                        ∷ (optional c.flags show_int
                            ++ b'-'
                              ∷ (optional c.unbinds show_int
                                  ++ b'-'
                                    ∷ elim c.binds [ none ↦ bytes "[]" | some binds ↦ binds ])))))

-- the order of bytes
abbrev pub str_le : Str → Str → Bool
str_le [] t = true
str_le (c ∷ s) [] = false
str_le (c ∷ s) (d ∷ t) = ltb c d || (eqb c d && str_le s t)

-- `unwrap_or(&-1)`
abbrev position : Map NodeId ℕ → NodeId → ℤ
position visited id = elim (get visited id) [ none ↦ negsuc 0 | some n ↦ pos n ]

-- the order of the tuples of a connection's ends, signal and method
unfoldable pub connection_le : Map NodeId ℕ → GodotConnection → GodotConnection → Bool
connection_le visited a b =
    let from_a = position visited a.from_node_id in
    let from_b = position visited b.from_node_id in
    let to_a = position visited a.to_node_id in
    let to_b = position visited b.to_node_id in
    if not (int_beq from_a from_b)
    then int_le from_a from_b
    else if not (list_beq a.signal b.signal)
    then str_le a.signal b.signal
    else if not (int_beq to_a to_b)
    then int_le to_a to_b
    else str_le a.method b.method

unfoldable pub show_connection : ℕ → GodotScene → GodotConnection → Outcome StillRunning Str
show_connection steps scene c = do
  from_path ← get_node_path steps scene c.from_node_id
  to_path ← get_node_path steps scene c.to_node_id
  ok (
      quoted (bytes "[connection signal=\"") c.signal
      ++ (quoted (bytes " from=\"") from_path
          ++ (quoted (bytes " to=\"") to_path
              ++ (quoted (bytes " method=\"") c.method
                  ++ (optional c.flags (λ n. bytes " flags=" ++ show_int n)
                      ++ (optional c.from_uid_path (array_attribute (bytes " from_uid_path="))
                          ++ (optional c.to_uid_path (array_attribute (bytes " to_uid_path="))
                              ++ (optional c.unbinds (λ n. bytes " unbinds=" ++ show_int n)
                                  ++ (optional c.binds (λ t. bytes " binds= " ++ t)
                                      ++ (bytes "]" ++ newline))))))))))

unfoldable pub show_connections :
    ℕ → GodotScene → List (Str × GodotConnection) → Outcome StillRunning Str
unfolding show_connection
show_connections steps scene [] = ok []
show_connections steps scene ((key, c) ∷ rest) = do
  line ← show_connection steps scene c
  lines ← show_connections steps scene rest
  ok (line ++ lines)

-- `output.pop()`
unfoldable pub pop : Str → Str
pop [] = []
pop (c ∷ []) = []
pop (c ∷ d ∷ s) = c ∷ pop (d ∷ s)

abbrev pop_if : Bool → Written → Written
pop_if last w = if last then (pop w.0, w.1) else w

abbrev root_node : GodotScene → Option GodotNode
root_node scene = elim scene.root_node_id [ none ↦ none | some id ↦ get scene.nodes id ]

-- the nodes, behind what was written before them
unfoldable pub serialize_nodes : ℕ → GodotScene → Str → Outcome StillRunning Written
unfolding pop
serialize_nodes fuel scene output = elim (root_node scene) [
  | none ↦ ok (output, [])
  | some root ↦ do
    w ← serialize_node fuel fuel scene root (output, [])
    ok (pop_if (is_empty scene.connections && is_empty scene.editable_instances) w)
]

-- what follows the resources where there is no main resource
unfoldable pub serialize_rest : ℕ → GodotScene → Str → Outcome StillRunning Str
unfolding serialize_nodes show_connections connection_le
serialize_rest fuel scene output = do
  w ← serialize_nodes fuel scene output
  connections ← show_connections fuel scene (
      sort_by (λ (a : Str × GodotConnection) (b : Str × GodotConnection). connection_le w.1 a.1 b.1)
        scene.connections)
  ok (
      w.0
      ++ (connections
          ++ ((if not (is_empty scene.connections) && not (is_empty scene.editable_instances)
                then newline
                else [])
              ++ each (λ path. quoted (bytes "[editable path=\"") path ++ (bytes "]" ++ newline))
                  scene.editable_instances)))

module _ (ids : Ids) where
  open ids use {DocumentId, ChangeHash}

  -- what stands before the main resource or the nodes
  unfoldable pub serialize_resources :
      GodotScene → Option (HistoryRef DocumentId ChangeHash) → Bool → Outcome StillRunning Str
  serialize_resources scene history_ref remove_uid_in_ext_resources = do
    ext ← show_ext_resources ids history_ref remove_uid_in_ext_resources (
        sort_by
          (λ (a : Str × ExternalResourceNode) (b : Str × ExternalResourceNode).
            int_le a.1.idx b.1.idx)
          scene.ext_resources)
    ok (
        show_header scene
        ++ (ext
            ++ ((if not (is_empty scene.ext_resources) then newline else [])
                ++ each (λ (r : Str × SubResourceNode). show_sub_resource r.1)
                    (sort_by
                      (λ (a : Str × SubResourceNode) (b : Str × SubResourceNode).
                        int_le a.1.idx b.1.idx)
                      scene.sub_resources))))

  -- the fuel is that of the loops over the nodes
  unfoldable pub serialize_with_ext_resource_override :
      ℕ → GodotScene → Option (HistoryRef DocumentId ChangeHash) → Bool → Outcome StillRunning Str
  unfolding serialize_rest serialize_resources
  serialize_with_ext_resource_override fuel scene history_ref remove_uid_in_ext_resources = do
    output ← serialize_resources scene history_ref remove_uid_in_ext_resources
    elim scene.main_resource [
      | some main_resource ↦
          ok (
            output ++ (bytes "[resource]" ++ (newline ++ show_properties main_resource.properties)))
      | none ↦ serialize_rest fuel scene output
    ]

  unfoldable pub serialize : ℕ → GodotScene → Outcome StillRunning Str
  unfolding serialize_with_ext_resource_override
  serialize fuel scene = serialize_with_ext_resource_override fuel scene none false
