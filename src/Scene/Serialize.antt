-- ===== src/Scene/Serialize.antt =====
-- The text of a scene: `serialize_with_ext_resource_override` and `serialize_node` of
-- backstitch/src/parser/godot_parser.rs.
use backstitch.Prelude.{
  ℕ, zero, suc, Bool, true, false, not, Option, none, some, List, [], ◌∷◌, ◌++◌, map, Str, bytes,
  list_eq, nat_eq, Outcome, ok, err, panic, ◌>>=◌, length, leb, list_beq, if◌then◌else◌,
}
use backstitch.Prelude.Maps.{Map, get, insert}
use backstitch.Text.{join_text}
use backstitch.History.Ids.{Ids}
use backstitch.History.Ref.{HistoryRef, is_valid}
use backstitch.History.Path.{make_path_string}
use backstitch.Scene.Numbers.{ℤ, pos, negsuc, show_int}
use backstitch.Scene.Ids.{NodeId}
use backstitch.Scene.{
  int_beq, node_id_eq, node_id_beq, OrderedProperty, TypeOrInstance, type_name, instance_id,
  GodotNode, ExternalResourceNode, SubResourceNode, GodotScene, StillRunning, still_running,
  get_node_path,
}

abbrev pub int_le : ℤ → ℤ → Bool
int_le (pos a) (pos b) = leb a b
int_le (negsuc a) (negsuc b) = leb b a
int_le (negsuc a) (pos b) = true
int_le (pos a) (negsuc b) = false

-- `sort_by`: stable, so that entries with equal keys keep the order of the map, which a HashMap leaves
-- open
unfoldable pub insert_by : {A : Type 0} → (A → A → Bool) → A → List A → List A
insert_by le a [] = a ∷ []
insert_by le a (x ∷ xs) = let rest = insert_by le a xs in if le a x then a ∷ x ∷ xs else x ∷ rest

unfoldable pub sort_by : {A : Type 0} → (A → A → Bool) → List A → List A
unfolding insert_by
sort_by le [] = []
sort_by le (x ∷ xs) = insert_by le x (sort_by le xs)

abbrev pub newline : Str
newline = 10 ∷ []

-- `format!("{}\"", ...)` of an attribute whose name ends in `="`
abbrev pub quoted : Str → Str → Str
quoted name value = name ++ (value ++ b'"' ∷ [])

-- an attribute that may be absent
abbrev pub optional : {A : Type 0} → Option A → (A → Str) → Str
optional none text = []
optional (some a) text = text a

unfoldable pub serialize_int32_array : List ℤ → Str
serialize_int32_array array =
    bytes "PackedInt32Array(" ++ (join_text (bytes ", ") (map show_int array) ++ bytes ")")

unfoldable pub each : {A : Type 0} → (A → Str) → List A → Str
each text [] = []
each text (x ∷ xs) = text x ++ each text xs

-- the properties in their order
unfoldable pub show_properties : Map Str OrderedProperty → Str
unfolding sort_by each
show_properties properties =
    each (λ (p : Str × OrderedProperty). p.0 ++ (bytes " = " ++ (p.1.value ++ newline)))
      (sort_by
        (λ (a : Str × OrderedProperty) (b : Str × OrderedProperty). int_le a.1.order b.1.order)
        properties)

unfoldable pub show_header : GodotScene → Str
show_header scene =
    (if not (list_beq scene.resource_type (bytes "PackedScene"))
      then quoted (bytes "[gd_resource type=\"") scene.resource_type
        ++ optional scene.script_class (quoted (bytes " script_class=\""))
      else bytes "[gd_scene")
    ++ ((if not (int_beq scene.load_steps (pos 0))
          then bytes " load_steps=" ++ show_int scene.load_steps
          else [])
        ++ (bytes " format="
            ++ (show_int scene.format
                ++ (quoted (bytes " uid=\"") scene.uid ++ (bytes "]" ++ (newline ++ newline))))))

module _ (ids : Ids) where
  open ids use {DocumentId, ChangeHash}

  -- the path of an external resource, at a ref if there is one
  unfoldable pub ext_path :
      Option (HistoryRef DocumentId ChangeHash) → Str → Outcome StillRunning Str
  ext_path none path = ok path
  ext_path (some history_ref) path =
      if not (is_valid history_ref) then ok path else elim (make_path_string ids history_ref path) [
        | ok text ↦ ok text
        | err e ↦ ok path
        | panic ↦ panic
      ]

  abbrev show_ext_resource :
      Option (HistoryRef DocumentId ChangeHash)
      → Bool
      → ExternalResourceNode
      → Outcome StillRunning Str
  show_ext_resource history_ref remove_uid resource = do
    path ← ext_path history_ref resource.path
    ok (
        quoted (bytes "[ext_resource type=\"") resource.resource_type
        ++ ((if remove_uid then [] else optional resource.uid (quoted (bytes " uid=\"")))
            ++ (quoted (bytes " path=\"") path
                ++ (quoted (bytes " id=\"") resource.id ++ (bytes "]" ++ newline)))))

  unfoldable pub show_ext_resources :
      Option (HistoryRef DocumentId ChangeHash)
      → Bool
      → List (Str × ExternalResourceNode)
      → Outcome StillRunning Str
  unfolding ext_path
  show_ext_resources history_ref remove_uid [] = ok []
  show_ext_resources history_ref remove_uid ((key, resource) ∷ rest) = do
    line ← show_ext_resource history_ref remove_uid resource
    lines ← show_ext_resources history_ref remove_uid rest
    ok (line ++ lines)

unfoldable pub show_sub_resource : SubResourceNode → Str
unfolding show_properties
show_sub_resource resource =
    quoted (bytes "[sub_resource type=\"") resource.resource_type
    ++ (quoted (bytes " id=\"") resource.id
        ++ (bytes "]" ++ (newline ++ (show_properties resource.properties ++ newline))))

abbrev type_text : Option TypeOrInstance → Str
type_text (some (type_name t)) = quoted (bytes " type=\"") t
type_text _ = []

abbrev instance_text : Option TypeOrInstance → Str
instance_text (some (instance_id i)) = bytes " instance=" ++ i
instance_text _ = []

abbrev pub is_the_root : Option NodeId → NodeId → Bool
is_the_root none id = false
is_the_root (some root) id = node_id_beq id root

-- the `parent` attribute of a node below another
unfoldable pub parent_name : ℕ → GodotScene → GodotNode → NodeId → Outcome StillRunning Str
parent_name fuel scene node parent_id =
    if is_the_root scene.root_node_id parent_id
    then ok (bytes ".")
    else elim node.parent_path_fallback [
      | some parent_path ↦ ok parent_path
      | none ↦ get_node_path fuel scene parent_id
    ]

abbrev pub array_attribute : Str → List ℤ → Str
array_attribute name array = name ++ serialize_int32_array array

abbrev parent_text : ℕ → GodotScene → GodotNode → Outcome StillRunning Str
parent_text fuel scene node = elim node.parent_id [
  | none ↦ ok []
  | some parent_id ↦ do
    name ← parent_name fuel scene node parent_id
    ok (
        quoted (bytes " parent=\"") name
        ++ optional node.parent_id_path (array_attribute (bytes " parent_id_path=")))
]

-- the section of a node, behind its parent
unfoldable pub node_text : GodotNode → Str → Str
unfolding show_properties
node_text node parent =
    quoted (bytes "[node name=\"") node.name
    ++ (type_text node.type_or_instance
        ++ (parent
            ++ (optional node.owner (λ owner.
                  quoted (bytes " owner=\"") owner
                  ++ optional node.owner_uid_path (array_attribute (bytes " owner_uid_path=")))
                ++ (optional node.index (λ index. quoted (bytes " index=\"") (show_int index))
                    ++ (bytes " unique_id="
                        ++ (show_int node.id.id
                            ++ (optional node.node_paths (λ t. bytes " node_paths=" ++ t)
                                ++ (optional node.groups (λ t. bytes " groups=" ++ t)
                                    ++ (optional node.instance_placeholder
                                          (λ t. bytes " instance_placeholder=" ++ t)
                                        ++ (instance_text node.type_or_instance
                                            ++ (bytes "]"
                                                ++ (newline
                                                    ++ (show_properties node.properties
                                                        ++ newline)))))))))))))

-- the output, and the position of each node that was written
abbrev pub Written : Type 0
Written = Str × Map NodeId ℕ

-- the loop over the children
unfoldable pub each_child :
    (GodotNode → Written → Outcome StillRunning Written)
    → GodotScene
    → List NodeId
    → Written
    → Outcome StillRunning Written
each_child write scene [] w = ok w
each_child write scene (id ∷ ids) w = elim (get scene.nodes id) [
  | none ↦ each_child write scene ids w
  | some child ↦ do done ← write child w; each_child write scene ids done
]

-- `steps` is the fuel of `get_node_path`, and `fuel` is more than the depth of the node's children
unfoldable pub serialize_node :
    ℕ → ℕ → GodotScene → GodotNode → Written → Outcome StillRunning Written
unfolding node_text parent_name each_child
serialize_node steps zero scene node w = err still_running
serialize_node steps (suc fuel) scene node w = do
  parent ← parent_text steps scene node
  each_child (serialize_node steps fuel scene) scene node.child_node_ids
      (w.0 ++ node_text node parent, insert w.1 node.id (length w.1))
