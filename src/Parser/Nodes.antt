-- ===== src/Parser/Nodes.antt =====
-- The headings, the nodes and the variables of `parse_scene` of backstitch/src/parser/godot_parser.rs.
use backstitch.Prelude.{
  Bool, true, false, ◌&&◌, Option, none, some, List, [], Str, bytes, ok, err, ◌>>=◌, contains,
  list_eq, nat_eq, ℕ, if◌then◌else◌,
}
use backstitch.Prelude.Maps.{Map, get}
use backstitch.Scene.Numbers.{ℤ, pos, parse_i32}
use backstitch.Scene.Ids.{NodeId}
use backstitch.Scene.{
  TypeOrInstance, type_name, instance_id, GodotNode, GodotConnection, ExternalResourceNode,
  SubResourceNode, node_id_eq, unique_scene_id_unassigned,
}
use backstitch.Parser.Attributes.{
  Parses, missing, Section, optional_attribute, required, number, or_zero, array, parse_i64,
  collect_properties,
}

pub record SceneMetadata : Type 0 where
  pub load_steps : ℤ
  pub format : ℤ
  pub uid : Str
  pub script_class : Option Str
  pub resource_type : Str

-- A node with the path of its parent, and a connection between two paths.
pub record PathConnection : Type 0 where
  pub from_path : Str
  pub to_path : Str
  pub placed : GodotConnection

-- the variables of `parse_scene` that the loop over the sections writes
pub record Parts : Type 0 where
  pub scene_metadata : Option SceneMetadata
  pub parsed_node_ids : List NodeId
  pub node_arr : List (GodotNode × Option Str)
  pub ext_resources : Map Str ExternalResourceNode
  pub sub_resources : Map Str SubResourceNode
  pub connections_arr : List PathConnection
  pub main_resource : Option SubResourceNode
  pub editable_instances : List Str
  pub ext_resource_idx : ℕ
  pub sub_resource_idx : ℕ

abbrev pub no_parts : Parts
no_parts = record {
  scene_metadata = none;
  parsed_node_ids = [];
  node_arr = [];
  ext_resources = [];
  sub_resources = [];
  connections_arr = [];
  main_resource = none;
  editable_instances = [];
  ext_resource_idx = 0;
  sub_resource_idx = 0;
}

abbrev pub required_number : Str → Option ℤ → Parses ℤ
required_number section none = err (missing section (bytes "format"))
required_number section (some n) = ok n

-- GD_RESOURCE HEADER
unfoldable pub resource_header : Map Str Str → Parses SceneMetadata
unfolding number required optional_attribute
resource_header heading = do
  format ← required_number (bytes "gd_resource header") (number heading (bytes "format"))
  script_class ← optional_attribute heading (bytes "script_class")
  uid ← required (bytes "gd_resource header") heading (bytes "uid")
  resource_type ← required (bytes "gd_resource header") heading (bytes "type")
  ok (record {
    load_steps = or_zero (number heading (bytes "load_steps"));
    format = format;
    uid = uid;
    script_class = script_class;
    resource_type = resource_type;
  })

-- GD_SCENE HEADER
unfoldable pub scene_header : Map Str Str → Parses SceneMetadata
unfolding number required
scene_header heading = do
  format ← required_number (bytes "scene header") (number heading (bytes "format"))
  uid ← required (bytes "scene header") heading (bytes "uid")
  ok (record {
    load_steps = or_zero (number heading (bytes "load_steps"));
    format = format;
    uid = uid;
    script_class = none;
    resource_type = bytes "PackedScene";
  })

abbrev pub type_of : Option SceneMetadata → Str
type_of none = []
type_of (some m) = m.resource_type

-- RESOURCE
abbrev pub resource_section : Option SceneMetadata → Section → SubResourceNode
resource_section metadata s = record {
  id = [];
  resource_type = type_of metadata;
  properties = collect_properties s.properties [];
  idx = pos 0;
}

abbrev pub unique_id_of : Option Str → NodeId
unique_id_of none = unique_scene_id_unassigned
unique_id_of (some text) = record { id = or_zero (parse_i32 text); root_instance_id = none }

abbrev pub as_type : Option Str → Option TypeOrInstance
as_type none = none
as_type (some t) = some (type_name t)

abbrev pub as_instance : Option Str → Option TypeOrInstance
as_instance none = none
as_instance (some i) = some (instance_id i)

abbrev pub type_or_instance_of : Map Str Str → Option Str → Parses (Option TypeOrInstance)
type_or_instance_of heading (some value) = do
  t ← optional_attribute heading (bytes "type")
  ok (as_type t)
type_or_instance_of heading none = do
  i ← optional_attribute heading (bytes "instance")
  ok (as_instance i)

abbrev pub index_of : Option Str → Option ℤ
index_of none = none
index_of (some s) = parse_i64 s

abbrev pub has_type : Option TypeOrInstance → Bool
has_type none = false
has_type (some t) = true

-- the id of a node: one that stood there before is assigned anew
abbrev pub id_of_node : List NodeId → NodeId → Option TypeOrInstance → NodeId
id_of_node parsed_node_ids id type_or_instance =
    if contains parsed_node_ids id && has_type type_or_instance
    then unique_scene_id_unassigned
    else id

-- NODE, with the path of its parent
unfoldable pub node_section : List NodeId → Section → Parses (GodotNode × Option Str)
unfolding required optional_attribute array collect_properties
node_section parsed_node_ids s = do
  name ← required (bytes "node section") s.heading (bytes "name")
  instance_placeholder ← optional_attribute s.heading (bytes "instance_placeholder")
  parent_id_path ← array s.heading (bytes "parent_id_path")
  owner_uid_path ← array s.heading (bytes "owner_uid_path")
  type_or_instance ← type_or_instance_of s.heading (get s.heading (bytes "type"))
  node_paths ← optional_attribute s.heading (bytes "node_paths")
  parent_path ← optional_attribute s.heading (bytes "parent")
  owner ← optional_attribute s.heading (bytes "owner")
  index ← optional_attribute s.heading (bytes "index")
  ok (
    record {
      id =
          id_of_node parsed_node_ids (unique_id_of (get s.heading (bytes "unique_id")))
            type_or_instance;
      name = name;
      type_or_instance = type_or_instance;
      instance_placeholder = instance_placeholder;
      parent_id = none;
      parent_path_fallback = parent_path;
      parent_id_path = parent_id_path;
      owner = owner;
      owner_uid_path = owner_uid_path;
      index = index_of index;
      groups = get s.heading (bytes "groups");
      node_paths = node_paths;
      properties = collect_properties s.properties [];
      child_node_ids = [];
    },
    parent_path,
  )
