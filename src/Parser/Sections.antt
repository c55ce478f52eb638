-- ===== src/Parser/Sections.antt =====
-- The loop over the sections in `parse_scene` of backstitch/src/parser/godot_parser.rs.
use backstitch.Prelude.{
  some, List, [], ◌∷◌, ◌++◌, Str, bytes, ok, ◌>>=◌, contains, list_beq, list_eq, nat_eq, ℕ, suc,
  if◌then◌else◌,
}
use backstitch.Prelude.Maps.{Map, get, insert}
use backstitch.Scene.Numbers.{pos}
use backstitch.Scene.Ids.{NodeId}
use backstitch.Scene.{ExternalResourceNode, SubResourceNode, node_id_eq, unique_scene_id_unassigned}
use backstitch.Parser.Attributes.{
  Parses, Section, optional_attribute, required, number, array, collect_properties,
}
use backstitch.Parser.Nodes.{
  Parts, PathConnection, node_section, resource_header, resource_section, scene_header,
  unique_id_of,
}

-- EXTERNAL RESOURCE
unfoldable pub ext_resource_section : ℕ → Map Str Str → Parses ExternalResourceNode
unfolding required optional_attribute
ext_resource_section idx heading = do
  resource_type ← required (bytes "ext_resource section") heading (bytes "type")
  uid ← optional_attribute heading (bytes "uid")
  path ← required (bytes "ext_resource section") heading (bytes "path")
  id ← required (bytes "ext_resource section") heading (bytes "id")
  ok (record { resource_type = resource_type; uid = uid; path = path; id = id; idx = pos idx })

-- SUB-RESOURCE
unfoldable pub sub_resource_section : ℕ → Section → Parses SubResourceNode
unfolding required collect_properties
sub_resource_section idx s = do
  id ← required (bytes "sub_resource section") s.heading (bytes "id")
  resource_type ← required (bytes "sub_resource section") s.heading (bytes "type")
  ok (record {
    id = id;
    resource_type = resource_type;
    properties = collect_properties s.properties [];
    idx = pos idx;
  })

-- CONNECTION
unfoldable pub connection_section : Map Str Str → Parses PathConnection
unfolding required optional_attribute array number
connection_section heading = do
  signal ← required (bytes "connection section") heading (bytes "signal")
  from_path ← required (bytes "connection section") heading (bytes "from")
  to_path ← required (bytes "connection section") heading (bytes "to")
  method ← required (bytes "connection section") heading (bytes "method")
  from_uid_path ← array heading (bytes "from_uid_path")
  to_uid_path ← array heading (bytes "to_uid_path")
  binds ← optional_attribute heading (bytes "binds")
  ok (record {
    from_path = from_path;
    to_path = to_path;
    placed = record {
      signal = signal;
      from_node_id = unique_scene_id_unassigned;
      to_node_id = unique_scene_id_unassigned;
      method = method;
      flags = number heading (bytes "flags");
      from_uid_path = from_uid_path;
      to_uid_path = to_uid_path;
      unbinds = number heading (bytes "unbinds");
      binds = binds;
    };
  })

-- `insert` into the set of ids
abbrev pub add_id : NodeId → List NodeId → List NodeId
add_id id ids = if contains ids id then ids else id ∷ ids

-- the sections that `section_id` tells apart
pub data SectionKind : Type 0 where
  gd_resource_kind : SectionKind
  resource_kind : SectionKind
  gd_scene_kind : SectionKind
  node_kind : SectionKind
  ext_resource_kind : SectionKind
  sub_resource_kind : SectionKind
  connection_kind : SectionKind
  editable_kind : SectionKind
  unknown_kind : SectionKind

unfoldable pub kind_of : Str → SectionKind
kind_of id =
    if list_beq id (bytes "gd_resource")
    then gd_resource_kind
    else if list_beq id (bytes "resource")
    then resource_kind
    else if list_beq id (bytes "gd_scene")
    then gd_scene_kind
    else if list_beq id (bytes "node")
    then node_kind
    else if list_beq id (bytes "ext_resource")
    then ext_resource_kind
    else if list_beq id (bytes "sub_resource")
    then sub_resource_kind
    else if list_beq id (bytes "connection")
    then connection_kind
    else if list_beq id (bytes "editable")
    then editable_kind
    else unknown_kind

-- what a section adds, by its kind
unfoldable pub read_kind : SectionKind → Section → Parts → Parses Parts
unfolding resource_header scene_header node_section ext_resource_section sub_resource_section
    connection_section
read_kind gd_resource_kind s p = do
  m ← resource_header s.heading
  ok (record p { scene_metadata = some m })
read_kind resource_kind s p =
    ok (record p { main_resource = some (resource_section p.scene_metadata s) })
read_kind gd_scene_kind s p = do
  m ← scene_header s.heading
  ok (record p { scene_metadata = some m })
read_kind node_kind s p = do
  n ← node_section p.parsed_node_ids s
  ok (record p {
    parsed_node_ids = add_id (unique_id_of (get s.heading (bytes "unique_id"))) p.parsed_node_ids;
    node_arr = p.node_arr ++ n ∷ [];
  })
read_kind ext_resource_kind s p = do
  r ← ext_resource_section p.ext_resource_idx s.heading
  ok (record p {
    ext_resources = insert p.ext_resources r.id r;
    ext_resource_idx = suc p.ext_resource_idx;
  })
read_kind sub_resource_kind s p = do
  r ← sub_resource_section p.sub_resource_idx s
  ok (record p {
    sub_resources = insert p.sub_resources r.id r;
    sub_resource_idx = suc p.sub_resource_idx;
  })
read_kind connection_kind s p = do
  c ← connection_section s.heading
  ok (record p { connections_arr = p.connections_arr ++ c ∷ [] })
read_kind editable_kind s p = do
  path ← required (bytes "editable section") s.heading (bytes "path")
  ok (record p { editable_instances = p.editable_instances ++ path ∷ [] })
read_kind unknown_kind s p = ok p

unfoldable pub read_section : Section → Parts → Parses Parts
unfolding kind_of read_kind
read_section s p = read_kind (kind_of s.section_id) s p

-- the loop over the matches
unfoldable pub read_sections : List Section → Parts → Parses Parts
unfolding read_section
read_sections [] p = ok p
read_sections (s ∷ sections) p = do q ← read_section s p; read_sections sections q
