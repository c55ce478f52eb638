-- ===== src/Parser/Assembly.antt =====
-- The connections of `parse_scene` in backstitch/src/parser/godot_parser.rs, the whole function, and
-- `recognize_scene`.
use backstitch.Prelude.{
  ℕ, Bool, false, ◌||◌, Option, none, some, List, [], ◌∷◌, Str, bytes, ok, err, ◌>>=◌, is_empty,
  list_eq, nat_eq, if◌then◌else◌,
}
use backstitch.Prelude.Maps.{Map, get, insert}
use backstitch.Text.{split, strip_prefix}
use backstitch.Text.Patterns.{starts_with, contains_text, trim}
use backstitch.Scene.Numbers.{ℤ}
use backstitch.Scene.Ids.{NodeId}
use backstitch.Scene.{GodotConnection, GodotScene}
use backstitch.Scene.Document.{connection_id}
use backstitch.Parser.Attributes.{
  Parses, no_node, missing_header, failed_to_parse, Capture, Section, no_section, read_captures,
}
use backstitch.Parser.Nodes.{SceneMetadata, PathConnection, Parts, no_parts}
use backstitch.Parser.Sections.{read_sections}
use backstitch.Parser.Placing.{Placed, place_nodes}
use backstitch.Parser.Attaching.{attach_nodes}

-- a node that was not to be saved
abbrev pub is_temporary : Str → Bool
is_temporary path = starts_with (bytes "@") path || contains_text (bytes "/@") path

-- the end of a connection: `ok none` for one that is passed over; the error names the start of the
-- connection at either end
unfoldable pub end_of : Map Str NodeId → Str → Str → Parses (Option NodeId)
unfolding strip_prefix backstitch.Text.Patterns.split_once_text
end_of paths path from_path = elim (get paths path) [
  | some id ↦ ok (some id)
  | none ↦ if is_temporary path then ok none else err (no_node from_path)
]

abbrev pub put_connection :
    GodotConnection → NodeId → Option NodeId → Map Str GodotConnection → Map Str GodotConnection
unfolding connection_id
put_connection c from none connections = connections
put_connection c from (some to) connections =
    let linked = record c { from_node_id = from; to_node_id = to } in
    insert connections (connection_id linked) linked

abbrev pub connect_from :
    Map Str NodeId
    → PathConnection
    → Option NodeId
    → Map Str GodotConnection
    → Parses (Map Str GodotConnection)
unfolding end_of
connect_from paths c none connections = ok connections
connect_from paths c (some from) connections = do
  to ← end_of paths c.to_path c.from_path
  ok (put_connection c.placed from to connections)

-- the loop over the connections
unfoldable pub connect :
    Map Str NodeId
    → List PathConnection
    → Map Str GodotConnection
    → Parses (Map Str GodotConnection)
unfolding connect_from end_of
connect paths [] connections = ok connections
connect paths (c ∷ rest) connections = do
  from ← end_of paths c.from_path c.from_path
  next ← connect_from paths c from connections
  connect paths rest next

abbrev pub metadata_of : Option SceneMetadata → Parses SceneMetadata
metadata_of none = err missing_header
metadata_of (some m) = ok m

abbrev pub start_placing : Parts → Placed
start_placing parts = record {
  parsed_node_ids = parts.parsed_node_ids;
  root_node_id = none;
  node_id_by_node_path = [];
  nodes = [];
  keys = [];
  drawn = 0;
}

-- what follows the loop over the sections
unfoldable pub assemble : (ℕ → ℤ) → ℕ → Parts → Parses GodotScene
unfolding place_nodes attach_nodes connect
assemble random fuel parts = do
  placed ← place_nodes random fuel parts.node_arr (start_placing parts)
  nodes ← attach_nodes placed.node_id_by_node_path placed.keys placed.nodes
  connections ← connect placed.node_id_by_node_path parts.connections_arr []
  metadata ← metadata_of parts.scene_metadata
  ok (record {
    load_steps = metadata.load_steps;
    format = metadata.format;
    uid = metadata.uid;
    script_class = metadata.script_class;
    resource_type = metadata.resource_type;
    root_node_id = placed.root_node_id;
    ext_resources = parts.ext_resources;
    sub_resources = parts.sub_resources;
    nodes = nodes;
    connections = connections;
    editable_instances = parts.editable_instances;
    main_resource = parts.main_resource;
  })

abbrev pub sections_of : List (List Capture) → List Section
unfolding read_captures
sections_of [] = []
sections_of (captures ∷ rest) = read_captures captures no_section ∷ sections_of rest

-- The parse of what tree-sitter finds in a text, none if it finds no tree. The fuel is for the draws of
-- ids and for the climb from an override to its instances.
unfoldable pub parse_scene : (ℕ → ℤ) → ℕ → Option (List (List Capture)) → Parses GodotScene
unfolding read_sections assemble sections_of
parse_scene random fuel none = err failed_to_parse
parse_scene random fuel (some found) = do
  parts ← read_sections (sections_of found) no_parts
  assemble random fuel parts

abbrev is_header : Str → Bool
is_header line = starts_with (bytes "gd_resource") line || starts_with (bytes "gd_scene") line

abbrev pub header_of : Option Str → Bool
unfolding trim strip_prefix
header_of none = false
header_of (some after) = is_header (trim after)

-- the first line that is no comment and not empty decides
unfoldable pub recognize_lines : List Str → Bool
unfolding trim strip_prefix header_of
recognize_lines [] = false
recognize_lines (line ∷ lines) =
    let later = recognize_lines lines in
    if starts_with (bytes ";") (trim line) || is_empty (trim line)
    then later
    else header_of (strip_prefix (bytes "[") (trim line))

-- The lines of the text; what `lines` takes off them besides the ends of the lines is trimmed.
unfoldable pub recognize_scene : Str → Bool
unfolding recognize_lines split
recognize_scene source = recognize_lines (split 10 source)
