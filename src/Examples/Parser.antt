-- ===== src/Examples/Parser.antt =====
-- A scene of two nodes, and an override below a node that is not there.
use backstitch.Prelude.{
  ℕ, ◌+◌, ◌<◌, ◌≡◌, refl, Bool, true, false, Option, none, some, List, [], ◌∷◌, ◌++◌, Str, bytes,
  ok, err, nat_eq, list_eq, arith, if◌then◌else◌,
}
use backstitch.Prelude.Maps.{Map, get}
use backstitch.Scene.Numbers.{ℤ, pos}
use backstitch.Scene.Ids.{NodeId}
use backstitch.Scene.{type_name, GodotNode, GodotScene}
use backstitch.Parser.Attributes.{Capture, runs_on}
use backstitch.Parser.Placing.{Placed, climb, find_override}
use backstitch.Parser.Assembly.{parse_scene, recognize_scene}
use backstitch.Parser.Linked.{IsLinked}
use backstitch.Parser.Forest.{parse_scene-IsLinked}
use backstitch.Parser.Climbing.{top, up, climb_ends, find_override-runs_on}

abbrev capture : ℕ → Str → Capture
capture index text = record { index = index; text = some text }

abbrev attribute : Str → Str → List Capture
attribute key value = capture 1 key ∷ capture 2 value ∷ []

abbrev two_nodes : List (List Capture)
two_nodes =
    (capture 0 (bytes "gd_scene")
      ∷ (attribute (bytes "format") (bytes "3") ++ attribute (bytes "uid") (bytes "\"u\"")))
    ∷ (capture 0 (bytes "node")
        ∷ (attribute (bytes "name") (bytes "\"A\"")
            ++ (attribute (bytes "type") (bytes "\"T\"")
                ++ attribute (bytes "unique_id") (bytes "4"))))
    ∷ (capture 0 (bytes "node")
        ∷ (attribute (bytes "name") (bytes "\"B\"")
            ++ (attribute (bytes "type") (bytes "\"T\"")
                ++ attribute (bytes "parent") (bytes "\".\""))))
    ∷ []

abbrev plain : ℤ → NodeId
plain n = record { id = n; root_instance_id = none }

abbrev draws : ℕ → ℤ
draws n = pos (n + 4)

abbrev node_of : ℕ → Str → Option NodeId → List NodeId → GodotNode
node_of id name parent_id children = record {
  id = plain (pos id);
  name = name;
  type_or_instance = some (type_name (bytes "T"));
  instance_placeholder = none;
  parent_id = parent_id;
  parent_path_fallback = none;
  parent_id_path = none;
  owner = none;
  owner_uid_path = none;
  index = none;
  groups = none;
  node_paths = none;
  properties = [];
  child_node_ids = children;
}

-- the id 4 is taken, so that the second draw is kept
abbrev parsed_scene : GodotScene
parsed_scene = record {
  load_steps = pos 0;
  format = pos 3;
  uid = bytes "u";
  script_class = none;
  resource_type = bytes "PackedScene";
  root_node_id = some (plain (pos 4));
  ext_resources = [];
  sub_resources = [];
  nodes =
      (plain (pos 4), node_of 4 (bytes "A") none (plain (pos 5) ∷ []))
      ∷ (plain (pos 5), node_of 5 (bytes "B") (some (plain (pos 4))) [])
      ∷ [];
  connections = [];
  editable_instances = [];
  main_resource = none;
}

parses : parse_scene draws 9 (some two_nodes) ≡ ok parsed_scene
unfolding parse_scene get backstitch.Prelude.Maps.insert backstitch.Text.slice
parses = refl

parse_scene-IsLinked_example : IsLinked parsed_scene
parse_scene-IsLinked_example = parse_scene-IsLinked draws 9 (some two_nodes) parsed_scene parses

abbrev known_paths : Map Str NodeId
known_paths = (bytes "A", plain (pos 4)) ∷ (bytes "A/B", plain (pos 5)) ∷ []

climb_ends_example :
    (r : Option NodeId × List ℤ) × (climb 4 known_paths parsed_scene.nodes (bytes "A/B") none []
      ≡ ok r)
unfolding get
climb_ends_example =
    climb_ends known_paths parsed_scene.nodes 4 (bytes "A/B") none []
      (up (bytes "A/B") (plain (pos 5)) refl (up (bytes "A") (plain (pos 4)) refl top))
      (omega arith)

-- an override of a node below `C`, which the scene does not have
abbrev orphan : GodotNode
orphan = record (node_of 6 (bytes "D") none []) {
  type_or_instance = none;
  parent_path_fallback = some (bytes "C");
}

abbrev placed : Placed
placed = record {
  parsed_node_ids = [];
  root_node_id = some (plain (pos 4));
  node_id_by_node_path = known_paths;
  nodes = parsed_scene.nodes;
  keys = [];
  drawn = 0;
}

find_override-runs_on_example : find_override 1000 orphan placed ≡ err runs_on
unfolding get
find_override-runs_on_example =
    find_override-runs_on 1000 orphan placed b'C' [] refl refl refl refl refl

recognized : recognize_scene (bytes "; a comment\n\n[gd_scene format=3]") ≡ true
unfolding recognize_scene
recognized = refl
