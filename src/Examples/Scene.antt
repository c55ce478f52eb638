-- ===== src/Examples/Scene.antt =====
-- A scene of three nodes, and the texts of ids.
use backstitch.Prelude.{
  ℕ, panic, ◌≡◌, ◌≢◌, ◌≤◌, refl, Bool, true, false, Option, none, some, List, [], ◌∷◌, Str, bytes,
  Outcome, ok, err, arith,
}
use backstitch.Scene.Numbers.{pos, negsuc}
use backstitch.Scene.Ids.{
  NodeId, invalid_node_id, to_string, from_str, from_str-to_string_id, from_str-to_string_negative,
}
use backstitch.Scene.{node_id_eq, GodotNode, GodotScene, get_node_path}
use backstitch.History.Ref.{HistoryRef}
use backstitch.History.Path.{from_str as path_from_str}
use backstitch.Scene.Serialize.{ext_path}
use backstitch.Scene.Overrides.{ext_path-from_str}
use backstitch.Examples.History.{two_ids, both, repair_cut_path}
use backstitch.Scene.Quotes.{unquote}
use backstitch.Scene.Paths.{Below, child_of_root, child_of, get_node_path-join}

abbrev pub id_of : ℕ → NodeId
id_of n = record { id = pos n; root_instance_id = none }

abbrev pub node : ℕ → Option NodeId → Str → GodotNode
node n parent name = record {
  id = id_of n;
  name = name;
  type_or_instance = none;
  instance_placeholder = none;
  parent_id = parent;
  parent_path_fallback = none;
  parent_id_path = none;
  owner = none;
  owner_uid_path = none;
  index = none;
  groups = none;
  node_paths = none;
  properties = [];
  child_node_ids = [];
}

abbrev pub house : GodotScene
house = record {
  load_steps = pos 0;
  format = pos 3;
  uid = bytes "uid://a";
  script_class = none;
  resource_type = bytes "PackedScene";
  root_node_id = some (id_of 1);
  ext_resources = [];
  sub_resources = [];
  nodes =
      (id_of 1, node 1 none (bytes "House"))
      ∷ (id_of 2, node 2 (some (id_of 1)) (bytes "Room"))
      ∷ (id_of 3, node 3 (some (id_of 2)) (bytes "Lamp"))
      ∷ [];
  connections = [];
  editable_instances = [];
  main_resource = none;
}

lamp_under_room : Below house (id_of 3) (bytes "Room" ∷ bytes "Lamp" ∷ [])
unfolding backstitch.Prelude.Maps.get
lamp_under_room =
    child_of (id_of 3) (id_of 2) (node 3 (some (id_of 2)) (bytes "Lamp")) (bytes "Room" ∷ []) refl
      refl refl refl
      (child_of_root (id_of 2) (id_of 1) (node 2 (some (id_of 1)) (bytes "Room")) refl refl refl
        refl)

get_node_path-join_example : get_node_path 3 house (id_of 3) ≡ ok (bytes "Room/Lamp")
unfolding backstitch.Text.join
get_node_path-join_example =
    get_node_path-join house (id_of 3) (bytes "Room" ∷ bytes "Lamp" ∷ []) 3 refl lamp_under_room
      (omega arith) (refl, (refl, tt))

abbrev instanced : NodeId
instanced = record { id = pos 42; root_instance_id = some (pos 7 ∷ []) }

instanced_full : instanced.root_instance_id ≢ some []
instanced_full e = cc

from_str-to_string_id_example : from_str (to_string instanced) ≡ ok instanced
from_str-to_string_id_example =
    from_str-to_string_id instanced (omega arith, (omega arith, tt)) instanced_full

from_str-to_string_negative_example :
    from_str (to_string (record { id = negsuc 4; root_instance_id = none })) ≡ err invalid_node_id
from_str-to_string_negative_example = from_str-to_string_negative 4 none

-- a house with an external resource
abbrev furnished : GodotScene
furnished = record house {
  ext_resources =
      (
        bytes "1_a",
        record {
          resource_type = bytes "Script";
          uid = some (bytes "uid://b");
          path = bytes "res://a.gd";
          id = bytes "1_a";
          idx = pos 0;
        },
      )
      ∷ [];
}

abbrev no_heads : HistoryRef Bool Bool
no_heads = record { branch = true; heads = [] }

ext_path-from_str_example :
    (s : Str) × (ext_path two_ids (some both) (bytes "res:/a.gd") ≡ ok s)
    × (path_from_str two_ids s ≡ ok (record { ref_ = both; path = bytes "res://a.gd" }))
ext_path-from_str_example =
    ext_path-from_str two_ids both (bytes "res:/a.gd") (bytes "res://a.gd") refl repair_cut_path

-- a lone quote makes `unquote` panic
lone_quote : unquote (bytes "\"") ≡ panic
unfolding unquote backstitch.Text.slice
lone_quote = refl
