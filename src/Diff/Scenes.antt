-- ===== src/Diff/Scenes.antt =====
-- backstitch/src/diff/scene_differ.rs: the diffs of a scene and of a text resource.
use backstitch.Prelude.{
  ℕ, Option, none, some, List, [], ◌∷◌, Str, Outcome, ok, ◌>>=◌, list_eq, nat_eq,
}
use backstitch.Prelude.Maps.{get, keys}
use backstitch.History.Ids.{Ids}
use backstitch.History.Ref.{HistoryRef}
use backstitch.Fs.Traversal.{ChangeType}
use backstitch.Scene.Ids.{NodeId}
use backstitch.Scene.{node_id_eq, GodotNode, SubResourceNode, GodotScene, StillRunning}
use backstitch.Diff.Values.{node_getter}
use backstitch.Diff.Properties.{change_type_of, insert_all}
use backstitch.Diff.Nodes.{
  NodeDiff, SubResourceDiff, map_option, get_sub_resource_diff, get_node_diff,
}

pub record SceneDiff : Type 0 where
  pub path : Str
  pub change_type : ChangeType
  pub changed_nodes : List NodeDiff

pub record TextResourceDiff : Type 0 where
  pub path : Str
  pub resource_type : Str
  pub change_type : ChangeType
  pub changed_sub_resources : List SubResourceDiff
  pub changed_main_resource : Option SubResourceDiff

abbrev pub node_ids : Option GodotScene → List NodeId
node_ids none = []
node_ids (some scene) = keys scene.nodes

abbrev pub sub_resource_ids : Option GodotScene → List Str
sub_resource_ids none = []
sub_resource_ids (some scene) = keys scene.sub_resources

-- `get_ids_from_scene` of both scenes
abbrev pub all_node_ids : Option GodotScene → Option GodotScene → List NodeId
all_node_ids old_scene new_scene =
    insert_all (node_ids new_scene) (insert_all (node_ids old_scene) [])

abbrev pub all_sub_resource_ids : Option GodotScene → Option GodotScene → List Str
all_sub_resource_ids old_scene new_scene =
    insert_all (sub_resource_ids new_scene) (insert_all (sub_resource_ids old_scene) [])

abbrev pub get_node : Option GodotScene → NodeId → Option GodotNode
get_node none id = none
get_node (some scene) id = get scene.nodes id

abbrev get_sub_resource : Option GodotScene → Str → Option SubResourceNode
get_sub_resource none id = none
get_sub_resource (some scene) id = get scene.sub_resources id

abbrev pub get_main_resource : Option GodotScene → Option SubResourceNode
get_main_resource none = none
get_main_resource (some scene) = scene.main_resource

-- the field of the new scene, or of the old one
abbrev pub type_of_either : Option GodotScene → Option GodotScene → Str
type_of_either old_scene (some new) = new.resource_type
type_of_either (some old) none = old.resource_type
type_of_either none none = []

abbrev script_class_of_either : Option GodotScene → Option GodotScene → Option Str
script_class_of_either old_scene (some new) = new.script_class
script_class_of_either (some old) none = old.script_class
script_class_of_either none none = none

abbrev push_option : {A : Type 0} → Option A → List A → List A
push_option none items = items
push_option (some a) items = a ∷ items

abbrev with_script_class : Option Str → SubResourceDiff → SubResourceDiff
with_script_class script_class diff = record diff { script_class = script_class }

module _ (ids : Ids) where
  open ids use {DocumentId, ChangeHash}

  module _ (fuel : ℕ) (old_scene new_scene : Option GodotScene)
      (before after : HistoryRef DocumentId ChangeHash) where
    abbrev pub diff_node : NodeId → Outcome StillRunning (Option NodeDiff)
    diff_node node_id =
        get_node_diff ids fuel old_scene new_scene before after node_id
          (map_option node_getter (get_node old_scene node_id))
          (map_option node_getter (get_node new_scene node_id))

    unfoldable pub diff_nodes : List NodeId → Outcome StillRunning (List NodeDiff)
    unfolding get_node_diff node_getter
    diff_nodes [] = ok []
    diff_nodes (node_id ∷ rest) = do
      diff ← diff_node node_id
      node_diffs ← diff_nodes rest
      ok (push_option diff node_diffs)

    unfoldable pub get_scene_diff : Str → Outcome StillRunning SceneDiff
    unfolding diff_nodes
    get_scene_diff path = do
      node_diffs ← diff_nodes (all_node_ids old_scene new_scene)
      ok (record {
        path = path;
        change_type = change_type_of old_scene new_scene;
        changed_nodes = node_diffs;
      })

    unfoldable pub diff_sub_resources : List Str → Outcome StillRunning (List SubResourceDiff)
    unfolding get_sub_resource_diff
    diff_sub_resources [] = ok []
    diff_sub_resources (id ∷ rest) = do
      diff ←
          get_sub_resource_diff ids fuel old_scene new_scene before after id
            (get_sub_resource old_scene id) (get_sub_resource new_scene id)
      diffs ← diff_sub_resources rest
      ok (push_option diff diffs)

    unfoldable pub get_text_resource_diff : Str → Outcome StillRunning TextResourceDiff
    unfolding diff_sub_resources get_sub_resource_diff
    get_text_resource_diff path = do
      changed_sub_resources ← diff_sub_resources (all_sub_resource_ids old_scene new_scene)
      changed_main_resource ←
          get_sub_resource_diff ids fuel old_scene new_scene before after []
            (get_main_resource old_scene) (get_main_resource new_scene)
      ok (record {
        path = path;
        resource_type = type_of_either old_scene new_scene;
        change_type = change_type_of old_scene new_scene;
        changed_sub_resources = changed_sub_resources;
        changed_main_resource =
            map_option (with_script_class (script_class_of_either old_scene new_scene))
              changed_main_resource;
      })
