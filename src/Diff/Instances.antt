-- ===== src/Diff/Instances.antt =====
-- The types of instanced nodes in `get_diff` of backstitch/src/diff/differ.rs: such a node has the
-- type of the root of the scene that it is an instance of. With `get_ext_resource_path` and
-- `get_root_node_type` of backstitch/src/parser/godot_parser.rs.
use backstitch.Prelude.{
  ℕ, zero, suc, Bool, true, false, Option, none, some, List, [], ◌∷◌, Str, bytes, Outcome, ok,
  panic, ◌>>=◌, contains, list_eq, nat_eq, if◌then◌else◌,
}
use backstitch.Prelude.Maps.{Map, get}
use backstitch.Text.Patterns.{trim_start_matches, trim_end_matches}
use backstitch.Fs.Traversal.{ChangeType, created, deleted, modified}
use backstitch.Scene.{node_id_eq, TypeOrInstance, instance_id, GodotScene, StillRunning}
use backstitch.Diff.Values.{unwrap}
use backstitch.Diff.Nodes.{NodeDiff}
use backstitch.Diff.Contents.{FileContent, scene_content}

unfoldable pub get_ext_resource_path : GodotScene → Str → Option Str
unfolding trim_end_matches
get_ext_resource_path scene ext_resource_id =
    let id =
      trim_end_matches (bytes "\")")
        (trim_start_matches (bytes "ExtResource(\"") ext_resource_id) in
    elim (get scene.ext_resources id) [ none ↦ none | some ext_resource ↦ some ext_resource.path ]

unfoldable pub get_root_node_type : GodotScene → Option TypeOrInstance
get_root_node_type scene = elim scene.root_node_id [
  | none ↦ none
  | some root_node_id ↦ elim (get scene.nodes root_node_id) [
    | none ↦ none
    | some node ↦ node.type_or_instance
  ]
]

-- the entry of a file whose content is a scene
abbrev pub as_scene : Option FileContent → Option GodotScene
as_scene (some (scene_content scene)) = some scene
as_scene _ = none

-- Whether the scene with the type is to be loaded at the new ref, and its path.
abbrev pub InstancePath : Type 0
InstancePath = Bool × Str

abbrev instance_of : Option TypeOrInstance → Option Str
instance_of (some (instance_id id)) = some id
instance_of _ = none

abbrev pub with_type : Option TypeOrInstance → NodeDiff → NodeDiff
with_type node_type node_diff = record node_diff { node_type = node_type }

-- the type from a scene among the contents, or the path of the one to load
abbrev resolve_loaded : Bool → Str → Option GodotScene → NodeDiff → NodeDiff × Option InstancePath
resolve_loaded is_new instance_path (some scene) node_diff =
    (with_type (get_root_node_type scene) node_diff, none)
resolve_loaded is_new instance_path none node_diff = (node_diff, some (is_new, instance_path))

abbrev resolve_path :
    Bool → Map Str FileContent → Option Str → NodeDiff → NodeDiff × Option InstancePath
resolve_path is_new contents none node_diff = (node_diff, none)
resolve_path is_new contents (some instance_path) node_diff =
    resolve_loaded is_new instance_path (as_scene (get contents instance_path)) node_diff

module _ (old_scene new_scene : Option GodotScene)
    (old_contents new_contents : Map Str FileContent) where
  abbrev resolve_instance :
      Str → ChangeType → NodeDiff → Outcome StillRunning (NodeDiff × Option InstancePath)
  resolve_instance id deleted node_diff = do
    scene ← unwrap old_scene
    ok (resolve_path false old_contents (get_ext_resource_path scene id) node_diff)
  resolve_instance id created node_diff = do
    scene ← unwrap new_scene
    ok (resolve_path true new_contents (get_ext_resource_path scene id) node_diff)
  resolve_instance id modified node_diff = do
    scene ← unwrap new_scene
    ok (resolve_path true new_contents (get_ext_resource_path scene id) node_diff)

  unfoldable pub resolve_node : NodeDiff → Outcome StillRunning (NodeDiff × Option InstancePath)
  unfolding get_ext_resource_path get_root_node_type
  resolve_node node_diff = elim (instance_of node_diff.node_type) [
    | none ↦ ok (node_diff, none)
    | some id ↦ resolve_instance id node_diff.change_type node_diff
  ]

  abbrev put_needed : ℕ → Option InstancePath → Map ℕ InstancePath → Map ℕ InstancePath
  put_needed idx none needed = needed
  put_needed idx (some instance) needed = (idx, instance) ∷ needed

  -- the loop over the changed nodes; each index is met once
  unfoldable pub resolve_nodes :
      ℕ → List NodeDiff → Outcome StillRunning (List NodeDiff × Map ℕ InstancePath)
  unfolding resolve_node
  resolve_nodes idx [] = ok ([], [])
  resolve_nodes idx (node_diff ∷ rest) = do
    resolved ← resolve_node node_diff
    later ← resolve_nodes (suc idx) rest
    ok (resolved.0 ∷ later.0, put_needed idx resolved.1 later.1)

-- the paths to load at one of the refs, in a HashSet
abbrev pub paths_to_load : Bool → Map ℕ InstancePath → List Str → List Str
paths_to_load at_new [] set = set
paths_to_load at_new ((idx, (is_new, path)) ∷ needed) set =
    let rest = paths_to_load at_new needed set in
    if (if at_new then is_new else (if is_new then false else true))
    then (if contains rest path then rest else path ∷ rest)
    else rest

-- `changed_nodes[idx].node_type = ...`
unfoldable pub set_type_at :
    ℕ → Option TypeOrInstance → List NodeDiff → Outcome StillRunning (List NodeDiff)
set_type_at idx node_type [] = panic
set_type_at zero node_type (node_diff ∷ rest) = ok (with_type node_type node_diff ∷ rest)
set_type_at (suc idx) node_type (node_diff ∷ rest) = do
  nodes ← set_type_at idx node_type rest
  ok (node_diff ∷ nodes)

-- The loop that sets the types from the scenes that were loaded. It looks for the scene of a node that
-- `is_new` among those of the old ref, and for the others among those of the new one.
unfoldable pub set_types :
    Map Str FileContent
    → Map Str FileContent
    → Map ℕ InstancePath
    → List NodeDiff
    → Outcome StillRunning (List NodeDiff)
unfolding set_type_at get_root_node_type
set_types old_needed_scenes new_needed_scenes [] changed_nodes = ok changed_nodes
set_types old_needed_scenes new_needed_scenes ((node_idx, (is_new, instance_path)) ∷ needed)
      changed_nodes =
    do
      nodes ←
          elim (as_scene
            (get (if is_new then old_needed_scenes else new_needed_scenes) instance_path)) [
              | none ↦ ok changed_nodes
              | some scene ↦ set_type_at node_idx (get_root_node_type scene) changed_nodes
            ]
      set_types old_needed_scenes new_needed_scenes needed nodes
