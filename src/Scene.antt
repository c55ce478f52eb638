-- ===== src/Scene.antt =====
-- backstitch/src/parser/godot_parser.rs and parser_defs.rs: the data of a scene, and the paths of its
-- nodes.
pub mod Numbers
pub mod Ids
pub mod Paths
pub mod Serialize
pub mod Document
pub mod Overrides
pub mod Quotes
use backstitch.Prelude.{
  ℕ, zero, suc, ◌≡◌, refl, ap, ◌↔◌, Bool, true, false, ◌&&◌, Option, none, some, List, [], ◌∷◌,
  ◌++◌, Str, bytes, Eq, eqb, eqb_iff, Outcome, ok, err, panic, is_empty, list_beq, list_eq,
  option_beq, option_beq_iff, nat_eq, arith, if◌then◌else◌,
}
use backstitch.Prelude.Maps.{Map, get}
use backstitch.Scene.Numbers.{ℤ, pos, negsuc}
use backstitch.Scene.Ids.{NodeId, to_string}

-- `PartialEq` of integers and of node ids
abbrev pub int_beq : ℤ → ℤ → Bool
int_beq (pos a) (pos b) = eqb a b
int_beq (negsuc a) (negsuc b) = eqb a b
int_beq _ _ = false

pub int_beq_iff : (a b : ℤ) → (int_beq a b ≡ true) ↔ (a ≡ b)
int_beq_iff (pos a) (pos b) = ground (arith, eqb_iff a b)
int_beq_iff (negsuc a) (negsuc b) = ground (arith, eqb_iff a b)
int_beq_iff (pos a) (negsuc b) = ground arith
int_beq_iff (negsuc a) (pos b) = ground arith

instance abbrev pub int_eq : Eq ℤ
int_eq = record { beq = int_beq; beq_iff = int_beq_iff }

abbrev pub node_id_beq : NodeId → NodeId → Bool
node_id_beq a b = int_beq a.id b.id && option_beq a.root_instance_id b.root_instance_id

pub node_id_beq_iff : (a b : NodeId) → (node_id_beq a b ≡ true) ↔ (a ≡ b)
node_id_beq_iff a b =
    ground (arith, int_beq_iff a.id b.id, option_beq_iff a.root_instance_id b.root_instance_id)

instance abbrev pub node_id_eq : Eq NodeId
node_id_eq = record { beq = node_id_beq; beq_iff = node_id_beq_iff }

pub record OrderedProperty : Type 0 where
  pub value : Str
  pub order : ℤ

pub data TypeOrInstance : Type 0 where
  type_name : Str → TypeOrInstance
  instance_id : Str → TypeOrInstance

pub record GodotNode : Type 0 where
  pub id : NodeId
  pub name : Str
  pub type_or_instance : Option TypeOrInstance
  pub instance_placeholder : Option Str
  pub parent_id : Option NodeId
  pub parent_path_fallback : Option Str
  pub parent_id_path : Option (List ℤ)
  pub owner : Option Str
  pub owner_uid_path : Option (List ℤ)
  pub index : Option ℤ
  pub groups : Option Str
  pub node_paths : Option Str
  pub properties : Map Str OrderedProperty
  pub child_node_ids : List NodeId

pub record GodotConnection : Type 0 where
  pub signal : Str
  pub from_node_id : NodeId
  pub to_node_id : NodeId
  pub method : Str
  pub flags : Option ℤ
  pub from_uid_path : Option (List ℤ)
  pub to_uid_path : Option (List ℤ)
  pub unbinds : Option ℤ
  pub binds : Option Str

pub record ExternalResourceNode : Type 0 where
  pub resource_type : Str
  pub uid : Option Str
  pub path : Str
  pub id : Str
  pub idx : ℤ

pub record SubResourceNode : Type 0 where
  pub id : Str
  pub resource_type : Str
  pub properties : Map Str OrderedProperty
  pub idx : ℤ

pub record GodotScene : Type 0 where
  pub load_steps : ℤ
  pub format : ℤ
  pub uid : Str
  pub script_class : Option Str
  pub resource_type : Str
  pub root_node_id : Option NodeId
  pub ext_resources : Map Str ExternalResourceNode
  pub sub_resources : Map Str SubResourceNode
  pub nodes : Map NodeId GodotNode
  pub connections : Map Str GodotConnection
  pub editable_instances : List Str
  pub main_resource : Option SubResourceNode

-- UNIQUE_SCENE_ID_UNASSIGNED
abbrev pub unique_scene_id_unassigned : NodeId
unique_scene_id_unassigned = record { id = pos 0; root_instance_id = none }

abbrev pub root_or_unassigned : Option NodeId → NodeId
root_or_unassigned none = unique_scene_id_unassigned
root_or_unassigned (some id) = id

abbrev pub is_root : GodotScene → NodeId → Bool
is_root scene id = node_id_beq id (root_or_unassigned scene.root_node_id)

-- the loop has not returned within the fuel
pub data StillRunning : Type 0 where
  still_running : StillRunning

-- the name of a node before the path below it
abbrev pub prepend : Str → Str → Str
prepend name path = if is_empty path then name else name ++ b'/' ∷ path

-- the return at a node that has a path of its parent
abbrev pub below_fallback : Str → Str → Str
below_fallback parent_path path =
    if list_beq parent_path (bytes ".") then path else parent_path ++ b'/' ∷ path

-- the loop of `get_node_path`; it panics at a node that is not in the scene
unfoldable pub walk : ℕ → GodotScene → Str → NodeId → Outcome StillRunning Str
walk zero scene path current_id = err still_running
walk (suc fuel) scene path current_id = elim (get scene.nodes current_id) [
  | none ↦ panic
  | some node ↦ elim node.parent_path_fallback [
    | some parent_path ↦ ok (below_fallback parent_path (prepend node.name path))
    | none ↦ elim node.parent_id [
      | none ↦ ok (prepend node.name path)
      | some parent_id ↦
          if is_root scene parent_id
          then ok (prepend node.name path)
          else walk fuel scene (prepend node.name path) parent_id
    ]
  ]
]

unfoldable pub get_node_path : ℕ → GodotScene → NodeId → Outcome StillRunning Str
unfolding walk
get_node_path fuel scene node_id =
    if is_root scene node_id then ok (bytes ".") else walk fuel scene [] node_id
