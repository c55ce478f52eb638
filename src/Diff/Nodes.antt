-- ===== src/Diff/Nodes.antt =====
-- backstitch/src/diff/scene_differ.rs: the diffs of a node and of a sub-resource.
use backstitch.Prelude.{
  ℕ, ◌≡◌, ◌↔◌, Bool, true, false, ◌&&◌, Option, none, some, List, [], ◌∷◌, Str, Outcome, ok, ◌>>=◌,
  Eq, list_beq, list_beq_iff, list_eq, nat_eq, option_beq, is_empty, arith, if◌then◌else◌,
}
use backstitch.Prelude.Maps.{Map, insert}
use backstitch.History.Ids.{Ids}
use backstitch.History.Ref.{HistoryRef}
use backstitch.Fs.Traversal.{ChangeType}
use backstitch.Scene.Ids.{NodeId}
use backstitch.Scene.{
  TypeOrInstance, type_name, instance_id, SubResourceNode, GodotScene, StillRunning, get_node_path,
}
use backstitch.Diff.Values.{PropertyGetter, sub_resource_getter}
use backstitch.Diff.Properties.{PropertyDiff, change_type_of, property_names, get_property_diff}

pub record NodeDiff : Type 0 where
  pub change_type : ChangeType
  pub node_path : Str
  pub node_type : Option TypeOrInstance
  pub changed_properties : Map Str PropertyDiff

pub record SubResourceDiff : Type 0 where
  pub change_type : ChangeType
  pub sub_resource_id : Str
  pub resource_type : Str
  pub script_class : Option Str
  pub changed_properties : Map Str PropertyDiff

abbrev pub type_beq : TypeOrInstance → TypeOrInstance → Bool
type_beq (type_name a) (type_name b) = list_beq a b
type_beq (instance_id a) (instance_id b) = list_beq a b
type_beq _ _ = false

pub type_beq_iff : (a b : TypeOrInstance) → (type_beq a b ≡ true) ↔ (a ≡ b)
type_beq_iff (type_name a) (type_name b) = ground (arith, list_beq_iff a b)
type_beq_iff (instance_id a) (instance_id b) = ground (arith, list_beq_iff a b)
type_beq_iff (type_name a) (instance_id b) = ground arith
type_beq_iff (instance_id a) (type_name b) = ground arith

instance abbrev pub type_eq : Eq TypeOrInstance
type_eq = record { beq = type_beq; beq_iff = type_beq_iff }

-- the `Display` of a TypeOrInstance
abbrev pub type_text : TypeOrInstance → Str
type_text (type_name name) = name
type_text (instance_id id) = id

-- `a.or(b)`
abbrev pub or_else : {A : Type 0} → Option A → Option A → Option A
or_else none b = b
or_else (some a) b = some a

abbrev pub type_of : Option PropertyGetter → Option TypeOrInstance
type_of none = none
type_of (some node) = node.get_type_or_instance

-- `unwrap_or_default()` of a class name as a text
abbrev class_text : Option TypeOrInstance → Str
class_text none = []
class_text (some t) = type_text t

abbrev pub map_option : {A B : Type 0} → (A → B) → Option A → Option B
map_option f none = none
map_option f (some a) = some (f a)

module _ (ids : Ids) where
  open ids use {DocumentId, ChangeHash}

  module _ (fuel : ℕ) (old_scene new_scene : Option GodotScene)
      (before after : HistoryRef DocumentId ChangeHash) where
    abbrev pub put_diff : Str → Option PropertyDiff → Map Str PropertyDiff → Map Str PropertyDiff
    put_diff prop none changed_properties = changed_properties
    put_diff prop (some prop_diff) changed_properties = insert changed_properties prop prop_diff

    -- the loop over the properties
    unfoldable pub diff_properties :
        Option PropertyGetter
        → Option PropertyGetter
        → List Str
        → Map Str PropertyDiff
        → Outcome StillRunning (Map Str PropertyDiff)
    unfolding insert get_property_diff
    diff_properties old_node new_node [] changed_properties = ok changed_properties
    diff_properties old_node new_node (prop ∷ props) changed_properties = do
      prop_diff ← get_property_diff ids fuel old_scene new_scene before after prop old_node new_node
      diff_properties old_node new_node props (put_diff prop prop_diff changed_properties)

    unfoldable pub get_sub_resource_diff :
        Str
        → Option SubResourceNode
        → Option SubResourceNode
        → Outcome StillRunning (Option SubResourceDiff)
    unfolding diff_properties sub_resource_getter
    get_sub_resource_diff sub_resource_id none none = ok none
    get_sub_resource_diff sub_resource_id old_node new_node = do
      let old = map_option sub_resource_getter old_node
      let new = map_option sub_resource_getter new_node
      changed_properties ← diff_properties old new (property_names old new) []
      ok (
          some (record {
            change_type = change_type_of old_node new_node;
            sub_resource_id = sub_resource_id;
            resource_type = class_text (or_else (type_of old) (type_of new));
            script_class = none;
            changed_properties = changed_properties;
          }))

    -- the path in the scene that has the node; none returns none from the whole, and a node that is
    -- not in its scene panics
    abbrev path_of :
        Option PropertyGetter → Option PropertyGetter → NodeId → Outcome StillRunning (Option Str)
    path_of (some old) none node_id = elim old_scene [
      | none ↦ ok none
      | some scene ↦ do path ← get_node_path fuel scene node_id; ok (some path)
    ]
    path_of _ _ node_id = elim new_scene [
      | none ↦ ok none
      | some scene ↦ do path ← get_node_path fuel scene node_id; ok (some path)
    ]

    abbrev pub no_real_change :
        Option PropertyGetter → Option PropertyGetter → Map Str PropertyDiff → Bool
    no_real_change (some old) (some new) changed_properties =
        is_empty changed_properties && option_beq old.get_type_or_instance new.get_type_or_instance
    no_real_change _ _ changed_properties = false

    abbrev pub node_diff :
        Option PropertyGetter
        → Option PropertyGetter
        → Map Str PropertyDiff
        → Option Str
        → Option NodeDiff
    node_diff old_node new_node changed_properties none = none
    node_diff old_node new_node changed_properties (some path) = some (record {
      change_type = change_type_of old_node new_node;
      node_path = path;
      node_type = or_else (type_of new_node) (type_of old_node);
      changed_properties = changed_properties;
    })

    unfoldable pub get_node_diff :
        NodeId
        → Option PropertyGetter
        → Option PropertyGetter
        → Outcome StillRunning (Option NodeDiff)
    unfolding diff_properties get_node_path
    get_node_diff node_id none none = ok none
    get_node_diff node_id old_node new_node = do
      changed_properties ← diff_properties old_node new_node (property_names old_node new_node) []
      if no_real_change old_node new_node changed_properties then ok none else (do
        path ← path_of old_node new_node node_id
        ok (node_diff old_node new_node changed_properties path))
