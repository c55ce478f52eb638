-- ===== src/Diff/Properties.antt =====
-- backstitch/src/diff/scene_differ.rs: the diff of one property, with `start_load_ext_resource` of
-- backstitch/src/diff/differ.rs. A loaded resource is the URL from which the engine loads it later.
use backstitch.Prelude.{
  ℕ, ◌||◌, Option, none, some, List, [], ◌∷◌, ◌++◌, Str, bytes, Outcome, ok, err, panic, ◌>>=◌, Eq,
  contains, list_eq, nat_eq, if◌then◌else◌,
}
use backstitch.Prelude.Maps.{get, keys}
use backstitch.Text.Patterns.{ends_with}
use backstitch.History.Ids.{Ids}
use backstitch.History.Ref.{HistoryRef}
use backstitch.History.Path.{make_path_string}
use backstitch.Fs.Traversal.{ChangeType, created, deleted, modified}
use backstitch.Scene.{GodotScene, StillRunning}
use backstitch.Diff.Values.{
  VariantStrValue, variant, resource_path, sub_resource_id, ext_resource_id, default_value,
  VariantValue, plain, default_of, lazy_load_data, script, PropertyGetter, get_varstr_value,
}
use backstitch.Diff.Changes.{did_prop_change}

pub record PropertyDiff : Type 0 where
  pub name : Str
  pub change_type : ChangeType
  pub old_value : Option VariantValue
  pub new_value : Option VariantValue

-- how an item that is in one of two places, or in both, has changed
abbrev pub change_type_of : {A B : Type 0} → Option A → Option B → ChangeType
change_type_of none (some new) = created
change_type_of (some old) none = deleted
change_type_of _ _ = modified

-- a HashSet with some keys put into it
abbrev pub insert_all : {K : Type 0} ⦃e : Eq K⦄ → List K → List K → List K
insert_all [] set = set
insert_all (k ∷ ks) set = let rest = insert_all ks set in if contains rest k then rest else k ∷ rest

abbrev pub names_of : Option PropertyGetter → List Str
names_of none = []
names_of (some node) = keys node.get_properties

-- the properties of two nodes
abbrev pub property_names : Option PropertyGetter → Option PropertyGetter → List Str
property_names old_node new_node =
    insert_all (names_of new_node) (insert_all (names_of old_node) [])

unfoldable pub get_varstr_or_default :
    Str → Option PropertyGetter → Outcome StillRunning (Option VariantStrValue)
unfolding get_varstr_value
get_varstr_or_default prop none = ok none
get_varstr_or_default prop (some node) = elim (get node.get_properties prop) [
  | none ↦ ok (some (default_value node.get_type_or_instance prop))
  | some val ↦ do v ← get_varstr_value val.value; ok (some v)
]

-- the path of an ExtResource of the scene
abbrev ext_resource_path : Option GodotScene → Str → Option Str
ext_resource_path none id = none
ext_resource_path (some scene) id = elim (get scene.ext_resources id) [
  | none ↦ none
  | some ext_resource ↦ some ext_resource.path
]

module _ (ids : Ids) where
  open ids use {DocumentId, ChangeHash}

  unfoldable pub start_load_ext_resource : Str → HistoryRef DocumentId ChangeHash → Outcome Str Str
  unfolding make_path_string
  start_load_ext_resource path ref_ = elim (make_path_string ids ref_ path) [
    | ok load_path ↦ ok load_path
    | err e ↦ err (bytes "Invalid history ref path")
    | panic ↦ panic
  ]

  -- the value that stands for the resource of a path, or for the failure to load it
  unfoldable pub load_value :
      Str → HistoryRef DocumentId ChangeHash → Outcome StillRunning VariantValue
  unfolding start_load_ext_resource
  load_value path ref_ = elim (start_load_ext_resource path ref_) [
    | ok load_path ↦ ok (lazy_load_data path load_path)
    | err e ↦ ok (
        plain
          (bytes "\"<ExtResource " ++ (path ++ (bytes " load failed (" ++ (e ++ bytes ")>\"")))))
    | panic ↦ panic
  ]

  abbrev load_ext_resource :
      Option Str → Str → HistoryRef DocumentId ChangeHash → Outcome StillRunning VariantValue
  load_ext_resource none id ref_ =
      ok (plain (bytes "\"<ExtResource " ++ (id ++ bytes " not found>\"")))
  load_ext_resource (some p) id ref_ =
      if ends_with (bytes ".gd") p || ends_with (bytes ".cs") p
      then ok (script p)
      else load_value p ref_

  -- The ref is `before` for an old value and `after` for a new one.
  unfoldable pub get_prop_value :
      VariantStrValue
      → Option GodotScene
      → HistoryRef DocumentId ChangeHash
      → Outcome StillRunning VariantValue
  unfolding load_value ends_with
  get_prop_value (variant v) scene ref_ = ok (plain v)
  get_prop_value (sub_resource_id id) scene ref_ =
      ok (plain (bytes "\"<SubResource " ++ (id ++ bytes " changed>\"")))
  get_prop_value (resource_path path) scene ref_ = load_value path ref_
  get_prop_value (ext_resource_id id) scene ref_ =
      load_ext_resource (ext_resource_path scene id) id ref_
  get_prop_value (default_value type_or_instance prop) scene ref_ =
      ok (default_of type_or_instance prop)

  abbrev pub get_value :
      Option VariantStrValue
      → Option GodotScene
      → HistoryRef DocumentId ChangeHash
      → Outcome StillRunning (Option VariantValue)
  get_value none scene ref_ = ok none
  get_value (some v) scene ref_ = do value ← get_prop_value v scene ref_; ok (some value)

  module _ (fuel : ℕ) (old_scene new_scene : Option GodotScene)
      (before after : HistoryRef DocumentId ChangeHash) where
    abbrev pub property_diff :
        Str
        → Option PropertyGetter
        → Option PropertyGetter
        → Option VariantStrValue
        → Option VariantStrValue
        → Outcome StillRunning (Option PropertyDiff)
    property_diff prop old_node new_node old_value new_value = do
      old ← get_value old_value old_scene before
      new ← get_value new_value new_scene after
      ok (
          some (record {
            name = prop;
            change_type = change_type_of old_node new_node;
            old_value = old;
            new_value = new;
          }))

    unfoldable pub get_property_diff :
        Str
        → Option PropertyGetter
        → Option PropertyGetter
        → Outcome StillRunning (Option PropertyDiff)
    unfolding get_varstr_or_default did_prop_change get_prop_value
    get_property_diff prop none none = ok none
    get_property_diff prop old_node new_node = do
      old_value ← get_varstr_or_default prop old_node
      new_value ← get_varstr_or_default prop new_node
      changed ← did_prop_change fuel old_value new_value old_scene new_scene
      if changed then property_diff prop old_node new_node old_value new_value else ok none
