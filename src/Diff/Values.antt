-- ===== src/Diff/Values.antt =====
-- backstitch/src/diff/scene_differ.rs: the values of properties, as the diff reads them.
use backstitch.Prelude.{
  ◌||◌, Option, none, some, Str, bytes, Outcome, ok, panic, ◌>>=◌, if◌then◌else◌,
}
use backstitch.Prelude.Maps.{Map}
use backstitch.Text.Patterns.{starts_with, contains_text, before, second_part, trim}
use backstitch.Scene.{
  OrderedProperty, TypeOrInstance, type_name, GodotNode, SubResourceNode, StillRunning,
}

pub data VariantStrValue : Type 0 where
  variant : Str → VariantStrValue
  resource_path : Str → VariantStrValue
  sub_resource_id : Str → VariantStrValue
  ext_resource_id : Str → VariantStrValue
  default_value : Option TypeOrInstance → Str → VariantStrValue

-- VariantValue
pub data VariantValue : Type 0 where
  plain : Str → VariantValue
  default_of : Option TypeOrInstance → Str → VariantValue
  lazy_load_data : Str → Str → VariantValue
  script : Str → VariantValue

-- a value that implements the trait PropertyGetter
pub record PropertyGetter : Type 0 where
  pub get_properties : Map Str OrderedProperty
  pub get_type_or_instance : Option TypeOrInstance

unfoldable pub node_getter : GodotNode → PropertyGetter
node_getter n = record { get_properties = n.properties; get_type_or_instance = n.type_or_instance }

unfoldable pub sub_resource_getter : SubResourceNode → PropertyGetter
sub_resource_getter n = record {
  get_properties = n.properties;
  get_type_or_instance = some (type_name n.resource_type);
}

-- the `unwrap` of an option
abbrev pub unwrap : {E A : Type 0} → Option A → Outcome E A
unwrap none = panic
unwrap (some a) = ok a

-- the path in `uid", "path`, or the whole
abbrev without_uid : Str → Outcome StillRunning Str
without_uid id =
    if contains_text (bytes "\", \"") id
    then (do path ← unwrap (second_part (bytes "\", \"") id); ok (trim path))
    else ok id

-- which of the three a reference is
abbrev reference : Str → Str → Outcome StillRunning VariantStrValue
reference prop_value id =
    if contains_text (bytes "SubResource(") prop_value
    then ok (sub_resource_id id)
    else if contains_text (bytes "ExtResource(") prop_value
    then ok (ext_resource_id id)
    else do path ← without_uid id; ok (resource_path path)

-- a reference without `("` makes it panic
unfoldable pub get_varstr_value : Str → Outcome StillRunning VariantStrValue
get_varstr_value prop_value =
    if starts_with (bytes "Resource(") prop_value
      || (starts_with (bytes "SubResource(") prop_value
          || starts_with (bytes "ExtResource(") prop_value)
    then (do
      inner ← unwrap (second_part (bytes "(\"") prop_value)
      reference prop_value (trim (before (bytes "\")") inner)))
    else ok (variant prop_value)
