-- ===== src/Diff/Changes.antt =====
-- backstitch/src/diff/scene_differ.rs: whether a property changed. A sub-resource is compared by its
-- properties, which may refer to other sub-resources: the recursion takes fuel.
use backstitch.Prelude.{
  ℕ, zero, suc, Bool, true, false, not, ◌||◌, Option, none, some, List, [], ◌∷◌, Str, Outcome, ok,
  err, ◌>>=◌, any, list_beq, list_eq, nat_eq, option_beq, if◌then◌else◌,
}
use backstitch.Prelude.Maps.{Map, get, has_value}
use backstitch.Scene.{
  OrderedProperty, ExternalResourceNode, SubResourceNode, GodotScene, StillRunning, still_running,
}
use backstitch.Diff.Values.{
  VariantStrValue, variant, resource_path, sub_resource_id, ext_resource_id, get_varstr_value,
}

-- a comparison of two values
abbrev pub Compare : Type 0
Compare = VariantStrValue → VariantStrValue → Outcome StillRunning Bool

-- the loop over the new properties, in the order of the map, which a HashMap leaves open; at a
-- property that the old ones have not, the loop returns false
unfoldable pub did_any_property_change :
    Compare → Map Str OrderedProperty → List (Str × OrderedProperty) → Outcome StillRunning Bool
did_any_property_change changed old_properties [] = ok false
did_any_property_change changed old_properties ((path, new_prop) ∷ rest) =
    let later = did_any_property_change changed old_properties rest in
    elim (get old_properties path) [
      | none ↦ ok false
      | some old_prop ↦ do
        old ← get_varstr_value old_prop.value
        new ← get_varstr_value new_prop.value
        c ← changed old new
        if c then ok true else later
    ]

-- some old property is not among the new ones
abbrev pub any_removed : Map Str OrderedProperty → Map Str OrderedProperty → Bool
any_removed old_properties new_properties =
    any (λ (entry : Str × OrderedProperty). not (has_value (get new_properties entry.0)))
      old_properties

unfoldable pub did_sub_resource_change :
    Compare → Option SubResourceNode → Option SubResourceNode → Outcome StillRunning Bool
unfolding did_any_property_change
did_sub_resource_change changed none none = ok false
did_sub_resource_change changed none (some new) = ok true
did_sub_resource_change changed (some old) none = ok true
did_sub_resource_change changed (some old) (some new) =
    if not (list_beq old.resource_type new.resource_type)
    then ok true
    else if any_removed old.properties new.properties
    then ok true
    else did_any_property_change changed old.properties new.properties

unfoldable pub did_ext_resource_reference_change :
    Option ExternalResourceNode → Option ExternalResourceNode → Bool
did_ext_resource_reference_change none none = false
did_ext_resource_reference_change none (some new) = true
did_ext_resource_reference_change (some old) none = true
did_ext_resource_reference_change (some old) (some new) =
    not (list_beq old.resource_type new.resource_type)
    || (not (list_beq old.path new.path) || not (option_beq old.uid new.uid))

-- the comparison of two values, each in its scene
unfoldable pub compare_in : Compare → GodotScene → GodotScene → Compare
unfolding did_sub_resource_change did_ext_resource_reference_change
compare_in changed old_scene new_scene (sub_resource_id old) (sub_resource_id new) =
    did_sub_resource_change changed (get old_scene.sub_resources old)
      (get new_scene.sub_resources new)
compare_in changed old_scene new_scene (ext_resource_id old) (ext_resource_id new) = ok (
    did_ext_resource_reference_change (get old_scene.ext_resources old)
      (get new_scene.ext_resources new))
compare_in changed old_scene new_scene (resource_path old) (resource_path new) =
    ok (not (list_beq old new))
compare_in changed old_scene new_scene (variant old) (variant new) = ok (not (list_beq old new))
compare_in changed old_scene new_scene _ _ = ok true

-- `did_prop_change` on two values and two scenes that are there
unfoldable pub did_value_change : ℕ → GodotScene → GodotScene → Compare
did_value_change zero old_scene new_scene old new = err still_running
did_value_change (suc fuel) old_scene new_scene old new =
    compare_in (did_value_change fuel old_scene new_scene) old_scene new_scene old new

unfoldable pub did_prop_change :
    ℕ
    → Option VariantStrValue
    → Option VariantStrValue
    → Option GodotScene
    → Option GodotScene
    → Outcome StillRunning Bool
unfolding did_value_change compare_in
did_prop_change fuel none none old_scene new_scene = ok false
did_prop_change fuel none (some new) old_scene new_scene = ok true
did_prop_change fuel (some old) none old_scene new_scene = ok true
did_prop_change fuel (some old) (some new) (some old_scene) (some new_scene) =
    did_value_change fuel old_scene new_scene old new
did_prop_change fuel (some old) (some new) none new_scene = ok true
did_prop_change fuel (some old) (some new) (some old_scene) none = ok true
