-- ===== src/Diff/NodeChanges.antt =====
-- When a node is left out of a scene diff.
use backstitch.Prelude.{
  ℕ, sym, ◌++◌, Option-cases, ◌≡◌, ◌≢◌, refl, ◌↔◌, ap, ◌∙◌, Bool, true, false, Option, none, some,
  List, [], ◌∷◌, Str, Outcome, ok, err, panic, ◌>>=◌, >>=_steps, ok-injective, inl, inr, Bool-cases,
  All, option_beq_iff, is_empty, list_eq, nat_eq, arith,
}
use backstitch.Prelude.Maps.{Map, get, keys}
use backstitch.History.Ids.{Ids}
use backstitch.History.Ref.{HistoryRef}
use backstitch.Scene.Ids.{NodeId}
use backstitch.Scene.{GodotScene, StillRunning, OrderedProperty, TypeOrInstance}
use backstitch.Diff.Values.{VariantStrValue, default_value, PropertyGetter, get_varstr_value}
use backstitch.Diff.Changes.{did_value_change, did_prop_change}
use backstitch.Diff.Properties.{
  PropertyDiff, insert_all, property_names, property_diff, get_value, get_varstr_or_default,
  get_property_diff,
}
use backstitch.Scene.{get_node_path}
use backstitch.Diff.Nones.{
  insert_not_empty, never_none, never_none_later, same_of_none, All-split, All-join, All-insert_all,
  All-of_insert_all,
}
use backstitch.Diff.Nodes.{
  NodeDiff, type_eq, put_diff, no_real_change, node_diff, diff_properties, get_node_diff,
}

module _ (ids : Ids) (fuel : ℕ) (old_scene new_scene : GodotScene)
    (before after : HistoryRef ids.DocumentId ids.ChangeHash) (old new : PropertyGetter) where
  -- the value of a property of a node, the default of its type standing where it has none
  abbrev pub value_or_default :
      Option TypeOrInstance → Str → Option OrderedProperty → Outcome StillRunning VariantStrValue
  value_or_default node_type prop none = ok (default_value node_type prop)
  value_or_default node_type prop (some val) = get_varstr_value val.value

  abbrev pub value_in : PropertyGetter → Str → Outcome StillRunning VariantStrValue
  value_in node prop =
      value_or_default node.get_type_or_instance prop (get node.get_properties prop)

  -- a property of two nodes whose values are compared, and are the same
  abbrev pub IsUnchanged : Str → Type 0
  IsUnchanged prop =
      (do
        old_value ← value_in old prop
        new_value ← value_in new prop
        did_value_change fuel old_scene new_scene old_value new_value)
      ≡ ok false

  -- the comparison that the diff makes
  abbrev compared : Str → Outcome StillRunning Bool
  compared prop = do
    old_value ← get_varstr_or_default prop (some old)
    new_value ← get_varstr_or_default prop (some new)
    did_prop_change fuel old_value new_value (some old_scene) (some new_scene)

  get_varstr_or_default-value_in :
      (prop : Str) (node : PropertyGetter)
      → get_varstr_or_default prop (some node) ≡ (do v ← value_in node prop; ok (some v))
  unfolding get_varstr_or_default
  get_varstr_or_default-value_in prop node = elim (Option-cases (get node.get_properties prop)) [
    | inl absent ↦ rw (absent, get_varstr_or_default) refl
    | inr (val, found) ↦ rw (found, get_varstr_or_default) refl
  ]

  compared_values :
      (m n : Outcome StillRunning VariantStrValue)
      → (do
        a ← (do v ← m; ok (some v))
        b ← (do v ← n; ok (some v))
        did_prop_change fuel a b (some old_scene) (some new_scene))
        ≡ (do a ← m; b ← n; did_value_change fuel old_scene new_scene a b)
  unfolding did_prop_change
  compared_values (ok a) (ok b) = refl
  compared_values (ok a) (err e) = refl
  compared_values (ok a) panic = refl
  compared_values (err e) n = refl
  compared_values panic n = refl

  compared_eq :
      (prop : Str)
      → compared prop ≡ (do
        old_value ← value_in old prop
        new_value ← value_in new prop
        did_value_change fuel old_scene new_scene old_value new_value)
  compared_eq prop =
      rw (get_varstr_or_default-value_in prop old, get_varstr_or_default-value_in prop new)
        (compared_values (value_in old prop) (value_in new prop))

  abbrev diff_of : Str → Outcome StillRunning (Option PropertyDiff)
  diff_of prop =
      get_property_diff ids fuel (some old_scene) (some new_scene) before after prop (some old)
        (some new)

  -- A diff that is made is one.
  makes_diff :
      (prop : Str) (a b : Option VariantStrValue)
      → property_diff ids fuel
          (some old_scene)
          (some new_scene)
          before
          after
          prop
          (some old)
          (some new)
          a
          b
        ≢ ok none
  makes_diff prop a b h =
      never_none (get_value ids a (some old_scene) before) (get_value ids b (some new_scene) after)
        _ h

  compared_of_no_diff : (prop : Str) → diff_of prop ≡ ok none → compared prop ≡ ok false
  unfolding get_property_diff
  compared_of_no_diff prop h =
      let first = >>=_steps (get_varstr_or_default prop (some old)) _ none h in
      let second = >>=_steps (get_varstr_or_default prop (some new)) _ none first.1.1 in
      rw (first.1.0, second.1.0)
        (same_of_none
          (λ a b.
            property_diff ids fuel (some old_scene) (some new_scene) before after prop (some old)
              (some new) a b)
          first.0 second.0 _ (makes_diff prop first.0 second.0) second.1.1)

  same_of_no_diff : (prop : Str) → diff_of prop ≡ ok none → IsUnchanged prop
  same_of_no_diff prop h = sym (compared_eq prop) ∙ compared_of_no_diff prop h

  no_diff_of-compared : (prop : Str) → compared prop ≡ ok false → diff_of prop ≡ ok none
  unfolding get_property_diff
  no_diff_of-compared prop h =
      let first = >>=_steps (get_varstr_or_default prop (some old)) _ false h in
      let second = >>=_steps (get_varstr_or_default prop (some new)) _ false first.1.1 in
      rw (first.1.0, second.1.0, second.1.1) refl

  no_diff_of_same : (prop : Str) → IsUnchanged prop → diff_of prop ≡ ok none
  no_diff_of_same prop h = no_diff_of-compared prop (compared_eq prop ∙ h)

  abbrev diffs_of : List Str → Map Str PropertyDiff → Outcome StillRunning (Map Str PropertyDiff)
  diffs_of =
      diff_properties ids fuel (some old_scene) (some new_scene) before after (some old) (some new)

  abbrev put : Str → Option PropertyDiff → Map Str PropertyDiff → Map Str PropertyDiff
  put = put_diff ids fuel (some old_scene) (some new_scene) before after

  put_nothing :
      (prop : Str) (r : Option PropertyDiff) (m : Map Str PropertyDiff)
      → put prop r m ≡ []
      → (r ≡ none) × (m ≡ [])
  put_nothing prop none m h = (refl, h)
  put_nothing prop (some d) m h = absurd (ground (arith, insert_not_empty m prop d, ap is_empty h))

  diffs_agree :
      (props : List Str) (m : Map Str PropertyDiff)
      → diffs_of props m ≡ ok []
      → (m ≡ []) × All IsUnchanged props
  unfolding diff_properties
  diffs_agree [] m h = (ok-injective h, tt)
  diffs_agree (prop ∷ props) m h =
      let first = >>=_steps (diff_of prop) _ [] h in
      let later = diffs_agree props _ first.1.1 in
      let nothing = put_nothing prop first.0 m later.0 in
      (nothing.1, (same_of_no_diff prop (first.1.0 ∙ ap ok nothing.0), later.1))

  no_diffs : (props : List Str) → All IsUnchanged props → diffs_of props [] ≡ ok []
  unfolding diff_properties
  no_diffs [] h = refl
  no_diffs (prop ∷ props) h = rw (no_diff_of_same prop h.0) (no_diffs props h.1)

  abbrev names : List Str
  names = property_names (some old) (some new)

  abbrev diff_at : NodeId → Outcome StillRunning (Option NodeDiff)
  diff_at node_id =
      get_node_diff ids fuel (some old_scene) (some new_scene) before after node_id (some old)
        (some new)

  abbrev IsSameNode : Type 0
  IsSameNode = (old.get_type_or_instance ≡ new.get_type_or_instance) × All IsUnchanged names

  no_change_found :
      (changed_properties : Map Str PropertyDiff)
      → diffs_of names [] ≡ ok changed_properties
      → no_real_change ids fuel
          (some old_scene)
          (some new_scene)
          before
          after
          (some old)
          (some new)
          changed_properties
        ≡ true
      → IsSameNode
  no_change_found [] diffs no_change = (
    (option_beq_iff old.get_type_or_instance new.get_type_or_instance).0 no_change,
    (diffs_agree names [] diffs).1,
  )
  no_change_found (entry ∷ changed_properties) diffs no_change = absurd (cc)

  same_of_left_out : (node_id : NodeId) → diff_at node_id ≡ ok none → IsSameNode
  unfolding get_node_diff
  same_of_left_out node_id h =
      let first = >>=_steps (diffs_of names []) _ none h in
      elim (Bool-cases (
        no_real_change ids fuel (some old_scene) (some new_scene) before after (some old) (some new)
          first.0)) [
            | inl no_change ↦ no_change_found first.0 first.1.0 no_change
            | inr change ↦ absurd (
                never_none_later (get_node_path fuel new_scene node_id)
                  (node_diff ids fuel (some old_scene) (some new_scene) before after (some old)
                    (some new) first.0)
                  (λ path q. absurd (cc)) (rw change at first.1.1))
          ]

  left_out_of_same : (node_id : NodeId) → IsSameNode → diff_at node_id ≡ ok none
  unfolding get_node_diff
  left_out_of_same node_id h =
      rw
        (
          no_diffs names h.1,
          (option_beq_iff old.get_type_or_instance new.get_type_or_instance).1 h.0,
        )
        refl

  -- the names of the properties that the nodes have
  abbrev pub all_names : List Str
  all_names = keys old.get_properties ++ keys new.get_properties

  names_of_All : All IsUnchanged all_names → All IsUnchanged names
  names_of_All h =
      let (olds, news) =
        All-split IsUnchanged (keys old.get_properties) (keys new.get_properties) h in
      All-insert_all IsUnchanged (keys new.get_properties) _ news
        (All-insert_all IsUnchanged (keys old.get_properties) [] olds tt)

  All-of_names : All IsUnchanged names → All IsUnchanged all_names
  All-of_names h =
      let (news, rest) =
        All-of_insert_all IsUnchanged (keys new.get_properties)
          (insert_all (keys old.get_properties) []) h in
      All-join IsUnchanged (keys old.get_properties) (keys new.get_properties)
        (All-of_insert_all IsUnchanged (keys old.get_properties) [] rest).0 news

  -- A node that both scenes have is left out of the diff exactly if it has the same type in
  -- both and the comparison finds each property that one of them has unchanged, between the
  -- values that its texts parse to, the default of the node's type standing where a node has
  -- not the property.
  pub get_node_diff_left_out :
      (node_id : NodeId)
      → (get_node_diff ids fuel
            (some old_scene)
            (some new_scene)
            before
            after
            node_id
            (some old)
            (some new)
          ≡ ok none)
        ↔ ((old.get_type_or_instance ≡ new.get_type_or_instance)
            × All IsUnchanged (keys old.get_properties ++ keys new.get_properties))
  get_node_diff_left_out node_id = (
    (λ h. let (same, unchanged) = same_of_left_out node_id h in (same, All-of_names unchanged)),
    (λ h. left_out_of_same node_id (h.0, names_of_All h.1)),
  )
