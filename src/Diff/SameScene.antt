-- ===== src/Diff/SameScene.antt =====
-- What the diff of a scene and itself is.
use backstitch.Prelude.{
  ℕ, ◌≡◌, ◌<◌, refl, ap, Option, none, some, List, [], ◌∷◌, Str, Outcome, ok, ◌>>=◌, Eq, inl, inr,
  Bool-cases, option_beq_iff, contains, All, list_eq, nat_eq,
}
use backstitch.Prelude.Maps.{Map, get, keys, ForEach}
use backstitch.History.Ids.{Ids}
use backstitch.History.Ref.{HistoryRef}
use backstitch.Fs.Traversal.{modified}
use backstitch.Scene.Ids.{NodeId}
use backstitch.Scene.{node_id_eq, OrderedProperty, GodotNode, GodotScene, StillRunning}
use backstitch.Diff.Values.{VariantStrValue, PropertyGetter, get_varstr_value, node_getter}
use backstitch.Diff.Changes.{did_prop_change}
use backstitch.Diff.Properties.{
  insert_all, property_names, get_varstr_or_default, get_property_diff,
}
use backstitch.Diff.Nodes.{NodeDiff, type_eq, map_option, diff_properties, get_node_diff}
use backstitch.Diff.Scenes.{all_node_ids, diff_nodes, get_scene_diff}
use backstitch.Diff.Unchanged.{
  IsReadable, AreReadable, IsRanked, Distinct-Found, did_value_change-itself,
}

All-insert_all :
    {K : Type 0} ⦃e : Eq K⦄ (P : K → Type 0) (ks set : List K)
    → All P ks
    → All P set
    → All P (insert_all ks set)
All-insert_all P [] set h s = s
All-insert_all P (k ∷ ks) set h s = elim (Bool-cases (contains (insert_all ks set) k)) [
  | inl old ↦ rw old (All-insert_all P ks set h.1 s)
  | inr new ↦ rw new (h.0, All-insert_all P ks set h.1 s)
]

-- a name at which the properties have a value that can be read
abbrev IsGiven : (Str → ℕ) → ℕ → Map Str OrderedProperty → Str → Type 0
IsGiven rank bound properties name =
    (prop : OrderedProperty) × ((get properties name ≡ some prop) × IsReadable rank bound prop)

All-IsGiven :
    (rank : Str → ℕ) (bound : ℕ) (properties entries : Map Str OrderedProperty)
    → All (λ entry. get properties entry.0 ≡ some entry.1) entries
    → All (λ (entry : Str × OrderedProperty). IsReadable rank bound entry.1) entries
    → All (IsGiven rank bound properties) (keys entries)
All-IsGiven rank bound properties [] found readable = tt
All-IsGiven rank bound properties (entry ∷ entries) found readable =
    ((entry.1, (found.0, readable.0)), All-IsGiven rank bound properties entries found.1 readable.1)

names-IsGiven :
    (rank : Str → ℕ) (bound : ℕ) (node : PropertyGetter)
    → AreReadable rank bound node.get_properties
    → All (IsGiven rank bound node.get_properties) (property_names (some node) (some node))
names-IsGiven rank bound node readable =
    let given : All (IsGiven rank bound node.get_properties) (keys node.get_properties) =
      All-IsGiven rank bound node.get_properties node.get_properties
        (Distinct-Found node.get_properties readable.0) readable.1 in
    let P : Str → Type 0 = IsGiven rank bound node.get_properties in
    All-insert_all P (keys node.get_properties) (insert_all (keys node.get_properties) []) given
      (All-insert_all P (keys node.get_properties) [] given tt)

given_value :
    (prop : Str) (node : PropertyGetter) (p : OrderedProperty) (v : VariantStrValue)
    → get node.get_properties prop ≡ some p
    → get_varstr_value p.value ≡ ok v
    → get_varstr_or_default prop (some node) ≡ ok (some v)
unfolding get_varstr_or_default
given_value prop node p v found reads = rw (found, get_varstr_or_default, reads) refl

module _ (ids : Ids) (fuel bound : ℕ) (rank : Str → ℕ) (scene : GodotScene) where
  open ids use {DocumentId, ChangeHash}

  same_property :
      (before after : HistoryRef DocumentId ChangeHash) (prop : Str) (node : PropertyGetter)
      → IsRanked rank scene
      → bound < fuel
      → IsGiven rank bound node.get_properties prop
      → get_property_diff ids fuel
          (some scene)
          (some scene)
          before
          after
          prop
          (some node)
          (some node)
        ≡ ok none
  unfolding get_property_diff get_varstr_or_default did_prop_change
  same_property before after prop node ranked enough (p, (found, (v, (reads, low)))) =
      rw
        (
          given_value prop node p v found reads,
          did_value_change-itself rank scene bound fuel ranked enough p.value v reads low,
        )
        refl

  same_properties :
      (before after : HistoryRef DocumentId ChangeHash) (node : PropertyGetter) (names : List Str)
      → IsRanked rank scene
      → bound < fuel
      → All (IsGiven rank bound node.get_properties) names
      → diff_properties ids fuel
          (some scene)
          (some scene)
          before
          after
          (some node)
          (some node)
          names
          []
        ≡ ok []
  unfolding diff_properties
  same_properties before after node [] ranked enough given = refl
  same_properties before after node (name ∷ names) ranked enough given =
      rw (same_property before after name node ranked enough given.0)
        (same_properties before after node names ranked enough given.1)

  same_node :
      (before after : HistoryRef DocumentId ChangeHash) (id : NodeId) (node : Option GodotNode)
      → IsRanked rank scene
      → bound < fuel
      → ((n : GodotNode) → node ≡ some n → AreReadable rank bound n.properties)
      → get_node_diff ids fuel
          (some scene)
          (some scene)
          before
          after
          id
          (map_option node_getter node)
          (map_option node_getter node)
        ≡ ok none
  unfolding get_node_diff node_getter
  same_node before after id none ranked enough readable = refl
  same_node before after id (some node) ranked enough readable =
      rw
        (
          same_properties before after (node_getter node)
              (property_names (some (node_getter node)) (some (node_getter node))) ranked enough
              (names-IsGiven rank bound (node_getter node) (readable node refl)),
          (option_beq_iff node.type_or_instance node.type_or_instance).1 refl,
        )
        refl

  same_nodes :
      (before after : HistoryRef DocumentId ChangeHash) (node_ids : List NodeId)
      → IsRanked rank scene
      → bound < fuel
      → ForEach (λ id (node : GodotNode). AreReadable rank bound node.properties) scene.nodes
      → diff_nodes ids fuel (some scene) (some scene) before after node_ids ≡ ok []
  unfolding diff_nodes
  same_nodes before after [] ranked enough readable = refl
  same_nodes before after (id ∷ rest) ranked enough readable =
      rw
        (same_node before after id (get scene.nodes id) ranked enough
          (λ n found. readable id n found))
        (ap (λ (nodes : Outcome StillRunning (List NodeDiff)). do l ← nodes; ok l)
          (same_nodes before after rest ranked enough readable))

  -- If the sub-resources of a scene refer only to sub-resources of a lower rank, each value of
  -- a property parses and no node or sub-resource has two properties of a name, then the diff
  -- of the scene and itself returns, with more fuel than the height of the values of its nodes,
  -- and lists no node.
  pub get_scene_diff-itself :
      (before after : HistoryRef DocumentId ChangeHash) (path : Str)
      → IsRanked rank scene
      → ForEach (λ id (node : GodotNode). AreReadable rank bound node.properties) scene.nodes
      → bound < fuel
      → get_scene_diff ids fuel (some scene) (some scene) before after path
        ≡ ok (record { path = path; change_type = modified; changed_nodes = [] })
  unfolding get_scene_diff
  get_scene_diff-itself before after path ranked readable enough =
      rw (same_nodes before after (all_node_ids (some scene) (some scene)) ranked enough readable)
        refl
