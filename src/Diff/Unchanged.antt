-- ===== src/Diff/Unchanged.antt =====
-- What the diff finds between a scene and itself.
use backstitch.Prelude.{
  ℕ, zero, suc, ◌≡◌, ◌≤◌, ◌<◌, refl, ap, false, Option, none, some, [], ◌∷◌, Str, ok, Eq, ◌==◌, inl,
  inr, Bool-cases, beq_refl, option_beq_iff, All, list_eq, nat_eq, arith,
}
use backstitch.Prelude.Maps.{Map, get, ForEach, Distinct}
use backstitch.Scene.{
  OrderedProperty, TypeOrInstance, ExternalResourceNode, SubResourceNode, GodotScene,
}
use backstitch.Diff.Values.{
  VariantStrValue, variant, resource_path, sub_resource_id, ext_resource_id, default_value,
  get_varstr_value,
}
use backstitch.Diff.Changes.{
  Compare, any_removed, did_any_property_change, did_sub_resource_change,
  did_ext_resource_reference_change, compare_in, did_value_change,
}

-- how far a value is from the values that refer to no sub-resource
abbrev pub height : (Str → ℕ) → VariantStrValue → ℕ
height rank (sub_resource_id id) = suc (rank id)
height rank _ = 0

-- the value of a property parses, to a value of at most this height
abbrev pub IsReadable : (Str → ℕ) → ℕ → OrderedProperty → Type 0
IsReadable rank bound prop =
    (v : VariantStrValue) × ((get_varstr_value prop.value ≡ ok v) × (height rank v ≤ bound))

-- `HashMap` properties with such values
abbrev pub AreReadable : (Str → ℕ) → ℕ → Map Str OrderedProperty → Type 0
AreReadable rank bound properties =
    Distinct properties
    × All (λ (entry : Str × OrderedProperty). IsReadable rank bound entry.1) properties

-- The properties of each sub-resource refer only to sub-resources of a lower rank.
abbrev pub IsRanked : (Str → ℕ) → GodotScene → Type 0
IsRanked rank scene =
    ForEach (λ id (node : SubResourceNode). AreReadable rank (rank id) node.properties)
      scene.sub_resources

-- Each entry of a `HashMap` is the one that a lookup finds.
module _ {K V : Type 0} ⦃e : Eq K⦄ where
  abbrev Found : Map K V → K × V → Type 0
  Found m entry = get m entry.0 ≡ some entry.1

  Found-cons :
      (k : K) (v : V) (m : Map K V) (entry : K × V)
      → get m k ≡ none
      → Found m entry
      → Found ((k, v) ∷ m) entry
  unfolding get
  Found-cons k v m (j, w) absent found = elim (Bool-cases (k == j)) [
    | inl same ↦ absurd (ground (arith, e.beq_iff k j))
    | inr other ↦ rw other found
  ]

  All-Found :
      (k : K) (v : V) (m rest : Map K V)
      → get m k ≡ none
      → All (Found m) rest
      → All (Found ((k, v) ∷ m)) rest
  All-Found k v m [] absent h = tt
  All-Found k v m (entry ∷ rest) absent h =
      (Found-cons k v m entry absent h.0, All-Found k v m rest absent h.1)

  pub Distinct-Found : (m : Map K V) → Distinct m → All (Found m) m
  unfolding get
  Distinct-Found [] d = tt
  Distinct-Found ((k, v) ∷ m) d =
      (rw (beq_refl k) refl, All-Found k v m m d.0 (Distinct-Found m d.1))

any_removed_none :
    (old new : Map Str OrderedProperty)
    → All (λ entry. get new entry.0 ≡ some entry.1) old
    → any_removed old new ≡ false
any_removed_none [] new found = refl
any_removed_none (entry ∷ old) new found = rw (found.0) (any_removed_none old new found.1)

-- A value that parses is not a default value.
readable_is_given :
    (text : Str) (type : Option TypeOrInstance) (prop : Str)
    → get_varstr_value text ≡ ok (default_value type prop)
    → ⊥
unfolding get_varstr_value
readable_is_given text type prop h = absurd (ground arith)

-- the comparison finds no change between such a value and itself
abbrev pub IsSame : Compare → (Str → ℕ) → ℕ → Type 0
IsSame changed rank bound =
    (text : Str) (v : VariantStrValue)
    → get_varstr_value text ≡ ok v
    → height rank v ≤ bound
    → changed v v ≡ ok false

no_property_changed :
    (changed : Compare) (rank : Str → ℕ) (bound : ℕ) (old entries : Map Str OrderedProperty)
    → IsSame changed rank bound
    → All (λ entry. get old entry.0 ≡ some entry.1) entries
    → All (λ (entry : Str × OrderedProperty). IsReadable rank bound entry.1) entries
    → did_any_property_change changed old entries ≡ ok false
unfolding did_any_property_change
no_property_changed changed rank bound old [] same found readable = refl
no_property_changed changed rank bound old ((path, prop) ∷ entries) same found
      ((v, (reads, low)), readable) =
    rw (found.0, reads, same prop.value v reads low, did_any_property_change)
      (no_property_changed changed rank bound old entries same found.1 readable)

did_sub_resource_change-itself :
    (changed : Compare) (rank : Str → ℕ) (bound : ℕ) (node : Option SubResourceNode)
    → IsSame changed rank bound
    → ((n : SubResourceNode) → node ≡ some n → AreReadable rank bound n.properties)
    → did_sub_resource_change changed node node ≡ ok false
unfolding did_sub_resource_change
did_sub_resource_change-itself changed rank bound none same readable = refl
did_sub_resource_change-itself changed rank bound (some node) same readable =
    let found : All (λ entry. get node.properties entry.0 ≡ some entry.1) node.properties =
      Distinct-Found node.properties (readable node refl).0 in
    rw (beq_refl node.resource_type, any_removed_none node.properties node.properties found)
      (no_property_changed changed rank bound node.properties node.properties same found
        (readable node refl).1)

same_reference :
    (node : Option ExternalResourceNode) → did_ext_resource_reference_change node node ≡ false
unfolding did_ext_resource_reference_change
same_reference none = refl
same_reference (some node) =
    rw (beq_refl node.resource_type, beq_refl node.path, (option_beq_iff node.uid node.uid).1 refl)
      refl

pub did_value_change-itself :
    (rank : Str → ℕ) (scene : GodotScene) (bound fuel : ℕ)
    → IsRanked rank scene
    → bound < fuel
    → IsSame (did_value_change fuel scene scene) rank bound
unfolding did_value_change compare_in
did_value_change-itself rank scene bound zero ranked enough text v reads low = absurd (omega arith)
did_value_change-itself rank scene bound (suc fuel) ranked enough text (variant s) reads low =
    rw (beq_refl s) refl
did_value_change-itself rank scene bound (suc fuel) ranked enough text (resource_path s) reads low =
    rw (beq_refl s) refl
did_value_change-itself rank scene bound (suc fuel) ranked enough text (ext_resource_id id) reads
      low =
    ap ok (same_reference (get scene.ext_resources id))
did_value_change-itself rank scene bound (suc fuel) ranked enough text (default_value t p) reads
      low =
    absurd (readable_is_given text t p reads)
did_value_change-itself rank scene bound (suc fuel) ranked enough text (sub_resource_id id) reads
      low =
    did_sub_resource_change-itself (did_value_change fuel scene scene) rank (rank id)
      (get scene.sub_resources id)
      (did_value_change-itself rank scene (rank id) fuel ranked (omega arith))
      (λ n found. ranked id n found)
