-- ===== src/Parser/Climbing.antt =====
-- When the climb from an override to the instances above it ends.
use mathlib.Core.Path.{subst}
use mathlib.Core.Option.{some-injective, none-ne-some}
use backstitch.Prelude.{
  Bool-cases, eqb, ℕ, zero, suc, ◌<◌, ◌≡◌, refl, false, Option, none, some, List, [], ◌∷◌, Str,
  bytes, ok, err, length, list_beq, list_eq, nat_eq, inl, inr, Option-cases, arith,
}
use backstitch.Prelude.Maps.{Map, get}
use backstitch.Scene.Numbers.{ℤ}
use backstitch.Scene.Ids.{NodeId}
use backstitch.Scene.{GodotNode, node_id_eq}
use backstitch.Parser.Attributes.{runs_on}
use backstitch.Parser.Placing.{
  Placed, up_to_slash, pop_path, or_first, instances_above, climb, has_items, place_override,
  find_override, override_by,
}

-- Each path on the way up is that of a node.
pub data IsKnown (paths : Map Str NodeId) : Str → Type 0 where
  top : IsKnown paths []
  up :
      (path : Str) (id : NodeId)
      → get paths path ≡ some id
      → IsKnown paths (pop_path path)
      → IsKnown paths path

length-up_to_slash : (s front : Str) → up_to_slash s ≡ some front → length front < length s
length-up_to_slash [] front h = absurd (cc)
length-up_to_slash (c ∷ s) front h = elim (Option-cases (up_to_slash s)) [
  | inl last ↦ elim (Bool-cases (eqb c b'/')) [
    | inl slash ↦
        subst (λ f. length f < suc (length s)) (some-injective [] front (rw (last, slash) at h))
          (omega arith)
    | inr other ↦ absurd (none-ne-some front (rw (last, other) at h))
  ]
  | inr (before, found) ↦
      subst (λ f. length f < suc (length s)) (some-injective (c ∷ before) front (rw found at h))
        (omega (arith, length-up_to_slash s before found))
]

length-pop_path : (c : ℕ) (s : Str) → length (pop_path (c ∷ s)) < length (c ∷ s)
length-pop_path c s = elim (Option-cases (up_to_slash (c ∷ s))) [
  | inl top_level ↦ rw (top_level, pop_path) (omega arith)
  | inr (front, found) ↦ rw (found, pop_path) (length-up_to_slash (c ∷ s) front found)
]

-- If each path on the way up from a path is that of a node that was placed before, then the
-- climb to the instances above an override ends, within a number of rounds that is the length
-- of the path and one more.
pub climb_ends :
    (paths : Map Str NodeId) (nodes : Map NodeId GodotNode) (fuel : ℕ) (path : Str)
    (parent_id : Option NodeId) (ids : List ℤ)
    → IsKnown paths path
    → length path < fuel
    → (r : Option NodeId × List ℤ) × (climb fuel paths nodes path parent_id ids ≡ ok r)
unfolding climb
climb_ends paths nodes zero path parent_id ids known h = absurd (omega arith)
climb_ends paths nodes (suc fuel) [] parent_id ids known h = ((parent_id, ids), refl)
climb_ends paths nodes (suc fuel) (c ∷ s) parent_id ids (up _ id found above) h =
    rw found (elim (Option-cases (get nodes id)) [
      | inl absent ↦ rw absent (climb_ends paths nodes fuel _ parent_id ids above shorter)
      | inr (parent, there) ↦ rw there (elim (Option-cases parent.id.root_instance_id) [
        | inl plain ↦ rw plain (
            climb_ends paths nodes fuel _ (or_first parent_id id) (instances_above id parent ids)
              above shorter)
        | inr (pid, override) ↦ rw override (_, refl)
      ])
    ])
  where
    shorter : length (pop_path (c ∷ s)) < fuel
    shorter = omega (arith, length-pop_path c s)

climb-runs_on :
    (paths : Map Str NodeId) (nodes : Map NodeId GodotNode) (fuel : ℕ) (c : ℕ) (s : Str)
    (parent_id : Option NodeId) (ids : List ℤ)
    → get paths (c ∷ s) ≡ none
    → climb fuel paths nodes (c ∷ s) parent_id ids ≡ err runs_on
unfolding climb
climb-runs_on paths nodes zero c s parent_id ids missing = refl
climb-runs_on paths nodes (suc fuel) c s parent_id ids missing =
    rw missing (climb-runs_on paths nodes fuel c s parent_id ids missing)

-- The search for the instances above a node without a type or an instance, whose parent path is
-- not empty, not the root's, and not that of a node that was placed before, and which has no
-- path of ids, is still running after any number of rounds.
pub find_override-runs_on :
    (fuel : ℕ) (node : GodotNode) (p : Placed) (c : ℕ) (s : Str)
    → node.type_or_instance ≡ none
    → node.parent_path_fallback ≡ some (c ∷ s)
    → list_beq (c ∷ s) (bytes ".") ≡ false
    → has_items node.parent_id_path ≡ false
    → get p.node_id_by_node_path (c ∷ s) ≡ none
    → find_override fuel node p ≡ err runs_on
unfolding find_override override_by place_override
find_override-runs_on fuel node p c s override path elsewhere no_ids missing =
    rw (override, path, elsewhere, no_ids)
      (rw (climb-runs_on p.node_id_by_node_path p.nodes fuel c s none [] missing) refl)
