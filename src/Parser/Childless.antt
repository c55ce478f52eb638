-- ===== src/Parser/Childless.antt =====
-- No node has a child before the second loop over the nodes, and each has its key.
use mathlib.Core.Path.{subst}
use mathlib.Core.Option.{some-injective}
use backstitch.Prelude.{
  bytes, list_beq, nat_eq, is_empty, ℕ, ◌≡◌, refl, sym, ap, ◌∙◌, Bool, true, false, Option, none,
  some, List, [], ◌∷◌, ◌++◌, Str, ok, >>=_steps, ok-injective, contains, contains-append_left,
  contains-append_last, All, ◌==◌, inl, inr, Bool-cases,
}
use backstitch.Prelude.Maps.{Map, get, insert, has_value}
use backstitch.Scene.Numbers.{ℤ}
use backstitch.Scene.Ids.{NodeId}
use backstitch.Scene.{GodotNode, TypeOrInstance, node_id_eq}
use backstitch.Parser.Attributes.{Parses}
use backstitch.Parser.Placing.{
  Placed, climbed, with_override, drop_if, place_override, draw, assign_if, assign_id, override_by,
  find_override, register_node, place_node, place_nodes, or_empty, has_items,
}
use backstitch.Parser.Linked.{get-insert_here, get-insert_other}

abbrev pub IsChildless : GodotNode → Type 0
IsChildless node = node.child_node_ids ≡ []

-- Every node has its key, and no child.
abbrev pub IsFresh : Placed → Type 0
IsFresh p =
    (c : NodeId) (node : GodotNode)
    → get p.nodes c ≡ some node
    → (contains p.keys c ≡ true) × IsChildless node

abbrev pub AreChildless : List (GodotNode × Option Str) → Type 0
AreChildless nodes = All (λ (n : GodotNode × Option Str). IsChildless n.0) nodes

IsChildless-of :
    (node found : GodotNode)
    → ◌≡◌ {A = Parses GodotNode} (ok node) (ok found)
    → IsChildless node
    → IsChildless found
IsChildless-of node found h e = subst IsChildless (ok-injective h) e

IsChildless-drop_if :
    (b : Bool) (node : GodotNode) → IsChildless node → IsChildless (drop_if b node)
IsChildless-drop_if true node e = e
IsChildless-drop_if false node e = e

IsChildless-climbed :
    (node found : GodotNode) (r : Parses (Option NodeId × List ℤ))
    → climbed node r ≡ ok found
    → IsChildless node
    → IsChildless found
IsChildless-climbed node found r h e =
    let (f, (climbs, done)) = >>=_steps r _ found h in
    IsChildless-of (with_override node (f.0, some f.1)) found done e

IsChildless-place_override :
    (fuel : ℕ) (root : Option NodeId) (paths : Map Str NodeId) (nodes : Map NodeId GodotNode)
    (node found : GodotNode)
    → place_override fuel root paths nodes node ≡ ok found
    → IsChildless node
    → IsChildless found
unfolding place_override
IsChildless-place_override fuel root paths nodes node found h e =
    elim (Bool-cases (list_beq (or_empty node.parent_path_fallback) (bytes "."))) [
      | inl at_root ↦ IsChildless-of _ found (rw at_root at h) e
      | inr elsewhere ↦ elim (Bool-cases (has_items node.parent_id_path)) [
        | inl given ↦ IsChildless-of _ found (rw (elsewhere, given) at h) e
        | inr not_given ↦ elim (Bool-cases (is_empty (or_empty node.parent_path_fallback))) [
          | inl no_path ↦ absurd (cc (rw (elsewhere, not_given, no_path) at h))
          | inr path ↦
              IsChildless-climbed (drop_if _ node) found _ (rw (elsewhere, not_given, path) at h)
                (IsChildless-drop_if _ node e)
        ]
      ]
    ]

IsChildless-override_by :
    (fuel : ℕ) (t : Option TypeOrInstance) (node found : GodotNode) (p : Placed)
    → override_by fuel t node p ≡ ok found
    → IsChildless node
    → IsChildless found
unfolding override_by
IsChildless-override_by fuel (some t) node found p h e = IsChildless-of node found h e
IsChildless-override_by fuel none node found p h e =
    IsChildless-place_override fuel p.root_node_id p.node_id_by_node_path p.nodes node found h e

-- A node gets its id without a change to the nodes that stand there.
abbrev IsSame : GodotNode → Placed → GodotNode × Placed → Type 0
IsSame node p r = (IsChildless node → IsChildless r.0) × (r.1.nodes ≡ p.nodes) × (r.1.keys ≡ p.keys)

IsSame-assign_if :
    (random : ℕ → ℤ) (fuel : ℕ) (b : Bool) (node : GodotNode) (p : Placed) (r : GodotNode × Placed)
    → assign_if random fuel b node p ≡ ok r
    → IsSame node p r
unfolding assign_if
IsSame-assign_if random fuel true node p r h =
    let (drawn, (draws, done)) = >>=_steps (draw random fuel p.drawn p.parsed_node_ids) _ r h in
    subst (IsSame node p) (ok-injective done) (λ e. e, refl, refl)
IsSame-assign_if random fuel false node p r h =
    subst (IsSame node p) (ok-injective h) (λ e. e, refl, refl)

IsSame-assign_id :
    (random : ℕ → ℤ) (fuel : ℕ) (node : GodotNode) (p : Placed) (r : GodotNode × Placed)
    → assign_id random fuel node p ≡ ok r
    → IsSame node p r
unfolding assign_id
IsSame-assign_id random fuel node p r h = IsSame-assign_if random fuel _ node p r h

IsFresh-register_node :
    (path : Option Str) (node : GodotNode) (p q : Placed)
    → register_node path node p ≡ ok q
    → IsChildless node
    → IsFresh p
    → IsFresh q
unfolding register_node
IsFresh-register_node path node p q h childless fresh =
    elim (Bool-cases (has_value (get p.nodes node.id))) [
      | inl there ↦ absurd (cc (rw there at h))
      | inr free ↦ subst IsFresh (ok-injective (rw free at h)) registered
    ]
  where
    registered :
        (c : NodeId) (n : GodotNode)
        → get (insert p.nodes node.id node) c ≡ some n
        → (contains (p.keys ++ node.id ∷ []) c ≡ true) × IsChildless n
    registered c n found = elim (Bool-cases (node.id == c)) [
      | inl here ↦ (
        subst (λ x. contains (p.keys ++ node.id ∷ []) x ≡ true)
            ((node_id_eq.beq_iff node.id c).0 here) (contains-append_last p.keys node.id),
        subst IsChildless
            (some-injective node n (sym (get-insert_here p.nodes node.id c node here) ∙ found))
            childless,
      )
      | inr other ↦
          let (key, none_yet) =
            fresh c n (sym (get-insert_other p.nodes node.id c node other) ∙ found) in
          (contains-append_left p.keys (node.id ∷ []) c key, none_yet)
    ]

IsFresh-place_node :
    (random : ℕ → ℤ) (fuel : ℕ) (node : GodotNode) (path : Option Str) (p q : Placed)
    → place_node random fuel node path p ≡ ok q
    → IsChildless node
    → IsFresh p
    → IsFresh q
unfolding place_node find_override
IsFresh-place_node random fuel node path p q h childless fresh =
    let (r, (assigned, then_found)) = >>=_steps (assign_id random fuel node p) _ q h in
    let (found, (was_found, done)) = >>=_steps (find_override fuel r.0 r.1) _ q then_found in
    let (keeps, same_nodes, same_keys) = IsSame-assign_id random fuel node p r assigned in
    IsFresh-register_node path found r.1 q done
      (IsChildless-override_by fuel r.0.type_or_instance r.0 found r.1 was_found (keeps childless))
      (λ c n at.
        let (key, none_yet) = fresh c n (sym (ap (λ m. get m c) same_nodes) ∙ at) in
        (ap (λ keys. contains keys c) same_keys ∙ key, none_yet))

pub IsFresh-place_nodes :
    (random : ℕ → ℤ) (fuel : ℕ) (nodes : List (GodotNode × Option Str)) (p q : Placed)
    → place_nodes random fuel nodes p ≡ ok q
    → AreChildless nodes
    → IsFresh p
    → IsFresh q
unfolding place_nodes
IsFresh-place_nodes random fuel [] p q h childless fresh = subst IsFresh (ok-injective h) fresh
IsFresh-place_nodes random fuel ((node, path) ∷ nodes) p q h childless fresh =
    let (mid, (placed, rest)) = >>=_steps (place_node random fuel node path p) _ q h in
    IsFresh-place_nodes random fuel nodes mid q rest childless.1
      (IsFresh-place_node random fuel node path p mid placed childless.0 fresh)
