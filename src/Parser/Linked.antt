-- ===== src/Parser/Linked.antt =====
-- What it says of nodes that their children and parents agree, with the lemmas on a child that is added.
use mathlib.Core.Path.{subst}
use mathlib.Core.Option.{some-injective}
use backstitch.Prelude.{
  ◌≡◌, sym, ap, ◌∙◌, true, false, some, contains, ◌==◌, inl, inr, Bool-cases, arith,
}
use backstitch.Prelude.Maps.{Map, get, insert, get-insert}
use backstitch.Scene.Ids.{NodeId}
use backstitch.Scene.{GodotNode, GodotScene, node_id_eq}

abbrev pub Nodes : Type 0
Nodes = Map NodeId GodotNode

-- Every child that a node lists is a node whose parent it is.
abbrev pub AreChildren : Nodes → Type 0
AreChildren nodes =
    (p c : NodeId) (parent : GodotNode)
    → get nodes p ≡ some parent
    → contains parent.child_node_ids c ≡ true
    → (child : GodotNode) × ((get nodes c ≡ some child) × (child.parent_id ≡ some p))

-- A node is listed by its parent.
abbrev pub IsListed : Nodes → NodeId → Type 0
IsListed nodes c =
    (p : NodeId) (child : GodotNode)
    → get nodes c ≡ some child
    → child.parent_id ≡ some p
    → (parent : GodotNode) × ((get nodes p ≡ some parent)
        × (contains parent.child_node_ids c ≡ true))

-- Both, for a scene.
abbrev pub IsLinked : GodotScene → Type 0
IsLinked scene = AreChildren scene.nodes × ((c : NodeId) → IsListed scene.nodes c)

abbrev pub HasParent : Nodes → NodeId → NodeId → Type 0
HasParent nodes c p =
    (child : GodotNode) × ((get nodes c ≡ some child) × (child.parent_id ≡ some p))

abbrev pub HasChild : Nodes → NodeId → NodeId → Type 0
HasChild nodes p c =
    (parent : GodotNode) × ((get nodes p ≡ some parent) × (contains parent.child_node_ids c ≡ true))

-- A node that is changed keeps its parent, where it has one, and its children.
abbrev pub Keeps : GodotNode → GodotNode → Type 0
Keeps old new =
    ((p : NodeId) → old.parent_id ≡ some p → new.parent_id ≡ some p)
    × ((c : NodeId) → contains old.child_node_ids c ≡ true → contains new.child_node_ids c ≡ true)

pub get-insert_here :
    (nodes : Nodes) (k c : NodeId) (new : GodotNode)
    → (k == c) ≡ true
    → get (insert nodes k new) c ≡ some new
get-insert_here nodes k c new here = ground (arith, get-insert nodes k c new)

pub get-insert_other :
    (nodes : Nodes) (k c : NodeId) (new : GodotNode)
    → (k == c) ≡ false
    → get (insert nodes k new) c ≡ get nodes c
get-insert_other nodes k c new other = ground (arith, get-insert nodes k c new)

-- What is found at a key that is the same.
pub found_same :
    (nodes : Nodes) (k c : NodeId) (old child : GodotNode)
    → (k == c) ≡ true
    → get nodes k ≡ some old
    → get nodes c ≡ some child
    → old ≡ child
found_same nodes k c old child here was found =
    some-injective _ _ (sym was ∙ ap (get nodes) ((node_id_eq.beq_iff k c).0 here) ∙ found)

pub HasParent-insert :
    (nodes : Nodes) (k c p : NodeId) (old new : GodotNode)
    → get nodes k ≡ some old
    → Keeps old new
    → HasParent nodes c p
    → HasParent (insert nodes k new) c p
HasParent-insert nodes k c p old new was keeps (child, (found, parent)) =
    elim (Bool-cases (k == c)) [
      | inl here ↦ (
        new,
        (
          get-insert_here nodes k c new here,
          keeps.0 p
              (ap (λ n. n.parent_id) (found_same nodes k c old child here was found) ∙ parent),
        ),
      )
      | inr other ↦ (child, (get-insert_other nodes k c new other ∙ found, parent))
    ]

pub HasChild-insert :
    (nodes : Nodes) (k p c : NodeId) (old new : GodotNode)
    → get nodes k ≡ some old
    → Keeps old new
    → HasChild nodes p c
    → HasChild (insert nodes k new) p c
HasChild-insert nodes k p c old new was keeps (parent, (found, listed)) =
    elim (Bool-cases (k == p)) [
      | inl here ↦ (
        new,
        (
          get-insert_here nodes k p new here,
          keeps.1 c (
              ap (λ n. contains n.child_node_ids c) (found_same nodes k p old parent here was found)
              ∙ listed),
        ),
      )
      | inr other ↦ (parent, (get-insert_other nodes k p new other ∙ found, listed))
    ]

pub AreChildren-insert :
    (nodes : Nodes) (k : NodeId) (old new : GodotNode)
    → get nodes k ≡ some old
    → Keeps old new
    → ((c : NodeId) → contains new.child_node_ids c ≡ true → HasParent nodes c k)
    → AreChildren nodes
    → AreChildren (insert nodes k new)
AreChildren-insert nodes k old new was keeps fresh all p c parent found listed =
    HasParent-insert nodes k c p old new was keeps (elim (Bool-cases (k == p)) [
      | inl here ↦
          subst (λ x. HasParent nodes c x) ((node_id_eq.beq_iff k p).0 here)
            (fresh c (
              ap (λ n. contains n.child_node_ids c)
                (some-injective _ _ (sym (get-insert_here nodes k p new here) ∙ found))
              ∙ listed))
      | inr other ↦ all p c parent (sym (get-insert_other nodes k p new other) ∙ found) listed
    ])

pub IsListed-insert_other :
    (nodes : Nodes) (k c : NodeId) (old new : GodotNode)
    → get nodes k ≡ some old
    → Keeps old new
    → (k == c) ≡ false
    → IsListed nodes c
    → IsListed (insert nodes k new) c
IsListed-insert_other nodes k c old new was keeps other listed p child found parent =
    HasChild-insert nodes k p c old new was keeps
      (listed p child (sym (get-insert_other nodes k c new other) ∙ found) parent)
