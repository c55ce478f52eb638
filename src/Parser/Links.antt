-- ===== src/Parser/Links.antt =====
-- The links between nodes that the second loop over them makes.
use mathlib.Core.Path.{subst}
use mathlib.Core.Option.{some-injective}
use backstitch.Prelude.{
  ◌≡◌, refl, sym, ap, ◌∙◌, true, Option, none, some, [], ◌∷◌, Str, ok, >>=_steps, ok-injective,
  contains, contains-append_left, contains-append_last, contains-append_cases, beq_refl, ◌==◌, ◌⊎◌,
  inl, inr, Bool-cases, Option-cases,
}
use backstitch.Prelude.Maps.{Map, get, insert}
use backstitch.Scene.Ids.{NodeId}
use backstitch.Scene.{GodotNode, node_id_eq}
use backstitch.Parser.Attaching.{
  nearest_parent, parent_at, by_fallback, parent_by, find_parent, add_child, attach, attach_node,
  taken,
}
use backstitch.Parser.Linked.{
  Nodes, AreChildren, IsListed, HasParent, HasChild, Keeps, get-insert_here, HasParent-insert,
  HasChild-insert, AreChildren-insert, IsListed-insert_other,
}

-- The search for a parent keeps the children of a node, and its parent where it has one.
abbrev pub IsFound : GodotNode → GodotNode → Type 0
IsFound node found =
    (found.child_node_ids ≡ node.child_node_ids)
    × ((p : NodeId) → node.parent_id ≡ some p → found.parent_id ≡ some p)

module _ (paths : Map Str NodeId) (node found : GodotNode) (alone : node.parent_id ≡ none) where
  IsFound-nearest_parent :
      (path : Str) (o : Option NodeId)
      → nearest_parent paths path node o ≡ ok found
      → IsFound node found
  IsFound-nearest_parent path none h = absurd (cc)
  IsFound-nearest_parent path (some id) h =
      subst (λ n. IsFound node n) (ok-injective h) (refl, λ p e. absurd (cc))

  IsFound-parent_at :
      (path : Str) (o : Option NodeId) → parent_at paths path node o ≡ ok found → IsFound node found
  unfolding parent_at
  IsFound-parent_at path none h = IsFound-nearest_parent path _ h
  IsFound-parent_at path (some id) h =
      subst (λ n. IsFound node n) (ok-injective h) (refl, λ p e. absurd (cc))

  IsFound-by_fallback : (o : Option Str) → by_fallback paths node o ≡ ok found → IsFound node found
  unfolding by_fallback
  IsFound-by_fallback none h = subst (λ n. IsFound node n) (ok-injective h) (refl, λ p e. e)
  IsFound-by_fallback (some path) h = IsFound-parent_at path _ h

IsFound-parent_by :
    (paths : Map Str NodeId) (node found : GodotNode) (o : Option NodeId)
    → node.parent_id ≡ o
    → parent_by paths node o ≡ ok found
    → IsFound node found
unfolding parent_by
IsFound-parent_by paths node found none alone h =
    IsFound-by_fallback paths node found alone node.parent_path_fallback h
IsFound-parent_by paths node found (some id) parent h =
    subst (λ n. IsFound node n) (ok-injective h) (refl, λ p e. e)

IsFound-find_parent :
    (paths : Map Str NodeId) (node found : GodotNode)
    → find_parent paths node ≡ ok found
    → IsFound node found
unfolding find_parent
IsFound-find_parent paths node found h = IsFound-parent_by paths node found node.parent_id refl h

pub IsFound-Keeps : (node found : GodotNode) → IsFound node found → Keeps node found
IsFound-Keeps node found (same, parent) =
    (parent, λ c listed. ap (λ ids. contains ids c) same ∙ listed)

taken-eq_some : {A : Type 0} (o : Option A) (a : A) → taken o ≡ ok a → o ≡ some a
taken-eq_some none a h = absurd (cc)
taken-eq_some (some b) a h = ap some (ok-injective h)

-- How a push of a child ends.
pub attach_cases :
    (uid : NodeId) (o : Option NodeId) (nodes next : Nodes)
    → attach uid o nodes ≡ ok next
    → ((o ≡ none) × (next ≡ nodes))
      ⊎ ((p : NodeId) × (parent : GodotNode) × ((o ≡ some p)
            × (get nodes p ≡ some parent)
            × (next ≡ insert nodes p (add_child uid parent))))
unfolding attach
attach_cases uid none nodes next h = inl (refl, sym (ok-injective h))
attach_cases uid (some p) nodes next h = elim (Option-cases (get nodes p)) [
  | inl missing ↦ absurd (cc (rw missing at h))
  | inr (parent, found) ↦ inr (p, parent, (refl, found, sym (ok-injective (rw found at h))))
]

-- A step of the loop: the node that has the id gets its parent, and is pushed to its children.
abbrev pub Step : Map Str NodeId → NodeId → Nodes → Nodes → Type 0
Step paths uid nodes next =
    (node : GodotNode) × (found : GodotNode) × ((get nodes uid ≡ some node)
      × IsFound node found
      × (attach uid found.parent_id (insert nodes uid found) ≡ ok next))

pub attach_node-Step :
    (paths : Map Str NodeId) (uid : NodeId) (nodes next : Nodes)
    → attach_node paths uid nodes ≡ ok next
    → Step paths uid nodes next
unfolding attach_node
attach_node-Step paths uid nodes next done =
    let (node, (was_taken, then_found)) = >>=_steps (taken (get nodes uid)) _ next done in
    let (found, (was_found, then_attached)) =
      >>=_steps (find_parent paths node) _ next then_found in
    (
      node,
      found,
      (
        taken-eq_some _ node was_taken,
        IsFound-find_parent paths node found was_found,
        then_attached,
      ),
    )

same_node :
    (nodes : Nodes) (k : NodeId) (a b : GodotNode)
    → get nodes k ≡ some a
    → get nodes k ≡ some b
    → a ≡ b
same_node nodes k a b was now = some-injective a b (sym was ∙ now)

Keeps-add_child : (uid : NodeId) (parent : GodotNode) → Keeps parent (add_child uid parent)
Keeps-add_child uid parent =
    (λ p e. e, λ c listed. contains-append_left parent.child_node_ids (uid ∷ []) c listed)

pub AreChildren-attach :
    (uid p : NodeId) (nodes : Nodes) (parent : GodotNode)
    → get nodes p ≡ some parent
    → HasParent nodes uid p
    → AreChildren nodes
    → AreChildren (insert nodes p (add_child uid parent))
AreChildren-attach uid p nodes parent was child all =
    AreChildren-insert nodes p parent (add_child uid parent) was (Keeps-add_child uid parent)
      (λ c listed. elim (contains-append_cases parent.child_node_ids uid c listed) [
        | inl before ↦ all p c parent was before
        | inr last ↦ subst (λ x. HasParent nodes x p) ((node_id_eq.beq_iff uid c).0 last) child
      ])
      all

-- The pushed node is listed by its parent.
HasChild-attach :
    (uid p : NodeId) (nodes : Nodes) (parent : GodotNode)
    → HasChild (insert nodes p (add_child uid parent)) p uid
HasChild-attach uid p nodes parent = (
  add_child uid parent,
  (
    get-insert_here nodes p p (add_child uid parent) (beq_refl p),
    contains-append_last parent.child_node_ids uid,
  ),
)

pub IsListed-attach :
    (uid p c : NodeId) (nodes : Nodes) (parent : GodotNode)
    → get nodes p ≡ some parent
    → HasParent nodes uid p
    → (((uid == c) ≡ true) ⊎ IsListed nodes c)
    → IsListed (insert nodes p (add_child uid parent)) c
IsListed-attach uid p c nodes parent was child (inl here) =
    subst (λ x. IsListed (insert nodes p (add_child uid parent)) x)
      ((node_id_eq.beq_iff uid c).0 here) pushed
  where
    pushed : IsListed (insert nodes p (add_child uid parent)) uid
    pushed q found_child found q_parent =
        let (at, (is_at, of_p)) =
          HasParent-insert nodes p uid p parent (add_child uid parent) was
            (Keeps-add_child uid parent) child in
        subst (λ x. HasChild (insert nodes p (add_child uid parent)) x uid)
          (some-injective p q (
            sym of_p
            ∙ ap (λ (n : GodotNode). n.parent_id)
                (same_node (insert nodes p (add_child uid parent)) uid at found_child is_at found)
            ∙ q_parent))
          (HasChild-attach uid p nodes parent)
IsListed-attach uid p c nodes parent was child (inr listed) = elim (Bool-cases (p == c)) [
  | inl here ↦ λ q found_child found q_parent.
      HasChild-insert nodes p q c parent (add_child uid parent) was (Keeps-add_child uid parent) (
        listed q parent (sym (ap (get nodes) ((node_id_eq.beq_iff p c).0 here)) ∙ was) (
          ap (λ (n : GodotNode). n.parent_id)
            (same_node (insert nodes p (add_child uid parent)) c (add_child uid parent) found_child
              (get-insert_here nodes p c (add_child uid parent) here) found)
          ∙ q_parent))
  | inr other ↦
      IsListed-insert_other nodes p c parent (add_child uid parent) was (Keeps-add_child uid parent)
        other listed
]
