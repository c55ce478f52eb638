-- ===== src/Parser/Forest.antt =====
-- The nodes of a scene that is parsed are linked: children and parents agree.
use mathlib.Core.Path.{subst}
use mathlib.Core.Option.{some-injective, none-ne-some}
use backstitch.Prelude.{
  ℕ, ◌≡◌, sym, ap, ◌∙◌, Bool, true, false, Option, none, some, List, [], ◌∷◌, Str, ok, >>=_steps,
  ok-injective, contains, ◌==◌, beq_refl, ◌⊎◌, inl, inr, Bool-cases, arith,
}
use backstitch.Prelude.Maps.{Map, get, insert}
use backstitch.Scene.Numbers.{ℤ}
use backstitch.Scene.Ids.{NodeId}
use backstitch.Scene.{GodotNode, GodotScene, node_id_eq}
use backstitch.Parser.Attributes.{Capture}
use backstitch.Parser.Attaching.{attach, attach_node, attach_nodes}
use backstitch.Parser.Nodes.{Parts, no_parts}
use backstitch.Parser.Sections.{read_sections}
use backstitch.Parser.Placing.{place_nodes}
use backstitch.Parser.Assembly.{
  start_placing, metadata_of, sections_of, connect, assemble, parse_scene,
}
use backstitch.Parser.Childless.{AreChildless, IsFresh-place_nodes}
use backstitch.Parser.Newborn.{AreChildless-read_sections}
use backstitch.Parser.Linked.{
  Nodes, AreChildren, IsListed, IsLinked, HasParent, get-insert_here, AreChildren-insert,
  IsListed-insert_other,
}
use backstitch.Parser.Links.{
  IsFound, IsFound-Keeps, attach_cases, attach_node-Step, AreChildren-attach, IsListed-attach,
}

module _ (paths : Map Str NodeId) (uid : NodeId) (nodes : Nodes) (node found : GodotNode)
    (was : get nodes uid ≡ some node) (is_found : IsFound node found) where
  with_parent : (p : NodeId) → found.parent_id ≡ some p → HasParent (insert nodes uid found) uid p
  with_parent p e = (found, (get-insert_here nodes uid uid found (beq_refl uid), e))

  AreChildren-found : AreChildren nodes → AreChildren (insert nodes uid found)
  AreChildren-found all =
      AreChildren-insert nodes uid node found was (IsFound-Keeps node found is_found)
        (λ c listed. all uid c node was (ap (λ ids. contains ids c) (sym is_found.0) ∙ listed)) all

  IsListed-found :
      (c : NodeId)
      → ((uid == c) ≡ true) ⊎ IsListed nodes c
      → ((uid == c) ≡ true) ⊎ IsListed (insert nodes uid found) c
  IsListed-found c (inl here) = inl here
  IsListed-found c (inr listed) = elim (Bool-cases (uid == c)) [
    | inl here ↦ inl here
    | inr other ↦ inr (
        IsListed-insert_other nodes uid c node found was (IsFound-Keeps node found is_found) other
          listed)
  ]

  -- A node without a parent is listed by none.
  IsListed-root :
      (c : NodeId)
      → found.parent_id ≡ none
      → ((uid == c) ≡ true) ⊎ IsListed (insert nodes uid found) c
      → IsListed (insert nodes uid found) c
  IsListed-root c alone (inr listed) = listed
  IsListed-root c alone (inl here) = λ q child at parent. absurd (
      none-ne-some q (
        sym alone
        ∙ ap (λ (n : GodotNode). n.parent_id)
            (some-injective found child (sym (get-insert_here nodes uid c found here) ∙ at))
        ∙ parent))

  attached :
      (next : Nodes)
      → attach uid found.parent_id (insert nodes uid found) ≡ ok next
      → AreChildren nodes
      → AreChildren next × ((c : NodeId) → ((uid == c) ≡ true) ⊎ IsListed nodes c → IsListed next c)
  attached next h all = elim (attach_cases uid found.parent_id (insert nodes uid found) next h) [
    | inl (alone, same) ↦
        subst
          (λ n.
            AreChildren n × ((c : NodeId) → ((uid == c) ≡ true) ⊎ IsListed nodes c → IsListed n c))
          (sym same)
          (AreChildren-found all, λ c listed. IsListed-root c alone (IsListed-found c listed))
    | inr (p, parent, (e, at, same)) ↦
        subst
          (λ n.
            AreChildren n × ((c : NodeId) → ((uid == c) ≡ true) ⊎ IsListed nodes c → IsListed n c))
          (sym same)
          (
            AreChildren-attach uid p (insert nodes uid found) parent at (with_parent p e)
                (AreChildren-found all),
            λ c listed.
                IsListed-attach uid p c (insert nodes uid found) parent at (with_parent p e)
                  (IsListed-found c listed),
          )
  ]

false-ne-true : ◌≡◌ {A = Bool} false true → ⊥
false-ne-true h = cc

linked-attach_nodes :
    (paths : Map Str NodeId) (keys : List NodeId) (nodes next : Nodes)
    → attach_nodes paths keys nodes ≡ ok next
    → AreChildren nodes
    → AreChildren next
      × ((c : NodeId) → (contains keys c ≡ true) ⊎ IsListed nodes c → IsListed next c)
unfolding attach_nodes
linked-attach_nodes paths [] nodes next h all =
    subst (λ n. AreChildren n × ((c : NodeId) → (false ≡ true) ⊎ IsListed nodes c → IsListed n c))
      (ok-injective h) (all, λ c. elim [ inl impossible ↦ absurd (cc) | inr listed ↦ listed ])
linked-attach_nodes paths (uid ∷ keys) nodes next h all =
    let (mid, (step, rest)) = >>=_steps (attach_node paths uid nodes) _ next h in
    let (node, found, (was, is_found, is_attached)) = attach_node-Step paths uid nodes mid step in
    let (all_mid, listed_mid) =
      attached paths uid nodes node found was is_found mid is_attached all in
    let (all_next, listed_next) = linked-attach_nodes paths keys mid next rest all_mid in
    (
      all_next,
      λ c listed. listed_next c (elim (Bool-cases (contains keys c)) [
        | inl later ↦ inl later
        | inr over ↦ inr (listed_mid c (now c over listed))
      ]),
    )
  where
    now :
        (c : NodeId)
        → contains keys c ≡ false
        → (contains (uid ∷ keys) c ≡ true) ⊎ IsListed nodes c
        → ((uid == c) ≡ true) ⊎ IsListed nodes c
    now c over (inl key) = inl (ground arith)
    now c over (inr listed) = inr listed

assemble-IsLinked :
    (random : ℕ → ℤ) (fuel : ℕ) (parts : Parts) (scene : GodotScene)
    → AreChildless parts.node_arr
    → assemble random fuel parts ≡ ok scene
    → IsLinked scene
unfolding assemble get
assemble-IsLinked random fuel parts scene childless h =
    let (placed, (was_placed, then_attached)) =
      >>=_steps (place_nodes random fuel parts.node_arr (start_placing parts)) _ scene h in
    let (nodes, (was_attached, then_connected)) =
      >>=_steps (attach_nodes placed.node_id_by_node_path placed.keys placed.nodes) _ scene
        then_attached in
    let (connections, (was_connected, then_headed)) =
      >>=_steps (connect placed.node_id_by_node_path parts.connections_arr []) _ scene
        then_connected in
    let (metadata, (had_header, done)) =
      >>=_steps (metadata_of parts.scene_metadata) _ scene then_headed in
    let fresh =
      IsFresh-place_nodes random fuel parts.node_arr (start_placing parts) placed was_placed
        childless (λ c node found. absurd (none-ne-some node found)) in
    let (all, listed) =
      linked-attach_nodes placed.node_id_by_node_path placed.keys placed.nodes nodes was_attached
        (λ p c parent found child.
          absurd
            (false-ne-true (ap (λ ids. contains ids c) (sym (fresh p parent found).1) ∙ child))) in
    subst IsLinked (ok-injective done) (
      all,
      λ c. listed c (elim (Bool-cases (contains placed.keys c)) [
        | inl key ↦ inl key
        | inr no_key ↦
            inr
              λ p child found parent. absurd (false-ne-true (sym no_key ∙ (fresh c child found).0))
      ]),
    )

-- In a scene that is parsed, each child that a node lists is a node of the scene whose parent
-- it is, and each node with a parent is listed by it, whatever the sections and the random ids.
pub parse_scene-IsLinked :
    (random : ℕ → ℤ) (fuel : ℕ) (found : Option (List (List Capture))) (scene : GodotScene)
    → parse_scene random fuel found ≡ ok scene
    → IsLinked scene
unfolding parse_scene
parse_scene-IsLinked random fuel none scene h = absurd (cc)
parse_scene-IsLinked random fuel (some captures) scene h =
    let (parts, (read, assembled)) =
      >>=_steps (read_sections (sections_of captures) no_parts) _ scene h in
    assemble-IsLinked random fuel parts scene
      (AreChildless-read_sections (sections_of captures) no_parts parts read tt) assembled
