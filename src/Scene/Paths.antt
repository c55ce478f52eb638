-- ===== src/Scene/Paths.antt =====
-- Which names the path of a node is made of.
use mathlib.Core.Path.{subst}
use backstitch.Prelude.{
  ℕ, zero, suc, ◌≡◌, ◌≤◌, refl, sym, ap, ◌∙◌, true, false, none, some, List, [], ◌∷◌, ◌++◌,
  append_assoc, append-nil, length, length-append, All, Str, ok, is_empty, arith,
}
use backstitch.Prelude.Maps.{get}
use backstitch.Text.{join}
use backstitch.Scene.Ids.{NodeId}
use backstitch.Scene.{node_id_eq, GodotNode, GodotScene, is_root, prepend, walk, get_node_path}

-- A node whose parents lead to the root, with the names from the node below the root to its own.
pub data Below (scene : GodotScene) : NodeId → List Str → Type 0 where
  child_of_root :
      (id parent : NodeId) (node : GodotNode)
      → get scene.nodes id ≡ some node
      → node.parent_path_fallback ≡ none
      → node.parent_id ≡ some parent
      → is_root scene parent ≡ true
      → Below scene id (node.name ∷ [])
  child_of :
      (id parent : NodeId) (node : GodotNode) (names : List Str)
      → get scene.nodes id ≡ some node
      → node.parent_path_fallback ≡ none
      → node.parent_id ≡ some parent
      → is_root scene parent ≡ false
      → Below scene parent names
      → Below scene id (names ++ node.name ∷ [])

abbrev pub IsNamed : Str → Type 0
IsNamed name = is_empty name ≡ false

prepend-join :
    (name : Str) (rest : List Str)
    → All IsNamed rest
    → prepend name (join b'/' rest) ≡ join b'/' (name ∷ rest)
unfolding join
prepend-join name [] h = refl
prepend-join name (r ∷ rest) h = rw (not_empty r rest h.0) refl
  where
    not_empty : (r : Str) (rest : List Str) → IsNamed r → is_empty (join b'/' (r ∷ rest)) ≡ false
    not_empty r [] h = h
    not_empty [] (q ∷ rest) h = absurd (cc)
    not_empty (c ∷ r) (q ∷ rest) h = refl

All-append_right : (xs ys : List Str) → All IsNamed (xs ++ ys) → All IsNamed ys
All-append_right [] ys h = h
All-append_right (x ∷ xs) ys h = All-append_right xs ys h.1

walk-join :
    (scene : GodotScene) (id : NodeId) (names rest : List Str) (fuel : ℕ)
    → Below scene id names
    → length names ≤ fuel
    → All IsNamed (names ++ rest)
    → walk fuel scene (join b'/' rest) id ≡ ok (join b'/' (names ++ rest))
unfolding walk
walk-join scene id _ rest zero (child_of_root i parent node found no_path p root) enough named =
    absurd (omega arith)
walk-join scene id _ rest zero (child_of i parent node above found no_path p root b) enough named =
    absurd (omega (arith, length-append above (node.name ∷ [])))
walk-join scene id _ rest (suc fuel) (child_of_root i parent node found no_path p root) enough
      named =
    rw (found, no_path, p, root, walk) (ap ok (prepend-join node.name rest named.1))
walk-join scene id _ rest (suc fuel) (child_of i parent node above found no_path p root b) enough
      named =
    let assoc : (above ++ (node.name ∷ [])) ++ rest ≡ above ++ (node.name ∷ rest) =
      append_assoc above (node.name ∷ []) rest in
    let named_here : All IsNamed (above ++ (node.name ∷ rest)) = subst (All IsNamed) assoc named in
    rw (found, no_path, p, root, walk)
      (ap (λ t. walk fuel scene t parent)
          (prepend-join node.name rest (All-append_right above (node.name ∷ rest) named_here).1)
        ∙ walk-join scene parent above (node.name ∷ rest) fuel b
            (omega (arith, length-append above (node.name ∷ []))) named_here
        ∙ ap (λ (l : List Str). ok (join b'/' l)) (sym assoc))

-- A node that is not the root and whose parents lead to the root, none of the nodes on the way
-- with a fallback path, has the path of the names from below the root to its own, joined by
-- slashes, if no name is empty; the loop returns it with as much fuel as there are names.
pub get_node_path-join :
    (scene : GodotScene) (id : NodeId) (names : List Str) (fuel : ℕ)
    → is_root scene id ≡ false
    → Below scene id names
    → length names ≤ fuel
    → All IsNamed names
    → get_node_path fuel scene id ≡ ok (join b'/' names)
unfolding get_node_path join
get_node_path-join scene id names fuel below b enough named =
    rw (below, get_node_path)
      (walk-join scene id names [] fuel b enough
          (subst (All IsNamed) (sym (append-nil names)) named)
        ∙ ap (λ (l : List Str). ok (join b'/' l)) (append-nil names))
