-- ===== src/Commits/Views.antt =====
-- What a write to the map of files changes of what is read of it.
use backstitch.Prelude.{
  ◌≡◌, ◌∙◌, refl, Bool, true, false, ◌&&◌, Option, none, some, Str, ◌==◌, list_eq, nat_eq, inl, inr,
  Bool-cases, if◌then◌else◌,
}
use backstitch.Scene.{GodotScene}
use backstitch.Commits.Entries.{
  map_object, Value, text_object, structured, FilesMap, content_key, url_key, hash_key,
  structured_key,
}

-- What is documented of a map: a write is read back, and changes nothing else.
module _ {T : Type 0} (files : FilesMap T) where
  open files use {
    kind, value, put_map, put, update_text, delete_key, delete, reconcile, hydrate_scene,
  }

  pub record IsMap : Type 0 where
    pub kind-put : (t : T) (p k q : Str) (v : Value) → kind (put t p k v) q ≡ kind t q
    pub value-put :
        (t : T) (p k q j : Str) (v : Value)
        → kind t p ≡ map_object
        → value (put t p k v) q j ≡ (if (k == j) && (p == q) then some v else value t q j)
    pub kind-put_map :
        (t : T) (p q : Str) → kind (put_map t p) q ≡ (if p == q then map_object else kind t q)
    pub value-put_map :
        (t : T) (p q j : Str) → value (put_map t p) q j ≡ (if p == q then none else value t q j)
    pub value-update_text :
        (t : T) (p k q j s text : Str)
        → value t p k ≡ some (text_object s)
        → value (update_text t p k text) q j
          ≡ (if (k == j) && (p == q) then some (text_object text) else value t q j)
    pub kind-update_text : (t : T) (p k q text : Str) → kind (update_text t p k text) q ≡ kind t q
    pub kind-delete_key : (t : T) (p k q : Str) → kind (delete_key t p k) q ≡ kind t q
    pub value-delete_key :
        (t : T) (p k q j : Str)
        → value (delete_key t p k) q j ≡ (if (k == j) && (p == q) then none else value t q j)
    pub value-delete :
        (t : T) (p q j : Str) → value (delete t p) q j ≡ (if p == q then none else value t q j)
    -- a scene is written into a map, and read back as it hydrates
    pub kind-reconcile :
        (t u : T) (p k q : Str) (scene : GodotScene)
        → reconcile t p k scene ≡ some u
        → (kind t p ≡ map_object) × (kind u q ≡ kind t q)
    pub value-reconcile :
        (t u : T) (p k q j : Str) (scene : GodotScene)
        → reconcile t p k scene ≡ some u
        → value u q j
          ≡ (if (k == j) && (p == q) then some (structured (hydrate_scene scene)) else value t q j)

-- The values of an entry from which its content is read.
pub record View : Type 0 where
  pub scene_value : Option Value
  pub content_value : Option Value
  pub url_value : Option Value

abbrev pub no_values : View
no_values = record { scene_value = none; content_value = none; url_value = none }

module _ {T : Type 0} (files : FilesMap T) (laws : IsMap files) where
  open files use {
    kind, value, put_map, put, update_text, delete_key, delete, reconcile, hydrate_scene,
  }

  abbrev pub view : T → Str → View
  view t q = record {
    scene_value = value t q structured_key;
    content_value = value t q content_key;
    url_value = value t q url_key;
  }

  -- a view in which the value of a key is another one
  abbrev pub written : Str → Option Value → View → View
  written k v w = record {
    scene_value = if k == structured_key then v else w.scene_value;
    content_value = if k == content_key then v else w.content_value;
    url_value = if k == url_key then v else w.url_value;
  }

  if_both :
      (b c : Bool) (v w : Option Value)
      → (if b && c then v else w) ≡ (if c then (if b then v else w) else w)
  if_both true c v w = refl
  if_both false true v w = refl
  if_both false false v w = refl

  -- the values of the files after a write of a key of a path
  abbrev Writes : T → T → Str → Str → Str → Option Value → Type 0
  Writes t u p k q v = (j : Str) → value u q j ≡ (if (k == j) && (p == q) then v else value t q j)

  view-written :
      (t u : T) (p k q : Str) (v : Option Value)
      → Writes t u p k q v
      → view u q ≡ (if p == q then written k v (view t q) else view t q)
  view-written t u p k q v writes =
      let at_key : (j : Str)
          → value u q j ≡ (if p == q then (if k == j then v else value t q j) else value t q j) =
        λ j. writes j ∙ if_both (k == j) (p == q) v (value t q j) in
      elim (Bool-cases (p == q)) [
        | inl here ↦ rw (at_key structured_key, at_key content_key, at_key url_key, here) refl
        | inr apart ↦ rw (at_key structured_key, at_key content_key, at_key url_key, apart) refl
      ]

  -- a path under which nothing stands any more
  view-emptied :
      (t u : T) (p q : Str)
      → ((j : Str) → value u q j ≡ (if p == q then none else value t q j))
      → view u q ≡ (if p == q then no_values else view t q)
  view-emptied t u p q empties = elim (Bool-cases (p == q)) [
    | inl here ↦ rw (empties structured_key, empties content_key, empties url_key, here) refl
    | inr apart ↦ rw (empties structured_key, empties content_key, empties url_key, apart) refl
  ]

  if_same : {A : Type 0} (b : Bool) (a : A) → (if b then a else a) ≡ a
  if_same true a = refl
  if_same false a = refl

  pub view-hash :
      (t : T) (p q : Str) (v : Value)
      → kind t p ≡ map_object
      → view (put t p hash_key v) q ≡ view t q
  view-hash t p q v is_map =
      view-written t (put t p hash_key v) p hash_key q (some v)
        (λ j. laws.value-put t p hash_key q j v is_map)
      ∙ if_same (p == q) (view t q)

  pub view-url :
      (t : T) (p q : Str) (v : Value)
      → kind t p ≡ map_object
      → view (put t p url_key v) q
        ≡ (if p == q then record (view t q) { url_value = some v } else view t q)
  view-url t p q v is_map =
      view-written t (put t p url_key v) p url_key q (some v)
        (λ j. laws.value-put t p url_key q j v is_map)

  pub view-content :
      (t : T) (p q : Str) (v : Value)
      → kind t p ≡ map_object
      → view (put t p content_key v) q
        ≡ (if p == q then record (view t q) { content_value = some v } else view t q)
  view-content t p q v is_map =
      view-written t (put t p content_key v) p content_key q (some v)
        (λ j. laws.value-put t p content_key q j v is_map)

  pub view-put_map :
      (t : T) (p q : Str) → view (put_map t p) q ≡ (if p == q then no_values else view t q)
  view-put_map t p q = view-emptied t (put_map t p) p q (laws.value-put_map t p q)

  pub view-delete :
      (t : T) (p q : Str) → view (delete t p) q ≡ (if p == q then no_values else view t q)
  view-delete t p q = view-emptied t (delete t p) p q (laws.value-delete t p q)

  pub view-delete_url :
      (t : T) (p q : Str)
      → view (delete_key t p url_key) q
        ≡ (if p == q then record (view t q) { url_value = none } else view t q)
  view-delete_url t p q =
      view-written t (delete_key t p url_key) p url_key q none
        (λ j. laws.value-delete_key t p url_key q j)

  pub view-delete_structured :
      (t : T) (p q : Str)
      → view (delete_key t p structured_key) q
        ≡ (if p == q then record (view t q) { scene_value = none } else view t q)
  view-delete_structured t p q =
      view-written t (delete_key t p structured_key) p structured_key q none
        (λ j. laws.value-delete_key t p structured_key q j)

  pub view-update_text :
      (t : T) (p q s text : Str)
      → value t p content_key ≡ some (text_object s)
      → view (update_text t p content_key text) q ≡ (
          if p == q
          then record (view t q) { content_value = some (text_object text) }
          else view t q)
  view-update_text t p q s text is_text =
      view-written t (update_text t p content_key text) p content_key q (some (text_object text))
        (λ j. laws.value-update_text t p content_key q j s text is_text)

  pub view-reconcile :
      (t u : T) (p q : Str) (scene : GodotScene)
      → reconcile t p structured_key scene ≡ some u
      → view u q ≡ (
          if p == q
          then record (view t q) { scene_value = some (structured (hydrate_scene scene)) }
          else view t q)
  view-reconcile t u p q scene h =
      view-written t u p structured_key q (some (structured (hydrate_scene scene)))
        (λ j. laws.value-reconcile t u p structured_key q j scene h)
