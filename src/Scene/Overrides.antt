-- ===== src/Scene/Overrides.antt =====
-- What a ref does to the text of a scene: the paths of its external resources.
use backstitch.Prelude.{ℕ, ◌≡◌, refl, Bool, true, false, none, some, List, [], ◌∷◌, Str, ok}
use backstitch.History.Ids.{Ids}
use backstitch.History.Ref.{HistoryRef, is_valid, to_string, to_uri_scheme_prefix}
use backstitch.History.Path.{make_path_string, repair, from_str}
use backstitch.History.RoundTrip.{from_str-make_path_string}
use backstitch.Scene.{ExternalResourceNode, GodotScene}
use backstitch.Scene.Serialize.{ext_path, show_ext_resources}
use backstitch.Scene.Document.{serialize_resources, serialize_with_ext_resource_override}

module _ (ids : Ids) where
  open ids use {DocumentId, ChangeHash}

  ext_path_invalid :
      (r : HistoryRef DocumentId ChangeHash) (path : Str)
      → is_valid r ≡ false
      → ext_path ids (some r) path ≡ ok path
  unfolding ext_path
  ext_path_invalid r path h = rw (h, ext_path) refl

  show_ext_resources_invalid :
      (r : HistoryRef DocumentId ChangeHash) (remove_uid : Bool)
      (resources : List (Str × ExternalResourceNode))
      → is_valid r ≡ false
      → show_ext_resources ids (some r) remove_uid resources
        ≡ show_ext_resources ids none remove_uid resources
  unfolding show_ext_resources
  show_ext_resources_invalid r remove_uid [] h = refl
  show_ext_resources_invalid r remove_uid ((key, resource) ∷ rest) h =
      rw (ext_path_invalid r resource.path h, show_ext_resources_invalid r remove_uid rest h) refl

  -- At a ref without heads, a scene is written as it is without a ref.
  pub serialize_invalid :
      (fuel : ℕ) (scene : GodotScene) (r : HistoryRef DocumentId ChangeHash) (remove_uid : Bool)
      → is_valid r ≡ false
      → serialize_with_ext_resource_override ids fuel scene (some r) remove_uid
        ≡ serialize_with_ext_resource_override ids fuel scene none remove_uid
  unfolding serialize_with_ext_resource_override serialize_resources
  serialize_invalid fuel scene r remove_uid h =
      rw (show_ext_resources_invalid r remove_uid _ h) refl

  make_path_string_valid :
      (r : HistoryRef DocumentId ChangeHash) (path : Str)
      → is_valid r ≡ true
      → (s : Str) × (make_path_string ids r path ≡ ok s)
  unfolding make_path_string to_uri_scheme_prefix to_string
  make_path_string_valid r path h = heads_of r.heads h
    where
      heads_of :
          (hs : List ChangeHash)
          → is_valid {D = DocumentId} (record { branch = r.branch; heads = hs }) ≡ true
          → (s : Str) × (make_path_string ids (record { branch = r.branch; heads = hs }) path
              ≡ ok s)
      heads_of [] h = absurd (cc)
      heads_of (x ∷ hs) h = (_, refl)

  -- At a ref with heads, an external resource is written with a path that parses to the ref and to the
  -- path of the resource as `repair` leaves it.
  pub ext_path-from_str :
      (r : HistoryRef DocumentId ChangeHash) (path fixed : Str)
      → is_valid r ≡ true
      → repair path ≡ ok fixed
      → (s : Str) × (ext_path ids (some r) path ≡ ok s)
        × (from_str ids s ≡ ok (record { ref_ = r; path = fixed }))
  unfolding ext_path
  ext_path-from_str r path fixed valid repaired =
      let (s, made) = make_path_string_valid r path valid in
      (
        s,
        rw (valid, made, ext_path) refl,
        from_str-make_path_string ids r path fixed s made repaired,
      )
