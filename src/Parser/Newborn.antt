-- ===== src/Parser/Newborn.antt =====
-- The sections give nodes without children.
use mathlib.Core.Path.{subst}
use backstitch.Prelude.{
  bytes, nat_eq, list_eq, ◌≡◌, refl, Option, some, List, [], ◌∷◌, ◌++◌, Str, ok, >>=_steps, >>=_ok,
  ok-injective,
}
use backstitch.Prelude.Maps.{get}
use backstitch.Scene.Ids.{NodeId}
use backstitch.Scene.{GodotNode, node_id_eq}
use backstitch.Parser.Attributes.{Parses, Section, required, optional_attribute, array}
use backstitch.Parser.Nodes.{
  Parts, resource_header, scene_header, node_section, type_or_instance_of,
}
use backstitch.Parser.Sections.{
  SectionKind, gd_resource_kind, resource_kind, gd_scene_kind, node_kind, ext_resource_kind,
  sub_resource_kind, connection_kind, editable_kind, unknown_kind, ext_resource_section,
  sub_resource_section, connection_section, kind_of, read_kind, read_section, read_sections,
}
use backstitch.Parser.Childless.{IsChildless, AreChildless}

All-append :
    (nodes : List (GodotNode × Option Str)) (n : GodotNode × Option Str)
    → AreChildless nodes
    → IsChildless n.0
    → AreChildless (nodes ++ n ∷ [])
All-append [] n all last = (last, tt)
All-append (m ∷ nodes) n all last = (all.0, All-append nodes n all.1 last)

-- A section that is read leaves the nodes as they are, or adds one.
AreChildless-of :
    (p q : Parts)
    → ◌≡◌ {A = Parses Parts} (ok p) (ok q)
    → AreChildless p.node_arr
    → AreChildless q.node_arr
AreChildless-of p q h all = subst (λ (x : Parts). AreChildless x.node_arr) (ok-injective h) all

abbrev IsBorn : GodotNode × Option Str → Type 0
IsBorn r = IsChildless r.0

IsChildless-node_section :
    (ids : List NodeId) (s : Section) (n : GodotNode × Option Str)
    → node_section ids s ≡ ok n
    → IsChildless n.0
unfolding node_section
IsChildless-node_section ids s =
    >>=_ok IsBorn (required (bytes "node section") s.heading (bytes "name")) _ λ name.
      >>=_ok IsBorn (optional_attribute s.heading (bytes "instance_placeholder")) _ λ placeholder.
        >>=_ok IsBorn (array s.heading (bytes "parent_id_path")) _ λ parent_id_path.
          >>=_ok IsBorn (array s.heading (bytes "owner_uid_path")) _ λ owner_uid_path.
            >>=_ok IsBorn (type_or_instance_of s.heading (get s.heading (bytes "type"))) _
              λ type_or_instance.
                >>=_ok IsBorn (optional_attribute s.heading (bytes "node_paths")) _ λ node_paths.
                  >>=_ok IsBorn (optional_attribute s.heading (bytes "parent")) _ λ parent_path.
                    >>=_ok IsBorn (optional_attribute s.heading (bytes "owner")) _ λ owner.
                      >>=_ok IsBorn (optional_attribute s.heading (bytes "index")) _
                        λ index n done. subst IsBorn (ok-injective done) refl

AreChildless-read_kind :
    (k : SectionKind) (s : Section) (p q : Parts)
    → read_kind k s p ≡ ok q
    → AreChildless p.node_arr
    → AreChildless q.node_arr
unfolding read_kind
AreChildless-read_kind gd_resource_kind s p q h all =
    let (m, (read, done)) = >>=_steps (resource_header s.heading) _ q h in
    AreChildless-of (record p { scene_metadata = some m }) q done all
AreChildless-read_kind resource_kind s p q h all = AreChildless-of _ q h all
AreChildless-read_kind gd_scene_kind s p q h all =
    let (m, (read, done)) = >>=_steps (scene_header s.heading) _ q h in
    AreChildless-of (record p { scene_metadata = some m }) q done all
AreChildless-read_kind node_kind s p q h all =
    let (n, (read, done)) = >>=_steps (node_section p.parsed_node_ids s) _ q h in
    subst (λ (x : Parts). AreChildless x.node_arr) (ok-injective done)
      (All-append p.node_arr n all (IsChildless-node_section p.parsed_node_ids s n read))
AreChildless-read_kind ext_resource_kind s p q h all =
    let (r, (read, done)) = >>=_steps (ext_resource_section p.ext_resource_idx s.heading) _ q h in
    subst (λ (x : Parts). AreChildless x.node_arr) (ok-injective done) all
AreChildless-read_kind sub_resource_kind s p q h all =
    let (r, (read, done)) = >>=_steps (sub_resource_section p.sub_resource_idx s) _ q h in
    subst (λ (x : Parts). AreChildless x.node_arr) (ok-injective done) all
AreChildless-read_kind connection_kind s p q h all =
    let (c, (read, done)) = >>=_steps (connection_section s.heading) _ q h in
    subst (λ (x : Parts). AreChildless x.node_arr) (ok-injective done) all
AreChildless-read_kind editable_kind s p q h all =
    let (path, (read, done)) =
      >>=_steps (required (bytes "editable section") s.heading (bytes "path")) _ q h in
    subst (λ (x : Parts). AreChildless x.node_arr) (ok-injective done) all
AreChildless-read_kind unknown_kind s p q h all = AreChildless-of p q h all

pub AreChildless-read_sections :
    (sections : List Section) (p q : Parts)
    → read_sections sections p ≡ ok q
    → AreChildless p.node_arr
    → AreChildless q.node_arr
unfolding read_sections read_section
AreChildless-read_sections [] p q h all = AreChildless-of p q h all
AreChildless-read_sections (s ∷ sections) p q h all =
    let (mid, (read, rest)) = >>=_steps (read_kind (kind_of s.section_id) s p) _ q h in
    AreChildless-read_sections sections mid q rest
      (AreChildless-read_kind (kind_of s.section_id) s p mid read all)
