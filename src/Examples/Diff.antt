-- ===== src/Examples/Diff.antt =====
-- Diffs of a scene of one node and two sub-resources, and of a project of two files.
use backstitch.Prelude.{
  map, ℕ, ◌≡◌, refl, Bool, true, none, some, [], ◌∷◌, Str, bytes, ok, All, list_eq, nat_eq,
  list_beq, is_empty, drop, ◌↔◌, arith, if◌then◌else◌,
}
use backstitch.Prelude.Maps.{Map, get, ForEach, ForEach-cons}
use backstitch.History.Ref.{HistoryRef}
use backstitch.Fs.Traversal.{ChangeType, created, modified}
use backstitch.Scene.Numbers.{pos}
use backstitch.Scene.{
  node_id_eq, OrderedProperty, type_name, GodotNode, SubResourceNode, GodotScene,
}
use backstitch.Diff.Values.{
  sub_resource_id, variant, ext_resource_id, get_varstr_value, PropertyGetter,
}
use backstitch.Diff.Nodes.{get_node_diff}
use backstitch.Prelude.{◌++◌}
use backstitch.Prelude.Maps.{keys}
use backstitch.Diff.Project.{DiffStore, ProjectDiff, Diff, text, get_diff, get_diff_file_path}
use backstitch.Diff.Contents.{FileContent, string}
use backstitch.Diff.Scenes.{get_scene_diff}
use backstitch.Scene.Serialize.{sort_by}
use backstitch.Scene.Document.{str_le}
use backstitch.Diff.Listing.{listed, map-get_diff}
use backstitch.Diff.Unchanged.{AreReadable, IsRanked}
use backstitch.Diff.SameScene.{get_scene_diff-itself}
use backstitch.Diff.NodeChanges.{IsUnchanged, get_node_diff_left_out}
use backstitch.Examples.History.{two_ids, both}
use backstitch.Examples.Scene.{id_of, node}

abbrev property : Str → OrderedProperty
property value = record { value = value; order = pos 0 }

abbrev sub_resource : Str → Map Str OrderedProperty → SubResourceNode
sub_resource id properties = record {
  id = id;
  resource_type = bytes "StyleBoxFlat";
  properties = properties;
  idx = pos 0;
}

abbrev inner_properties : Map Str OrderedProperty
inner_properties = (bytes "size", property (bytes "Vector2(1, 2)")) ∷ []

abbrev outer_properties : Map Str OrderedProperty
outer_properties = (bytes "inner", property (bytes "SubResource(\"b\")")) ∷ []

abbrev panel : GodotNode
panel = record (node 1 none (bytes "Panel")) {
  properties =
      (bytes "style", property (bytes "SubResource(\"a\")"))
      ∷ (bytes "script", property (bytes "ExtResource(\"1_x\")"))
      ∷ [];
}

abbrev styled : GodotScene
styled = record {
  load_steps = pos 0;
  format = pos 3;
  uid = bytes "uid://a";
  script_class = none;
  resource_type = bytes "PackedScene";
  root_node_id = some (id_of 1);
  ext_resources = [];
  sub_resources =
      (bytes "a", sub_resource (bytes "a") outer_properties)
      ∷ (bytes "b", sub_resource (bytes "b") inner_properties)
      ∷ [];
  nodes = (id_of 1, panel) ∷ [];
  connections = [];
  editable_instances = [];
  main_resource = none;
}

abbrev rank : Str → ℕ
rank id = if list_beq id (bytes "a") then 1 else 0

inner_readable : AreReadable rank 0 inner_properties
unfolding get_varstr_value get backstitch.Text.strip_prefix
inner_readable = ((refl, tt), ((variant (bytes "Vector2(1, 2)"), (refl, omega arith)), tt))

outer_readable : AreReadable rank 1 outer_properties
unfolding get_varstr_value get backstitch.Text.strip_prefix backstitch.Text.Patterns.second_part
    backstitch.Text.Patterns.split_once_text backstitch.Text.Patterns.trim
    backstitch.Text.Patterns.before
outer_readable = ((refl, tt), ((sub_resource_id (bytes "b"), (refl, omega arith)), tt))

panel_readable : AreReadable rank 2 panel.properties
unfolding get_varstr_value get backstitch.Text.strip_prefix backstitch.Text.Patterns.second_part
    backstitch.Text.Patterns.split_once_text backstitch.Text.Patterns.trim
    backstitch.Text.Patterns.before
panel_readable = (
  (refl, (refl, tt)),
  (
    (sub_resource_id (bytes "a"), (refl, omega arith)),
    ((ext_resource_id (bytes "1_x"), (refl, omega arith)), tt),
  ),
)

styled_descends : IsRanked rank styled
unfolding get
styled_descends =
    ForEach-cons (λ id (n : SubResourceNode). AreReadable rank (rank id) n.properties)
      ((bytes "b", sub_resource (bytes "b") inner_properties) ∷ []) (bytes "a")
      (sub_resource (bytes "a") outer_properties) outer_readable
      (ForEach-cons (λ id (n : SubResourceNode). AreReadable rank (rank id) n.properties) []
        (bytes "b") (sub_resource (bytes "b") inner_properties) inner_readable
        (λ id n found. absurd (cc)))

nodes_readable : ForEach (λ id (n : GodotNode). AreReadable rank 2 n.properties) styled.nodes
unfolding get
nodes_readable =
    ForEach-cons (λ id (n : GodotNode). AreReadable rank 2 n.properties) [] (id_of 1) panel
      panel_readable (λ id n found. absurd (cc))

get_scene_diff-itself_example :
    get_scene_diff two_ids 3 (some styled) (some styled) both both (bytes "panel.tscn")
    ≡ ok (record { path = bytes "panel.tscn"; change_type = modified; changed_nodes = [] })
get_scene_diff-itself_example =
    get_scene_diff-itself two_ids 3 2 rank styled both both (bytes "panel.tscn") styled_descends
      nodes_readable (omega arith)

abbrev plain_panel : PropertyGetter
plain_panel = record {
  get_properties = (bytes "style", property (bytes "null")) ∷ [];
  get_type_or_instance = some (type_name (bytes "Panel"));
}

abbrev styled_panel : PropertyGetter
styled_panel = record {
  get_properties = panel.properties;
  get_type_or_instance = some (type_name (bytes "Panel"));
}

get_node_diff_left_out_example :
    (get_node_diff two_ids 3
        (some styled)
        (some styled)
        both
        both
        (id_of 1)
        (some plain_panel)
        (some styled_panel)
      ≡ ok none)
    ↔ ((plain_panel.get_type_or_instance ≡ styled_panel.get_type_or_instance)
        × All
            (IsUnchanged two_ids 3 styled styled both both plain_panel styled_panel)
            (keys plain_panel.get_properties ++ keys styled_panel.get_properties))
get_node_diff_left_out_example =
    get_node_diff_left_out two_ids 3 styled styled both both plain_panel styled_panel (id_of 1)

-- a text that is new, one that is changed, and a file that neither ref has
abbrev changed_files : Map Str ChangeType
changed_files = (bytes "b.txt", created) ∷ (bytes "lost", modified) ∷ (bytes "a.txt", modified) ∷ []

abbrev old_files : Map Str FileContent
old_files = (bytes "a.txt", string (bytes "1")) ∷ []

abbrev new_files : Map Str FileContent
new_files = (bytes "a.txt", string (bytes "2")) ∷ (bytes "b.txt", string (bytes "hello")) ∷ []

abbrev first_ref : HistoryRef Bool Bool
first_ref = record { branch = true; heads = true ∷ [] }

abbrev files_at : HistoryRef Bool Bool → Map Str FileContent
files_at ref_ = if is_empty (drop 1 ref_.heads) then old_files else new_files

abbrev two_file_store : DiffStore two_ids
two_file_store = record {
  get_changed_files_between_refs = λ before after. some changed_files;
  get_files_at_ref = λ ref_ filter. some (files_at ref_);
}

abbrev text_of : Str → ChangeType → Diff
text_of path change_type = text (record { path = path; diff_hunks = []; change_type = change_type })

abbrev two_file_diff : ProjectDiff
two_file_diff = record {
  file_diffs = text_of (bytes "a.txt") modified ∷ text_of (bytes "b.txt") created ∷ [];
}

two_files_differ :
    get_diff two_ids (λ a b. []) two_file_store 1 first_ref both ≡ ok (some two_file_diff)
unfolding get_diff get
two_files_differ = refl

map-get_diff_example :
    map get_diff_file_path two_file_diff.file_diffs
    ≡ sort_by str_le (listed old_files new_files changed_files)
map-get_diff_example =
    map-get_diff two_ids (λ a b. []) two_file_store 1 first_ref both old_files new_files
      changed_files two_file_diff refl refl refl two_files_differ
