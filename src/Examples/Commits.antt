-- ===== src/Examples/Commits.antt =====
-- Files as a table of kinds and values, and a commit of a text, an image, a scene and a removal.
use backstitch.Prelude.{
  is_empty, ◌≡◌, refl, sym, ap, ◌&&◌, Option, none, some, List, [], ◌∷◌, ◌++◌, Str, bytes, Outcome,
  ok, err, panic, map, list_eq, nat_eq, ◌==◌, if◌then◌else◌,
}
use mathlib.Core.Option.{none-ne-some, some-injective}
use backstitch.Text.{strip_prefix}
use backstitch.Scene.Numbers.{pos}
use backstitch.Scene.{GodotScene}
use backstitch.Fs.Traversal.{created, modified, deleted}
use backstitch.Ingester.Summary.{ChangedFile}
use backstitch.Diff.Contents.{string}
use backstitch.BranchDb.Files.{content, link}
use backstitch.Watcher.Tracking.{parse_automerge_url}
use backstitch.Examples.Scene.{house}
use backstitch.Commits.Entries.{
  Kind, absent, map_object, other_object, scalar, Value, text_object, structured, FilesMap, Entry,
  binary_entry, text_entry, scene_entry, delete_entry, commit_entries, hydrate_content_at,
}
use backstitch.Commits.Views.{IsMap}
use backstitch.Commits.Contents.{committed_at}
use backstitch.Commits.Committed.{hydrate-commit_entries}

pub record Table : Type 0 where
  pub kinds : Str → Kind
  pub values : Str → Str → Option Value

abbrev written : Table → Str → Str → Option Value → Table
written t p k v = record t { values = λ q j. if (k == j) && (p == q) then v else t.values q j }

abbrev emptied : Table → Str → Kind → Table
emptied t p k = record {
  kinds = λ q. if p == q then k else t.kinds q;
  values = λ q j. if p == q then none else t.values q j;
}

-- a scene without nodes does not hydrate, and the number of steps is not kept
abbrev read_back : GodotScene → Option GodotScene
read_back scene = if is_empty scene.nodes then none else some (record scene { load_steps = pos 0 })

-- a scene is only written into a map
abbrev reconciled : Kind → Table → Str → Str → GodotScene → Option Table
reconciled map_object t p k scene = some (written t p k (some (structured (read_back scene))))
reconciled _ t p k scene = none

abbrev pub table : FilesMap Table
table = record {
  kind = λ t. t.kinds;
  value = λ t. t.values;
  put_map = λ t p. emptied t p map_object;
  put = λ t p k v. written t p k (some v);
  update_text = λ t p k text. written t p k (some (text_object text));
  delete_key = λ t p k. written t p k none;
  delete = λ t p. emptied t p absent;
  reconcile = λ t p k scene. reconciled (t.kinds p) t p k scene;
  hydrate_scene = read_back;
}

reconciled_lem :
    (was : Kind) (t u : Table) (p k : Str) (scene : GodotScene)
    → reconciled was t p k scene ≡ some u
    → (was ≡ map_object) × (written t p k (some (structured (read_back scene))) ≡ u)
reconciled_lem map_object t u p k scene h = (refl, some-injective _ _ h)
reconciled_lem absent t u p k scene h = absurd (none-ne-some _ h)
reconciled_lem other_object t u p k scene h = absurd (none-ne-some _ h)
reconciled_lem scalar t u p k scene h = absurd (none-ne-some _ h)

pub table-IsMap : IsMap table
table-IsMap = record {
  kind-put = λ t p k q v. refl;
  value-put = λ t p k q j v is_map. refl;
  kind-put_map = λ t p q. refl;
  value-put_map = λ t p q j. refl;
  value-update_text = λ t p k q j s text is_text. refl;
  kind-update_text = λ t p k q text. refl;
  kind-delete_key = λ t p k q. refl;
  value-delete_key = λ t p k q j. refl;
  value-delete = λ t p q j. refl;
  kind-reconcile = λ t u p k q scene h.
      let (is_map, same) = reconciled_lem (t.kinds p) t u p k scene h in
      (is_map, ap (λ (x : Table). x.kinds q) (sym same));
  value-reconcile = λ t u p k q j scene h.
      let (is_map, same) = reconciled_lem (t.kinds p) t u p k scene h in
      ap (λ (x : Table). x.values q j) (sym same);
}

-- a table with a scene at "b"
abbrev pub before : Table
before = record {
  kinds = λ p. if p == bytes "b" then map_object else absent;
  values = λ p k.
      if (p == bytes "b") && (k == bytes "structured_content")
      then some (structured (some house))
      else none;
}

abbrev entries : List (Entry Str Str)
entries =
    text_entry (bytes "b") (bytes "text") (bytes "h1")
    ∷ binary_entry (bytes "a") (bytes "id") (bytes "h2")
    ∷ scene_entry (bytes "c") house (bytes "h3")
    ∷ binary_entry (bytes "d") (bytes "id2") (bytes "h4")
    ∷ delete_entry (bytes "d")
    ∷ []

abbrev hash_bytes : Str → Str
hash_bytes hash = hash

abbrev show_id : Str → Str
show_id id = id

abbrev parse : Str → Option Str
parse = parse_automerge_url some

parses : (id : Str) → parse (bytes "automerge:" ++ show_id id) ≡ some id
unfolding parse_automerge_url strip_prefix
parses id = refl

abbrev or_before : Outcome (Unit {0}) (Table × List ChangedFile) → Table × List ChangedFile
or_before (ok r) = r
or_before (err e) = (before, [])
or_before panic = (before, [])

unfoldable committed : Table × List ChangedFile
committed = or_before (commit_entries table hash_bytes show_id entries before)

commits : commit_entries table hash_bytes show_id entries before ≡ ok committed
unfolding committed commit_entries
commits = refl

changes :
    map (λ change. change.change_type) committed.1
    ≡ modified ∷ created ∷ created ∷ created ∷ deleted ∷ []
unfolding committed commit_entries
changes = refl

text_instead_of_scene :
    hydrate_content_at table parse committed.0 (bytes "b") ≡ ok (content (string (bytes "text")))
unfolding committed commit_entries hydrate_content_at
text_instead_of_scene = refl

linked : hydrate_content_at table parse committed.0 (bytes "a") ≡ ok (link (bytes "id"))
unfolding committed commit_entries hydrate_content_at parse_automerge_url strip_prefix
linked = refl

hydrate-commit_entries_example :
    hydrate_content_at table parse committed.0 (bytes "d")
    ≡ committed_at table.hydrate_scene entries
        (bytes "d")
        (hydrate_content_at table parse before (bytes "d"))
hydrate-commit_entries_example =
    hydrate-commit_entries table table-IsMap hash_bytes show_id parse parses entries before
      (bytes "d") committed commits
