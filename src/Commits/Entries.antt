-- ===== src/Commits/Entries.antt =====
-- `commit_entries` of backstitch/src/project/branch_db/commit.rs on the map of files, and
-- `hydrate_content_at` of backstitch/src/fs/file_utils.rs.
use backstitch.Prelude.{
  Option, none, some, List, [], ◌∷◌, ◌++◌, Str, bytes, Outcome, ok, panic, ◌>>=◌,
}
use backstitch.Fs.Traversal.{ChangeType, created, deleted, modified}
use backstitch.Scene.{GodotScene}
use backstitch.Diff.Contents.{FileContent, string, scene_content}
use backstitch.Ingester.Summary.{ChangedFile}
use backstitch.BranchDb.Files.{Hydrated, content, link, bad}

-- What stands at a path of the map of files: nothing, a map, another object or a scalar.
pub data Kind : Type 0 where
  absent : Kind
  map_object : Kind
  other_object : Kind
  scalar : Kind

-- What stands at a key of an entry: a text object, a text scalar, bytes, an object with the scene that
-- autosurgeon reads of it, if any, or another value.
pub data Value : Type 0 where
  text_object : Str → Value
  text_scalar : Str → Value
  byte_scalar : Str → Value
  structured : Option GodotScene → Value
  other : Value

-- The calls of an automerge transaction of type `T` on the map of files. An object that the code gets at
-- a path, or at a key of it, is named by them; a put into a map does not fail.
pub record FilesMap (T : Type 0) : Type 0 where
  pub kind : T → Str → Kind
  pub value : T → Str → Str → Option Value
  pub put_map : T → Str → T
  pub put : T → Str → Str → Value → T
  pub update_text : T → Str → Str → Str → T
  pub delete_key : T → Str → Str → T
  pub delete : T → Str → T
  -- `autosurgeon::reconcile_prop`, none for an error
  pub reconcile : T → Str → Str → GodotScene → Option T
  -- What `GodotScene::hydrate` reads of a scene that was written, none for an error or a panic: it
  -- panics on some ids, and gives siblings of one name new names.
  pub hydrate_scene : GodotScene → Option GodotScene

-- Entry, with `D` the document of a handle and `K` the hashes
pub data Entry (D K : Type 0) : Type 0 where
  binary_entry : Str → D → K → Entry D K
  text_entry : Str → Str → K → Entry D K
  scene_entry : Str → GodotScene → K → Entry D K
  delete_entry : Str → Entry D K

abbrev pub content_key : Str
content_key = bytes "content"

abbrev pub url_key : Str
url_key = bytes "url"

abbrev pub hash_key : Str
hash_key = bytes "hash"

abbrev pub structured_key : Str
structured_key = bytes "structured_content"

-- `Ok(Some(_))`
abbrev pub change_at : Kind → ChangeType
change_at absent = created
change_at map_object = modified
change_at other_object = modified
change_at scalar = modified

abbrev changed : Str → ChangeType → ChangedFile
changed path change_type = record { change_type = change_type; path = path }

module _ {T D K : Type 0} (files : FilesMap T) (hash_bytes : K → Str) (show_id : D → Str) where
  open files use {kind, value, put_map, put, update_text, delete_key, delete, reconcile}

  abbrev put_entry_hash : T → Str → K → T
  put_entry_hash tx path hash = put tx path hash_key (byte_scalar (hash_bytes hash))

  -- Entry::Binary: the entry is made anew
  unfoldable pub commit_binary : T → Str → D → K → T
  commit_binary tx path handle hash =
      put_entry_hash
        (put (put_map tx path) path url_key (text_scalar (bytes "automerge:" ++ show_id handle)))
        path hash

  abbrev pub text_map : Kind → T → Str → T × ChangeType
  text_map map_object tx path = (tx, modified)
  text_map absent tx path = (put_map tx path, created)
  text_map other_object tx path = (put_map tx path, created)
  text_map scalar tx path = (put_map tx path, created)

  abbrev pub with_text : Option Value → T → Str → T
  with_text (some (text_object s)) tx path = tx
  with_text _ tx path = put tx path content_key (text_object [])

  -- what is written into the entry of a text
  unfoldable pub commit_text : T → Str → Str → K → T
  commit_text tx path text hash =
      let cleared = delete_key (delete_key tx path url_key) path structured_key in
      put_entry_hash
        (update_text (with_text (value cleared path content_key) cleared path) path content_key
          text)
        path hash

  -- an entry that is an object is kept
  abbrev pub scene_map : Kind → T → Str → T
  scene_map absent tx path = put_map tx path
  scene_map scalar tx path = put_map tx path
  scene_map map_object tx path = tx
  scene_map other_object tx path = tx

  abbrev pub with_hash : Option T → Str → K → Outcome (Unit {0}) T
  with_hash none path hash = panic
  with_hash (some tx) path hash = ok (put_entry_hash tx path hash)

  -- what is written into the entry of a scene; an error of autosurgeon panics
  unfoldable pub commit_scene : T → Str → GodotScene → K → Outcome (Unit {0}) T
  commit_scene tx path scene hash =
      with_hash (reconcile (scene_map (kind tx path) tx path) path structured_key scene) path hash

  -- one round of the loop
  unfoldable pub commit_entry : Entry D K → T → Outcome (Unit {0}) (T × ChangedFile)
  unfolding commit_binary commit_text commit_scene
  commit_entry (binary_entry path handle hash) tx =
      ok (commit_binary tx path handle hash, changed path (change_at (kind tx path)))
  commit_entry (text_entry path text hash) tx =
      let opened = text_map (kind tx path) tx path in
      ok (commit_text opened.0 path text hash, changed path opened.1)
  commit_entry (scene_entry path scene hash) tx = do
    next ← commit_scene tx path scene hash
    ok (next, changed path (change_at (kind tx path)))
  commit_entry (delete_entry path) tx = ok (delete tx path, changed path deleted)

  unfoldable pub commit_entries : List (Entry D K) → T → Outcome (Unit {0}) (T × List ChangedFile)
  unfolding commit_entry
  commit_entries [] tx = ok (tx, [])
  commit_entries (entry ∷ entries) tx = do
    first ← commit_entry entry tx
    rest ← commit_entries entries first.0
    ok (rest.0, first.1 ∷ rest.1)

module _ {T D : Type 0} (files : FilesMap T) (parse_automerge_url : Str → Option D) where
  open files use {value}

  abbrev pub link_of : Option D → Hydrated D FileContent
  link_of none = bad
  link_of (some id) = link id

  abbrev pub url_of : Option Value → Hydrated D FileContent
  url_of (some (text_scalar url)) = link_of (parse_automerge_url url)
  url_of _ = bad

  abbrev pub text_or_url : Option Value → Option Value → Hydrated D FileContent
  text_or_url (some (text_object s)) url = content (string s)
  text_or_url (some (text_scalar s)) url = content (string s)
  text_or_url _ url = url_of url

  abbrev pub scene_or_text :
      Option Value → Option Value → Option Value → Outcome (Unit {0}) (Hydrated D FileContent)
  scene_or_text none text url = ok (text_or_url text url)
  scene_or_text (some (structured (some scene))) text url = ok (content (scene_content scene))
  scene_or_text (some _) text url = panic

  -- `hydrate_content_at` of the entry at a path; a structured content that does not hydrate panics
  unfoldable pub hydrate_content_at : T → Str → Outcome (Unit {0}) (Hydrated D FileContent)
  hydrate_content_at tx path =
      scene_or_text (value tx path structured_key) (value tx path content_key)
        (value tx path url_key)
