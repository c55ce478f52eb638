-- ===== src/Commits/Changes.antt =====
-- `commit_fs_changes` and `create_new_binary_doc` of backstitch/src/project/branch_db/commit.rs.
use backstitch.Prelude.{
  Bool, false, Option, none, some, List, [], ◌∷◌, Str, Outcome, ok, err, panic, Eq, list_eq, nat_eq,
}
use backstitch.Prelude.Maps.{Map, get, insert}
use backstitch.Prelude.Actions.{◌>>=◌, give, unwrap, current}
use backstitch.History.Ref.{HistoryRef, new}
use backstitch.Diff.Contents.{FileContent, string, binary, scene_content}
use backstitch.Ingester.Summary.{CommitMetadata, ChangedFile}
use backstitch.BranchDb.State.{BranchSyncState}
use backstitch.BranchDb.Store.{DbError, Documents, Store, On, resolve_username}
use backstitch.BranchDb.Branches.{write_new_doc}
use backstitch.BranchDb.Merging.{write_shadow, reconcile_target}
use backstitch.Commits.Entries.{
  FilesMap, Entry, binary_entry, text_entry, scene_entry, delete_entry, commit_entries,
}

-- What the commits use of automerge and blake3: a transaction is on the map of files of a document,
-- none where it has none; `K` are the hashes of contents.
pub record Transactions {D H : Type 0} (docs : Documents D H) (K : Type 0) : Type 1 where
  pub T : Type 0
  pub files : FilesMap T
  pub transaction : docs.am.Doc → Option T
  pub commit_with_metadata : T → CommitMetadata D H → docs.am.Doc
  -- a document with the content of a file put at its root, and a commit of it
  pub commit_content : docs.am.Doc → Str → CommitMetadata D H → docs.am.Doc
  pub to_hash : FileContent → K
  pub hash_bytes : K → Str
  pub show_id : D → Str

abbrev pub next_id : {D : Type 0} → List (Option D) → Option D
next_id [] = none
next_id (id ∷ ids) = id

abbrev pub later_ids : {D : Type 0} → List (Option D) → List (Option D)
later_ids [] = []
later_ids (id ∷ ids) = ids

module _ {D H K : Type 0} ⦃e : Eq D⦄ (docs : Documents D H) (txs : Transactions docs K) where
  open docs use {am}
  open txs use {
    files, transaction, commit_with_metadata, commit_content, to_hash, hash_bytes, show_id,
  }

  -- The document that the repo makes, none where it has stopped. Its content is written by a task
  -- that nobody waits for; here it is done at once.
  unfoldable pub create_new_binary_doc : Option D → Str → On docs D
  unfolding resolve_username
  create_new_binary_doc new_doc content = do
    id ← unwrap new_doc
    s ← current
    _ ← write_new_doc docs id (
        commit_content (docs.created id) content (record {
          username = resolve_username docs s;
          branch_id = none;
          merge_metadata = none;
          reverted_to = none;
          changed_files = none;
          is_setup = some false;
        }))
    give id

  -- the entries of the files, with the documents that the repo makes in turn
  unfoldable pub entries_of :
      List (Option D) → List (Str × Option FileContent) → On docs (List (Entry D K))
  unfolding create_new_binary_doc
  entries_of ids [] = give []
  entries_of ids ((path, some (binary content)) ∷ rest) = do
    handle ← create_new_binary_doc (next_id ids) content
    entries ← entries_of (later_ids ids) rest
    give (binary_entry path handle (to_hash (binary content)) ∷ entries)
  entries_of ids ((path, some (string content)) ∷ rest) = do
    entries ← entries_of ids rest
    give (text_entry path content (to_hash (string content)) ∷ entries)
  entries_of ids ((path, some (scene_content scene)) ∷ rest) = do
    entries ← entries_of ids rest
    give (scene_entry path scene (to_hash (scene_content scene)) ∷ entries)
  entries_of ids ((path, none) ∷ rest) = do
    entries ← entries_of ids rest
    give (delete_entry path ∷ entries)

  abbrev pub content_hash : Option FileContent → Option K
  content_hash none = none
  content_hash (some content) = some (to_hash content)

  -- `ret`
  unfoldable pub hashes_of :
      List (Str × Option FileContent) → Map Str (Option K) → Map Str (Option K)
  hashes_of [] ret = ret
  hashes_of ((path, content) ∷ rest) ret = hashes_of rest (insert ret path (content_hash content))

  -- a revert takes the branch of the ref that it goes back to
  abbrev pub fs_metadata :
      Option Str → D → Option (HistoryRef D H) → Bool → List ChangedFile → CommitMetadata D H
  fs_metadata username branch none is_checking_in changes = record {
    username = username;
    branch_id = some branch;
    merge_metadata = none;
    reverted_to = none;
    changed_files = some changes;
    is_setup = some is_checking_in;
  }
  fs_metadata username branch (some revert) is_checking_in changes = record {
    username = username;
    branch_id = some revert.branch;
    merge_metadata = none;
    reverted_to = some revert.heads;
    changed_files = some changes;
    is_setup = some is_checking_in;
  }

  abbrev pub with_metadata :
      (List ChangedFile → CommitMetadata D H)
      → Outcome (Unit {0}) (txs.T × List ChangedFile)
      → Outcome (Unit {0}) am.Doc
  with_metadata metadata (ok (tx, changes)) = ok (commit_with_metadata tx (metadata changes))
  with_metadata metadata (err x) = err x
  with_metadata metadata panic = panic

  -- the transaction on the shadow document, and its commit
  abbrev pub committed_in :
      Option txs.T
      → List (Entry D K)
      → (List ChangedFile → CommitMetadata D H)
      → Outcome (Unit {0}) am.Doc
  committed_in none entries metadata = panic
  committed_in (some tx) entries metadata =
      with_metadata metadata (commit_entries files hash_bytes show_id entries tx)

  -- an error of the reconcile is logged
  abbrev pub logged :
      Store docs × Outcome (DbError D) (Unit {0}) → Store docs × Outcome (DbError D) (Unit {0})
  logged (s, ok u) = (s, ok u)
  logged (s, err x) = (s, ok tt)
  logged (s, panic) = (s, panic)

  abbrev pub reconcile_logged : D → On docs (Unit {0})
  reconcile_logged branch s = logged (reconcile_target docs branch s)

  abbrev pub Committed : Type 0
  Committed = Option (HistoryRef D H × Map Str (Option K))

  -- a panic in the task that commits is one of the task that waits for it
  abbrev pub commit_doc : D → Map Str (Option K) → Outcome (Unit {0}) am.Doc → On docs Committed
  commit_doc branch ret panic s = (s, panic)
  commit_doc branch ret (err x) s = (s, panic)
  commit_doc branch ret (ok d) s =
      (do
        _ ← write_shadow docs branch d
        _ ← reconcile_logged branch
        give (some (new ⦃o = am.hash_ord⦄ branch (am.get_heads d), ret)))
        s

  -- the shadow document, if it is initialized
  abbrev pub commit_onto :
      D
      → Map Str (Option K)
      → (am.Doc → Outcome (Unit {0}) am.Doc)
      → Option am.Doc
      → On docs Committed
  commit_onto branch ret commit none = give none
  commit_onto branch ret commit (some d) = commit_doc branch ret (commit d)

  abbrev pub commit_shadow :
      D
      → Map Str (Option K)
      → (am.Doc → Outcome (Unit {0}) am.Doc)
      → Option (BranchSyncState D H am.Doc)
      → On docs Committed
  commit_shadow branch ret commit none = give none
  commit_shadow branch ret commit (some state) = commit_onto branch ret commit state.shadow_doc

  unfoldable pub commit_fs_changes :
      List (Option D)
      → List (Str × Option FileContent)
      → HistoryRef D H
      → Option (HistoryRef D H)
      → Bool
      → On docs Committed
  unfolding entries_of hashes_of write_shadow reconcile_target new
  commit_fs_changes ids contents ref_ revert is_checking_in = do
    before ← current
    entries ← entries_of ids contents
    s ← current
    commit_shadow ref_.branch (hashes_of contents [])
        (λ d.
          committed_in (transaction d) entries
            (fs_metadata (resolve_username docs before) ref_.branch revert is_checking_in))
        (get s.db.branch_sync_states ref_.branch)
