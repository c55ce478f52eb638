-- ===== src/Watcher/Tracking.antt =====
-- The state of the document watcher: which branches it tracks, and how far each has come.
use backstitch.Prelude.{
  Option, none, some, List, [], ◌∷◌, Str, bytes, Outcome, ok, err, panic, Eq, ◌==◌, if◌then◌else◌,
  nat_eq, list_eq,
}
use backstitch.Prelude.Maps.{Map, get, insert, keys}
use backstitch.Text.{strip_prefix}
use backstitch.BranchDb.Docs.{Automerge, AutomergeError}
use backstitch.BranchDb.State.{BranchDb}
use backstitch.BranchDb.Sync.{has_binary_doc, update_branch_sync_state}
use backstitch.BranchDb.Store.{Documents, Store}

pub data BranchIngestState : Type 0 where
  pending ingested failed : BranchIngestState

pub data IngestWaitError : Type 0 where
  not_tracked timed_out watch : IngestWaitError

-- `tracked_branches` with the last value sent on each sender. `running` are the branches whose task,
-- `track_branch_document`, has been spawned and has neither sent a state nor stopped: it polls for the
-- document or ingests it.
pub record Watcher (D : Type 0) : Type 0 where
  pub tracked_branches : Map D BranchIngestState
  pub running : List D

-- the loop of `wait_for_branch_ingest`, over the values that the receiver sees; behind the last one
-- the sender is gone
unfoldable pub wait : List BranchIngestState → Outcome IngestWaitError (Unit {0})
wait [] = err watch
wait (pending ∷ later) = wait later
wait (ingested ∷ later) = ok tt
wait (failed ∷ later) = err timed_out

module _ {D : Type 0} ⦃e : Eq D⦄ where
  -- a branch of the metadata document: a new one is tracked and its task is spawned
  abbrev pub track : D → Option BranchIngestState → Watcher D → Watcher D
  track id none w = record {
    tracked_branches = insert w.tracked_branches id pending;
    running = id ∷ w.running;
  }
  track id (some state) w = w

  -- the loop over the branches of the metadata document
  unfoldable pub track_branches : List D → Watcher D → Watcher D
  track_branches [] w = w
  track_branches (id ∷ ids) w = track_branches ids (track id (get w.tracked_branches id) w)

  -- one task of the branch has sent its state, or stopped
  abbrev pub remove_one : D → List D → List D
  remove_one id [] = []
  remove_one id (x ∷ xs) = if x == id then xs else x ∷ remove_one id xs

  -- `get_mut(&id)` and `send_replace` of `track_branch_document`
  unfoldable pub send_state : BranchIngestState → D → Watcher D → Outcome (Unit {0}) (Watcher D)
  send_state state id w = elim (get w.tracked_branches id) [
    | none ↦ panic
    | some old ↦ ok (record {
      tracked_branches = insert w.tracked_branches id state;
      running = remove_one id w.running;
    })
  ]

  unfoldable pub wait_for_branch_ingest :
      Watcher D → D → List BranchIngestState → Outcome IngestWaitError (Unit {0})
  unfolding wait
  wait_for_branch_ingest w branch later = elim (get w.tracked_branches branch) [
    | none ↦ err not_tracked
    | some state ↦ wait (state ∷ later)
  ]

  module _ {H : Type 0} (docs : Documents D H) where
    -- The hydration of a bad document panics, which the `unwrap` of its thread's result passes on.
    unfoldable pub ingest_metadata_document :
        D → Store docs × Watcher D → Outcome (Unit {0}) (Store docs × Watcher D)
    unfolding track_branches
    ingest_metadata_document handle (s, w) = elim (docs.hydrate (s.metadata_docs handle)) [
      | none ↦ panic
      | some meta ↦
          ok (
            record s { metadata_state = some (handle, meta) },
            track_branches (keys meta.branches) w,
          )
    ]

module _ {D : Type 0} (doc_from_str : Str → Option D) where
  -- `parse_automerge_url`, with the parse of a document id
  unfoldable pub parse_automerge_url : Str → Option D
  parse_automerge_url url = elim (strip_prefix (bytes "automerge:") url) [
    | none ↦ none
    | some hash ↦ doc_from_str hash
  ]

  abbrev linked_doc : Str → Option D → Map Str D → Map Str D
  linked_doc path none docs = docs
  linked_doc path (some id) docs = (path, id) ∷ docs

  -- The documents that the files of a branch link: an entry is none for a file without a `url` text.
  unfoldable pub linked_docs_of : Map Str (Option Str) → Map Str D
  unfolding parse_automerge_url
  linked_docs_of [] = []
  linked_docs_of ((path, file) ∷ files) = elim file [
    | none ↦ linked_docs_of files
    | some url ↦ linked_doc path (parse_automerge_url url) (linked_docs_of files)
  ]

abbrev values_of : {D : Type 0} → Map Str D → List D
values_of [] = []
values_of ((path, id) ∷ docs) = id ∷ values_of docs

module _ {D H : Type 0} ⦃e : Eq D⦄ (am : Automerge H) where
  -- the linked documents for which a poll is spawned
  unfoldable pub track_binary_documents : BranchDb D H am.Doc → List D → List D
  unfolding has_binary_doc
  track_binary_documents db [] = []
  track_binary_documents db (id ∷ ids) =
      let spawned = track_binary_documents db ids in
      if has_binary_doc am db id then spawned else id ∷ spawned

  -- `read_files` are the files of the document of a handle, none for a document without them
  unfoldable pub ingest_branch_document :
      (Str → Option D)
      → (am.Doc → Option (Map Str (Option Str)))
      → BranchDb D H am.Doc
      → D
      → List D × (BranchDb D H am.Doc × Outcome AutomergeError (Unit {0}))
  unfolding linked_docs_of track_binary_documents update_branch_sync_state
  ingest_branch_document doc_from_str read_files db handle =
      let d = db.repo handle in
      let linked : List D = elim (read_files d) [
        | none ↦ []
        | some files ↦ values_of (linked_docs_of doc_from_str files)
      ] in
      (
        track_binary_documents db linked,
        update_branch_sync_state am db handle (am.get_heads d) linked,
      )
