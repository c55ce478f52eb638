-- ===== src/Lib.antt =====
-- A model of Backstitch, a version control system for Godot projects on top of automerge
-- documents, and of the program in backstitch/src.
--
-- The program keeps one automerge document for each branch of a project. The peers change the
-- canonical document of a branch; the editor works on a shadow document, a copy that only gets the
-- changes of the canonical one when all binary files it links have arrived. A background task
-- keeps both in step, checks refs (a branch and heads on it) out onto the disk and commits what
-- the user changes there.
--
-- The parts, and the files that model them:
--
-- - History (History/Ref, History/Path): backstitch/src/helpers/history_ref.rs and
--   history_path.rs. A ref, its text, the URL of a file at a ref and their parsers. A `str` is the
--   list of its bytes; a slice that would cut a character or go out of range is a panic, an
--   outcome of its own. The document ids and change hashes of samod and automerge are the
--   interface History/Ids.
-- - BranchDb (State, Docs, Reconcile, Sync): backstitch/src/project/branch_db/branch_sync.rs. The
--   maps of the branch states and of the binary documents, try_reconcile_branch on the shadow and
--   the canonical document, ingest_binary_doc and update_branch_sync_state. Each operation holds
--   its locks to its end, so that it is one step; Sync/Reachable has the steps, in any order, with
--   the edits of the documents between them. The automerge crate is the interface BranchDb/Docs:
--   documents are sets of changes, a merge that succeeds is a union, and the heads depend on the
--   changes only.
-- - Fs (Traversal, Paths, Checkout): backstitch/src/project/fs/fs_traversal.rs and
--   sync_automerge_to_fs.rs, with the futures of project/driver.rs that apply the changes; Paths
--   has localize_path and globalize_path of project/branch_db/util.rs. The file system, the file
--   index and the store are the interface Checkout.Host: a disk has a tree of files and
--   directories, in which the walk leaves out what is below an ignored directory, and jwalk what
--   is hidden. Checkout/Applied names what a checkout relies on, among it that every write and
--   removal succeeds, which is not so on every disk: a write that fails is not tried again, and
--   the ref is recorded all the same.
-- - MainThreadBlock: backstitch/src/project/main_thread_block.rs. The workers that wait, those
--   that hold a guard and the main thread take steps on the permits of the two semaphores, in any
--   order.
-- - Driver: backstitch/src/project/driver.rs. get_ref_for_sync, commit, sync_correct_ref with the
--   files that wait to be normalized, and ensure_server_connection over the events that come in.
--   Driver/Branching has the operations on branches, over the store as an interface. It uses
--   Fs.Checkout, and takes the branches of the store as an interface. A call of sync_correct_ref
--   is modelled as it runs with no other task between its start and its end; sync_guarded is its
--   second half on whatever state it finds.
-- - Scene (Numbers, Ids, Paths, Serialize, Document, Overrides, Quotes):
--   backstitch/src/parser/godot_parser.rs. The data of a scene, the ids of nodes with their texts,
--   get_node_path, and the serialisation: the resources and the nodes in Serialize, the
--   connections and the whole in Document; and unquote in Quotes. An i32 or i64 is an integer; the
--   parse of an i32 has its range.
-- - Diff (Values, Changes, Properties, Nodes, Scenes, Contents, Instances, Project):
--   backstitch/src/diff. get_diff of differ.rs is in Project, with the types of instanced nodes in
--   Instances; scene_differ.rs is in Values, Changes, Properties, Nodes and Scenes; text_differ.rs
--   and resource_differ.rs are in Contents. The hunks that the crate similar makes of two texts
--   and the store of branches are parameters. Unchanged, SameScene, Nones, NodeChanges, FilePaths
--   and Listing hold what is shown of them.
-- - BranchDb (Store, Branches, Merging, Reverting, Files):
--   backstitch/src/project/branch_db/util.rs, branch.rs, merge_revert.rs and file.rs, with
--   helpers/branch.rs. A store is the state of the sync, the metadata document and the copy of it
--   that the store reads branches from. Each operation is an action on the store that can end with
--   an error or a panic and keeps what it wrote before; a new document gets the id that the repo
--   gives, an argument. The transactions of automerge and the hydration of autosurgeon are the
--   interface Documents; what automerge reads of the files of a document is the interface
--   Files.FileReads; create_revert_preview_branch of Reverting commits by commit_fs_changes of
--   Commits.Changes. Forked, Previewed, Kept, Merged and HashIndex hold what is shown.
-- - Watcher (Polling, Tracking, Tasks): backstitch/src/project/document_watcher.rs. poll_document
--   over the answers of the repo, the tracking of branches, and the tasks as steps in any order,
--   each of which can be cancelled or panic before it sends a state; ingest_branch_document ends
--   in update_branch_sync_state of BranchDb.Sync.
-- - Ingester (Summary, Listed, Synced): backstitch/src/project/change_ingester.rs, and
--   summarize_changes of helpers/utils.rs. get_changes over the changes of the two documents; the
--   parse of a commit's message is an argument.
-- - Connection (Peers, Acked): backstitch/src/project/peer_watcher.rs. update_server_info and the
--   loop over the events of the peers; samod's records have the fields that the code reads, and
--   the rest as one field.
-- - Parser (Attributes, Nodes, Sections, Placing, Attaching, Assembly): parse_scene and
--   recognize_scene of backstitch/src/parser/godot_parser.rs. The captures that tree-sitter's
--   query yields are read into sections, these into parts, and two loops over the nodes place them
--   and attach them to their parents; each loop of the source is a recursive function. Linked,
--   Links, Childless, Newborn and Forest show how nodes are linked, Climbing when the loop over a
--   path ends.
-- - Commits (Entries, Changes, FromDisk): backstitch/src/project/branch_db/commit.rs,
--   hydrate_content_at of backstitch/src/fs/file_utils.rs, and commit and checkin of
--   backstitch/src/project/fs/sync_fs_to_automerge.rs. Entries has commit_entries: the calls of an
--   automerge transaction on the map of files are the interface FilesMap, in which a put into a
--   map does not fail and what a scene reads back as is a function of its own, as hydrate_nodes
--   renames siblings and panics. Changes has commit_fs_changes on the store of BranchDb, with the
--   commit of a transaction and the hash of a content in the interface Transactions; FromDisk has
--   what is committed of the disk, whose reads are the interface Disk. Views has what is
--   documented of a map of files; Contents, Committed, Given and Shadow hold what is read after a
--   commit.
-- - Config (Backing, Stored, Settings, Servers):
--   backstitch/src/project/config/file_backed_toml.rs. A table of settings, with its file, is a
--   state; get and set are get_value and set_value. The calls of tokio::fs on the file are the
--   interface Files, the crate toml is the interface Toml. Settings has the settings of
--   backstitch/src/project/config.rs on top, with the parse of a URL as the interface Parsed.
-- - Examples: the theorems at concrete inputs.
--
-- A HashMap is an association list whose lookups find the first entry of a key; nothing here
-- depends on the order of the entries but where a comment says so. A log line has no model. An
-- operation that returns a `Result` and writes shared state gives the state after it together with
-- the outcome, so that what an error leaves behind is part of the model. A loop that may not end
-- runs on fuel: get_node_path takes one step for each name on the path, and a scene whose parents
-- run in a circle keeps it running, which is an outcome of its own; serialize_node takes one step
-- for each level of children; show_digits takes one step for each digit, and gets one more than
-- the number; did_prop_change takes one step for each sub-resource that refers to another, and
-- sub-resources that refer to each other in a circle keep it running; poll_document takes one step
-- for each call of find, and timeout / 500 + 1 of them are enough; climb takes one step for each
-- name on a path, one more than the length of the path is enough where each path on the way is
-- known, and a path that is not known keeps it running, as the source does; draw takes one step
-- for each random number, and as many as there are ids that are taken need not be enough.
--
-- Not modelled: the Godot extension and the editor interface, the dialer of the network
-- connections, the authentication and the I/O of tokio, samod, notify and similar crates. The task
-- that collects the paths touched on the disk, FileContent::from_buf, the debounce of the list of
-- commits and the streams that wake the tasks are not modelled.
pub mod Prelude
pub mod Text
pub mod History
pub mod BranchDb
pub mod Fs
pub mod MainThreadBlock
pub mod Driver
pub mod Scene
pub mod Diff
pub mod Watcher
pub mod Connection
pub mod Config
pub mod Parser
pub mod Commits
pub mod Ingester
pub mod Examples
