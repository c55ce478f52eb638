-- ===== src/Examples/Shadow.antt =====
-- A commit of a text, an image and a removal to the shadow document of a branch.
use backstitch.Prelude.{
  ℕ, ◌≡◌, refl, sym, Bool, true, false, Option, none, some, List, [], ◌∷◌, ◌++◌, nat_eq, Str, bytes,
  Outcome, ok, err, panic, if◌then◌else◌,
}
use backstitch.Prelude.Maps.{Map}
use backstitch.History.Ref.{HistoryRef, new}
use backstitch.Diff.Contents.{FileContent, string, binary, scene_content}
use backstitch.Ingester.Summary.{CommitMetadata}
use backstitch.Watcher.Tracking.{parse_automerge_url}
use backstitch.BranchDb.Docs.{Automerge, AutomergeError}
use backstitch.BranchDb.Store.{DbError, BranchesMetadataDoc, Documents, Store, shadow_of}
use backstitch.BranchDb.Kept.{HasAll}
use backstitch.Commits.Changes.{Transactions, Committed, commit_fs_changes, hashes_of}
use backstitch.Commits.Given.{given_at}
use backstitch.Commits.Shadow.{read_in, commit_fs_changes-reads}
use backstitch.Examples.BranchDb.{Changes, changes, has, two_changes}
use backstitch.Examples.Branches.{has_both, metadata}
use backstitch.Examples.Commits.{Table, table, table-IsMap, before}

-- documents with a table of files
abbrev FileDoc : Type 0
FileDoc = Changes × Table

abbrev merge_files : FileDoc → FileDoc → FileDoc × Option AutomergeError
merge_files a b = (((two_changes.merge a.0 b.0).0, a.1), none)

merge_succeeds : (a b : Changes) → (two_changes.merge a b).1 ≡ none
merge_succeeds (changes a b) (changes c d) = refl

abbrev file_docs : Automerge Bool
file_docs = record {
  hash_ord = two_changes.hash_ord;
  Doc = FileDoc;
  get_heads = λ d. two_changes.get_heads d.0;
  fork = λ d. d;
  merge = merge_files;
  has = λ d. has d.0;
  has_fork = λ d h. refl;
  has_merge = λ a b h merges. two_changes.has_merge a.0 b.0 h (merge_succeeds a.0 b.0);
  heads_of_changes = λ a b. two_changes.heads_of_changes a.0 b.0;
}

abbrev docs : Documents ℕ Bool
docs = record {
  am = file_docs;
  created = λ id. (changes false false, before);
  commit_merge = λ d username id m. (changes true true, d.1);
  has_commit_merge = λ d username id m h e. has_both d.0 h e;
  MetaDoc = BranchesMetadataDoc ℕ Bool;
  hydrate = λ d. some d;
  reconcile = λ d m. some m;
  hydrate_reconcile = λ d written m e. sym e;
}

abbrev to_hash : FileContent → Str
to_hash (string s) = s
to_hash (binary s) = s
to_hash (scene_content scene) = []

abbrev show_id : ℕ → Str
show_id id = id ∷ []

abbrev txs : Transactions docs Str
txs = record {
  T = Table;
  files = table;
  transaction = λ d. some d.1;
  commit_with_metadata = λ tx m. (changes true true, tx);
  commit_content = λ d text m. (changes true false, d.1);
  to_hash = to_hash;
  hash_bytes = λ hash. hash;
  show_id = show_id;
}

abbrev first : Str → Option ℕ
first [] = none
first (id ∷ rest) = some id

abbrev parse : Str → Option ℕ
parse = parse_automerge_url first

parses : (id : ℕ) → parse (bytes "automerge:" ++ show_id id) ≡ some id
unfolding parse_automerge_url backstitch.Text.strip_prefix
parses id = refl

abbrev one_branch : Store docs
one_branch = record {
  db = record {
    binary_states = [];
    branch_sync_states =
        (
          1,
          record {
            shadow_doc = some (changes true false, before);
            shadow_doc_init = true;
            canonical_doc = 1;
            last_tracked = [];
            last_reconciled = [];
            canonical_binary_docs = [];
          },
        )
        ∷ [];
    repo = λ id. (changes true false, before);
    sent = 0;
  };
  metadata_state = none;
  metadata_docs = λ id. metadata;
  default_username = some (bytes "ada");
  authenticated_username = none;
}

abbrev contents : List (Str × Option FileContent)
contents =
    (bytes "b", some (string (bytes "text")))
    ∷ (bytes "a", some (binary (0 ∷ [])))
    ∷ (bytes "d", none)
    ∷ []

abbrev at_main : HistoryRef ℕ Bool
at_main = record { branch = 1; heads = false ∷ [] }

abbrev at_commit : HistoryRef ℕ Bool
at_commit = new ⦃o = two_changes.hash_ord⦄ 1 (two_changes.get_heads (changes true true))

unfoldable committed : Store docs × Outcome (DbError ℕ) (Committed docs txs)
committed = commit_fs_changes docs txs (some 7 ∷ []) contents at_main none false one_branch

commits :
    commit_fs_changes docs txs (some 7 ∷ []) contents at_main none false one_branch
    ≡ (committed.0, ok (some (at_commit, hashes_of docs txs contents [])))
unfolding committed commit_fs_changes backstitch.Prelude.Maps.get
    backstitch.Commits.Entries.commit_entries backstitch.Prelude.Maps.insert
    backstitch.BranchDb.Reconcile.try_reconcile_branch
    backstitch.BranchDb.Reconcile.resolved_all_canonical_binary_docs
    backstitch.BranchDb.Reconcile.is_up_to_date backstitch.BranchDb.Reconcile.are_heads_equivalent
    backstitch.Prelude.Sorting.sort
commits = refl

reads_back :
    (tx : Table) (m : CommitMetadata ℕ Bool)
    → (opened : Table) × ((some tx ≡ some opened)
        × ((path k : Str) → opened.values path k ≡ tx.values path k))
reads_back tx m = (tx, (refl, λ path k. refl))

commit_fs_changes-reads_example :
    (was after : FileDoc) × ((shadow_of docs 1 one_branch ≡ (one_branch, ok was))
      × (at_commit ≡ new {D = ℕ} ⦃o = two_changes.hash_ord⦄ 1 (file_docs.get_heads after))
      × (hashes_of docs txs contents [] ≡ hashes_of docs txs contents [])
      × ((path : Str)
          → read_in docs txs parse (some after.1) path
            ≡ given_at table.hydrate_scene
                (some 7 ∷ [])
                contents
                path
                (read_in docs txs parse (some was.1) path))
      × HasAll docs (has after.0) 1 committed.0)
commit_fs_changes-reads_example =
    commit_fs_changes-reads docs txs table-IsMap parse parses reads_back (λ a b. refl) (some 7 ∷ [])
      contents at_main none false one_branch committed.0 at_commit (hashes_of docs txs contents [])
      commits
