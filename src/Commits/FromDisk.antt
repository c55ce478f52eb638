-- ===== src/Commits/FromDisk.antt =====
-- The commit of what changed on the disk: backstitch/src/project/fs/sync_fs_to_automerge.rs.
use backstitch.Prelude.{
  ◌≡◌, refl, ap, ◌∙◌, Bool, true, false, not, ◌&&◌, Option, none, some, List, [], ◌∷◌, ◌++◌, Str,
  Outcome, ok, err, panic, Eq, ◌==◌, option_beq, list_eq, nat_eq, is_empty, arith, Bool-cases, inl,
  inr, if◌then◌else◌,
}
use backstitch.Prelude.Maps.{Map, get, insert, keys, Distinct, has_value}
use backstitch.Prelude.Actions.{◌>>=◌, give, unwrap}
use backstitch.Fs.Traversal.{ChangeType, change_of, get_file_changes, get_file_changes-change_of}
use backstitch.History.Ref.{HistoryRef}
use backstitch.Diff.Contents.{FileContent}
use backstitch.BranchDb.Files.{FileReads, get_hash_index}
use backstitch.BranchDb.Store.{DbError, Documents, Store, On}
use backstitch.Driver.Normalized.{CommitStatus}
use backstitch.Commits.Changes.{Transactions, Committed, commit_fs_changes}

-- What the commits read of the disk, with `P` the paths on it: the hashes of the files that are not
-- ignored, and the paths of files from and to those of the project.
pub record Disk (P K : Type 0) : Type 0 where
  pub get_all_files : Map P K
  -- `tokio::fs::try_exists`, none for an error
  pub try_exists : P → Option Bool
  -- `tokio::fs::read`, none for an error
  pub read : P → Option Str
  -- `FileContent::from_buf` of the bytes of a file
  pub from_buf : Str → P → FileContent
  pub localize_path : P → Str
  pub globalize_path : Str → P

module _ {P K : Type 0} (disk : Disk P K) where
  open disk use {try_exists, read, from_buf, localize_path}

  abbrev pub content_read : P → Option Str → List (Str × Option FileContent)
  content_read path none = []
  content_read path (some buf) = (localize_path path, some (from_buf buf path)) ∷ []

  -- a file that is not there is removed; one that cannot be read is left out
  abbrev pub file_contents : P → Option Bool → List (Str × Option FileContent)
  file_contents path none = []
  file_contents path (some false) = (localize_path path, none) ∷ []
  file_contents path (some true) = content_read path (read path)

  -- in the order of the paths; the source takes the files as their reads end
  unfoldable pub get_file_contents : List P → List (Str × Option FileContent)
  get_file_contents [] = []
  get_file_contents (path ∷ paths) = file_contents path (try_exists path) ++ get_file_contents paths

module _ {P V : Type 0} where
  -- `filter` on the entries of a map
  unfoldable pub retain : (P → Bool) → Map P V → Map P V
  retain keep [] = []
  retain keep ((path, v) ∷ m) =
      let rest = retain keep m in if keep path then (path, v) ∷ rest else rest

  pub get-retain :
      ⦃e : Eq P⦄ (keep : P → Bool) (m : Map P V) (path : P)
      → get (retain keep m) path ≡ (if keep path then get m path else none)
  unfolding retain get
  get-retain keep [] path = ground arith
  get-retain ⦃e⦄ keep ((p, v) ∷ m) path = elim (Bool-cases (p == path)) [
    | inl here ↦ ground (arith, here, ap keep ((e.beq_iff p path).0 here), get-retain keep m path)
    | inr apart ↦ ground (arith, apart, get-retain keep m path)
  ]

-- false only for a file with the hash that it is skipped with
abbrev pub is_new : {K : Type 0} ⦃eh : Eq K⦄ → Option K → Option K → Bool
is_new none current_hash = true
is_new (some skip_hash) none = true
is_new (some skip_hash) (some current_hash) = not (skip_hash == current_hash)

-- A file is skipped exactly if it has the hash that it is skipped with.
skip_or_change :
    {K A : Type 0} ⦃eh : Eq K⦄ (skip_hash current_hash : Option K) (change : Option A)
    → (if is_new skip_hash current_hash then change else none)
      ≡ (if has_value skip_hash && option_beq skip_hash current_hash then none else change)
skip_or_change none current_hash change = refl
skip_or_change (some s) none change = refl
skip_or_change (some s) (some c) change = elim (Bool-cases (s == c)) [
  | inl same ↦ rw same refl
  | inr other ↦ rw other refl
]

module _ {P K : Type 0} ⦃e : Eq P⦄ ⦃eh : Eq K⦄ where
  unfoldable pub changes_to_commit : Map P K → Map P K → Map P K → Map P ChangeType
  unfolding retain get_file_changes
  changes_to_commit skip_files old_files current_files =
      retain (λ path. is_new (get skip_files path) (get current_files path))
        (get_file_changes old_files current_files)

  -- What is committed of a path is nothing if the path is to be skipped with a hash and the
  -- disk has it with that hash; otherwise it is its change from the files at the ref to those
  -- on the disk, where no path of the disk stands twice.
  pub get-changes_to_commit :
      (skip_files old_files current_files : Map P K) (path : P)
      → Distinct current_files
      → get (changes_to_commit skip_files old_files current_files) path ≡ (
          if has_value (get skip_files path)
            && option_beq (get skip_files path) (get current_files path)
          then none
          else change_of (get old_files path) (get current_files path))
  unfolding changes_to_commit
  get-changes_to_commit skip_files old_files current_files path distinct =
      get-retain _ (get_file_changes old_files current_files) path
      ∙ ap (λ o. if is_new (get skip_files path) (get current_files path) then o else none)
          (get_file_changes-change_of old_files current_files path distinct)
      ∙ skip_or_change (get skip_files path) (get current_files path)
          (change_of (get old_files path) (get current_files path))

-- `collect` of entries into a map, the last of a key staying
unfoldable pub collect : {P V : Type 0} ⦃e : Eq P⦄ → Map P V → Map P V → Map P V
collect [] m = m
collect ((k, v) ∷ entries) m = collect entries (insert m k v)

module _ {D H K P : Type 0} ⦃e : Eq D⦄ ⦃ep : Eq P⦄ (docs : Documents D H)
    (txs : Transactions docs K) (reads : FileReads docs FileContent K) (disk : Disk P K) where
  open disk use {get_all_files, globalize_path}

  abbrev globalized : {V : Type 0} → Map Str V → Map P V
  globalized [] = []
  globalized ((path, v) ∷ m) = (globalize_path path, v) ∷ globalized m

  abbrev statuses : Map P (Option K) → Map P (CommitStatus K)
  statuses [] = []
  statuses ((path, hash) ∷ hashes) =
      (path, record { hash_before_commit = get get_all_files path; hash_after_commit = hash })
      ∷ statuses hashes

  abbrev Status : Type 0
  Status = Option (HistoryRef D H × Map P (CommitStatus K))

  abbrev status_after : Committed docs txs → Status
  status_after none = none
  status_after (some (new_ref, hashes)) = some (new_ref, collect (statuses (globalized hashes)) [])

  -- the pending changes with what the store becomes and what is returned
  abbrev Ended : Type 0
  Ended = List Str × (Store docs × Outcome (DbError D) Status)

  abbrev commit_changes : List (Option D) → HistoryRef D H → Map P ChangeType → Store docs → Ended
  commit_changes ids ref_ [] s = ([], (s, ok none))
  commit_changes ids ref_ (change ∷ diff) s = (
    [],
    (do
      done ←
          commit_fs_changes docs txs ids (get_file_contents disk (keys (change ∷ diff))) ref_ none
            false
      give (status_after done))
        s,
  )

  -- an error of the index is logged
  abbrev commit_from_index :
      List (Option D)
      → Map P K
      → HistoryRef D H
      → List Str
      → Store docs × Outcome (DbError D) (Map Str K)
      → Ended
  commit_from_index ids skip_files ref_ pending_changes (s, err x) = (pending_changes, (s, ok none))
  commit_from_index ids skip_files ref_ pending_changes (s, panic) = (pending_changes, (s, panic))
  commit_from_index ids skip_files ref_ pending_changes (s, ok old_files) =
      commit_changes ids ref_
        (changes_to_commit ⦃eh = reads.hash_eq⦄ skip_files (collect (globalized old_files) [])
          get_all_files)
        s

  unfoldable pub commit :
      List (Option D) → Bool → Map P K → HistoryRef D H → List Str → Store docs → Ended
  unfolding get_file_contents changes_to_commit collect
  commit ids force skip_files ref_ pending_changes s =
      if not force && is_empty pending_changes
      then (pending_changes, (s, ok none))
      else commit_from_index ids skip_files ref_ pending_changes (get_hash_index reads ref_ s)

  -- the ref that is checked out after the check in
  abbrev moved : Option (HistoryRef D H) → Committed docs txs → Option (HistoryRef D H)
  moved checked_out_ref none = checked_out_ref
  moved checked_out_ref (some (new_ref, hashes)) = some new_ref

  -- With no ref checked out the error is logged, and the `unwrap` panics.
  unfoldable pub checkin :
      List (Option D) → Option (HistoryRef D H) → On docs (Option (HistoryRef D H))
  unfolding get_file_contents
  checkin ids checked_out_ref = do
    ref_ ← unwrap checked_out_ref
    done ←
        commit_fs_changes docs txs ids (get_file_contents disk (keys get_all_files)) ref_ none true
    give (moved checked_out_ref done)
