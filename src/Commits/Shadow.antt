-- ===== src/Commits/Shadow.antt =====
-- What a commit of files leaves in the shadow document of the branch.
use mathlib.Core.Path.{subst}
use backstitch.Prelude.{
  ◌≡◌, refl, sym, ap, ◌∙◌, Bool, Option, none, some, List, [], ◌++◌, Str, bytes, Outcome, ok, err,
  panic, Eq, list_eq, nat_eq, ok-injective,
}
use backstitch.Prelude.Maps.{Map, get}
use backstitch.Prelude.Actions.{continue_with_steps}
use backstitch.History.Ref.{HistoryRef, new}
use backstitch.Diff.Contents.{FileContent}
use backstitch.Ingester.Summary.{CommitMetadata, ChangedFile}
use mathlib.Core.Option.{some-injective}
use backstitch.BranchDb.Docs.{AutomergeError}
use backstitch.BranchDb.State.{BranchSyncState, BranchDb}
use backstitch.BranchDb.Reconcile.Settles.{try_reconcile_branch-ok}
use backstitch.BranchDb.Files.{Hydrated}
use backstitch.BranchDb.Sync.{reconcile_branch}
use backstitch.BranchDb.Store.{DbError, Documents, Store, shadow_of}
use backstitch.BranchDb.Merging.{write_shadow, reconciled, reconcile_target}
use backstitch.BranchDb.Kept.{HasAll, HasAll-write_shadow, HasAll-reconcile_target, its_shadow}
use backstitch.Commits.Entries.{
  Entry, commit_entries, hydrate_content_at, structured_key, content_key, url_key,
}
use backstitch.Commits.Views.{IsMap}
use backstitch.Commits.Committed.{hydrate-commit_entries}
use backstitch.Commits.Changes.{
  Transactions, entries_of, hashes_of, with_metadata, committed_in, logged, reconcile_logged,
  Committed, commit_doc, commit_onto, commit_shadow, commit_fs_changes,
}
use backstitch.Commits.Given.{given_at, states, entries_of_lem}

module _ {D H K : Type 0} ⦃e : Eq D⦄ (docs : Documents D H) (txs : Transactions docs K) where
  open docs use {am}
  open txs use {files, transaction, commit_with_metadata, hash_bytes, show_id}

  abbrev Result : Type 0
  Result = Store docs × Outcome (DbError D) (Committed docs txs)

  reconciled_ok :
      (s : Store docs) (p : BranchDb D H am.Doc × Outcome AutomergeError (Unit {0}))
      → p.1 ≡ ok tt
      → (t : Store docs) × (reconciled docs s p ≡ (t, ok tt))
  reconciled_ok s (db, ok x) h = (record s { db = db }, refl)
  reconciled_ok s (db, err x) h = absurd (cc)
  reconciled_ok s (db, panic) h = absurd (cc)

  module _ (merges : (a b : am.Doc) → (am.merge a b).1 ≡ none) where
    reconcile_target-ok :
        (s : Store docs) (branch : D) (state : BranchSyncState D H am.Doc)
        → get (states docs txs s) branch ≡ some state
        → (t : Store docs) × (reconcile_target docs branch s ≡ (t, ok tt))
    unfolding reconcile_target reconcile_branch
    reconcile_target-ok s branch state found =
        rw (found, reconcile_target)
          (reconciled_ok s (reconcile_branch am s.db branch state)
            (try_reconcile_branch-ok am state (s.db.repo state.canonical_doc) merges))

    HasAll-reconcile_logged :
        (p : H → Bool) (branch : D) (s t : Store docs) (x : Unit {0})
        → HasAll docs p branch s
        → reconcile_logged docs txs branch s ≡ (t, ok x)
        → HasAll docs p branch t
    HasAll-reconcile_logged p branch s t x (state, d, (found, has_doc, has)) done =
        let (after, is_ok) = reconcile_target-ok s branch state found in
        subst (HasAll docs p branch)
          (ap (λ (q : Store docs × Outcome (DbError D) (Unit {0})). q.0)
            (sym (ap (logged docs txs) is_ok) ∙ done))
          (HasAll-reconcile_target docs p s after branch (state, d, (found, has_doc, has)) is_ok)

    commit_doc_lem :
        (branch : D) (ret : Map Str (Option K)) (o : Outcome (Unit {0}) am.Doc) (s t : Store docs)
        (state : BranchSyncState D H am.Doc) (ref_ : HistoryRef D H) (hashes : Map Str (Option K))
        → get (states docs txs s) branch ≡ some state
        → commit_doc docs txs branch ret o s ≡ (t, ok (some (ref_, hashes)))
        → (after : am.Doc) × ((o ≡ ok after)
            × (ref_ ≡ new ⦃o = am.hash_ord⦄ branch (am.get_heads after))
            × (hashes ≡ ret)
            × HasAll docs (am.has after) branch t)
    commit_doc_lem branch ret panic s t state ref_ hashes found done =
        absurd (cc (ap (λ (q : Result). q.1) done))
    commit_doc_lem branch ret (err x) s t state ref_ hashes found done =
        absurd (cc (ap (λ (q : Result). q.1) done))
    commit_doc_lem branch ret (ok after) s t state ref_ hashes found done =
        let (u, x, (written, then_reconcile)) =
          continue_with_steps (write_shadow docs branch after s) _ t (some (ref_, hashes)) done in
        let (v, y, (logs, gives)) =
          continue_with_steps (reconcile_logged docs txs branch u) _ t (some (ref_, hashes))
            then_reconcile in
        let result : (new ⦃o = am.hash_ord⦄ branch (am.get_heads after), ret) ≡ (ref_, hashes) =
          some-injective _ _ (ok-injective (ap (λ (q : Result). q.1) gives)) in
        (
          after,
          (
            refl,
            sym (ap (λ (q : HistoryRef D H × Map Str (Option K)). q.0) result),
            sym (ap (λ (q : HistoryRef D H × Map Str (Option K)). q.1) result),
            subst (HasAll docs (am.has after) branch) (ap (λ (q : Result). q.0) gives) (
                HasAll-reconcile_logged (am.has after) branch u v y
                  (HasAll-write_shadow docs (am.has after) s u branch state after found written
                    (λ h q. q))
                  logs),
          ),
        )

  commit_onto_lem :
      (branch : D) (ret : Map Str (Option K)) (commit : am.Doc → Outcome (Unit {0}) am.Doc)
      (o : Option am.Doc) (s t : Store docs) (r : HistoryRef D H × Map Str (Option K))
      → commit_onto docs txs branch ret commit o s ≡ (t, ok (some r))
      → (d : am.Doc) × ((o ≡ some d)
          × (commit_doc docs txs branch ret (commit d) s ≡ (t, ok (some r))))
  commit_onto_lem branch ret commit none s t r done = absurd (cc (ap (λ (q : Result). q.1) done))
  commit_onto_lem branch ret commit (some d) s t r done = (d, (refl, done))

  commit_shadow_lem :
      (branch : D) (ret : Map Str (Option K)) (commit : am.Doc → Outcome (Unit {0}) am.Doc)
      (o : Option (BranchSyncState D H am.Doc)) (s t : Store docs)
      (r : HistoryRef D H × Map Str (Option K))
      → commit_shadow docs txs branch ret commit o s ≡ (t, ok (some r))
      → (state : BranchSyncState D H am.Doc) × (d : am.Doc) × ((o ≡ some state)
          × (state.shadow_doc ≡ some d)
          × (commit_doc docs txs branch ret (commit d) s ≡ (t, ok (some r))))
  commit_shadow_lem branch ret commit none s t r done = absurd (cc (ap (λ (q : Result). q.1) done))
  commit_shadow_lem branch ret commit (some state) s t r done =
      let (d, (has_doc, commits)) = commit_onto_lem branch ret commit state.shadow_doc s t r done in
      (state, d, (refl, has_doc, commits))

  with_metadata_lem :
      (metadata : List ChangedFile → CommitMetadata D H)
      (o : Outcome (Unit {0}) (txs.T × List ChangedFile)) (after : am.Doc)
      → with_metadata docs txs metadata o ≡ ok after
      → (r : txs.T × List ChangedFile) × ((o ≡ ok r)
          × (after ≡ commit_with_metadata r.0 (metadata r.1)))
  with_metadata_lem metadata (ok (tx, changes)) after done =
      ((tx, changes), (refl, ok-injective (sym done)))
  with_metadata_lem metadata (err x) after done = absurd (cc)
  with_metadata_lem metadata panic after done = absurd (cc)

  committed_in_lem :
      (o : Option txs.T) (entries : List (Entry D K))
      (metadata : List ChangedFile → CommitMetadata D H) (after : am.Doc)
      → committed_in docs txs o entries metadata ≡ ok after
      → (tx : txs.T) × (r : txs.T × List ChangedFile) × ((o ≡ some tx)
          × (commit_entries files hash_bytes show_id entries tx ≡ ok r)
          × (after ≡ commit_with_metadata r.0 (metadata r.1)))
  committed_in_lem none entries metadata after done = absurd (cc)
  committed_in_lem (some tx) entries metadata after done =
      let (r, (is_ok, commits)) = with_metadata_lem metadata _ after done in
      (tx, r, (refl, is_ok, commits))

  -- what is read of a path of a document, a panic where it has no map of files
  abbrev pub read_in :
      (Str → Option D) → Option txs.T → Str → Outcome (Unit {0}) (Hydrated D FileContent)
  read_in parse_automerge_url none path = panic
  read_in parse_automerge_url (some tx) path = hydrate_content_at files parse_automerge_url tx path

  module _ (laws : IsMap files) (parse_automerge_url : Str → Option D)
      (parses : (d : D) → parse_automerge_url (bytes "automerge:" ++ show_id d) ≡ some d)
      (reads : (tx : txs.T) (m : CommitMetadata D H)
        → (opened : txs.T) × ((transaction (commit_with_metadata tx m) ≡ some opened)
            × ((path k : Str) → files.value opened path k ≡ files.value tx path k)))
      (merges : (a b : am.Doc) → (am.merge a b).1 ≡ none) where
    hydrate-commit_with_metadata :
        (tx : txs.T) (m : CommitMetadata D H) (path : Str)
        → read_in parse_automerge_url (transaction (commit_with_metadata tx m)) path
          ≡ hydrate_content_at files parse_automerge_url tx path
    unfolding hydrate_content_at
    hydrate-commit_with_metadata tx m path =
        let (opened, (opens, same)) = reads tx m in
        ap (λ o. read_in parse_automerge_url o path) opens
        ∙ rw (same path structured_key, same path content_key, same path url_key) refl

    -- If a commit of files gives a new ref, then its branch had a shadow document, and the ref
    -- has the heads of a document whose files are those of the shadow document with each file
    -- that is given replaced by what is given last for it: a text, a scene as it hydrates, the
    -- link to the new document of a binary file, or no file; where the scene does not hydrate,
    -- reading the file panics. The hashes are those of the files given, and the shadow document
    -- of the branch has all changes of that document afterwards. Merges do not fail, the map of
    -- files reads back what is written and committed, a scene as it hydrates, and the url of a
    -- document parses to it.
    pub commit_fs_changes-reads :
        (ids : List (Option D)) (contents : List (Str × Option FileContent)) (ref_ : HistoryRef D H)
        (revert : Option (HistoryRef D H)) (is_checking_in : Bool) (s t : Store docs)
        (new_ref : HistoryRef D H) (hashes : Map Str (Option K))
        → commit_fs_changes docs txs ids contents ref_ revert is_checking_in s
          ≡ (t, ok (some (new_ref, hashes)))
        → (before after : am.Doc) × ((shadow_of docs ref_.branch s ≡ (s, ok before))
            × (new_ref ≡ new ⦃o = am.hash_ord⦄ ref_.branch (am.get_heads after))
            × (hashes ≡ hashes_of docs txs contents [])
            × ((path : Str)
                → read_in parse_automerge_url (transaction after) path
                  ≡ given_at files.hydrate_scene ids contents path
                      (read_in parse_automerge_url (transaction before) path))
            × HasAll docs (am.has after) ref_.branch t)
    unfolding commit_fs_changes
    commit_fs_changes-reads ids contents ref_ revert is_checking_in s t new_ref hashes done =
        let (u, entries, (made, then_commit)) =
          continue_with_steps (entries_of docs txs ids contents s) _ t (some (new_ref, hashes))
            done in
        let (same, commits) = entries_of_lem docs txs ids contents s u entries made in
        let (state, before, (found, has_doc, then_doc)) =
          commit_shadow_lem ref_.branch (hashes_of docs txs contents []) _
            (get (states docs txs u) ref_.branch) u t (new_ref, hashes) then_commit in
        let (after, (is_after, is_ref, is_hashes, has)) =
          commit_doc_lem merges ref_.branch (hashes_of docs txs contents []) _ u t state new_ref
            hashes found then_doc in
        let (tx, r, (opens, committed, is_commit)) =
          committed_in_lem (transaction before) entries _ after is_after in
        let found_before : get (states docs txs s) ref_.branch ≡ some state =
          ap (λ m. get m ref_.branch) same ∙ found in
        (
          before,
          after,
          (
            its_shadow docs s ref_.branch state before found_before has_doc,
            is_ref,
            is_hashes,
            (λ path.
                ap (λ d. read_in parse_automerge_url (transaction d) path) is_commit
                ∙ hydrate-commit_with_metadata r.0 _ path
                ∙ hydrate-commit_entries files laws hash_bytes show_id parse_automerge_url parses
                    entries tx path r committed
                ∙ commits path _
                ∙ ap
                    (λ o.
                      given_at files.hydrate_scene ids contents path
                        (read_in parse_automerge_url o path))
                    (sym opens)),
            has,
          ),
        )
