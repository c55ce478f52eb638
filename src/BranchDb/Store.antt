-- ===== src/BranchDb/Store.antt =====
-- BranchDb with the branches of its metadata document: backstitch/src/helpers/branch.rs, the fields
-- of backstitch/src/project/branch_db.rs and the getters of backstitch/src/project/branch_db/util.rs.
use backstitch.Prelude.{
  ◌≡◌, Bool, true, false, Option, none, some, List, [], ◌∷◌, Str, Outcome, ok, err, Eq, ◌==◌,
  if◌then◌else◌,
}
use backstitch.Prelude.Maps.{Map, get}
use backstitch.Prelude.Actions.{Action, ◌>>=◌, give}
use backstitch.History.Ref.{HistoryRef, new}
use backstitch.BranchDb.Docs.{Automerge, AutomergeError}
use backstitch.BranchDb.State.{BranchSyncState, BranchDb}

pub record Branch (D H : Type 0) : Type 0 where
  pub name : Str
  pub id : D
  pub forked_from : Option (HistoryRef D H)
  pub merge_into : Option (HistoryRef D H)
  pub reverted_to : Option (HistoryRef D H)
  pub created_by : Option Str

pub record BranchesMetadataDoc (D H : Type 0) : Type 0 where
  pub main_doc_id : D
  pub branches : Map D (Branch D H)

pub record MergeMetadata (D H : Type 0) : Type 0 where
  pub merged_branch_id : D
  pub forked_at_heads : List H

-- the errors that the operations on branches return
pub data DbError (D : Type 0) : Type 0 where
  no_metadata_state shadow_doc_not_initialized thread repo_stopped hydrate_error reconcile_error :
      DbError D
  no_filters : DbError D
  no_branch bad_branch_state bad_branch_document invalid_ref : D → DbError D
  automerge : AutomergeError → DbError D

-- What the operations use of automerge and autosurgeon beyond a merge. A transaction adds changes to
-- those of a document; what was written into a metadata document is read from it.
pub record Documents (D H : Type 0) : Type 1 where
  pub am : Automerge H
  -- what the repo makes of `Automerge::new()` under an id: samod commits an empty change to it
  pub created : D → am.Doc
  -- a transaction that counts `_changed` up, and its commit with the metadata of a merge
  pub commit_merge : am.Doc → Option Str → D → MergeMetadata D H → am.Doc
  pub has_commit_merge :
      (d : am.Doc) (username : Option Str) (id : D) (m : MergeMetadata D H) (h : H)
      → am.has d h ≡ true
      → am.has (commit_merge d username id m) h ≡ true
  pub MetaDoc : Type 0
  pub hydrate : MetaDoc → Option (BranchesMetadataDoc D H)
  pub reconcile : MetaDoc → BranchesMetadataDoc D H → Option MetaDoc
  pub hydrate_reconcile :
      (d written : MetaDoc) (m : BranchesMetadataDoc D H)
      → reconcile d m ≡ some written
      → hydrate written ≡ some m

module _ {D H : Type 0} (docs : Documents D H) where
  -- `metadata_state` is the copy of the metadata document that its last ingest made, with the id of
  -- the document; `metadata_docs` are the documents themselves
  pub record Store : Type 0 where
    pub db : BranchDb D H docs.am.Doc
    pub metadata_state : Option (D × BranchesMetadataDoc D H)
    pub metadata_docs : D → docs.MetaDoc
    pub default_username : Option Str
    pub authenticated_username : Option Str

  unfoldable pub resolve_username : Store → Option Str
  resolve_username s = elim s.authenticated_username [
    | none ↦ s.default_username
    | some name ↦ some name
  ]

  -- an operation on the store
  abbrev pub On : Type 0 → Type 0
  On A = Action Store (DbError D) A

module _ {D H : Type 0} ⦃e : Eq D⦄ (docs : Documents D H) where
  -- the document that `with_shadow_document` gives to its closure
  abbrev pub shadow_of_state :
      D → Option (BranchSyncState D H docs.am.Doc) → Outcome (DbError D) docs.am.Doc
  shadow_of_state branch none = err (no_branch branch)
  shadow_of_state branch (some state) = elim state.shadow_doc [
    | none ↦ err shadow_doc_not_initialized
    | some shadow_doc ↦ ok shadow_doc
  ]

  unfoldable pub shadow_of : D → On docs docs.am.Doc
  shadow_of branch s = (s, shadow_of_state branch (get s.db.branch_sync_states branch))

  unfoldable pub get_latest_ref_on_branch : D → On docs (HistoryRef D H)
  unfolding shadow_of new
  get_latest_ref_on_branch branch = do
    d ← shadow_of branch
    give (new ⦃o = docs.am.hash_ord⦄ branch (docs.am.get_heads d))

  unfoldable pub get_latest_canonical_ref_on_branch : D → On docs (HistoryRef D H)
  unfolding new
  get_latest_canonical_ref_on_branch branch s = elim (get s.db.branch_sync_states branch) [
    | none ↦ (s, err (no_branch branch))
    | some state ↦ (
      s,
      ok (new ⦃o = docs.am.hash_ord⦄ branch (docs.am.get_heads (s.db.repo state.canonical_doc))),
    )
  ]

  abbrev branch_in : D → Option (D × BranchesMetadataDoc D H) → Outcome (DbError D) (Branch D H)
  branch_in id none = err no_metadata_state
  branch_in id (some (handle, m)) = elim (get m.branches id) [
    | none ↦ err (no_branch id)
    | some b ↦ ok b
  ]

  unfoldable pub get_branch_state : D → On docs (Branch D H)
  get_branch_state id s = (s, branch_in id s.metadata_state)

  unfoldable pub get_branch_name : D → On docs Str
  unfolding get_branch_state
  get_branch_name id = do b ← get_branch_state id; give b.name

  unfoldable pub get_main_branch : On docs D
  get_main_branch s = elim s.metadata_state [
    | none ↦ (s, err no_metadata_state)
    | some (handle, m) ↦ (s, ok m.main_doc_id)
  ]

  abbrev is_child_of : D → Branch D H → Bool
  is_child_of id b = elim b.forked_from [
    | none ↦ false
    | some forked_from ↦ forked_from.branch == id
  ]

  unfoldable pub children_in : D → Map D (Branch D H) → List D
  children_in id [] = []
  children_in id ((bid, state) ∷ rest) =
      let result = children_in id rest in if is_child_of id state then bid ∷ result else result

  unfoldable pub get_branch_children : Store docs → D → List D
  unfolding children_in
  get_branch_children s id = elim s.metadata_state [
    | none ↦ []
    | some (handle, m) ↦ children_in id m.branches
  ]
