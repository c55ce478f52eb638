-- ===== src/Examples/Branches.antt =====
-- A store of three branches: main, one forked from it, and the preview of its merge back.
use backstitch.Prelude.{
  ℕ, ◌≡◌, refl, sym, Bool, true, false, ◌||◌, Option, none, some, List, [], ◌∷◌, ◌++◌, nat_eq, Str,
  bytes, ok, if◌then◌else◌,
}
use backstitch.Prelude.Maps.{Map, insert}
use backstitch.History.Ref.{HistoryRef}
use backstitch.BranchDb.State.{BranchSyncState}
use backstitch.BranchDb.Store.{
  Branch, BranchesMetadataDoc, MergeMetadata, Documents, Store, shadow_of,
}
use backstitch.BranchDb.Branches.{fork_branch}
use backstitch.BranchDb.Merging.{create_merge_preview_branch, merge_branch}
use backstitch.BranchDb.Forked.{HasShadow, AcceptsBranch, forked, fork_branch-hydrate}
use backstitch.BranchDb.Previewed.{preview, create_merge_preview_branch-has}
use backstitch.BranchDb.Kept.{HasAll}
use backstitch.BranchDb.Merged.{merge_branch-HasAll}
use backstitch.Examples.BranchDb.{Changes, changes, has, two_changes}

pub has_both : (d : Changes) (h : Bool) → has d h ≡ true → has (changes true true) h ≡ true
has_both d false e = refl
has_both d true e = refl

abbrev pub documents : Documents ℕ Bool
documents = record {
  am = two_changes;
  created = λ id. changes true false;
  commit_merge = λ d username id m. changes true true;
  has_commit_merge = λ d username id m h e. has_both d h e;
  MetaDoc = BranchesMetadataDoc ℕ Bool;
  hydrate = λ d. some d;
  reconcile = λ d m. some m;
  hydrate_reconcile = λ d written m e. sym e;
}

abbrev pub ref_to : ℕ → Bool → HistoryRef ℕ Bool
ref_to branch head = record { branch = branch; heads = head ∷ [] }

abbrev pub branch :
    ℕ → Str → Option (HistoryRef ℕ Bool) → Option (HistoryRef ℕ Bool) → Branch ℕ Bool
branch id name forked_from merge_into = record {
  name = name;
  id = id;
  forked_from = forked_from;
  merge_into = merge_into;
  reverted_to = none;
  created_by = none;
}

abbrev pub state_of : ℕ → Changes → BranchSyncState ℕ Bool Changes
state_of id d = record {
  shadow_doc = some d;
  shadow_doc_init = true;
  canonical_doc = id;
  last_tracked = [];
  last_reconciled = [];
  canonical_binary_docs = [];
}

abbrev pub metadata : BranchesMetadataDoc ℕ Bool
metadata = record {
  main_doc_id = 1;
  branches =
      (1, branch 1 (bytes "main") none none)
      ∷ (2, branch 2 (bytes "feature") (some (ref_to 1 false)) none)
      ∷ (3, branch 3 (bytes "main <- feature") (some (ref_to 2 true)) (some (ref_to 1 false)))
      ∷ [];
}

abbrev pub three_branches : Store documents
three_branches = record {
  db = record {
    binary_states = [];
    branch_sync_states =
        (1, state_of 1 (changes true false))
        ∷ (2, state_of 2 (changes false true))
        ∷ (3, state_of 3 (changes true true))
        ∷ [];
    repo = λ id. changes false false;
    sent = 0;
  };
  metadata_state = some (0, metadata);
  metadata_docs = λ id. metadata;
  default_username = some (bytes "ada");
  authenticated_username = none;
}

pub main_shadow : HasShadow documents three_branches 1 (changes true false)
unfolding shadow_of backstitch.Prelude.Maps.get
main_shadow = refl

feature_shadow : HasShadow documents three_branches 2 (changes false true)
unfolding shadow_of backstitch.Prelude.Maps.get
feature_shadow = refl

preview_shadow : HasShadow documents three_branches 3 (changes true true)
unfolding shadow_of backstitch.Prelude.Maps.get
preview_shadow = refl

accepts : (b : Branch ℕ Bool) → AcceptsBranch documents three_branches 0 metadata b
accepts b = record {
  cached = metadata;
  written = record metadata { branches = insert metadata.branches b.id b };
  known = refl;
  reads = refl;
  writes = refl;
}

fork_branch-hydrate_example :
    let t = fork_branch documents (some 4) (bytes "mine") 2 three_branches in
    (t.1 ≡ ok 4)
    × (t.0.db.repo 4 ≡ changes false true)
    × (documents.hydrate (t.0.metadata_docs 0)
        ≡ some (record metadata {
          branches =
              insert metadata.branches 4
                (forked documents three_branches 4 (bytes "mine") 2 (changes false true));
        }))
fork_branch-hydrate_example =
    fork_branch-hydrate documents three_branches 4 (bytes "mine") 2 0 (changes false true) metadata
      feature_shadow
      (accepts (forked documents three_branches 4 (bytes "mine") 2 (changes false true)))

abbrev previewed_branch : Branch ℕ Bool
previewed_branch =
    preview documents three_branches 4 2 (bytes "feature") (changes false true) 1 (bytes "main")
      (changes true false)

create_merge_preview_branch-has_example :
    let t = create_merge_preview_branch documents (some 4) 2 1 three_branches in
    (t.1 ≡ ok 4)
    × ((h : Bool)
        → has (t.0.db.repo 4) h
          ≡ has (changes true false) h
            || (has (changes false true) h || has (changes true false) h))
    × (documents.hydrate (t.0.metadata_docs 0)
        ≡ some (record metadata { branches = insert metadata.branches 4 previewed_branch }))
unfolding backstitch.BranchDb.Store.get_branch_name backstitch.Prelude.Maps.get
create_merge_preview_branch-has_example =
    create_merge_preview_branch-has documents three_branches 4 2 1 0 (bytes "feature")
      (bytes "main") (changes false true) (changes true false) metadata refl refl feature_shadow
      main_shadow refl refl (accepts previewed_branch)

abbrev after_merge : Store documents
after_merge = (merge_branch documents 3 1 three_branches).0

merge_succeeds : merge_branch documents 3 1 three_branches ≡ (after_merge, ok tt)
unfolding merge_branch backstitch.Prelude.Maps.get insert
    backstitch.BranchDb.Reconcile.try_reconcile_branch
    backstitch.BranchDb.Reconcile.resolved_all_canonical_binary_docs
    backstitch.BranchDb.Reconcile.is_up_to_date backstitch.BranchDb.Reconcile.are_heads_equivalent
    backstitch.Prelude.Sorting.sort
merge_succeeds = refl

merge_branch-HasAll_example :
    HasAll documents (λ h. has (changes true true) h || has (changes true false) h) 1 after_merge
merge_branch-HasAll_example =
    merge_branch-HasAll documents three_branches after_merge 3 1 (changes true true)
      (changes true false) refl preview_shadow main_shadow refl merge_succeeds
