-- ===== src/BranchDb/State.antt =====
-- The state of the sync of branches: backstitch/src/project/branch_db/branch_sync.rs and the fields
-- of backstitch/src/project/branch_db.rs that it works on.
use backstitch.Prelude.{ℕ, Bool, false, Option, none, List, [], Eq, ◌==◌, if◌then◌else◌}
use backstitch.Prelude.Maps.{Map}

-- BinaryDocStatus
pub data BinaryDocStatus : Type 0 where
  pending failed okay : BinaryDocStatus

-- CanonicalBranchStatus
pub data CanonicalBranchStatus : Type 0 where
  is_pending branch_not_ingested binary_doc_not_found healthy : CanonicalBranchStatus

-- BranchSyncState. A DocHandle is the id of a document in the repo; the sender of
-- `shadow_doc_init_tx` is the last value sent.
pub record BranchSyncState (D H Doc : Type 0) : Type 0 where
  pub shadow_doc : Option Doc
  pub shadow_doc_init : Bool
  pub canonical_doc : D
  pub last_tracked : List H
  pub last_reconciled : List H
  pub canonical_binary_docs : Map D BinaryDocStatus

unfoldable pub new_sync_state : {D H Doc : Type 0} → D → BranchSyncState D H Doc
new_sync_state handle = record {
  shadow_doc = none;
  shadow_doc_init = false;
  canonical_doc = handle;
  last_tracked = [];
  last_reconciled = [];
  canonical_binary_docs = [];
}

-- The fields of BranchDb that the sync uses, with the documents that the repo holds. `sent` counts
-- the sends on `branch_change_tx`.
pub record BranchDb (D H Doc : Type 0) : Type 0 where
  pub binary_states : Map D (Option D)
  pub branch_sync_states : Map D (BranchSyncState D H Doc)
  pub repo : D → Doc
  pub sent : ℕ

-- `handle.with_document` of a handle writes the document of its id.
abbrev pub write_doc : {D Doc : Type 0} ⦃e : Eq D⦄ → (D → Doc) → D → Doc → D → Doc
write_doc repo id doc k = if id == k then doc else repo k
