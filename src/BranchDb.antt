-- ===== src/BranchDb.antt =====
-- backstitch/src/project/branch_db: the branches of a project, each with the shadow document that
-- the program edits and the canonical document that it shares with the server.
pub mod Docs
pub mod State
pub mod Reconcile
pub mod Sync
pub mod Store
pub mod Branches
pub mod Merging
pub mod Reverting
pub mod Forked
pub mod Previewed
pub mod Kept
pub mod Merged
pub mod Files
pub mod HashIndex
