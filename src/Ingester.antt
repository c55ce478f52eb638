-- ===== src/Ingester.antt =====
-- The list of commits: backstitch/src/project/change_ingester.rs.
pub mod Summary
pub mod Listed
pub mod Synced
