-- ===== src/History.antt =====
-- References into the history of a project: backstitch/src/helpers/history_ref.rs and
-- backstitch/src/helpers/history_path.rs. The modules below hold the proofs.
pub mod Ids
pub mod Ref
pub mod Path
pub mod RoundTrip
pub mod Mangled
