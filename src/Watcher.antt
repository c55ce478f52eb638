-- ===== src/Watcher.antt =====
-- backstitch/src/project/document_watcher.rs: the documents of branches are polled for and ingested.
pub mod Polling
pub mod Tracking
pub mod Tasks
