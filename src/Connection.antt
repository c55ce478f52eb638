-- ===== src/Connection.antt =====
-- backstitch/src/project/peer_watcher.rs: what is known of the server, and how it follows the peers.
pub mod Peers
pub mod Acked
