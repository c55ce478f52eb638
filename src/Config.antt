-- ===== src/Config.antt =====
-- backstitch/src/project/config.rs and config/file_backed_toml.rs: the settings and their file.
pub mod Backing
pub mod Stored
pub mod Settings
pub mod Servers
