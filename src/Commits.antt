-- ===== src/Commits.antt =====
-- Commits of files to a branch: backstitch/src/project/branch_db/commit.rs, with the content of an
-- entry of backstitch/src/fs/file_utils.rs and the commit from the disk of
-- backstitch/src/project/fs/sync_fs_to_automerge.rs.
pub mod Entries
pub mod Views
pub mod Contents
pub mod Committed
pub mod Changes
pub mod FromDisk
pub mod Given
pub mod Shadow
