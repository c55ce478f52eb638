-- ===== src/Fs.antt =====
-- The project's files on disk against the files of a branch: backstitch/src/project/fs.
pub mod Traversal
pub mod Paths
pub mod Checkout
