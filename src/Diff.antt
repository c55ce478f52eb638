-- ===== src/Diff.antt =====
-- backstitch/src/diff: what changed between two refs of a project.
pub mod Values
pub mod Changes
pub mod Properties
pub mod Nodes
pub mod Scenes
pub mod Contents
pub mod Instances
pub mod Project
pub mod FilePaths
pub mod Listing
pub mod Unchanged
pub mod SameScene
pub mod Nones
pub mod NodeChanges
