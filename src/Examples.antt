-- ===== src/Examples.antt =====
-- The theorems at concrete inputs.
mod Flags
mod History
mod BranchDb
mod Fs
mod Driver
mod MainThreadBlock
mod Scene
mod Diff
mod Branches
mod Watcher
mod Ingester
mod Files
mod Connection
mod Config
mod Parser
mod Commits
mod Shadow
mod FromDisk
