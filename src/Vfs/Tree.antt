-- ===== src/Vfs/Tree.antt =====
-- internal/vfs/fs.go and internal/vfs/fs_write.go: the tree of inodes of one share.
pub mod State
pub mod Lookup
pub mod Change
pub mod Info
pub mod Usage
pub mod Recycle
pub mod Open
pub mod Steps
pub mod Walk
pub mod Tidy
pub mod Keeps
pub mod Moves
pub mod Restores
pub mod Reachable
pub mod Dangling
pub mod Created
pub mod UsageLaws
mod Examples
mod UsageExamples
