-- ===== src/Vfs/Handle.antt =====
-- internal/vfs/file.go and internal/vfs/file_write.go: an open file.
pub mod State
pub mod Slices
pub mod Read
pub mod Write
pub mod Truncate
pub mod Commit
pub mod Bytes
pub mod Offsets
pub mod Reliable
pub mod Coded
pub mod PoolStore
pub mod PoolReads
mod PoolExamples
pub mod View
pub mod Lookups
pub mod Stores
pub mod Flush
pub mod WriteSlice
pub mod WriteLaws
pub mod ReadLaws
pub mod TruncateSlices
pub mod TrimLaws
pub mod ShrinkLaws
pub mod TruncateLaws
pub mod OpenLaws
pub mod DiscardLaws
pub mod CloseLaws
pub mod CommitLaws
pub mod Resurface
pub mod SyncLaws
pub mod Sequence
pub mod Examples
pub mod OpenExamples
mod CloseExamples
mod SequenceExamples
