-- ===== src/Vfs/Handle/SyncLaws.antt =====
-- internal/vfs/file_write.go: proofs about Sync.
use zenofs.Vfs.Handle.State.{State}
