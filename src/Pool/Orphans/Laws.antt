-- ===== src/Pool/Orphans/Laws.antt =====
-- internal/pool/gc.go: proofs about what a round of collection leaves alone.
use zenofs.Pool.Tables.{Tables}
