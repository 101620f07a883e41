-- ===== src/Pool/Orphans/Examples.antt =====
-- A chunk that was written a minute ago and that no version refers to yet.
use zenofs.Common.{[], ◌∷◌}
use zenofs.Pool.Tables.{Chunk, ChunkType, Tables}
use zenofs.Pool.Release.Examples.{chunk}

abbrev fresh : Chunk
fresh = record (chunk 1 ChunkType.data_chunk) { created_at = 9940 }

abbrev tables : Tables
tables = record {
  chunks = fresh ∷ chunk 2 ChunkType.data_chunk ∷ [];
  version_chunks = [];
  read_caches = [];
  write_queue = [];
  stripe_queue = [];
}
