-- ===== src/Pool/Release/Examples.antt =====
-- A stripe with a chunk that a version uses, one that none uses, and a parity chunk.
use zenofs.Common.{ℕ, ◌≡◌, refl, none, List, [], ◌∷◌, ok, replicate, Result}
use zenofs.Pool.Tables.{Chunk, ChunkType, ChunkStatus, Tables}
use zenofs.Pool.Release.{release_chunks, ReleaseResult}
use zenofs.Pool.Release.Laws.{Draws, Releases, release_chunks_ok}

abbrev pub chunk : ℕ → ChunkType → Chunk
chunk id kind = record {
  id = id;
  status = ChunkStatus.allocated;
  path = id ∷ [];
  size = 100;
  hash = none;
  pool_id = 1;
  disk_id = id;
  stripe_id = 9;
  kind = kind;
  index = id;
  created_at = 0;
}

abbrev tables : Tables
tables = record {
  chunks =
      chunk 1 ChunkType.data_chunk
      ∷ chunk 2 ChunkType.data_chunk
      ∷ chunk 3 ChunkType.parity_chunk
      ∷ [];
  version_chunks = record { version_id = 4; idx = 0; chunk_id = 1; size = 100; hash = [] } ∷ [];
  read_caches = [];
  write_queue = [];
  stripe_queue = [];
}

abbrev pub draw : ℕ → Result (List (List ℕ))
draw n = ok (replicate n (7 ∷ []))

pub draw-Draws : Draws draw
draw-Draws n = (replicate n (7 ∷ []), refl)

release_chunks_ok_example :
    (r : ReleaseResult) × (u : Tables) × (release_chunks draw (1 ∷ 2 ∷ 2 ∷ []) tables ≡ ok (r, u))
    × Releases (1 ∷ 2 ∷ 2 ∷ []) tables u
release_chunks_ok_example = release_chunks_ok draw draw-Draws (1 ∷ 2 ∷ 2 ∷ []) tables
