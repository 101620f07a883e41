-- ===== src/Pool/Write/Examples.antt =====
-- internal/pool/chunk.go: data added to a mirrored pool, and a write whose result is known.
use zenofs.Common.{ℕ, ◌+◌, refl, some, [], ◌∷◌, ok, arith, exists_in, replicate, select, find_by}
use zenofs.Pool.Tables.{Chunk, ChunkType, ChunkStatus, TaskStatus, WriteTask}
use zenofs.Pool.Disks.{DiskPoolStatus, PoolRow, handler_for}
use zenofs.Pool.Stripes.Local.{handlers, local-IsFiles}
use zenofs.Pool.Stripes.Rebuild.Examples.{primitives, two_disks, both_there}
use zenofs.Pool.Stripes.Rebuild.Whole.{Apart}
use zenofs.Pool.Worker.{PoolDb}
use zenofs.Pool.Write.{
  Fresh, get_pool, get_new_chunks, allocate, new_slots, stripe_slots, fill, save_filled,
}
use zenofs.Pool.Write.Slots.{AsItems}
use zenofs.Pool.Write.Allocation.{get_new_chunks-AsItems}
use zenofs.Pool.Write.Files.{persist_chunk_data, write_chunk_files, write_chunk_file, first_err}
use zenofs.Pool.Write.Calls.{add_chunks, item_of, disks_of}
use zenofs.Pool.Write.CallLaws.{VerifiedAs, add_chunks-VerifiedAs}
use zenofs.Vfs.Crypto.{Bytes, hash_sum}

abbrev pub pool : PoolRow
pool = record {
  id = 1;
  data_shards = 1;
  parity_shards = 1;
  chunk_size = 4;
  status = DiskPoolStatus.online;
}

abbrev pub write_row : ℕ → TaskStatus → WriteTask
write_row id status = record { id = id; chunk_id = 3; stripe_id = 8; status = status }

abbrev pub db : PoolDb
db = record {
  tables = record {
    chunks = [];
    version_chunks = [];
    read_caches = [];
    write_queue = write_row 1 TaskStatus.pending ∷ write_row 2 TaskStatus.success ∷ [];
    stripe_queue = [];
  };
  stripes = [];
  pools = pool ∷ [];
  disks = two_disks;
  tasks = [];
}

abbrev pub fresh : Fresh
fresh = record {
  stripe_id = λ n. 50 + n;
  chunk_id = λ n. 100 + n;
  queue_id = λ n. 200 + n;
  paths = λ n. ok (replicate n (7 ∷ []));
  shuffle = λ n disks. disks;
  now = 0;
}

abbrev pub two_bytes : Bytes
two_bytes = 5 ∷ 6 ∷ []

abbrev added : Chunk
added = record {
  id = 100;
  status = ChunkStatus.allocated;
  path = 7 ∷ [];
  size = 2;
  hash = some (1 ∷ two_bytes);
  pool_id = 1;
  disk_id = 1;
  stripe_id = 50;
  kind = ChunkType.data_chunk;
  index = 0;
  created_at = 0;
}

get_new_chunks-AsItems_example : AsItems (added ∷ []) (item_of primitives two_bytes ∷ [])
unfolding get_new_chunks get_pool allocate new_slots stripe_slots fill save_filled select find_by
    hash_sum exists_in
get_new_chunks-AsItems_example =
    get_new_chunks-AsItems fresh 1 (item_of primitives two_bytes ∷ []) db _ pool (added ∷ []) refl
      (omega arith) (λ n ds. refl) refl

add_chunks-VerifiedAs_example :
    AsItems (added ∷ []) (item_of primitives two_bytes ∷ [])
    × VerifiedAs primitives handlers
        (disks_of 1 db)
        (add_chunks primitives handlers fresh 1 (two_bytes ∷ []) db both_there).files
        (added ∷ [])
        (two_bytes ∷ [])
unfolding add_chunks get_new_chunks get_pool allocate new_slots stripe_slots fill save_filled select
    find_by hash_sum exists_in persist_chunk_data write_chunk_files write_chunk_file handler_for
    first_err Apart
add_chunks-VerifiedAs_example =
    add_chunks-VerifiedAs primitives handlers fresh 1 (two_bytes ∷ []) db both_there pool
      (added ∷ []) refl (omega arith) (λ n ds. refl) (local-IsFiles (disks_of 1 db)) (_, _) refl
