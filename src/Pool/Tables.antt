-- ===== src/Pool/Tables.antt =====
-- internal/db/models.go: the rows of the storage pool.
use zenofs.Common.{ℕ, Bool, true, false, Option, List}
use zenofs.Db.{VersionChunk}

pub data ChunkStatus : Type 0 where
  reserved allocated : ChunkStatus

pub data ChunkType : Type 0 where
  data_chunk parity_chunk : ChunkType

pub record Chunk : Type 0 where
  pub id : ℕ
  pub status : ChunkStatus
  pub path : List ℕ
  pub size : ℕ
  pub hash : Option (List ℕ)
  pub pool_id : ℕ
  pub disk_id : ℕ
  pub stripe_id : ℕ
  pub kind : ChunkType
  pub index : ℕ
  pub created_at : ℕ

pub data TaskStatus : Type 0 where
  pending running success fail : TaskStatus

pub record WriteTask : Type 0 where
  pub id : ℕ
  pub chunk_id : ℕ
  pub stripe_id : ℕ
  pub status : TaskStatus

pub data StripeQueueType : Type 0 where
  parity rebuild : StripeQueueType

pub record StripeTask : Type 0 where
  pub stripe_id : ℕ
  pub kind : StripeQueueType
  pub task_id : ℕ
  pub status : TaskStatus

pub record ReadCache : Type 0 where
  pub id : ℕ
  pub chunk_id : ℕ
  pub path : List ℕ
  pub disk_id : ℕ
  pub access_count : ℕ
  pub cached : Bool
  pub updated_at : ℕ

-- The tables that a release reads and writes.
pub record Tables : Type 0 where
  pub chunks : List Chunk
  pub version_chunks : List VersionChunk
  pub read_caches : List ReadCache
  pub write_queue : List WriteTask
  pub stripe_queue : List StripeTask

abbrev pub is_data : ChunkType → Bool
is_data ChunkType.data_chunk = true
is_data ChunkType.parity_chunk = false

abbrev pub is_allocated : ChunkStatus → Bool
is_allocated ChunkStatus.allocated = true
is_allocated ChunkStatus.reserved = false

abbrev pub is_parity_task : StripeQueueType → Bool
is_parity_task StripeQueueType.parity = true
is_parity_task StripeQueueType.rebuild = false

-- Pending or running.
abbrev pub is_open : TaskStatus → Bool
is_open TaskStatus.pending = true
is_open TaskStatus.running = true
is_open TaskStatus.success = false
is_open TaskStatus.fail = false
