-- ===== src/Pool/Write/Files.antt =====
-- internal/pool/chunk.go: the files of the chunks that are written. They are written in parallel there,
-- each a file of its own; here one after the other.
use zenofs.Common.{ℕ, suc, Option, none, some, List, [], ◌∷◌, ◌++◌, map, Error, length}
use zenofs.Pool.Tables.{Chunk, TaskStatus, WriteTask}
use zenofs.Pool.Disks.{Disk, ChunkHandler, disk_by_id, handler_for}
use zenofs.Pool.Write.{Fresh, disk_offline, file_write}
use zenofs.Pool.Write.Queue.{write_rows, with_writes, flush}
use zenofs.Pool.Worker.{PoolDb}
use zenofs.Vfs.Crypto.{Bytes, Primitives}

-- The status of the result of a write, for its chunk.
pub record Outcome : Type 0 where
  pub chunk : Chunk
  pub error : Option Error

abbrev status_of : Option Error → TaskStatus
status_of none = TaskStatus.success
status_of (some e) = TaskStatus.fail

unfoldable pub result_rows : (ℕ → ℕ) → ℕ → List Outcome → List WriteTask
result_rows queue_id n [] = []
result_rows queue_id n (o ∷ os) =
    record {
      id = queue_id n;
      chunk_id = o.chunk.id;
      stripe_id = o.chunk.stripe_id;
      status = status_of o.error;
    }
    ∷ result_rows queue_id (suc n) os

unfoldable pub first_err : List Outcome → Option Error
first_err [] = none
first_err (o ∷ os) = elim o.error [ some e ↦ some e | none ↦ first_err os ]

-- What a call leaves: its error, the rows, and the files of the disks.
pub record Persisted (S : Type 0) : Type 0 where
  pub error : Option Error
  pub db : PoolDb
  pub files : S

module _ {S : Type 0} (P : Primitives) (handlers : List (ChunkHandler S)) where
  unfoldable pub write_chunk_file : List Disk → Chunk → Bytes → S → Option Error × S
  write_chunk_file disks c bytes s = elim (disk_by_id disks c.disk_id) [
    | none ↦ (some disk_offline, s)
    | some disk ↦ elim (handler_for handlers disk.backend) [
      | none ↦ (some file_write, s)
      | some h ↦ elim (h.write s disk c.path bytes) [
        | none ↦ (some file_write, s)
        | some s' ↦ (none, s')
      ]
    ]
  ]

  -- Every file is tried.
  unfoldable pub write_chunk_files : List Disk → List Chunk → List Bytes → S → List Outcome × S
  write_chunk_files disks [] bytes s = ([], s)
  write_chunk_files disks (c ∷ cs) [] s = ([], s)
  write_chunk_files disks (c ∷ cs) (b ∷ bs) s =
      let first = write_chunk_file disks c b s in
      let others = write_chunk_files disks cs bs first.1 in
      (record { chunk = c; error = first.0 } ∷ others.0, others.1)

  -- Intents, files, results, and the flush of these chunks.
  unfoldable pub persist_chunk_data :
      Fresh → List Disk → List Chunk → List Bytes → PoolDb → S → Persisted S
  persist_chunk_data fresh disks chunks bytes db s =
      let intents = write_rows fresh.queue_id 0 (λ c. TaskStatus.pending) chunks in
      let written = write_chunk_files disks chunks bytes s in
      let results = result_rows fresh.queue_id (length chunks) written.0 in
      let queued = with_writes db (db.tables.write_queue ++ intents ++ results) in
      record {
        error = first_err written.0;
        db = flush P handlers (map (λ (c : Chunk). c.id) chunks) written.1 queued;
        files = written.1;
      }
