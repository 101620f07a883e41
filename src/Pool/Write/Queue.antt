-- ===== src/Pool/Write/Queue.antt =====
-- internal/pool/chunk.go: the queue of writes, and what moves from it to the queue of stripes. A flush
-- runs in a transaction.
use zenofs.Common.{
  ℕ, suc, Bool, true, false, ◌&&◌, ◌||◌, none, some, List, [], ◌∷◌, ◌++◌, map, ◌==◌, ltb, leb,
  if◌then◌else◌, length, select, delete_where,
}
use zenofs.Pool.Tables.{Chunk, TaskStatus, WriteTask}
use zenofs.Pool.Disks.{Disk, ChunkHandler, read_chunk}
use zenofs.Pool.Release.{member, unique_ids, parity_task}
use zenofs.Pool.Worker.{PoolDb, is_pending}
use zenofs.Vfs.Crypto.{Primitives, hash_sum}

-- The rows of the chunks with one status, numbered from the `n`-th new row on.
unfoldable pub write_rows : (ℕ → ℕ) → ℕ → (Chunk → TaskStatus) → List Chunk → List WriteTask
write_rows queue_id n status [] = []
write_rows queue_id n status (c ∷ cs) =
    record { id = queue_id n; chunk_id = c.id; stripe_id = c.stripe_id; status = status c }
    ∷ write_rows queue_id (suc n) status cs

abbrev pub with_writes : PoolDb → List WriteTask → PoolDb
with_writes db rows = record db { tables = record db.tables { write_queue = rows } }

-- ORDER BY chunk_id, id.
abbrev comes_first : WriteTask → WriteTask → Bool
comes_first a b = ltb a.chunk_id b.chunk_id || (a.chunk_id == b.chunk_id && leb a.id b.id)

unfoldable pub insert_row : WriteTask → List WriteTask → List WriteTask
insert_row a [] = a ∷ []
insert_row a (b ∷ bs) = if comes_first a b then a ∷ b ∷ bs else b ∷ insert_row a bs

unfoldable pub sort_rows : List WriteTask → List WriteTask
sort_rows [] = []
sort_rows (a ∷ rest) = insert_row a (sort_rows rest)

pub record DoneWrite : Type 0 where
  pub chunk_id : ℕ
  pub stripe_id : ℕ
  pub pending_id : ℕ
  pub result_id : ℕ
  pub failed : Bool

abbrev pub is_result : TaskStatus → Bool
is_result TaskStatus.success = true
is_result TaskStatus.fail = true
is_result _ = false

abbrev pub is_fail : TaskStatus → Bool
is_fail TaskStatus.fail = true
is_fail _ = false

abbrev pub is_pair : WriteTask → WriteTask → Bool
is_pair prev cur = prev.chunk_id == cur.chunk_id && (is_pending prev.status && is_result cur.status)

-- An intent with the result right behind it.
unfoldable pub done_from : WriteTask → List WriteTask → List DoneWrite
done_from prev [] = []
done_from prev (cur ∷ rest) =
    let others = done_from cur rest in
    if is_pair prev cur
    then record {
      chunk_id = cur.chunk_id;
      stripe_id = cur.stripe_id;
      pending_id = prev.id;
      result_id = cur.id;
      failed = is_fail cur.status;
    }
      ∷ others
    else others

abbrev pub done_writes : List WriteTask → List DoneWrite
done_writes [] = []
done_writes (w ∷ rest) = done_from w rest

-- No ids stand for every chunk.
abbrev pub flush_rows : List ℕ → PoolDb → List WriteTask
flush_rows ids db =
    sort_rows
      (select (λ (w : WriteTask). length ids == 0 || member w.chunk_id ids) db.tables.write_queue)

unfoldable pub delete_ids : List DoneWrite → List ℕ
delete_ids [] = []
delete_ids (d ∷ ds) = d.pending_id ∷ d.result_id ∷ delete_ids ds

module _ {S : Type 0} (P : Primitives) (handlers : List (ChunkHandler S)) where
  -- Size and hash of what is on the disk; a chunk that cannot be read keeps its row.
  unfoldable pub recalc_chunks_from_disk : List Disk → S → List ℕ → List Chunk → List Chunk
  recalc_chunks_from_disk disks s ids [] = []
  recalc_chunks_from_disk disks s ids (c ∷ cs) =
      (if member c.id ids
        then elim (read_chunk handlers disks s c) [
          | none ↦ c
          | some bytes ↦ record c { size = length bytes; hash = some (hash_sum P bytes) }
        ]
        else c)
      ∷ recalc_chunks_from_disk disks s ids cs

  unfoldable pub flush : List ℕ → S → PoolDb → PoolDb
  flush ids s db =
      let done = done_writes (flush_rows ids db) in
      let failed =
        map (λ (d : DoneWrite). d.chunk_id) (select (λ (d : DoneWrite). d.failed) done) in
      let stripes = unique_ids (map (λ (d : DoneWrite). d.stripe_id) done) in
      if length done == 0 then db else record db {
        tables = record db.tables {
          chunks = recalc_chunks_from_disk db.disks s failed db.tables.chunks;
          stripe_queue = db.tables.stripe_queue ++ map parity_task stripes;
          write_queue =
              delete_where (λ (w : WriteTask). member w.id (delete_ids done)) db.tables.write_queue;
        };
      }

  -- What is left after a flush is dropped, and counted.
  unfoldable pub cleanup_write_queue_on_startup : S → PoolDb → ℕ × PoolDb
  cleanup_write_queue_on_startup s db =
      let flushed = flush [] s db in (length flushed.tables.write_queue, with_writes flushed [])
