-- ===== src/Pool/Write/Calls.antt =====
-- internal/pool/chunk.go: the calls that write chunks.
use zenofs.Common.{
  ℕ, ◌*◌, not, Option, none, some, List, [], ◌∷◌, map, Result, ok, err, Error, ◌==◌, if◌then◌else◌,
  length, select, find_by, exists_in,
}
use zenofs.Pool.Tables.{Chunk}
use zenofs.Pool.Disks.{Disk, Stripe, ChunkHandler, is_online}
use zenofs.Pool.Release.{member, drop_cache_rows}
use zenofs.Pool.Worker.{PoolDb}
use zenofs.Pool.Write.{
  ChunkData, Fresh, chunk_empty, chunk_not_found, chunk_size_exceed, pool_offline, fits_all,
  get_pool, get_new_chunks, with_data, save_filled,
}
use zenofs.Pool.Write.Files.{persist_chunk_data}
use zenofs.Vfs.Crypto.{Bytes, Primitives, hash_sum}

-- The code of an error of the database.
abbrev db_bad_query : Error
db_bad_query = Error.coded 3

pub record WriteChunkItem : Type 0 where
  pub chunk_id : ℕ
  pub bytes : Bytes

-- The answer of a call, the rows, and the files of the disks.
pub record Call (S : Type 0) : Type 0 where
  pub result : Result (List Chunk)
  pub db : PoolDb
  pub files : S

abbrev pub answer : List Chunk → Option Error → Result (List Chunk)
answer chunks none = ok chunks
answer chunks (some e) = err e

abbrev pub disks_of : ℕ → PoolDb → List Disk
disks_of pool db = select (λ (d : Disk). d.pool_id == pool) db.disks

abbrev pub with_chunk_rows : PoolDb → List Chunk → PoolDb
with_chunk_rows db chunks = record db { tables = record db.tables { chunks = chunks } }

-- The rows of the items, in their order; all of them have been found.
unfoldable pub ordered_chunks : List Chunk → List WriteChunkItem → List ChunkData → List Chunk
ordered_chunks found [] prep = []
ordered_chunks found (it ∷ its) [] = []
ordered_chunks found (it ∷ its) (p ∷ ps) =
    elim (find_by (λ (c : Chunk). c.id == it.chunk_id) found) [
      | none ↦ ordered_chunks found its ps
      | some c ↦ with_data p c ∷ ordered_chunks found its ps
    ]

abbrev pub first_stripe : List Chunk → ℕ
first_stripe [] = 0
first_stripe (c ∷ cs) = c.stripe_id

abbrev pub item_of : Primitives → Bytes → ChunkData
item_of P b = record { size = length b; hash = hash_sum P b; bytes = b }

module _ {S : Type 0} (P : Primitives) (handlers : List (ChunkHandler S)) where
  unfoldable pub add_chunks : Fresh → ℕ → List Bytes → PoolDb → S → Call S
  add_chunks fresh pool list db s =
      if length list == 0
      then record { result = err chunk_empty; db = db; files = s }
      else if exists_in (λ (b : Bytes). length b == 0) list
      then record { result = err chunk_empty; db = db; files = s }
      else elim (get_new_chunks fresh pool (map (item_of P) list) db) [
        | err e ↦ record { result = err e; db = db; files = s }
        | ok (chunks, u) ↦
            let r = persist_chunk_data P handlers fresh (disks_of pool db) chunks list u s in
            record { result = answer chunks r.error; db = r.db; files = r.files }
      ]

  -- What can be refused before anything is written.
  unfoldable pub check_write : List WriteChunkItem → PoolDb → Result (List Chunk × ℕ)
  check_write items db =
      let ids = map (λ (it : WriteChunkItem). it.chunk_id) items in
      let prep = map (λ (it : WriteChunkItem). item_of P it.bytes) items in
      let found = select (λ (c : Chunk). member c.id ids) db.tables.chunks in
      if length items == 0
      then err chunk_empty
      else if exists_in (λ (it : WriteChunkItem). length it.bytes == 0) items
      then err chunk_empty
      else if not (length found == length items)
      then err chunk_not_found
      else elim (find_by (λ (x : Stripe). x.id == first_stripe found) db.stripes) [
        | none ↦ err db_bad_query
        | some stripe ↦ elim (get_pool stripe.pool_id db) [
          | err e ↦ err e
          | ok pool ↦
              if not (is_online pool.status)
              then err pool_offline
              else if not (fits_all (pool.chunk_size * 1024) prep)
              then err chunk_size_exceed
              else ok (ordered_chunks found items prep, stripe.pool_id)
        ]
      ]

  -- Cached copies go first, then the rows and the files change.
  unfoldable pub write_chunks : Fresh → List WriteChunkItem → PoolDb → S → Call S
  write_chunks fresh items db s = elim (check_write items db) [
    | err e ↦ record { result = err e; db = db; files = s }
    | ok (chunks, pool) ↦
        let ids = map (λ (it : WriteChunkItem). it.chunk_id) items in
        let dropped = record db { tables = (drop_cache_rows ids db.tables).1 } in
        let saved = with_chunk_rows dropped (save_filled chunks dropped.tables.chunks) in
        let r =
          persist_chunk_data P handlers fresh (disks_of pool db) chunks
            (map (λ (it : WriteChunkItem). it.bytes) items) saved s in
        record { result = answer chunks r.error; db = r.db; files = r.files }
  ]
