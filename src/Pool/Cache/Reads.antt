-- ===== src/Pool/Cache/Reads.antt =====
-- internal/pool/chunk.go and internal/pool/cache.go: reads of chunks, from their copies where there are
-- some, and what a read does to the rows of the copies.
use zenofs.Common.{
  ℕ, Bool, true, false, not, ◌&&◌, Option, none, some, List, [], ◌∷◌, map, Result, ok, err, ◌==◌,
  if◌then◌else◌, length, select, find_by, ◌≡◌, refl, sym, ap, ap₂, ◌∙◌, ◌⊎◌, inl, inr, All, arith,
  Bool-cases, Option-cases,
}
use zenofs.Pool.Tables.{Chunk, ReadCache, Tables}
use zenofs.Pool.Disks.{
  Disk, DiskBackend, DiskType, DiskPoolStatus, ChunkHandler, PoolRow, is_online, disk_by_id,
  handler_for,
}
use zenofs.Pool.Release.{member}
use zenofs.Pool.Worker.{PoolDb}
use zenofs.Pool.Write.{Fresh, chunk_empty, chunk_not_found, file_write, pool_offline, get_pool}
use zenofs.Pool.Write.Calls.{disks_of}
use zenofs.Pool.Cache.{
  cache_disks, load_cache, is_hot, hot_count, promotions, save_promoted, insert_rows, bump_rows,
  read_cache_file,
}
use zenofs.Vfs.Crypto.{Bytes}
mod Laws

abbrev with_caches : PoolDb → List ReadCache → PoolDb
with_caches db rows = record db { tables = record db.tables { read_caches = rows } }

-- The chunks that have a row and are not promoted.
unfoldable pub bump_ids : List ReadCache → List Chunk → List ℕ
bump_ids rows cs =
    map (λ (c : Chunk). c.id)
      (select
        (λ (c : Chunk). elim (load_cache rows c.id) [ none ↦ false | some e ↦ not (is_hot e) ]) cs)

-- What a read of the Go map gives for a disk that is not there.
abbrev zero_disk : Disk
zero_disk = record {
  id = 0;
  path = [];
  pool_id = 0;
  backend = DiskBackend.local_backend;
  kind = DiskType.data_disk;
  status = DiskPoolStatus.online;
}

abbrev disk_or_zero : List Disk → ℕ → Disk
disk_or_zero disks id = elim (disk_by_id disks id) [ none ↦ zero_disk | some d ↦ d ]

-- The rows of the chunks asked for, in their order.
unfoldable pub in_order : List Chunk → List ℕ → List Chunk
in_order found [] = []
in_order found (id ∷ ids) = elim (find_by (λ (c : Chunk). c.id == id) found) [
  | none ↦ in_order found ids
  | some c ↦ c ∷ in_order found ids
]

-- The answer of a read, the rows, and the files of the disks.
pub record ReadCall (S : Type 0) : Type 0 where
  pub result : Result (List Bytes)
  pub db : PoolDb
  pub files : S

module _ {S : Type 0} (handlers : List (ChunkHandler S)) where
  -- `n` is the id of the first new row; without paths nothing is promoted.
  unfoldable pub update_cache_access :
      Fresh → ℕ → ℕ → List Chunk → List Bytes → PoolDb → S → PoolDb × S
  update_cache_access fresh n pool cs bytes db s =
      let disks = cache_disks pool db in
      let rows = db.tables.read_caches in
      let promoted : List ReadCache × S = elim (fresh.paths (hot_count rows cs)) [
        | err e ↦ ([], s)
        | ok paths ↦ promotions handlers disks fresh.now rows paths cs bytes s
      ] in
      if length disks == 0 then (db, s) else (
        with_caches db (
            bump_rows fresh.now (bump_ids rows cs)
              (insert_rows n fresh.now disks (save_promoted promoted.0 rows) cs)),
        promoted.1,
      )

  unfoldable pub read_source : List Disk → S → Chunk → Option Bytes
  read_source disks s c = elim (handler_for handlers (disk_or_zero disks c.disk_id).backend) [
    | none ↦ none
    | some h ↦ h.read s (disk_or_zero disks c.disk_id) c.path
  ]

  unfoldable pub copy_of : List Disk → List ReadCache → S → Chunk → Option Bytes
  copy_of disks rows s c = elim (load_cache rows c.id) [
    | none ↦ none
    | some e ↦ if e.cached then read_cache_file handlers disks s e else none
  ]

  -- A copy that cannot be read is passed over.
  unfoldable pub read_one : List Disk → List ReadCache → S → Chunk → Option Bytes
  read_one disks rows s c = elim (copy_of disks rows s c) [
    | none ↦ read_source disks s c
    | some bytes ↦ some bytes
  ]

  -- `none` when one of the chunks cannot be read.
  unfoldable pub read_all : List Disk → List ReadCache → S → List Chunk → Option (List Bytes)
  read_all disks rows s [] = some []
  read_all disks rows s (c ∷ cs) = elim (read_one disks rows s c) [
    | none ↦ none
    | some b ↦ elim (read_all disks rows s cs) [ none ↦ none | some bs ↦ some (b ∷ bs) ]
  ]

  unfoldable pub check_read : ℕ → List ℕ → PoolDb → Result (List Chunk)
  check_read id ids db =
      let found = select (λ (c : Chunk). member c.id ids && c.pool_id == id) db.tables.chunks in
      if length ids == 0 then err chunk_empty else elim (get_pool id db) [
        | err e ↦ err e
        | ok pool ↦
            if not (is_online pool.status)
            then err pool_offline
            else if not (length found == length ids)
            then err chunk_not_found
            else ok (in_order found ids)
      ]

  unfoldable pub read_chunks : Fresh → ℕ → ℕ → List ℕ → PoolDb → S → ReadCall S
  read_chunks fresh n id ids db s = elim (check_read id ids db) [
    | err e ↦ record { result = err e; db = db; files = s }
    | ok cs ↦ elim (read_all (disks_of id db) db.tables.read_caches s cs) [
      | none ↦ record { result = err file_write; db = db; files = s }
      | some bytes ↦
          let after = update_cache_access fresh n id cs bytes db s in
          record { result = ok bytes; db = after.0; files = after.1 }
    ]
  ]
