-- ===== src/Pool/Write.antt =====
-- internal/pool/chunk.go: slots for new chunks. A call runs in a transaction: an error leaves the tables
-- as they were. The ids of new rows, the order of the disks and the random paths are parameters.
use zenofs.Common.{
  ℕ, zero, suc, ◌+◌, ◌-◌, ◌*◌, ◌/◌, Bool, true, false, not, ◌&&◌, Option, none, some, List, [], ◌∷◌,
  ◌++◌, map, Result, ok, err, Error, ◌==◌, ltb, if◌then◌else◌, length, take, drop, select,
  update_where, find_by, exists_in,
}
use zenofs.Pool.Tables.{Chunk, ChunkStatus, ChunkType, Tables, is_data, is_allocated}
use zenofs.Pool.Disks.{Disk, PoolRow, Stripe, is_online, is_data_disk}
use zenofs.Pool.Worker.{PoolDb}
use zenofs.Vfs.Crypto.{Bytes}
pub mod Slots
pub mod Allocation
pub mod Queue
pub mod Files
pub mod Calls
pub mod CallLaws
pub mod FlushLaws
pub mod Examples

-- The codes of internal/errs/errs.go.
abbrev pub pool_bad : Error
pool_bad = Error.coded 5

abbrev pub disk_offline : Error
disk_offline = Error.coded 8

abbrev pub pool_offline : Error
pool_offline = Error.coded 9

abbrev pub file_write : Error
file_write = Error.coded 11

abbrev pub chunk_empty : Error
chunk_empty = Error.coded 12

abbrev pub chunk_size_exceed : Error
chunk_size_exceed = Error.coded 13

abbrev pub chunk_not_found : Error
chunk_not_found = Error.coded 14

pub record ChunkData : Type 0 where
  pub size : ℕ
  pub hash : Bytes
  pub bytes : Bytes

-- What the database, the clock and the random source give to new rows.
pub record Fresh : Type 0 where
  pub stripe_id : ℕ → ℕ
  pub chunk_id : ℕ → ℕ
  pub queue_id : ℕ → ℕ
  pub paths : ℕ → Result (List (List ℕ))
  pub shuffle : ℕ → List Disk → List Disk
  pub now : ℕ

abbrev pub path_at : List (List ℕ) → List ℕ
path_at [] = []
path_at (p ∷ ps) = p

abbrev pub paths_after : List (List ℕ) → List (List ℕ)
paths_after [] = []
paths_after (p ∷ ps) = ps

abbrev pub with_data : ChunkData → Chunk → Chunk
with_data it c = record c { status = ChunkStatus.allocated; size = it.size; hash = some it.hash }

abbrev pub is_new_data : Chunk → Bool
is_new_data c = is_data c.kind && is_allocated c.status

-- The reserved slots, in order, take the first items.
unfoldable pub fill : List Chunk → List ChunkData → List Chunk
fill [] items = []
fill (c ∷ cs) [] = []
fill (c ∷ cs) (it ∷ its) = with_data it c ∷ fill cs its

abbrev pub filled_row : List Chunk → Chunk → Chunk
filled_row filled c = elim (find_by (λ (f : Chunk). f.id == c.id) filled) [
  | none ↦ c
  | some f ↦ record c { status = ChunkStatus.allocated; size = f.size; hash = f.hash }
]

-- An update of the rows by their ids.
unfoldable pub save_filled : List Chunk → List Chunk → List Chunk
save_filled filled =
    update_where (λ (c : Chunk). exists_in (λ (f : Chunk). f.id == c.id) filled) (filled_row filled)

module _ (fresh : Fresh) (pool : PoolRow) where
  abbrev pub slot : ℕ → ℕ → Disk → List ℕ → ChunkType → ℕ → Chunk
  slot n stripe disk path kind idx = record {
    id = fresh.chunk_id n;
    status = ChunkStatus.reserved;
    path = path;
    size = 0;
    hash = none;
    pool_id = pool.id;
    disk_id = disk.id;
    stripe_id = fresh.stripe_id stripe;
    kind = kind;
    index = idx;
    created_at = fresh.now;
  }

  -- The slots of one stripe from the `i`-th on: data slots take the next items while there are some; a
  -- parity slot is numbered from 0. `n` counts the new chunks.
  unfoldable pub stripe_slots : ℕ → ℕ → ℕ → List Disk → List (List ℕ) → List ChunkData → List Chunk
  stripe_slots n stripe i [] paths items = []
  stripe_slots n stripe i (d ∷ disks) paths [] =
      (if ltb i pool.data_shards
        then slot n stripe d (path_at paths) ChunkType.data_chunk i
        else slot n stripe d (path_at paths) ChunkType.parity_chunk (i - pool.data_shards))
      ∷ stripe_slots (suc n) stripe (suc i) disks (paths_after paths) []
  stripe_slots n stripe i (d ∷ disks) paths (it ∷ its) =
      (if ltb i pool.data_shards
        then with_data it (slot n stripe d (path_at paths) ChunkType.data_chunk i)
        else slot n stripe d (path_at paths) ChunkType.parity_chunk (i - pool.data_shards))
      ∷ stripe_slots (suc n) stripe (suc i) disks (paths_after paths)
          (if ltb i pool.data_shards then its else it ∷ its)

  -- `k` stripes more, from the `stripe`-th on.
  unfoldable pub new_slots : ℕ → ℕ → List Disk → List (List ℕ) → List ChunkData → List Chunk
  new_slots zero stripe disks paths items = []
  new_slots (suc k) stripe disks paths items =
      stripe_slots (stripe * length disks) stripe 0 (fresh.shuffle stripe disks) paths items
      ++ new_slots k (suc stripe) disks (drop (length disks) paths) (drop pool.data_shards items)

  abbrev pub new_stripes : ℕ → ℕ → List Stripe
  new_stripes zero stripe = []
  new_stripes (suc k) stripe =
      record { id = fresh.stripe_id stripe; pool_id = pool.id } ∷ new_stripes k (suc stripe)

  -- The chunks for the items, in their order, with the rows afterwards.
  unfoldable pub allocate : List Disk → List ChunkData → PoolDb → Result (List Chunk × PoolDb)
  allocate disks items db =
      let reserved = take (length items) (
        select
          (λ (c : Chunk). not (is_allocated c.status) && (is_data c.kind && c.pool_id == pool.id))
          db.tables.chunks) in
      let filled = fill reserved items in
      let kept = save_filled filled db.tables.chunks in
      let rest = drop (length reserved) items in
      let slots = pool.data_shards + pool.parity_shards in
      let stripes = (length rest + pool.data_shards - 1) / pool.data_shards in
      if length rest == 0
      then ok (filled, record db { tables = record db.tables { chunks = kept } })
      else if slots == 0
      then err pool_bad
      else if not (length disks == slots)
      then err disk_offline
      else elim (fresh.paths (stripes * slots)) [
        | err e ↦ err e
        | ok paths ↦
            let new = new_slots stripes 0 disks paths rest in
            ok (
              filled ++ select is_new_data new,
              record db {
                tables = record db.tables { chunks = kept ++ new };
                stripes = db.stripes ++ new_stripes stripes 0;
              },
            )
      ]

-- A disk without a path holds nothing.
abbrev pub is_usable : ℕ → Disk → Bool
is_usable pool d =
    d.pool_id == pool && (is_online d.status && (is_data_disk d.kind && not (length d.path == 0)))

abbrev pub fits_all : ℕ → List ChunkData → Bool
fits_all bound items = not (exists_in (λ (it : ChunkData). ltb bound it.size) items)

unfoldable pub get_pool : ℕ → PoolDb → Result PoolRow
get_pool id db = elim (find_by (λ (p : PoolRow). p.id == id) db.pools) [
  | none ↦ err pool_bad
  | some p ↦ ok p
]

unfoldable pub get_new_chunks : Fresh → ℕ → List ChunkData → PoolDb → Result (List Chunk × PoolDb)
get_new_chunks fresh id items db = elim (get_pool id db) [
  | err e ↦ err e
  | ok pool ↦
      if not (is_online pool.status)
      then err pool_offline
      else if not (fits_all (pool.chunk_size * 1024) items)
      then err chunk_size_exceed
      else allocate fresh pool (select (is_usable id) db.disks) items db
]
