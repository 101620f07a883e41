-- ===== src/Pool/Cache.antt =====
-- internal/pool/cache.go: copies of chunks on cache disks. Files are read and written in parallel there,
-- each a file of its own; here one after the other. Times are in seconds; an error of a query is not
-- modelled, and the files of rows that go are left out.
use zenofs.Common.{
  ℕ, zero, suc, ◌+◌, ◌%◌, Bool, true, false, not, ◌&&◌, ◌||◌, Option, none, some, List, [], ◌∷◌,
  ◌++◌, map, Result, ok, err, ◌==◌, ltb, if◌then◌else◌, length, get_or, select, delete_where,
  update_where, find_by, exists_in,
}
use zenofs.Pool.Tables.{Chunk, ReadCache, Tables}
use zenofs.Pool.Disks.{Disk, ChunkHandler, is_online, is_data_disk, disk_by_id, handler_for}
use zenofs.Pool.Release.{member}
use zenofs.Pool.Worker.{PoolDb}
use zenofs.Pool.Write.{path_at, paths_after}
use zenofs.Vfs.Crypto.{Bytes}
pub mod Reads

abbrev pub cache_promote_threshold : ℕ
cache_promote_threshold = 5

abbrev pub cache_idle_ttl : ℕ
cache_idle_ttl = 3600

abbrev pub is_cache_disk : ℕ → Disk → Bool
is_cache_disk pool d =
    d.pool_id == pool
    && (not (is_data_disk d.kind) && (is_online d.status && not (length d.path == 0)))

unfoldable pub cache_disks : ℕ → PoolDb → List Disk
cache_disks pool db = select (is_cache_disk pool) db.disks

abbrev pub nth {ℓ} : {A : Type ℓ} → List A → ℕ → Option A
nth [] i = none
nth (x ∷ xs) zero = some x
nth (x ∷ xs) (suc i) = nth xs i

unfoldable pub pick_cache_disk : List Disk → ℕ → Option Disk
pick_cache_disk disks id = if length disks == 0 then none else nth disks (id % length disks)

abbrev pub load_cache : List ReadCache → ℕ → Option ReadCache
load_cache rows id = find_by (λ (e : ReadCache). e.chunk_id == id) rows

abbrev pub is_hot : ReadCache → Bool
is_hot e = not e.cached && ltb cache_promote_threshold e.access_count

abbrev pub hot_count : List ReadCache → List Chunk → ℕ
hot_count rows cs =
    length
      (select (λ (c : Chunk). elim (load_cache rows c.id) [ none ↦ false | some e ↦ is_hot e ]) cs)

module _ {S : Type 0} (handlers : List (ChunkHandler S)) where
  unfoldable pub read_cache_file : List Disk → S → ReadCache → Option Bytes
  read_cache_file disks s e = elim (disk_by_id disks e.disk_id) [
    | none ↦ none
    | some disk ↦ elim (handler_for handlers disk.backend) [
      | none ↦ none
      | some h ↦ h.read s disk e.path
    ]
  ]

  -- A chunk that has been read often enough gets a file; the row then says so.
  unfoldable pub promote :
      List Disk → ℕ → List ℕ → Chunk → Bytes → ReadCache → S → Option ReadCache × S
  promote disks now path c bytes e s = elim (pick_cache_disk disks c.id) [
    | none ↦ (none, s)
    | some disk ↦ elim (handler_for handlers disk.backend) [
      | none ↦ (none, s)
      | some h ↦ elim (h.write s disk path bytes) [
        | none ↦ (none, s)
        | some s' ↦ (
          some (record e { path = path; disk_id = disk.id; cached = true; updated_at = now }),
          s',
        )
      ]
    ]
  ]

  -- The rows of those chunks that are promoted, each with the next of the paths.
  unfoldable pub promotions :
      List Disk
      → ℕ
      → List ReadCache
      → List (List ℕ)
      → List Chunk
      → List Bytes
      → S
      → List ReadCache × S
  promotions disks now rows paths [] bytes s = ([], s)
  promotions disks now rows paths (c ∷ cs) [] s = ([], s)
  promotions disks now rows paths (c ∷ cs) (b ∷ bs) s = elim (load_cache rows c.id) [
    | none ↦ promotions disks now rows paths cs bs s
    | some e ↦
        let done = if is_hot e then promote disks now (path_at paths) c b e s else (none, s) in
        let left = if is_hot e then paths_after paths else paths in
        let others = promotions disks now rows left cs bs done.1 in
        (elim done.0 [ none ↦ others.0 | some p ↦ p ∷ others.0 ], others.1)
  ]

-- An upsert by the id of the row; the time of creation stays.
unfoldable pub save_promoted : List ReadCache → List ReadCache → List ReadCache
save_promoted [] rows = rows
save_promoted (p ∷ ps) rows = save_promoted ps (
    if exists_in (λ (e : ReadCache). e.id == p.id) rows
    then update_where (λ (e : ReadCache). e.id == p.id)
        (λ (e : ReadCache). record e {
          path = p.path;
          disk_id = p.disk_id;
          access_count = p.access_count;
          cached = p.cached;
          updated_at = p.updated_at;
        })
        rows
    else rows ++ p ∷ [])

-- A row for the first access, unless the chunk has one. The first new row has the id `n`.
unfoldable pub insert_rows : ℕ → ℕ → List Disk → List ReadCache → List Chunk → List ReadCache
insert_rows n now disks rows [] = rows
insert_rows n now disks rows (c ∷ cs) = elim (load_cache rows c.id) [
  | some e ↦ insert_rows n now disks rows cs
  | none ↦ elim (pick_cache_disk disks c.id) [
    | none ↦ insert_rows n now disks rows cs
    | some disk ↦
        insert_rows (suc n) now disks
          (rows
            ++ record {
              id = n;
              chunk_id = c.id;
              path = [];
              disk_id = disk.id;
              access_count = 1;
              cached = false;
              updated_at = now;
            }
              ∷ [])
          cs
  ]
]

-- Every other access is counted.
unfoldable pub bump_rows : ℕ → List ℕ → List ReadCache → List ReadCache
bump_rows now ids =
    update_where (λ (e : ReadCache). member e.chunk_id ids)
      (λ (e : ReadCache). record e { access_count = e.access_count + 1; updated_at = now })

unfoldable pub cleanup_cold_cache : ℕ → List ReadCache → List ReadCache
cleanup_cold_cache now = delete_where (λ (e : ReadCache). ltb (e.updated_at + cache_idle_ttl) now)
