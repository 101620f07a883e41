-- ===== src/Pool/Disks.antt =====
-- internal/db/models.go, internal/pool/handler.go, internal/pool/parity.go: pools and their disks,
-- and the handlers that keep the files of chunks on a disk. What a disk holds is a parameter `S`.
use zenofs.Common.{ℕ, Bool, true, false, Option, none, some, List, [], ◌==◌, find_by, if◌then◌else◌}
use zenofs.Pool.Tables.{Chunk}
use zenofs.Vfs.Crypto.{Bytes, Primitives, hash_equal}

pub data DiskPoolStatus : Type 0 where
  online offline repair : DiskPoolStatus

pub data DiskBackend : Type 0 where
  local_backend s3_backend : DiskBackend

pub data DiskType : Type 0 where
  data_disk cache_disk : DiskType

pub record Disk : Type 0 where
  pub id : ℕ
  pub path : List ℕ
  pub pool_id : ℕ
  pub backend : DiskBackend
  pub kind : DiskType
  pub status : DiskPoolStatus

pub record PoolRow : Type 0 where
  pub id : ℕ
  pub data_shards : ℕ
  pub parity_shards : ℕ
  pub chunk_size : ℕ
  pub status : DiskPoolStatus

pub record Stripe : Type 0 where
  pub id : ℕ
  pub pool_id : ℕ

abbrev pub is_online : DiskPoolStatus → Bool
is_online DiskPoolStatus.online = true
is_online _ = false

abbrev pub is_repair : DiskPoolStatus → Bool
is_repair DiskPoolStatus.repair = true
is_repair _ = false

abbrev pub is_data_disk : DiskType → Bool
is_data_disk DiskType.data_disk = true
is_data_disk DiskType.cache_disk = false

abbrev pub same_backend : DiskBackend → DiskBackend → Bool
same_backend DiskBackend.local_backend DiskBackend.local_backend = true
same_backend DiskBackend.s3_backend DiskBackend.s3_backend = true
same_backend _ _ = false

-- The files of the disks in the state `S`; `none` is an error of the handler. A path is relative to the disk.
pub record ChunkHandler (S : Type 0) : Type 0 where
  pub backend : DiskBackend
  pub write : S → Disk → List ℕ → Bytes → Option S
  pub read : S → Disk → List ℕ → Option Bytes

abbrev pub hash_of : Option Bytes → Bytes
hash_of none = []
hash_of (some h) = h

abbrev pub disk_by_id : List Disk → ℕ → Option Disk
disk_by_id disks id = find_by (λ (d : Disk). d.id == id) disks

module _ {S : Type 0} (handlers : List (ChunkHandler S)) where
  unfoldable pub handler_for : DiskBackend → Option (ChunkHandler S)
  handler_for backend = find_by (λ (h : ChunkHandler S). same_backend h.backend backend) handlers

  -- The file of a chunk, whatever it holds.
  unfoldable pub read_chunk : List Disk → S → Chunk → Option Bytes
  read_chunk disks s c = elim (disk_by_id disks c.disk_id) [
    | none ↦ none
    | some disk ↦ elim (handler_for disk.backend) [ none ↦ none | some h ↦ h.read s disk c.path ]
  ]

  unfoldable pub write_chunk : List Disk → S → Chunk → Bytes → Option S
  write_chunk disks s c bytes = elim (disk_by_id disks c.disk_id) [
    | none ↦ none
    | some disk ↦ elim (handler_for disk.backend) [
      | none ↦ none
      | some h ↦ h.write s disk c.path bytes
    ]
  ]

  -- What can be read and has the hash of the row.
  unfoldable pub read_verified_chunk : Primitives → List Disk → S → Chunk → Option Bytes
  read_verified_chunk P disks s c = elim (read_chunk disks s c) [
    | none ↦ none
    | some bytes ↦ if hash_equal P bytes (hash_of c.hash) then some bytes else none
  ]
