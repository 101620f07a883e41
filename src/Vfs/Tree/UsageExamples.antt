-- ===== src/Vfs/Tree/UsageExamples.antt =====
-- A file with one chunk, shared by two of its versions.
use zenofs.Common.{ℕ, ◌≤◌, ◌≡◌, arith, Bool, none, some, [], ◌∷◌}
use zenofs.Db.{Inode, InodeKind, Version, VersionChunk}
use zenofs.Pool.Tables.{Chunk, ChunkStatus, ChunkType}
use zenofs.Vfs.Tree.Info.{capacity}
use zenofs.Vfs.Tree.Usage.{usage_breakdown}
use zenofs.Vfs.Tree.UsageLaws.{
  total_usage, referenced_bytes, usage_breakdown-total, capacity-bounds,
}

abbrev file : Inode
file = record {
  id = 3;
  parent_id = none;
  name = 102 ∷ [];
  kind = InodeKind.file;
  share_id = 1;
  version_id = some 2;
  link_id = none;
  executable = Bool.false;
  created_by = 2;
  updated_by = 2;
  updated_at = 5;
  deleted = Bool.false;
}

abbrev version : ℕ → Version
version id = record {
  id = id;
  inode_id = 3;
  parent_id = none;
  size = 4;
  codec = record { compression = 0; encryption = 0 };
  created_by = 2;
}

abbrev row : ℕ → VersionChunk
row v = record { version_id = v; idx = 0; chunk_id = 8; size = 4; hash = [] }

abbrev chunk : Chunk
chunk = record {
  id = 8;
  status = ChunkStatus.allocated;
  path = [];
  size = 4;
  hash = none;
  pool_id = 1;
  disk_id = 1;
  stripe_id = 1;
  kind = ChunkType.data_chunk;
  index = 0;
  created_at = 5;
}

usage_breakdown-total_example :
    total_usage
      (usage_breakdown 1 (file ∷ []) (version 1 ∷ version 2 ∷ []) (row 1 ∷ row 2 ∷ []) (chunk ∷ []))
    ≡ referenced_bytes 1 (file ∷ []) (version 1 ∷ version 2 ∷ []) (row 1 ∷ row 2 ∷ []) (chunk ∷ [])
usage_breakdown-total_example =
    usage_breakdown-total 1 (file ∷ []) (version 1 ∷ version 2 ∷ []) (row 1 ∷ row 2 ∷ [])
      (chunk ∷ [])

capacity-bounds_example :
    ((capacity 2 5).total_bytes ≡ 2097152)
    × (((capacity 2 5).free_bytes ≡ 2097147)
        × (((capacity 2 5).free_bytes ≤ (capacity 2 5).total_bytes)
            × ((capacity 2 5).used_bytes ≡ 5)))
capacity-bounds_example = capacity-bounds 2 5 (omega arith)
