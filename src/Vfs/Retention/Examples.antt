-- ===== src/Vfs/Retention/Examples.antt =====
-- A file with versions 1, 2 and 3 that was rolled back to version 1, trimmed to two versions.
use zenofs.Common.{ℕ, ◌≡◌, refl, find_by, arith, none, some, List, [], ◌∷◌, ok, Bool}
use zenofs.Db.{Inode, InodeKind, Version, VersionChunk}
use zenofs.Pool.Tables.{ChunkType}
use zenofs.Pool.Release.{StaleFile}
use zenofs.Pool.Release.Examples.{draw, draw-Draws, chunk}
use zenofs.Vfs.Retention.{Files, trim_versions}
use zenofs.Vfs.Retention.Laws.{Keeps, trim_versions_ok}

abbrev inode : Inode
inode = record {
  id = 5;
  parent_id = none;
  name = [];
  kind = InodeKind.file;
  share_id = 1;
  version_id = some 1;
  link_id = none;
  executable = Bool.false;
  created_by = 2;
  updated_by = 2;
  updated_at = 0;
  deleted = Bool.false;
}

abbrev version : ℕ → Version
version id = record {
  id = id;
  inode_id = 5;
  parent_id = none;
  size = 100;
  codec = record { compression = 0; encryption = 0 };
  created_by = 2;
}

abbrev row : ℕ → ℕ → VersionChunk
row v c = record { version_id = v; idx = 0; chunk_id = c; size = 100; hash = [] }

abbrev files : Files
files = record {
  inodes = inode ∷ [];
  versions = version 1 ∷ version 2 ∷ version 3 ∷ [];
  tables = record {
    chunks =
        chunk 1 ChunkType.data_chunk
        ∷ chunk 2 ChunkType.data_chunk
        ∷ chunk 3 ChunkType.data_chunk
        ∷ [];
    version_chunks = row 1 1 ∷ row 2 2 ∷ row 3 3 ∷ [];
    read_caches = [];
    write_queue = [];
    stripe_queue = [];
  };
}

trim_versions_ok_example :
    (n : ℕ) × (stale : List StaleFile) × (g : Files) × (trim_versions draw 5 2 files
      ≡ ok ((n, stale), g))
    × Keeps 1 files g
unfolding find_by
trim_versions_ok_example =
    trim_versions_ok draw draw-Draws 5 2 1 inode files (omega arith) refl refl
