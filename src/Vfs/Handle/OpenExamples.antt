-- ===== src/Vfs/Handle/OpenExamples.antt =====
-- A file with one stored slice, opened for writing.
use zenofs.Common.{◌≡◌, refl, true, false, none, some, [], ◌∷◌, find_by}
use zenofs.Db.{Codec, Version, VersionChunk}
use zenofs.Vfs.Handle.State.{State}
use zenofs.Vfs.Handle.Slices.{slice_at, read_slice, slice_plain}
use zenofs.Vfs.Handle.Commit.{begin_write}
use zenofs.Vfs.Handle.OpenLaws.{begin_write-reads_with_share_codec}
use zenofs.Vfs.Handle.Examples.{OnShelf, chunks, plain_codec, on_shelf}

abbrev zstd_codec : Codec
zstd_codec = record { compression = 1; encryption = 0 }

abbrev pub old_version : Version
old_version = record {
  id = 3;
  inode_id = 5;
  parent_id = none;
  size = 3;
  codec = plain_codec;
  created_by = 2;
}

abbrev pub old_row : VersionChunk
old_row = record { version_id = 3; idx = 0; chunk_id = 0; size = 3; hash = [] }

-- The file 1, 2, 3 as version 3, opened on a share with the given codec.
abbrev pub opened : Codec → State OnShelf
opened codec = record {
  handle = record {
    inode = 5;
    readable = true;
    writable = true;
    appending = false;
    offset = 0;
    closed = false;
    old_ver = some old_version;
    old_chunks = old_row ∷ [];
    new_ver = old_version;
    new_chunks = [];
    dirty = false;
    active = none;
  };
  world = record {
    pool = on_shelf ((1 ∷ 2 ∷ 3 ∷ []) ∷ []);
    versions = old_version ∷ [];
    version_chunks = old_row ∷ [];
    inodes = [];
    next_version = 8;
    now = 0;
    share = record {
      id = 1;
      name = [];
      pool_id = 1;
      quota = 0;
      codec = codec;
      key_hash = [];
      created_by = 2;
      created_at = 0;
    };
    user_id = 2;
    slice_bytes = 4;
  };
}

begin_write-reads_with_share_codec_example :
    slice_plain chunks 0 (begin_write (opened zstd_codec))
    ≡ read_slice chunks 0 zstd_codec (begin_write (opened zstd_codec))
unfolding slice_at find_by
begin_write-reads_with_share_codec_example =
    begin_write-reads_with_share_codec chunks 0 old_row (opened zstd_codec) refl refl
