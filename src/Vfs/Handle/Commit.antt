-- ===== src/Vfs/Handle/Commit.antt =====
-- internal/vfs/file.go and internal/vfs/file_write.go: the snapshot at open, the version that a
-- writer starts, and its commit.
use zenofs.Common.{
  ℕ, suc, true, not, Option, none, some, List, [], ◌∷◌, ◌++◌, map, ok, ◌==◌, if◌then◌else◌, find_by,
  select, delete_where, update_where,
}
use zenofs.Db.{Inode, Version, VersionChunk}
use zenofs.Vfs.Handle.State.{Backend, State, Action, set_handle, ◌>>=◌, ◌>>◌}
use zenofs.Vfs.Handle.Slices.{flush_active}
use zenofs.Vfs.Handle.Read.{size_of}

abbrev pub rows_of : ℕ → List VersionChunk → List VersionChunk
rows_of v = select (λ vc. vc.version_id == v)

-- The version found at open and its slices; a version row that is gone counts as an empty file.
unfoldable pub load_snapshot : {P : Type 0} → Option ℕ → State P → State P
load_snapshot none s = set_handle s (record s.handle { old_ver = none; old_chunks = [] })
load_snapshot (some v) s = elim (find_by (λ (r : Version). r.id == v) s.versions) [
  | none ↦ set_handle s (record s.handle { old_ver = none; old_chunks = [] })
  | some r ↦
      set_handle s
        (record s.handle { old_ver = some r; old_chunks = rows_of r.id s.version_chunks })
]

abbrev pub id_of : Option Version → Option ℕ
id_of none = none
id_of (some v) = some v.id

-- The row of the new version: it starts with the size of the version found at open.
unfoldable pub new_version_record : {P : Type 0} → State P → Version
new_version_record s = record {
  id = s.next_version;
  inode_id = s.inode;
  parent_id = id_of s.old_ver;
  size = size_of s.old_ver;
  codec = s.share.codec;
  created_by = s.user_id;
}

abbrev pub inherited : ℕ → VersionChunk → VersionChunk
inherited v vc = record vc { version_id = v }

-- The new version starts with every slice of the old one.
unfoldable pub begin_write : {P : Type 0} → State P → State P
begin_write s = record {
  handle = record s.handle { new_ver = v; new_chunks = map (inherited v.id) s.old_chunks };
  world = record s.world {
    versions = s.versions ++ v ∷ [];
    version_chunks = s.version_chunks ++ map (inherited v.id) s.old_chunks;
    next_version = suc s.next_version;
  };
}
  where
    v : Version
    v = new_version_record s

module _ (B : Backend) where
  open B use {Pool}

  unfoldable pub sync : Action Pool (Unit {0})
  sync s = if not s.writable then (ok tt, s) else flush_active B s

  -- Only the row of the version goes.
  unfoldable pub discard_new_version : Action Pool (Unit {0})
  discard_new_version s = if s.new_ver.id == 0 then (ok tt, s) else (
    ok tt,
    record s {
      world = record s.world {
        versions = delete_where (λ (v : Version). v.id == s.new_ver.id) s.versions;
      };
    },
  )

  -- The size of the version is written back, and the inode takes the version.
  unfoldable pub publish : Action Pool (Unit {0})
  publish s = (
    ok tt,
    record s {
      world = record s.world {
        versions =
            update_where (λ (v : Version). v.id == s.new_ver.id)
              (λ v. record v { size = s.new_ver.size }) s.versions;
        inodes =
            update_where (λ (i : Inode). i.id == s.inode)
              (λ i. record i {
                version_id = some s.new_ver.id;
                updated_by = s.user_id;
                updated_at = s.now;
              })
              s.inodes;
      };
    },
  )

  unfoldable pub commit : Action Pool (Unit {0})
  commit s = if s.dirty then publish s else discard_new_version s

  unfoldable pub close : Action Pool (Unit {0})
  unfolding ◌>>=◌
  close s =
      if s.closed
      then (ok tt, s)
      else if not s.writable
      then (ok tt, set_handle s (record s.handle { closed = true }))
      else (do flush_active B; commit) (set_handle s (record s.handle { closed = true }))
