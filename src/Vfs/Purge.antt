-- ===== src/Vfs/Purge.antt =====
-- internal/vfs/recycle.go: purgeInode, which removes an inode for good with everything below it and
-- releases the chunks of all their versions. An error rolls the transaction back.
use zenofs.Common.{
  ℕ, zero, suc, ◌+◌, Bool, true, false, Option, none, some, List, [], ◌∷◌, ◌++◌, map, Result, ok,
  err, loop, not_exist, ◌==◌, ltb, if◌then◌else◌, length, select, delete_where,
}
use zenofs.Db.{Inode, Version, VersionChunk}
use zenofs.Pool.Release.{StaleFile, member, release_chunks}
use zenofs.Vfs.Retention.{Files, chunk_ids_of}

abbrev pub max_purge_nodes : ℕ
max_purge_nodes = 100000

abbrev is_child_of : List ℕ → Option ℕ → Bool
is_child_of frontier none = false
is_child_of frontier (some p) = member p frontier

unfoldable pub children_of : List ℕ → List Inode → List ℕ
children_of frontier inodes =
    map (λ (i : Inode). i.id) (select (λ (i : Inode). is_child_of frontier i.parent_id) inodes)

-- Level by level. A round that goes on adds an inode, so `limit + 2` rounds end it, also on a cycle.
unfoldable pub collect : ℕ → ℕ → List ℕ → List ℕ → List Inode → Result (List ℕ)
collect limit zero ids frontier inodes = err loop
collect limit (suc fuel) ids [] inodes = ok ids
collect limit (suc fuel) ids (i ∷ is) inodes =
    let children = children_of (i ∷ is) inodes in
    elim (ltb limit (length ids + length children)) [
      | true ↦ err loop
      | false ↦ collect limit fuel (ids ++ children) children inodes
    ]

unfoldable pub collect_subtree : ℕ → List Inode → Result (List ℕ)
collect_subtree id = collect max_purge_nodes (suc (suc max_purge_nodes)) (id ∷ []) (id ∷ [])

-- `pluckVersionIds`.
unfoldable pub version_ids_of : List ℕ → List Version → List ℕ
version_ids_of inode_ids versions =
    map (λ (v : Version). v.id) (select (λ (v : Version). member v.inode_id inode_ids) versions)

unfoldable pub delete_inodes : List ℕ → Files → Files
delete_inodes ids f = record f {
  inodes = delete_where (λ (i : Inode). member i.id ids) f.inodes;
  versions = delete_where (λ (v : Version). member v.inode_id ids) f.versions;
  tables = record f.tables {
    version_chunks =
        delete_where (λ (vc : VersionChunk). member vc.version_id (version_ids_of ids f.versions))
          f.tables.version_chunks;
  };
}

module _ (draw : ℕ → Result (List (List ℕ))) where
  unfoldable pub purge_nodes : List ℕ → Files → Result (List StaleFile × Files)
  purge_nodes ids f =
      if length (select (λ (i : Inode). member i.id ids) f.inodes) == 0
      then err not_exist
      else elim (release_chunks draw
          (chunk_ids_of (version_ids_of ids f.versions) f.tables.version_chunks)
          (delete_inodes ids f).tables) [
            | err e ↦ err e
            | ok (r, u) ↦ ok (r.stale, record (delete_inodes ids f) { tables = u })
          ]

  unfoldable pub purge_inode : ℕ → Files → Result (List StaleFile × Files)
  purge_inode id f = elim (collect_subtree id f.inodes) [
    | err e ↦ err e
    | ok ids ↦ purge_nodes ids f
  ]
