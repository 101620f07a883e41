-- ===== src/Vfs/Retention.antt =====
-- internal/vfs/retention.go and internal/vfs/recycle.go: trimVersions, which keeps a number of
-- versions of a file and releases the chunks of the others. An error rolls the transaction back.
use zenofs.Common.{
  ℕ, Bool, not, Option, none, some, List, [], ◌∷◌, map, Result, ok, err, not_exist, ◌==◌, leb,
  if◌then◌else◌, length, select, delete_where, find_by,
}
use zenofs.Db.{Inode, Version, VersionChunk}
use zenofs.Pool.Tables.{Tables}
use zenofs.Pool.Release.{StaleFile, member, unique_ids, release_chunks}
pub mod Laws
mod Examples

-- The tables of a transaction of the file layer.
pub record Files : Type 0 where
  pub inodes : List Inode
  pub versions : List Version
  pub tables : Tables

-- ORDER BY id DESC.
unfoldable pub insert_desc : ℕ → List ℕ → List ℕ
insert_desc x [] = x ∷ []
insert_desc x (y ∷ ys) = let rest = insert_desc x ys in if leb y x then x ∷ y ∷ ys else y ∷ rest

unfoldable pub sort_desc : List ℕ → List ℕ
sort_desc [] = []
sort_desc (x ∷ xs) = insert_desc x (sort_desc xs)

unfoldable pub version_ids : ℕ → List Version → List ℕ
version_ids inode versions =
    sort_desc (map (λ (v : Version). v.id) (select (λ (v : Version). v.inode_id == inode) versions))

abbrev pub current_only : Option ℕ → List ℕ
current_only none = []
current_only (some v) = v ∷ []

-- The set is filled from the newest version on until it has `keep` members.
unfoldable pub fill_kept : ℕ → List ℕ → List ℕ → List ℕ
fill_kept keep kept [] = kept
fill_kept keep kept (id ∷ ids) =
    let more = fill_kept keep (if member id kept then kept else id ∷ kept) ids in
    if leb keep (length kept) then kept else more

unfoldable pub versions_to_drop : ℕ → Inode → List Version → List ℕ
versions_to_drop keep i versions =
    delete_where (λ id. member id (fill_kept keep (current_only i.version_id) ids)) ids
  where
    ids : List ℕ
    ids = version_ids i.id versions

-- `pluckChunkIds`.
unfoldable pub chunk_ids_of : List ℕ → List VersionChunk → List ℕ
chunk_ids_of drop rows = unique_ids (
    map (λ (vc : VersionChunk). vc.chunk_id)
      (select (λ (vc : VersionChunk). member vc.version_id drop) rows))

-- The rows of the dropped versions.
unfoldable pub delete_versions : List ℕ → Files → Files
delete_versions drop f = record f {
  versions = delete_where (λ (v : Version). member v.id drop) f.versions;
  tables = record f.tables {
    version_chunks =
        delete_where (λ (vc : VersionChunk). member vc.version_id drop) f.tables.version_chunks;
  };
}

abbrev pub Trimmed : Type 0
Trimmed = (ℕ × List StaleFile) × Files

module _ (draw : ℕ → Result (List (List ℕ))) where
  unfoldable pub drop_versions : List ℕ → Files → Result Trimmed
  drop_versions drop f =
      elim (release_chunks draw (chunk_ids_of drop f.tables.version_chunks)
        (delete_versions drop f).tables) [
          | err e ↦ err e
          | ok (r, u) ↦ ok ((length drop, r.stale), record (delete_versions drop f) { tables = u })
        ]

  unfoldable pub trim_versions : ℕ → ℕ → Files → Result Trimmed
  trim_versions inode keep f =
      if keep == 0
      then ok ((0, []), f)
      else elim (find_by (λ (i : Inode). i.id == inode) f.inodes) [
        | none ↦ err not_exist
        | some i ↦
            let drop = versions_to_drop keep i f.versions in
            if length drop == 0 then ok ((0, []), f) else drop_versions drop f
      ]
