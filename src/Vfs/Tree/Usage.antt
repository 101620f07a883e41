-- ===== src/Vfs/Tree/Usage.antt =====
-- internal/vfs/fs.go: StatFS. internal/vfs/usage.go: UsageBreakdown, whose query is written out.
use zenofs.Common.{ℕ, ◌+◌, Option, none, some, List, [], ◌∷◌, ◌==◌, if◌then◌else◌, find_by}
use zenofs.Db.{Inode, Version, VersionChunk}
use zenofs.Pool.Tables.{Chunk, is_data}
use zenofs.Vfs.Handle.Write.{used_bytes}
use zenofs.Vfs.Tree.State.{Store, Mount}
use zenofs.Vfs.Tree.Info.{FsInfo, capacity}

unfoldable pub stat_fs : Mount → Store → FsInfo
stat_fs m st = capacity m.share.quota (used_bytes m.share.id st.inodes st.versions)

-- The classes of a chunk, first the one that counts before the others.
pub data UsageClass : Type 0 where
  current history recycle : UsageClass

pub record UsageBreakdown : Type 0 where
  pub current_bytes : ℕ
  pub history_bytes : ℕ
  pub recycle_bytes : ℕ

unfoldable pub usage_class : Inode → ℕ → UsageClass
usage_class i version_id = if i.deleted then recycle else elim i.version_id [
  | none ↦ history
  | some v ↦ if v == version_id then current else history
]

-- MIN of the classes, `none` for no row.
abbrev pub min_class : UsageClass → Option UsageClass → UsageClass
min_class c none = c
min_class current (some d) = current
min_class history (some current) = current
min_class history (some d) = history
min_class recycle (some d) = d

-- The rows that join a chunk to an inode of the share.
unfoldable pub chunk_class :
    ℕ → List Inode → List Version → List VersionChunk → ℕ → Option UsageClass
chunk_class share inodes versions [] chunk = none
chunk_class share inodes versions (vc ∷ vcs) chunk =
    let rest = chunk_class share inodes versions vcs chunk in
    if vc.chunk_id == chunk
    then elim (find_by (λ (v : Version). v.id == vc.version_id) versions) [
      | none ↦ rest
      | some v ↦ elim (find_by (λ (i : Inode). i.id == v.inode_id) inodes) [
        | none ↦ rest
        | some i ↦
            if i.share_id == share
            then some (min_class (usage_class i vc.version_id) rest)
            else rest
      ]
    ]
    else rest

unfoldable pub add_usage : Option UsageClass → ℕ → UsageBreakdown → UsageBreakdown
add_usage none size u = u
add_usage (some current) size u = record u { current_bytes = size + u.current_bytes }
add_usage (some history) size u = record u { history_bytes = size + u.history_bytes }
add_usage (some recycle) size u = record u { recycle_bytes = size + u.recycle_bytes }

unfoldable pub usage_breakdown :
    ℕ → List Inode → List Version → List VersionChunk → List Chunk → UsageBreakdown
usage_breakdown share inodes versions vcs [] = record {
  current_bytes = 0;
  history_bytes = 0;
  recycle_bytes = 0;
}
usage_breakdown share inodes versions vcs (c ∷ cs) =
    let rest = usage_breakdown share inodes versions vcs cs in
    if is_data c.kind
    then add_usage (chunk_class share inodes versions vcs c.id) c.size rest
    else rest
