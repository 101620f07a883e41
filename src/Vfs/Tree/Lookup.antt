-- ===== src/Vfs/Tree/Lookup.antt =====
-- internal/vfs/fs.go: lookup, which resolves a path, and pathOf, which rebuilds one.
use zenofs.Common.{
  ℕ, zero, suc, Bool, true, false, not, ◌&&◌, Option, none, some, List, [], ◌∷◌, Result, ok, err,
  not_exist, not_dir, loop, ◌==◌, find_by, ◌>>=◌,
}
use zenofs.Db.{Inode, InodeKind}
use zenofs.Vfs.Path.{Text, same_text, path_segments, joined}
use zenofs.Vfs.Tree.State.{Store, Mount, is_dir_kind, is_link_kind, same_parent}

-- No row stands for the root: its id is 0, and the entries below it have no parent.
unfoldable pub root_inode : Mount → Inode
root_inode m = record {
  id = 0;
  parent_id = none;
  name = 47 ∷ [];
  kind = InodeKind.dir;
  share_id = m.share.id;
  version_id = none;
  link_id = none;
  executable = false;
  created_by = 0;
  updated_by = 0;
  updated_at = 0;
  deleted = false;
}

-- A live row of the share under a directory, by name.
abbrev pub is_entry : ℕ → Option ℕ → Text → Inode → Bool
is_entry share parent name i =
    i.share_id == share
    && (same_text i.name name && (not i.deleted && same_parent i.parent_id parent))

unfoldable pub entry : ℕ → Option ℕ → Text → List Inode → Option Inode
entry share parent name = find_by (is_entry share parent name)

-- The loop over the segments; only directories are gone through, links are not.
unfoldable pub walk : ℕ → List Inode → Option ℕ → Inode → List Text → Result Inode
walk share inodes parent cur [] = ok cur
walk share inodes parent cur (seg ∷ []) = elim (entry share parent seg inodes) [
  | none ↦ err not_exist
  | some i ↦ ok i
]
walk share inodes parent cur (seg ∷ next ∷ segs) = elim (entry share parent seg inodes) [
  | none ↦ err not_exist
  | some i ↦ elim (is_dir_kind i.kind) [
    | true ↦ walk share inodes (some i.id) i (next ∷ segs)
    | false ↦ err not_dir
  ]
]

abbrev pub inode_by_id : ℕ → List Inode → Option Inode
inode_by_id id = find_by (λ (i : Inode). i.id == id)

abbrev pub link_target : Inode → Option ℕ
link_target i = elim (is_link_kind i.kind) [ true ↦ i.link_id | false ↦ none ]

abbrev pub max_symlink_depth : ℕ
max_symlink_depth = 16

-- `fuel` is how many more links may be followed.
unfoldable pub follow_links : ℕ → List Inode → Inode → Result Inode
follow_links zero inodes cur = elim (link_target cur) [ none ↦ ok cur | some id ↦ err loop ]
follow_links (suc fuel) inodes cur = elim (link_target cur) [
  | none ↦ ok cur
  | some id ↦ elim (inode_by_id id inodes) [
    | none ↦ err not_exist
    | some target ↦ follow_links fuel inodes target
  ]
]

-- The row at a clean path, and the row that its last link leads to.
unfoldable pub lookup_entry : Mount → Text → Store → Result Inode
lookup_entry m p st = walk m.share.id st.inodes none (root_inode m) (path_segments p)

unfoldable pub lookup : Mount → Text → Bool → Store → Result Inode
lookup m p follow st = lookup_entry m p st >>= λ cur. elim follow [
  | true ↦ follow_links max_symlink_depth st.inodes cur
  | false ↦ ok cur
]

abbrev pub max_path_depth : ℕ
max_path_depth = 256

-- Upwards by parents; a chain longer than `fuel` is taken for a cycle.
unfoldable pub path_up : ℕ → List Inode → ℕ → List Text → Result Text
path_up zero inodes id names = err loop
path_up (suc fuel) inodes id names = elim (inode_by_id id inodes) [
  | none ↦ err not_exist
  | some i ↦ elim i.parent_id [
    | none ↦ ok (joined (i.name ∷ names))
    | some p ↦ path_up fuel inodes p (i.name ∷ names)
  ]
]

unfoldable pub path_of : ℕ → Store → Result Text
path_of id st = path_up max_path_depth st.inodes id []
