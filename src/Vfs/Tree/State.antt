-- ===== src/Vfs/Tree/State.antt =====
-- internal/vfs/fs.go: the tables of the tree, and one mounted share.
use zenofs.Common.{
  ℕ, Bool, true, false, Option, none, some, List, ◌==◌, Result, ok, err, permission,
}
use zenofs.Db.{Inode, InodeKind, Version, InodeHistory, Share, SharePermission}

-- The tables that the tree reads and writes; inode ids count up.
pub record Store : Type 0 where
  pub inodes : List Inode
  pub versions : List Version
  pub history : List InodeHistory
  pub next_inode : ℕ
  pub now : ℕ

-- A mounted share: `ShareFS`.
pub record Mount : Type 0 where
  pub share : Share
  pub user_id : ℕ
  pub perm : SharePermission

-- `up`.
abbrev pub can_write : SharePermission → Bool
can_write SharePermission.share_read = false
can_write SharePermission.share_write = true
can_write SharePermission.share_admin = true

-- `requireWrite`.
unfoldable pub require_write : Mount → Result (Unit {0})
require_write m = elim (can_write m.perm) [ true ↦ ok tt | false ↦ err permission ]

abbrev pub is_dir_kind : InodeKind → Bool
is_dir_kind InodeKind.dir = true
is_dir_kind InodeKind.file = false
is_dir_kind InodeKind.link = false

abbrev pub is_link_kind : InodeKind → Bool
is_link_kind InodeKind.link = true
is_link_kind InodeKind.dir = false
is_link_kind InodeKind.file = false

abbrev pub is_file_kind : InodeKind → Bool
is_file_kind InodeKind.file = true
is_file_kind InodeKind.dir = false
is_file_kind InodeKind.link = false

-- `parent_id IS NULL`, or `parent_id = ?`.
abbrev pub same_parent : Option ℕ → Option ℕ → Bool
same_parent none none = true
same_parent none (some p) = false
same_parent (some q) none = false
same_parent (some q) (some p) = q == p
