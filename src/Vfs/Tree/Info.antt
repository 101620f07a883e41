-- ===== src/Vfs/Tree/Info.antt =====
-- internal/vfs/fs.go: metadata of entries and the read-only operations.
use zenofs.Common.{
  ℕ, ◌+◌, ◌-◌, ◌*◌, ◌%◌, ◌^◌, Bool, true, false, not, ◌&&◌, Option, none, some, List, [], ◌∷◌, map,
  Result, ok, err, not_exist, not_dir, invalid, ◌==◌, ltb, if◌then◌else◌, select, find_by, ◌>>=◌, ℤ,
  pos,
}
use zenofs.Db.{Inode, InodeKind, Version}
use zenofs.Pool.Release.{member}
use zenofs.Vfs.Path.{Text, clean_path, base_name, join_path}
use zenofs.Vfs.Tree.State.{
  Store, Mount, can_write, is_dir_kind, is_link_kind, is_file_kind, same_parent,
}
use zenofs.Vfs.Tree.Lookup.{lookup, path_of}
use zenofs.Vfs.Tree.Change.{ref_of}

pub data Kind : Type 0 where
  kind_file kind_dir kind_symlink : Kind

-- The type bits of an os.FileMode, and its permission bits.
pub record FileMode : Type 0 where
  pub dir_bit : Bool
  pub symlink_bit : Bool
  pub perm : ℕ

pub record FileInfo : Type 0 where
  pub id : ℤ
  pub name : Text
  pub path : Text
  pub kind : Kind
  pub size : ℕ
  pub mode : FileMode
  pub uid : ℕ
  pub gid : ℕ
  pub atime : ℕ
  pub mtime : ℕ
  pub ctime : ℕ
  pub target : Text

abbrev kind_of : InodeKind → Kind
kind_of InodeKind.dir = kind_dir
kind_of InodeKind.link = kind_symlink
kind_of InodeKind.file = kind_file

-- 0o444, with 0o222 where the mount may write; the bits are apart, so `|` adds them.
unfoldable pub access_bits : Mount → ℕ
access_bits m = if can_write m.perm then 292 + 146 else 292

-- 0o111.
abbrev pub exec_bits : ℕ
exec_bits = 73

unfoldable pub mode_of : Mount → Inode → FileMode
mode_of m i = elim i.kind [
  | InodeKind.dir ↦ record { dir_bit = true; symlink_bit = false; perm = access_bits m + exec_bits }
  | InodeKind.link ↦ record {
    dir_bit = false;
    symlink_bit = true;
    perm = access_bits m + exec_bits;
  }
  | InodeKind.file ↦ record {
    dir_bit = false;
    symlink_bit = false;
    perm = if i.executable then access_bits m + exec_bits else access_bits m;
  }
]

unfoldable pub build_info : Mount → Inode → Text → ℕ → FileInfo
build_info m i p size = record {
  id = pos i.id;
  name = base_name p;
  path = p;
  kind = kind_of i.kind;
  size = size;
  mode = mode_of m i;
  uid = i.created_by % 2 ^ 32;
  gid = i.share_id % 2 ^ 32;
  atime = i.updated_at;
  mtime = i.updated_at;
  ctime = i.updated_at;
  target = [];
}

abbrev size_or_zero : Option Version → ℕ
size_or_zero none = 0
size_or_zero (some v) = v.size

-- The current version of a file.
abbrev pub current_version : Inode → Option ℕ
current_version i = elim (is_file_kind i.kind) [ true ↦ i.version_id | false ↦ none ]

unfoldable pub version_size : Inode → Store → ℕ
version_size i st = elim (current_version i) [
  | none ↦ 0
  | some id ↦ size_or_zero (find_by (λ (v : Version). v.id == id) st.versions)
]

-- The target of a link, where a path leads to it.
unfoldable pub with_target : Inode → Store → FileInfo → FileInfo
with_target i st fi = elim (is_link_kind i.kind) [
  | false ↦ fi
  | true ↦ elim i.link_id [
    | none ↦ fi
    | some id ↦ elim (path_of id st) [ err e ↦ fi | ok p ↦ record fi { target = p } ]
  ]
]

unfoldable pub info : Mount → Inode → Text → Store → FileInfo
info m i p st = with_target i st (build_info m i p (version_size i st))

unfoldable pub stat : Mount → Text → Bool → Store → Result FileInfo
stat m p follow st = do clean ← clean_path p; i ← lookup m clean follow st; ok (info m i clean st)

-- The two maps that sizesOf fills, a later entry in place of an earlier one.
unfoldable pub size_by_version : List Version → ℕ → Option ℕ
size_by_version [] id = none
size_by_version (v ∷ vs) id =
    let later = size_by_version vs id in
    elim later [ some size ↦ some size | none ↦ if v.id == id then some v.size else none ]

abbrev or_zero : Option ℕ → ℕ
or_zero none = 0
or_zero (some n) = n

unfoldable pub current_versions : List Inode → List ℕ
current_versions [] = []
current_versions (i ∷ is) =
    let rest = current_versions is in elim (current_version i) [ none ↦ rest | some id ↦ id ∷ rest ]

unfoldable pub size_by_inode : List Version → List Inode → ℕ → Option ℕ
size_by_inode vs [] id = none
size_by_inode vs (i ∷ is) id =
    let later = size_by_inode vs is id in
    elim later [
      | some size ↦ some size
      | none ↦ elim (current_version i) [
        | none ↦ none
        | some v ↦ if i.id == id then some (or_zero (size_by_version vs v)) else none
      ]
    ]

unfoldable pub sizes_of : List Inode → Store → ℕ → ℕ
sizes_of children st id = or_zero (
    size_by_inode (select (λ (v : Version). member v.id (current_versions children)) st.versions)
      children id)

abbrev pub is_child : Mount → Inode → Inode → Bool
is_child m dir i =
    i.share_id == m.share.id && (not i.deleted && same_parent i.parent_id (ref_of dir))

unfoldable pub children_in : Mount → Inode → Store → List Inode
children_in m dir st = select (is_child m dir) st.inodes

-- One entry of a directory, with the sizes found for all of them.
abbrev pub child_info : Mount → Text → (ℕ → ℕ) → Store → Inode → FileInfo
child_info m clean size st i =
    with_target i st (build_info m i (join_path clean i.name) (size i.id))

unfoldable pub read_dir_clean : Mount → Text → Inode → Store → Result (List FileInfo)
read_dir_clean m clean dir st =
    if is_dir_kind dir.kind
    then ok
        (map (child_info m clean (sizes_of (children_in m dir st) st) st) (children_in m dir st))
    else err not_dir

unfoldable pub read_dir : Mount → Text → Store → Result (List FileInfo)
read_dir m p st = do
  clean ← clean_path p
  dir ← lookup m clean true st
  read_dir_clean m clean dir st

-- What the entry links to.
abbrev link_path : Inode → Store → Result Text
link_path i st = elim (is_link_kind i.kind) [
  | false ↦ err invalid
  | true ↦ elim i.link_id [
    | none ↦ err invalid
    | some id ↦ elim (path_of id st) [ ok p ↦ ok p | err e ↦ err not_exist ]
  ]
]

unfoldable pub readlink : Mount → Text → Store → Result Text
readlink m p st = do clean ← clean_path p; i ← lookup m clean false st; link_path i st

-- Sizes in bytes; a limit of 0 files is none.
pub record FsInfo : Type 0 where
  pub total_bytes : ℕ
  pub free_bytes : ℕ
  pub used_bytes : ℕ

-- The quota is in megabytes: `uint64(quota) << 20`.
unfoldable pub capacity : ℕ → ℕ → FsInfo
capacity quota used =
    let total = quota * 2 ^ 20 % 2 ^ 64 in
    if quota == 0 then record { total_bytes = 0; free_bytes = 0; used_bytes = used } else record {
      total_bytes = total;
      free_bytes = if ltb used total then total - used else 0;
      used_bytes = used;
    }
