-- ===== src/Vfs/Tree/Change.antt =====
-- internal/vfs/fs_write.go: the operations that change the tree. Each ends in one transaction, so an
-- error leaves the tables as they were.
use zenofs.Common.{
  ℕ, zero, suc, ◌/◌, ◌%◌, Bool, true, false, not, ◌&&◌, ◌||◌, Option, none, some, List, [], ◌∷◌,
  ◌++◌, Result, ok, err, is_not_exist, exist, not_empty, is_dir, not_dir, invalid, name_too_long,
  ◌==◌, ltb, if◌then◌else◌, length, update_where, exists_in, ◌>>=◌, ◌>>◌,
}
use zenofs.Db.{Inode, InodeKind, InodeEventType}
use zenofs.Vfs.Path.{Text, same_text, clean_path, parent_path, base_name}
use zenofs.Vfs.Tree.State.{Store, Mount, require_write, is_dir_kind}
use zenofs.Vfs.Tree.Lookup.{lookup, inode_by_id, max_path_depth}

-- The reference that a row below this one holds.
unfoldable pub ref_of : Inode → Option ℕ
ref_of i = if i.id == 0 then none else some i.id

unfoldable pub parent_of : Inode → ℕ
parent_of i = elim i.parent_id [ some p ↦ p | none ↦ 0 ]

abbrev has_bad_byte : Text → Bool
has_bad_byte [] = false
has_bad_byte (c ∷ cs) = c == 47 || (c == 0 || has_bad_byte cs)

abbrev pub max_name_len : ℕ
max_name_len = 255

unfoldable pub check_name : Text → Result (Unit {0})
check_name name =
    if length name == 0
      || (same_text name (46 ∷ []) || (same_text name (46 ∷ 46 ∷ []) || has_bad_byte name))
    then err invalid
    else if ltb max_name_len (length name)
    then err name_too_long
    else ok tt

-- Whether `id` lies below `ancestor`, as far as 256 levels up.
unfoldable pub is_below : ℕ → ℕ → ℕ → List Inode → Bool
is_below zero ancestor id inodes = false
is_below (suc fuel) ancestor id inodes = elim (id == 0) [
  | true ↦ false
  | false ↦ elim (inode_by_id id inodes) [
    | none ↦ false
    | some i ↦ elim i.parent_id [
      | none ↦ false
      | some p ↦ elim (p == ancestor) [ true ↦ true | false ↦ is_below fuel ancestor p inodes ]
    ]
  ]
]

unfoldable pub is_descendant : ℕ → ℕ → Store → Bool
is_descendant ancestor id st = is_below max_path_depth ancestor id st.inodes

-- The soft delete of a row.
abbrev pub deleted_row : Mount → Store → Inode → Inode
deleted_row m st i = record i { deleted = true; updated_by = m.user_id; updated_at = st.now }

unfoldable pub mark_deleted : Mount → Inode → InodeEventType → Store → Store
mark_deleted m i event st = record st {
  inodes = update_where (λ (j : Inode). j.id == i.id) (deleted_row m st) st.inodes;
  history =
      st.history
      ++ record {
        inode_id = i.id;
        event = event;
        old_name = some i.name;
        new_name = none;
        old_parent_id = none;
        new_parent_id = none;
        created_at = st.now;
      }
        ∷ [];
}

unfoldable pub require_dir : Mount → Text → Store → Result Inode
require_dir m p st = lookup m p true st >>= λ i. if is_dir_kind i.kind then ok i else err not_dir

-- What a lookup of the new path must say: there is nothing.
unfoldable pub must_be_absent : Result Inode → Result (Unit {0})
must_be_absent (ok i) = err exist
must_be_absent (err e) = if is_not_exist e then ok tt else err e

unfoldable pub add_inode : Inode → Store → Store
add_inode i st = record st { inodes = st.inodes ++ i ∷ []; next_inode = suc st.next_inode }

-- `mode & 0o111 != 0`.
abbrev pub has_exec : ℕ → Bool
has_exec mode = not (mode % 2 == 0 && (mode / 8 % 2 == 0 && mode / 64 % 2 == 0))

unfoldable pub new_inode : Mount → Inode → Text → InodeKind → Bool → Option ℕ → Store → Inode
new_inode m parent name kind executable link st = record {
  id = st.next_inode;
  parent_id = ref_of parent;
  name = name;
  kind = kind;
  share_id = m.share.id;
  version_id = none;
  link_id = link;
  executable = executable;
  created_by = m.user_id;
  updated_by = m.user_id;
  updated_at = st.now;
  deleted = false;
}

-- A new row at a clean path: the checks that Mkdir and Symlink share.
unfoldable pub create_at : Mount → Text → InodeKind → Bool → Option ℕ → Store → Result Store
create_at m clean kind executable link st = if same_text clean (47 ∷ []) then err exist else (do
  parent ← require_dir m (parent_path clean) st
  check_name (base_name clean)
  must_be_absent (lookup m clean false st)
  ok (add_inode (new_inode m parent (base_name clean) kind executable link st) st))

unfoldable pub mkdir : Mount → Text → ℕ → Store → Result Store
mkdir m p mode st = do
  require_write m
  clean ← clean_path p
  create_at m clean InodeKind.dir (has_exec mode) none st

unfoldable pub has_children : ℕ → Store → Bool
has_children id st =
    exists_in (λ (i : Inode). not i.deleted && elim i.parent_id [ none ↦ false | some p ↦ p == id ])
      st.inodes

unfoldable pub remove_inode : Mount → Inode → Store → Result Store
remove_inode m i st =
    if is_dir_kind i.kind && has_children i.id st
    then err not_empty
    else ok (mark_deleted m i InodeEventType.inode_deleted st)

unfoldable pub remove_clean : Mount → Text → Store → Result Store
remove_clean m clean st =
    if same_text clean (47 ∷ [])
    then err is_dir
    else lookup m clean false st >>= λ i. remove_inode m i st

unfoldable pub remove : Mount → Text → Store → Result Store
remove m p st = do require_write m; clean ← clean_path p; remove_clean m clean st

-- What stands at the new path of a rename.
pub data Destination : Type 0 where
  same_entry free : Destination
  overwritten : Inode → Destination

unfoldable pub destination : Inode → Result Inode → Store → Result Destination
destination src (err e) st = if is_not_exist e then ok free else err e
destination src (ok dst) st =
    if dst.id == src.id
    then ok same_entry
    else if is_dir_kind src.kind && not (is_dir_kind dst.kind)
    then err not_dir
    else if not (is_dir_kind src.kind) && is_dir_kind dst.kind
    then err is_dir
    else if is_dir_kind dst.kind && has_children dst.id st
    then err not_empty
    else ok (overwritten dst)

-- A directory does not move into itself or below itself.
unfoldable pub check_not_below : Inode → Inode → Store → Result (Unit {0})
check_not_below src dir st =
    if is_dir_kind src.kind
      && (not (dir.id == 0) && (dir.id == src.id || is_descendant src.id dir.id st))
    then err invalid
    else ok tt

abbrev pub drop_overwritten : Mount → Destination → Store → List Inode → List Inode
drop_overwritten m same_entry st l = l
drop_overwritten m free st l = l
drop_overwritten m (overwritten dst) st l =
    update_where (λ (j : Inode). j.id == dst.id) (deleted_row m st) l

abbrev pub moved_row : Mount → Option ℕ → Text → Store → Inode → Inode
moved_row m parent name st i = record i {
  parent_id = parent;
  name = name;
  updated_by = m.user_id;
  updated_at = st.now;
}

abbrev move_event : Inode → Inode → InodeEventType
move_event src dir =
    if parent_of src == dir.id then InodeEventType.inode_renamed else InodeEventType.inode_moved

unfoldable pub move_inode : Mount → Inode → Inode → Text → Destination → Store → Store
unfolding parent_of
move_inode m src dir name same_entry st = st
move_inode m src dir name target st = record st {
  inodes =
      update_where (λ (j : Inode). j.id == src.id) (moved_row m (ref_of dir) name st)
        (drop_overwritten m target st st.inodes);
  history =
      st.history
      ++ record {
        inode_id = src.id;
        event = move_event src dir;
        old_name = some src.name;
        new_name = some name;
        old_parent_id = src.parent_id;
        new_parent_id = ref_of dir;
        created_at = st.now;
      }
        ∷ [];
}

unfoldable pub rename_clean : Mount → Text → Text → Store → Result Store
rename_clean m old new st =
    if same_text old (47 ∷ []) || same_text new (47 ∷ [])
    then err invalid
    else if same_text old new
    then ok st
    else (do
      src ← lookup m old false st
      dir ← require_dir m (parent_path new) st
      check_name (base_name new)
      check_not_below src dir st
      target ← destination src (lookup m new false st) st
      ok (move_inode m src dir (base_name new) target st))

unfoldable pub rename : Mount → Text → Text → Store → Result Store
rename m old_path new_path st = do
  require_write m
  old ← clean_path old_path
  new ← clean_path new_path
  rename_clean m old new st

unfoldable pub not_root : Inode → Result (Unit {0})
not_root i = if i.id == 0 then err invalid else ok tt

-- The target is a row of the share, never the root.
unfoldable pub symlink : Mount → Text → Text → Store → Result Store
symlink m target link_path st = do
  require_write m
  to ← clean_path target
  tgt ← lookup m to true st
  not_root tgt
  at ← clean_path link_path
  create_at m at InodeKind.link false (some tgt.id) st
