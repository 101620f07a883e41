-- ===== src/Vfs/Tree/Open.antt =====
-- internal/vfs/file.go: Open up to the row of the file, and createInode. What follows on the open
-- file is Vfs/Handle/Commit (loadSnapshot, beginWrite) and Vfs/Handle/Truncate.
use zenofs.Common.{
  ℕ, Bool, true, not, ◌&&◌, ◌||◌, none, Result, ok, err, is_not_exist, exist, is_dir, if◌then◌else◌,
  ◌>>=◌, ◌>>◌,
}
use zenofs.Db.{Inode, InodeKind}
use zenofs.Vfs.Crypto.{require_codec}
use zenofs.Vfs.Path.{Text, clean_path, parent_path, base_name}
use zenofs.Vfs.Tree.State.{Store, Mount, require_write, is_dir_kind}
use zenofs.Vfs.Tree.Lookup.{lookup}
use zenofs.Vfs.Tree.Change.{check_name, require_dir, add_inode, new_inode, has_exec}

pub record OpenFlags : Type 0 where
  pub reading : Bool
  pub writing : Bool
  pub create : Bool
  pub exclusive : Bool
  pub truncating : Bool
  pub appending : Bool

-- The new row and the tables with it.
unfoldable pub create_inode : Mount → Text → Text → InodeKind → ℕ → Store → Result (Inode × Store)
create_inode m parent name kind mode st = do
  check_name name
  dir ← require_dir m parent st
  ok (
    new_inode m dir name kind (has_exec mode) none st,
    add_inode (new_inode m dir name kind (has_exec mode) none st) st,
  )

unfoldable pub found_or_new :
    Mount → Text → OpenFlags → ℕ → Result Inode → Store → Result (Inode × Store)
found_or_new m clean flags mode (ok i) st =
    if is_dir_kind i.kind
    then err is_dir
    else if flags.create && flags.exclusive
    then err exist
    else ok (i, st)
found_or_new m clean flags mode (err e) st =
    if not (is_not_exist e)
    then err e
    else if flags.create
    then create_inode m (parent_path clean) (base_name clean) InodeKind.file mode st
    else err e

-- Only an open that writes or cuts asks for write permission; one that creates does not.
unfoldable pub check_open : Mount → OpenFlags → Result (Unit {0})
check_open m flags = if flags.writing || flags.truncating then require_write m else ok tt

-- `keyed` says whether a key for the share is at hand.
unfoldable pub open_inode : Mount → Bool → Text → OpenFlags → ℕ → Store → Result (Inode × Store)
open_inode m keyed p flags mode st = do
  clean ← clean_path p
  check_open m flags
  require_codec m.share.codec keyed
  found_or_new m clean flags mode (lookup m clean true st) st
