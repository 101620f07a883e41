-- ===== src/Vfs/Root/Routes.antt =====
-- internal/vfs/root.go: the operations on paths of the root, which go to the share that a path names.
use zenofs.Common.{
  ℕ, Bool, ◌||◌, List, [], ◌∷◌, map, Result, ok, err, not_supported, is_dir, invalid, cross_device,
  ◌==◌, if◌then◌else◌, length,
}
use zenofs.Db.{Inode, Share, SharePermission}
use zenofs.Vfs.Path.{Text, same_text, clean_path}
use zenofs.Vfs.Tree.State.{Store, Mount}
use zenofs.Vfs.Tree.Change.{mkdir, remove, rename, symlink}
use zenofs.Vfs.Tree.Info.{FileInfo, FsInfo, stat, read_dir, readlink}
use zenofs.Vfs.Tree.Open.{OpenFlags, open_inode}
use zenofs.Vfs.Tree.Usage.{stat_fs}
use zenofs.Vfs.Root.{
  Access, CachedMount, Root, ShareMount, share_by_name, visible_shares, mount_for, mount_named,
  split_mount, root_info, share_info, below_share, prefix_target, visible_used_bytes,
}

abbrev mount_of : Root → CachedMount → Mount
mount_of r c = record { share = c.share; user_id = r.user_id; perm = c.perm }

-- An operation on the share of that name; the mount stays cached, also when the operation fails.
unfoldable pub on_share : {B : Type 0} → Access → Text → (Mount → Result B) → Root → Result B × Root
on_share a name op r = elim (mount_named a name r) [
  | err e ↦ (err e, r)
  | ok (c, r_) ↦ (op (mount_of r c), r_)
]

abbrev pub is_top : Text × Text → Bool
is_top s = length s.0 == 0 || same_text s.1 (47 ∷ [])

-- Changes go to a path below a share, not to the root or a share itself.
unfoldable pub change_below :
    Access → Text × Text → (Mount → Text → Result Store) → Root → Result Store × Root
change_below a s op r =
    if is_top s then (err not_supported, r) else on_share a s.0 (λ m. op m s.1) r

abbrev pub with_clean :
    {B : Type 0} → Text → (Text → Root → Result B × Root) → Root → Result B × Root
with_clean p op r = elim (clean_path p) [ err e ↦ (err e, r) | ok clean ↦ op clean r ]

unfoldable pub root_mkdir : Access → Text → ℕ → Store → Root → Result Store × Root
root_mkdir a p mode st =
    with_clean p (λ clean. change_below a (split_mount clean) (λ m rest. mkdir m rest mode st))

unfoldable pub root_remove : Access → Text → Store → Root → Result Store × Root
root_remove a p st =
    with_clean p (λ clean. change_below a (split_mount clean) (λ m rest. remove m rest st))

-- Two paths of one share.
unfoldable pub change_both :
    Access
    → Text × Text
    → Text × Text
    → (Mount → Text → Text → Result Store)
    → Root
    → Result Store × Root
change_both a s t op r =
    if is_top s || is_top t
    then (err not_supported, r)
    else if same_text s.0 t.0
    then on_share a s.0 (λ m. op m s.1 t.1) r
    else (err cross_device, r)

unfoldable pub root_rename : Access → Text → Text → Store → Root → Result Store × Root
root_rename a old_path new_path st = with_clean old_path (λ old.
    with_clean new_path
      (λ new. change_both a (split_mount old) (split_mount new) (λ m s t. rename m s t st)))

-- The path of the link is looked at before its target.
unfoldable pub link_both :
    Access → Text → Text × Text → (Mount → Text → Text → Result Store) → Root → Result Store × Root
link_both a target l op r =
    if is_top l
    then (err not_supported, r)
    else with_clean target (λ to. change_both a (split_mount to) l op) r

unfoldable pub root_symlink : Access → Text → Text → Store → Root → Result Store × Root
root_symlink a target link_path st =
    with_clean link_path
      (λ clean. link_both a target (split_mount clean) (λ m t l. symlink m t l st))

abbrev prefixed : Text → Result FileInfo → Result FileInfo
prefixed name (ok fi) = ok (prefix_target name fi)
prefixed name (err e) = err e

unfoldable pub stat_below :
    Text × Text → Bool → Store → Share × SharePermission → Root → Result FileInfo × Root
stat_below s follow st (share, perm) r =
    if same_text s.1 (47 ∷ [])
    then (ok (share_info share perm), r)
    else let c = mount_for share perm r in (prefixed s.0 (stat (mount_of r c.0) s.1 follow st), c.1)

unfoldable pub stat_split : Access → Text × Text → Bool → Store → Root → Result FileInfo × Root
stat_split a s follow st r =
    if length s.0 == 0 then (ok root_info, r) else elim (share_by_name a r.user_id s.0) [
      | err e ↦ (err e, r)
      | ok granted ↦ stat_below s follow st granted r
    ]

unfoldable pub root_stat : Access → Text → Bool → Store → Root → Result FileInfo × Root
root_stat a p follow st = with_clean p (λ clean. stat_split a (split_mount clean) follow st)

abbrev all_prefixed : Text → Result (List FileInfo) → Result (List FileInfo)
all_prefixed name (ok fis) = ok (map (prefix_target name) fis)
all_prefixed name (err e) = err e

unfoldable pub read_split : Access → Text × Text → Store → Root → Result (List FileInfo) × Root
read_split a s st r =
    if length s.0 == 0
    then (
      ok (map (λ (v : ShareMount). share_info v.share v.permission) (visible_shares a r.user_id)),
      r,
    )
    else on_share a s.0 (λ m. all_prefixed s.0 (read_dir m s.1 st)) r

unfoldable pub root_read_dir : Access → Text → Store → Root → Result (List FileInfo) × Root
root_read_dir a p st = with_clean p (λ clean. read_split a (split_mount clean) st)

abbrev below_named : Text → Result Text → Result Text
below_named name (ok target) = ok (below_share name target)
below_named name (err e) = err e

unfoldable pub readlink_split : Access → Text × Text → Store → Root → Result Text × Root
readlink_split a s st r =
    if length s.0 == 0
    then (err invalid, r)
    else on_share a s.0 (λ m. below_named s.0 (readlink m s.1 st)) r

unfoldable pub root_readlink : Access → Text → Store → Root → Result Text × Root
root_readlink a p st = with_clean p (λ clean. readlink_split a (split_mount clean) st)

unfoldable pub open_split :
    Access → Text × Text → Bool → OpenFlags → ℕ → Store → Root → Result (Inode × Store) × Root
open_split a s keyed flags mode st r =
    if is_top s
    then (
      if flags.writing || (flags.create || (flags.truncating || flags.appending))
          then err not_supported
          else err is_dir,
      r,
    )
    else on_share a s.0 (λ m. open_inode m keyed s.1 flags mode st) r

unfoldable pub root_open :
    Access → Text → Bool → OpenFlags → ℕ → Store → Root → Result (Inode × Store) × Root
root_open a p keyed flags mode st =
    with_clean p (λ clean. open_split a (split_mount clean) keyed flags mode st)

unfoldable pub stat_fs_split : Access → Text × Text → Store → Root → Result FsInfo × Root
stat_fs_split a s st r =
    if length s.0 == 0
    then (
      ok (record {
        total_bytes = 0;
        free_bytes = 0;
        used_bytes = visible_used_bytes r.user_id a.grants st.inodes st.versions;
      }),
      r,
    )
    else on_share a s.0 (λ m. ok (stat_fs m st)) r

unfoldable pub root_stat_fs : Access → Text → Store → Root → Result FsInfo × Root
root_stat_fs a p st = with_clean p (λ clean. stat_fs_split a (split_mount clean) st)
