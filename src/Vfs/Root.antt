-- ===== src/Vfs/Root.antt =====
-- internal/vfs/root.go: the shares of one user under one root. `Root` is the state of a RootFS; the
-- tables of shares and grants are read afresh by every call.
use zenofs.Common.{
  ℕ, zero, suc, ◌+◌, ◌-◌, ◌*◌, ◌%◌, ◌^◌, Bool, true, false, not, ◌&&◌, ◌||◌, Option, none, some,
  List, [], ◌∷◌, ◌++◌, map, Result, ok, err, Error, not_exist, not_supported, is_dir, invalid,
  cross_device, ◌==◌, leb, if◌then◌else◌, length, select, delete_where, find_by, count, ◌>>=◌, ◌>>◌,
  ℤ, pos, negsuc,
}
use zenofs.Db.{Inode, Version, Share, ShareUser, SharePermission}
use zenofs.Pool.Release.{member}
use zenofs.Vfs.Crypto.{Bytes, Primitives, use_password}
use zenofs.Vfs.Handle.Read.{size_of}
use zenofs.Vfs.Path.{Text, same_text, clean_path, path_segments, rooted}
use zenofs.Vfs.Tree.State.{Store, Mount, can_write}
use zenofs.Vfs.Tree.Change.{check_name}
use zenofs.Vfs.Tree.Info.{FileMode, FileInfo, Kind, kind_dir, exec_bits}
pub mod Routes
pub mod Laws
pub mod Unlock
pub mod RouteLaws
mod Examples

pub record Access : Type 0 where
  pub shares : List Share
  pub grants : List ShareUser

-- A cached ShareFS and its key, [] for none.
pub record CachedMount : Type 0 where
  pub share : Share
  pub perm : SharePermission
  pub key : Bytes

pub record SessionKey : Type 0 where
  pub share_id : ℕ
  pub key : Bytes

pub record Root : Type 0 where
  pub user_id : ℕ
  pub mounts : List CachedMount
  pub keys : List SessionKey

unfoldable pub accepts : Result (Unit {0}) → Bool
accepts (ok u) = true
accepts (err e) = false

abbrev pub is_grant : ℕ → ℕ → ShareUser → Bool
is_grant share user g = g.share_id == share && g.user_id == user

unfoldable pub share_by_name : Access → ℕ → Text → Result (Share × SharePermission)
share_by_name a user name =
    if not (accepts (check_name name))
    then err not_exist
    else elim (find_by (λ (s : Share). same_text s.name name) a.shares) [
      | none ↦ err not_exist
      | some s ↦ elim (find_by (is_grant s.id user) a.grants) [
        | none ↦ err not_exist
        | some g ↦ ok (s, g.permission)
      ]
    ]

-- ORDER BY name, as bytes.
abbrev comes_first : Text → Text → Bool
comes_first [] t = true
comes_first (c ∷ cs) [] = false
comes_first (c ∷ cs) (d ∷ ds) = if c == d then comes_first cs ds else leb c d

unfoldable pub insert_by_name : Share → List Share → List Share
insert_by_name s [] = s ∷ []
insert_by_name s (t ∷ ts) =
    let rest = insert_by_name s ts in if comes_first s.name t.name then s ∷ t ∷ ts else t ∷ rest

unfoldable pub by_name : List Share → List Share
by_name [] = []
by_name (s ∷ ss) = insert_by_name s (by_name ss)

-- The map from share to permission, a later grant in place of an earlier one.
unfoldable pub perm_of : List ShareUser → ℕ → Option SharePermission
perm_of [] share = none
perm_of (g ∷ gs) share =
    let later = perm_of gs share in
    elim later [ some p ↦ some p | none ↦ if g.share_id == share then some g.permission else none ]

pub record ShareMount : Type 0 where
  pub share : Share
  pub permission : SharePermission

abbrev or_zero_permission : Option SharePermission → SharePermission
or_zero_permission none = SharePermission.share_read
or_zero_permission (some p) = p

abbrev granted_to : ℕ → List ShareUser → List ShareUser
granted_to user = select (λ (g : ShareUser). g.user_id == user)

unfoldable pub visible_shares : Access → ℕ → List ShareMount
visible_shares a user =
    map
      (λ (s : Share). record {
        share = s;
        permission = or_zero_permission (perm_of (granted_to user a.grants) s.id);
      })
      (select (λ (s : Share). accepts (check_name s.name))
        (by_name (
          select
            (λ (s : Share).
              member s.id (map (λ (g : ShareUser). g.share_id) (granted_to user a.grants)))
            a.shares)))

unfoldable pub same_permission : SharePermission → SharePermission → Bool
same_permission SharePermission.share_read SharePermission.share_read = true
same_permission SharePermission.share_write SharePermission.share_write = true
same_permission SharePermission.share_admin SharePermission.share_admin = true
same_permission _ _ = false

unfoldable pub same_mount : CachedMount → Share → SharePermission → Bool
same_mount cur share perm =
    same_permission cur.perm perm
    && (cur.share.id == share.id
        && (same_text cur.share.name share.name
            && (cur.share.pool_id == share.pool_id
                && (cur.share.quota == share.quota
                    && (cur.share.codec.compression == share.codec.compression
                        && (cur.share.codec.encryption == share.codec.encryption
                            && same_text cur.share.key_hash share.key_hash))))))

abbrev pub cached_for : ℕ → CachedMount → Bool
cached_for share c = c.share.id == share

abbrev pub key_for : ℕ → SessionKey → Bool
key_for share k = k.share_id == share

abbrev pub key_or_none : Option SessionKey → Bytes
key_or_none none = []
key_or_none (some k) = k.key

-- The key of the session for a share.
unfoldable pub session_key : ℕ → Root → Bytes
session_key share r = key_or_none (find_by (key_for share) r.keys)

unfoldable pub put_mount : CachedMount → Root → Root
put_mount c r = record r { mounts = c ∷ delete_where (cached_for c.share.id) r.mounts }

abbrev pub new_mount : Share → SharePermission → Root → CachedMount
new_mount share perm r = record { share = share; perm = perm; key = session_key share.id r }

unfoldable pub mount_for : Share → SharePermission → Root → CachedMount × Root
mount_for share perm r = elim (find_by (cached_for share.id) r.mounts) [
  | none ↦ (new_mount share perm r, put_mount (new_mount share perm r) r)
  | some cur ↦ elim (same_mount cur share perm) [
    | true ↦ (cur, r)
    | false ↦ (new_mount share perm r, put_mount (new_mount share perm r) r)
  ]
]

unfoldable pub mount_named : Access → Text → Root → Result (CachedMount × Root)
mount_named a name r =
    share_by_name a r.user_id name >>= λ (s : Share × SharePermission). ok (mount_for s.0 s.1 r)

unfoldable pub put_key : ℕ → Bytes → Root → Root
put_key share key r = record r {
  keys = record { share_id = share; key = key } ∷ delete_where (key_for share) r.keys;
}

-- The mount takes the key; a share without encryption gets none.
unfoldable pub keep_key : CachedMount → Bytes → Root → Root
keep_key c key r =
    if length key == 0
    then put_mount (record c { key = key }) r
    else put_key c.share.id key (put_mount (record c { key = key }) r)

unfoldable pub root_use_password :
    Primitives → Access → Text → Bytes → Root → Result (Unit {0}) × Root
root_use_password P a name password r = elim (mount_named a name r) [
  | err e ↦ (err e, r)
  | ok (c, r_) ↦ elim (use_password P c.share password c.key) [
    | err e ↦ (err e, r_)
    | ok key ↦ (ok tt, keep_key c key r_)
  ]
]

abbrev without_key : Option CachedMount → Root → Root
without_key none r = r
without_key (some c) r = put_mount (record c { key = [] }) r

unfoldable pub clear_key : Access → Text → Root → Result (Unit {0}) × Root
clear_key a name r = elim (share_by_name a r.user_id name) [
  | err e ↦ (err e, r)
  | ok (s, p) ↦ (
    ok tt,
    without_key (find_by (cached_for s.id) r.mounts)
        (record r { keys = delete_where (key_for s.id) r.keys }),
  )
]

-- The first part of a clean path, "" for the root, and what follows it.
unfoldable pub split_segments : List Text → Text × Text
split_segments [] = ([], 47 ∷ [])
split_segments (name ∷ segs) = (name, rooted segs)

unfoldable pub split_mount : Text → Text × Text
split_mount clean = split_segments (path_segments clean)

abbrev pub root_info : FileInfo
root_info = record {
  id = pos 0;
  name = 47 ∷ [];
  path = 47 ∷ [];
  kind = kind_dir;
  size = 0;
  mode = record { dir_bit = true; symlink_bit = false; perm = 292 + exec_bits };
  uid = 0;
  gid = 0;
  atime = 0;
  mtime = 0;
  ctime = 0;
  target = [];
}

abbrev negated : ℕ → ℤ
negated zero = pos 0
negated (suc n) = negsuc n

unfoldable pub share_info : Share → SharePermission → FileInfo
share_info s perm = record {
  id = negated s.id;
  name = s.name;
  path = 47 ∷ s.name;
  kind = kind_dir;
  size = 0;
  mode = record {
    dir_bit = true;
    symlink_bit = false;
    perm = (if can_write perm then 292 + 146 else 292) + exec_bits;
  };
  uid = s.created_by % 2 ^ 32;
  gid = s.id % 2 ^ 32;
  atime = s.created_at;
  mtime = s.created_at;
  ctime = s.created_at;
  target = [];
}

unfoldable pub without_slash : Text → Text
without_slash [] = []
without_slash (c ∷ cs) = if c == 47 then cs else c ∷ cs

unfoldable pub below_share : Text → Text → Text
below_share name target = 47 ∷ (name ++ (47 ∷ without_slash target))

unfoldable pub prefix_target : Text → FileInfo → FileInfo
prefix_target name fi =
    if length fi.target == 0 then fi else record fi { target = below_share name fi.target }

-- The join over the grants of the user: a row for each of them.
unfoldable pub visible_used_bytes : ℕ → List ShareUser → List Inode → List Version → ℕ
visible_used_bytes user grants [] versions = 0
visible_used_bytes user grants (i ∷ is) versions =
    count (is_grant i.share_id user) grants * (elim i.version_id [
      | none ↦ 0
      | some v ↦ size_of (find_by (λ (r : Version). r.id == v) versions)
    ])
    + visible_used_bytes user grants is versions
