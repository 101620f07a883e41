-- ===== src/Vfs/Root/Examples.antt =====
-- A user with two shares, one of them encrypted, and an empty session.
use zenofs.Common.{
  ◌≡◌, refl, some_injective, some, [], ◌∷◌, ◌++◌, Result, ok, err, cross_device, arith, find_by,
  replicate,
}
use zenofs.Db.{Share, SharePermission}
use zenofs.Vfs.Crypto.{Primitives, verify_password, hash_equal}
use zenofs.Vfs.Path.{rooted}
use zenofs.Vfs.Tree.State.{Store}
use zenofs.Vfs.Tree.Change.{check_name}
use zenofs.Vfs.Root.{
  Access, CachedMount, Root, accepts, share_by_name, session_key, mount_for, mount_named,
  root_use_password, clear_key,
}
use zenofs.Vfs.Root.Laws.{IsKeyed, StandsFor, mount_for-StandsFor, clear_key-forgets}
use zenofs.Vfs.Root.Unlock.{root_use_password-opens}
use zenofs.Vfs.Root.RouteLaws.{root_rename-routes}
use zenofs.Vfs.Root.Routes.{root_rename}

abbrev toy : Primitives
toy = record {
  zstd_encode = λ b. some b;
  zstd_decode = λ b. some b;
  gcm_seal = λ key nonce b. b;
  gcm_open = λ key nonce s. some s;
  pbkdf2_key = λ password salt. replicate 32 0;
  blake3 = λ b. replicate 32 1;
}

abbrev locked_share : Share
locked_share = record {
  id = 1;
  name = 115 ∷ [];
  pool_id = 1;
  quota = 0;
  codec = record { compression = 1; encryption = 1 };
  key_hash = replicate 16 5 ++ replicate 32 1;
  created_by = 2;
  created_at = 0;
}

abbrev plain_share : Share
plain_share = record locked_share {
  id = 2;
  name = 116 ∷ [];
  codec = record { compression = 0; encryption = 0 };
  key_hash = [];
}

abbrev access : Access
access = record {
  shares = locked_share ∷ plain_share ∷ [];
  grants =
      record { share_id = 1; user_id = 2; permission = SharePermission.share_write }
      ∷ record { share_id = 2; user_id = 2; permission = SharePermission.share_read }
      ∷ [];
}

abbrev old_mount : CachedMount
old_mount = record { share = locked_share; perm = SharePermission.share_read; key = 7 ∷ [] }

-- The user was allowed to read only when the instance was made.
abbrev session : Root
session = record {
  user_id = 2;
  mounts = old_mount ∷ [];
  keys = record { share_id = 1; key = 7 ∷ [] } ∷ [];
}

session-IsKeyed : IsKeyed session
unfolding session_key find_by
session-IsKeyed = record { keyed = λ share c h. ground (arith, h, some_injective old_mount c) }

granted : share_by_name access 2 (115 ∷ []) ≡ ok (locked_share, SharePermission.share_write)
unfolding share_by_name find_by check_name accepts
granted = refl

mount_for-StandsFor_example :
    StandsFor locked_share SharePermission.share_write
      (mount_for locked_share SharePermission.share_write session).0
    × (((mount_for locked_share SharePermission.share_write session).0.key ≡ session_key 1 session)
        × IsKeyed (mount_for locked_share SharePermission.share_write session).1)
mount_for-StandsFor_example =
    mount_for-StandsFor locked_share SharePermission.share_write session session-IsKeyed

clear_key-forgets_example :
    ((clear_key access (115 ∷ []) session).0 ≡ ok tt)
    × ((IsKeyed (clear_key access (115 ∷ []) session).1)
        × ((c : CachedMount) × (later : Root) × ((mount_named access
                  (115 ∷ [])
                  (clear_key access (115 ∷ []) session).1
                ≡ ok (c, later))
              × (c.key ≡ []))))
clear_key-forgets_example =
    clear_key-forgets access (115 ∷ []) session locked_share SharePermission.share_write
      session-IsKeyed granted

verified : verify_password toy locked_share.key_hash [] ≡ ok (replicate 32 0)
unfolding verify_password hash_equal
verified = refl

root_use_password-opens_example :
    ((root_use_password toy access (115 ∷ []) [] session).0 ≡ ok tt)
    × ((IsKeyed (root_use_password toy access (115 ∷ []) [] session).1)
        × ((c : CachedMount) × (later : Root) × ((mount_named access
                  (115 ∷ [])
                  (root_use_password toy access (115 ∷ []) [] session).1
                ≡ ok (c, later))
              × (c.key ≡ replicate 32 0))))
root_use_password-opens_example =
    root_use_password-opens toy access (115 ∷ []) [] (replicate 32 0) session locked_share
      SharePermission.share_write session-IsKeyed granted refl verified refl

abbrev no_files : Store
no_files = record { inodes = []; versions = []; history = []; next_inode = 1; now = 5 }

root_rename-routes_example :
    ◌≡◌ {A = Result Store × Root}
      (root_rename access
        (rooted ((115 ∷ []) ∷ (97 ∷ []) ∷ []))
        (rooted ((116 ∷ []) ∷ (97 ∷ []) ∷ []))
        no_files
        session)
      (err cross_device, session)
root_rename-routes_example =
    root_rename-routes access (115 ∷ []) ((97 ∷ []) ∷ []) (116 ∷ []) ((97 ∷ []) ∷ []) no_files
      session refl refl
