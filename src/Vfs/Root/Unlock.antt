-- ===== src/Vfs/Root/Unlock.antt =====
-- internal/vfs/root.go: proofs about UsePassword on a share of the root.
use zenofs.Common.{
  ℕ, ◌≡◌, refl, sym, ap, subst, ◌∙◌, true, false, Result, ok, inl, inr, arith, ◌==◌, ==→eq, length,
}
use zenofs.Db.{Share, SharePermission}
use zenofs.Vfs.Crypto.{Bytes, Primitives, use_password, verify_password}
use zenofs.Vfs.Path.{Text}
use zenofs.Vfs.Path.Equal.{same_text→eq}
use zenofs.Vfs.Root.{
  Access, CachedMount, Root, share_by_name, same_mount, session_key, put_mount, mount_for,
  mount_named, put_key, keep_key, root_use_password,
}
use zenofs.Vfs.Root.Laws.{
  IsKeyed, mount_for-cases, mount_for-current, mount_named-granted, keep_key-IsKeyed, put_key-here,
}

same_mount-share :
    (c : CachedMount) (s : Share) (p : SharePermission)
    → same_mount c s p ≡ true
    → (c.share.id ≡ s.id)
      × ((c.share.codec.encryption ≡ s.codec.encryption) × (c.share.key_hash ≡ s.key_hash))
unfolding same_mount
same_mount-share c s p h = (
  ==→eq c.share.id s.id (ground (arith, h)),
  (
    ==→eq c.share.codec.encryption s.codec.encryption (ground (arith, h)),
    same_text→eq c.share.key_hash s.key_hash (ground (arith, h)),
  ),
)

use_password-verified :
    (P : Primitives) (c s : Share) (password key old : Bytes)
    → c.codec.encryption ≡ s.codec.encryption
    → c.key_hash ≡ s.key_hash
    → (s.codec.encryption == 0) ≡ false
    → verify_password P s.key_hash password ≡ ok key
    → use_password P c password old ≡ ok key
unfolding use_password
use_password-verified P c s password key old enc hash encrypted h =
    let on : (c.codec.encryption == 0) ≡ false = ap (λ (n : ℕ). n == 0) enc ∙ encrypted in
    rw on (ap (λ (b : Bytes). verify_password P b password) hash ∙ h)

keep_key-here :
    (c : CachedMount) (key : Bytes) (r : Root)
    → length key ≡ 32
    → (session_key c.share.id (keep_key c key r) ≡ key) × ((keep_key c key r).user_id ≡ r.user_id)
unfolding keep_key
keep_key-here c key r long =
    let kept : (length key == 0) ≡ false = ground (arith, long) in
    rw kept (
      put_key-here c.share.id key (put_mount (record c { key = key }) r),
      unfold put_key put_mount in refl,
    )

root_use_password-kept :
    (P : Primitives) (a : Access) (name : Text) (password key : Bytes) (r : Root) (s : Share)
    (p : SharePermission)
    → share_by_name a r.user_id name ≡ ok (s, p)
    → use_password P (mount_for s p r).0.share password (mount_for s p r).0.key ≡ ok key
    → ◌≡◌ {A = Result (Unit {0}) × Root}
        (root_use_password P a name password r)
        (ok tt, keep_key (mount_for s p r).0 key (mount_for s p r).1)
unfolding root_use_password keep_key
root_use_password-kept P a name password key r s p granted h =
    rw (mount_named-granted a name s p r granted, root_use_password) (rw h refl)

mount_for-user_id :
    (s : Share) (p : SharePermission) (r : Root) → (mount_for s p r).1.user_id ≡ r.user_id
mount_for-user_id s p r = elim (mount_for-cases s p r) [
  | inl new ↦ ap (λ (o : CachedMount × Root). o.1.user_id) new ∙ unfold put_mount in refl
  | inr (cur, (there, (same, is))) ↦ ap (λ (o : CachedMount × Root). o.1.user_id) is
]

-- When the password of an encrypted share that the user is granted is right, UsePassword succeeds;
-- the next use of the share works on an instance with the derived key of 32 bytes, and every cached
-- instance still has the key of the session.
pub root_use_password-opens :
    (P : Primitives) (a : Access) (name : Text) (password key : Bytes) (r : Root) (s : Share)
    (p : SharePermission)
    → IsKeyed r
    → share_by_name a r.user_id name ≡ ok (s, p)
    → (s.codec.encryption == 0) ≡ false
    → verify_password P s.key_hash password ≡ ok key
    → length key ≡ 32
    → ((root_use_password P a name password r).0 ≡ ok tt)
      × ((IsKeyed (root_use_password P a name password r).1)
          × ((c : CachedMount) × (later : Root) × ((mount_named a name
                    (root_use_password P a name password r).1
                  ≡ ok (c, later))
                × (c.key ≡ key))))
root_use_password-opens P a name password key r s p before granted encrypted verified long =
    let (current, (has, keyed)) = mount_for-current s p r before in
    let (ids, (enc, hash)) = same_mount-share (mount_for s p r).0 s p current in
    let opens : use_password P (mount_for s p r).0.share password (mount_for s p r).0.key ≡ ok key =
      use_password-verified P (mount_for s p r).0.share s password key (mount_for s p r).0.key enc
        hash encrypted verified in
    let after : Root = keep_key (mount_for s p r).0 key (mount_for s p r).1 in
    let after_keyed : IsKeyed after =
      keep_key-IsKeyed (mount_for s p r).0 key (mount_for s p r).1 keyed
        (λ none_kept. absurd (ground (arith, none_kept, long))) in
    let (here, user) = keep_key-here (mount_for s p r).0 key (mount_for s p r).1 long in
    let (current_, (has_, later_keyed)) = mount_for-current s p after after_keyed in
    subst
      (λ (o : Result (Unit {0}) × Root).
        (o.0 ≡ ok tt)
        × ((IsKeyed o.1)
            × ((c : CachedMount) × (later : Root) × ((mount_named a name o.1 ≡ ok (c, later))
                  × (c.key ≡ key)))))
      (sym (root_use_password-kept P a name password key r s p granted opens))
      (
        refl,
        (
          after_keyed,
          (
            (mount_for s p after).0,
            (mount_for s p after).1,
            (
              mount_named-granted a name s p after (
                  ap (λ (n : ℕ). share_by_name a n name) (user ∙ mount_for-user_id s p r)
                  ∙ granted),
              has_ ∙ ap (λ (n : ℕ). session_key n after) (sym ids) ∙ here,
            ),
          ),
        ),
      )
