-- ===== src/Vfs/Root/Laws.antt =====
-- internal/vfs/root.go: proofs about cached mounts, session keys and the paths of shares.
use zenofs.Common.{
  ℕ, ◌≡◌, ◌≢◌, refl, sym, ap, ap₂, subst, ◌∙◌, true, not, Option, none, some, List, [], Result, ok,
  some_injective, inl, inr, Bool-cases, Option-cases, ◌⊎◌, arith, ◌==◌, ==→eq, ==→ne, ==_self,
  ==_ne, length, find_by, find_by_found, find_by-select_keep, find_by-select-none, delete_where,
  ◌>>=◌,
}
use zenofs.Db.{Codec, Share, SharePermission}
use zenofs.Vfs.Crypto.{Bytes}
use zenofs.Vfs.Path.{Text}
use zenofs.Vfs.Path.Equal.{same_text_self, same_text→eq}
use zenofs.Vfs.Root.{
  Access, CachedMount, SessionKey, Root, share_by_name, same_permission, same_mount, cached_for,
  key_for, key_or_none, session_key, put_mount, new_mount, mount_for, mount_named, put_key,
  keep_key, clear_key, without_key,
}

-- Every cached mount has the key of the session for its share.
pub record IsKeyed (r : Root) : Type 0 where
  pub keyed :
      (share : ℕ) (c : CachedMount)
      → find_by (cached_for share) r.mounts ≡ some c
      → c.key ≡ session_key share r

same_permission_self : (p : SharePermission) → same_permission p p ≡ true
unfolding same_permission
same_permission_self SharePermission.share_read = refl
same_permission_self SharePermission.share_write = refl
same_permission_self SharePermission.share_admin = refl

new_mount-same :
    (share : Share) (perm : SharePermission) (r : Root)
    → same_mount (new_mount share perm r) share perm ≡ true
unfolding same_mount
new_mount-same share perm r =
    ground
      (arith, same_permission_self perm, same_text_self share.name, same_text_self share.key_hash)

put_mount-IsKeyed :
    (c : CachedMount) (r : Root)
    → IsKeyed r
    → c.key ≡ session_key c.share.id r
    → IsKeyed (put_mount c r)
unfolding put_mount session_key find_by
put_mount-IsKeyed c r before h = record {
  keyed = λ share d there. elim (Bool-cases (c.share.id == share)) [
    | inl here ↦
        let same : c ≡ d = some_injective c d (ground (arith, here, there)) in
        ap (λ (x : CachedMount). x.key) (sym same)
        ∙ h
        ∙ ap (λ (n : ℕ). session_key n r) {x = c.share.id} {y = share} (==→eq c.share.id share here)
    | inr other ↦ before.keyed share d (
        sym (
          find_by-select_keep (cached_for share)
            (λ (x : CachedMount). not (cached_for c.share.id x)) r.mounts
            (λ x fits. ground (arith, fits, other)))
        ∙ ground (arith, other, there))
  ];
}

-- How mount_for answers: with a new instance, or with a cached one that still fits.
pub mount_for-cases :
    (share : Share) (perm : SharePermission) (r : Root)
    → (◌≡◌ {A = CachedMount × Root}
        (mount_for share perm r)
        (new_mount share perm r, put_mount (new_mount share perm r) r))
      ⊎ ((cur : CachedMount) × ((find_by (cached_for share.id) r.mounts ≡ some cur)
            × ((same_mount cur share perm ≡ true)
                × (◌≡◌ {A = CachedMount × Root} (mount_for share perm r) (cur, r)))))
unfolding mount_for
mount_for-cases share perm r = elim (Option-cases (find_by (cached_for share.id) r.mounts)) [
  | inl gone ↦ inl (rw (gone, mount_for) refl)
  | inr (cur, there) ↦ elim (Bool-cases (same_mount cur share perm)) [
    | inl same ↦ inr (cur, (there, (same, rw (there, mount_for) (rw same refl))))
    | inr stale ↦ inl (rw (there, mount_for) (rw stale refl))
  ]
]

abbrev IsCurrent : Share → SharePermission → Root → CachedMount × Root → Type 0
IsCurrent share perm r (c, after) =
    (same_mount c share perm ≡ true) × ((c.key ≡ session_key share.id r) × IsKeyed after)

pub mount_for-current :
    (share : Share) (perm : SharePermission) (r : Root)
    → IsKeyed r
    → (same_mount (mount_for share perm r).0 share perm ≡ true)
      × (((mount_for share perm r).0.key ≡ session_key share.id r)
          × (IsKeyed (mount_for share perm r).1))
mount_for-current share perm r keyed = elim (mount_for-cases share perm r) [
  | inl new ↦
      subst (IsCurrent share perm r) (sym new) (
        new_mount-same share perm r,
        (refl, put_mount-IsKeyed (new_mount share perm r) r keyed refl),
      )
  | inr (cur, (there, (same, is))) ↦
      subst (IsCurrent share perm r) (sym is) (same, (keyed.keyed share.id cur there, keyed))
]

same_permission→eq : (a b : SharePermission) → same_permission a b ≡ true → a ≡ b
unfolding same_permission
same_permission→eq SharePermission.share_read SharePermission.share_read h = refl
same_permission→eq SharePermission.share_write SharePermission.share_write h = refl
same_permission→eq SharePermission.share_admin SharePermission.share_admin h = refl
same_permission→eq SharePermission.share_read SharePermission.share_write h =
    absurd (ground (arith, h))
same_permission→eq SharePermission.share_read SharePermission.share_admin h =
    absurd (ground (arith, h))
same_permission→eq SharePermission.share_write SharePermission.share_read h =
    absurd (ground (arith, h))
same_permission→eq SharePermission.share_write SharePermission.share_admin h =
    absurd (ground (arith, h))
same_permission→eq SharePermission.share_admin SharePermission.share_read h =
    absurd (ground (arith, h))
same_permission→eq SharePermission.share_admin SharePermission.share_write h =
    absurd (ground (arith, h))

-- An instance for the permission and the share as given, in every field that a call depends on.
pub record StandsFor (share : Share) (perm : SharePermission) (c : CachedMount) : Type 0 where
  pub same_perm : c.perm ≡ perm
  pub same_id : c.share.id ≡ share.id
  pub same_name : c.share.name ≡ share.name
  pub same_pool : c.share.pool_id ≡ share.pool_id
  pub same_quota : c.share.quota ≡ share.quota
  pub same_codec : c.share.codec ≡ share.codec
  pub same_key_hash : c.share.key_hash ≡ share.key_hash

Codec_ext : (c d : Codec) → c.compression ≡ d.compression → c.encryption ≡ d.encryption → c ≡ d
Codec_ext c d e f = ap₂ (λ (x y : ℕ). record { compression = x; encryption = y }) e f

same_mount-StandsFor :
    (c : CachedMount) (share : Share) (perm : SharePermission)
    → same_mount c share perm ≡ true
    → StandsFor share perm c
unfolding same_mount
same_mount-StandsFor c share perm h = record {
  same_perm = same_permission→eq c.perm perm (ground (arith, h));
  same_id = ==→eq c.share.id share.id (ground (arith, h));
  same_name = same_text→eq c.share.name share.name (ground (arith, h));
  same_pool = ==→eq c.share.pool_id share.pool_id (ground (arith, h));
  same_quota = ==→eq c.share.quota share.quota (ground (arith, h));
  same_codec =
      Codec_ext c.share.codec share.codec
        (==→eq c.share.codec.compression share.codec.compression (ground (arith, h)))
        (==→eq c.share.codec.encryption share.codec.encryption (ground (arith, h)));
  same_key_hash = same_text→eq c.share.key_hash share.key_hash (ground (arith, h));
}

-- The instance that a call works on, cached or new, has the permission that the user has now, and the
-- name, pool, quota, algorithms and check value that the share has now, so that a revoked permission
-- or a changed share takes effect; it carries the key of the session, and every cached instance does
-- afterwards when every one did before.
pub mount_for-StandsFor :
    (share : Share) (perm : SharePermission) (r : Root)
    → IsKeyed r
    → StandsFor share perm (mount_for share perm r).0
      × (((mount_for share perm r).0.key ≡ session_key share.id r)
          × IsKeyed (mount_for share perm r).1)
mount_for-StandsFor share perm r keyed =
    let (same, rest) = mount_for-current share perm r keyed in
    (same_mount-StandsFor (mount_for share perm r).0 share perm same, rest)

-- A change of the instance and the key of one share only.
rekeyed :
    (r after : Root) (share : ℕ)
    → IsKeyed r
    → ((other : ℕ) → share ≢ other → session_key other after ≡ session_key other r)
    → ((other : ℕ)
        → share ≢ other
        → find_by (cached_for other) after.mounts ≡ find_by (cached_for other) r.mounts)
    → ((c : CachedMount)
        → find_by (cached_for share) after.mounts ≡ some c
        → c.key ≡ session_key share after)
    → IsKeyed after
rekeyed r after share before keys mounts here = record {
  keyed = λ other c there. elim (Bool-cases (share == other)) [
    | inl same ↦
        let e : share ≡ other = ==→eq share other same in
        here c (ap (λ (n : ℕ). find_by (cached_for n) after.mounts) e ∙ there)
        ∙ ap (λ (n : ℕ). session_key n after) e
    | inr apart ↦
        before.keyed other c (sym (mounts other (==→ne share other apart)) ∙ there)
        ∙ sym (keys other (==→ne share other apart))
  ];
}

find_by-other_key :
    (share other : ℕ) (ks : List SessionKey)
    → share ≢ other
    → find_by (key_for other) (delete_where (key_for share) ks) ≡ find_by (key_for other) ks
find_by-other_key share other ks apart =
    find_by-select_keep (key_for other) (λ (k : SessionKey). not (key_for share k)) ks
      (λ k h. ground (arith, h, apart))

put_mount-other :
    (c : CachedMount) (r : Root) (other : ℕ)
    → c.share.id ≢ other
    → find_by (cached_for other) (put_mount c r).mounts ≡ find_by (cached_for other) r.mounts
unfolding put_mount find_by
put_mount-other c r other apart = rw (==_ne c.share.id other apart) (
    find_by-select_keep (cached_for other) (λ (x : CachedMount). not (cached_for c.share.id x))
      r.mounts (λ x h. ground (arith, h, apart)))

put_mount-here :
    (c d : CachedMount) (r : Root)
    → find_by (cached_for c.share.id) (put_mount c r).mounts ≡ some d
    → c ≡ d
unfolding put_mount find_by
put_mount-here c d r h = some_injective c d (ground (arith, ==_self c.share.id, h))

pub put_mount-session_key :
    (c : CachedMount) (r : Root) (share : ℕ)
    → session_key share (put_mount c r) ≡ session_key share r
unfolding put_mount session_key
put_mount-session_key c r share = refl

put_key-other :
    (share other : ℕ) (key : Bytes) (r : Root)
    → share ≢ other
    → session_key other (put_key share key r) ≡ session_key other r
unfolding put_key session_key find_by
put_key-other share other key r apart =
    rw (==_ne share other apart) (ap key_or_none (find_by-other_key share other r.keys apart))

pub put_key-here :
    (share : ℕ) (key : Bytes) (r : Root) → session_key share (put_key share key r) ≡ key
unfolding put_key session_key find_by
put_key-here share key r = rw (==_self share) refl

pub keep_key-IsKeyed :
    (c : CachedMount) (key : Bytes) (r : Root)
    → IsKeyed r
    → (length key ≡ 0 → key ≡ session_key c.share.id r)
    → IsKeyed (keep_key c key r)
unfolding keep_key
keep_key-IsKeyed c key r before h = elim (Bool-cases (length key == 0)) [
  | inl none_kept ↦
      rw none_kept
        (put_mount-IsKeyed (record c { key = key }) r before (h (==→eq (length key) 0 none_kept)))
  | inr kept ↦ rw kept (
      rekeyed r (put_key c.share.id key (put_mount (record c { key = key }) r)) c.share.id before
        (λ other apart.
          put_key-other c.share.id other key (put_mount (record c { key = key }) r) apart
          ∙ put_mount-session_key (record c { key = key }) r other)
        (λ other apart. unfold put_key in put_mount-other (record c { key = key }) r other apart)
        (λ d there.
          ap (λ (x : CachedMount). x.key)
            (sym (put_mount-here (record c { key = key }) d r (unfold put_key in there)))
          ∙ sym (put_key-here c.share.id key (put_mount (record c { key = key }) r))))
]

-- What ClearKey does once the share is known.
abbrev cleared : ℕ → Root → Root
cleared share r = record r { keys = delete_where (key_for share) r.keys }

cleared-other :
    (share other : ℕ) (r : Root)
    → share ≢ other
    → session_key other (cleared share r) ≡ session_key other r
unfolding session_key
cleared-other share other r apart = ap key_or_none (find_by-other_key share other r.keys apart)

cleared-here : (share : ℕ) (r : Root) → session_key share (cleared share r) ≡ []
unfolding session_key
cleared-here share r = ap key_or_none (
    find_by-select-none (key_for share) (λ (k : SessionKey). not (key_for share k)) r.keys
      (λ k h. ground (arith, h)))

cleared-mounts : (share : ℕ) (r : Root) → (cleared share r).mounts ≡ r.mounts
cleared-mounts share r = refl

put_cleared-IsKeyed :
    (share : ℕ) (c : CachedMount) (r : Root)
    → IsKeyed r
    → c.share.id ≡ share
    → IsKeyed (put_mount (record c { key = [] }) (cleared share r))
put_cleared-IsKeyed share c r before e =
    rekeyed r (put_mount (record c { key = [] }) (cleared share r)) share before
      (λ other apart.
        put_mount-session_key (record c { key = [] }) (cleared share r) other
        ∙ cleared-other share other r apart)
      (λ other apart.
        put_mount-other (record c { key = [] }) (cleared share r) other
          (λ same. apart (sym e ∙ same))
        ∙ ap (find_by (cached_for other)) (cleared-mounts share r))
      (λ d there.
        ap (λ (x : CachedMount). x.key)
          (sym (
            put_mount-here (record c { key = [] }) d (cleared share r)
              (ap
                  (λ (n : ℕ).
                    find_by (cached_for n)
                      (put_mount (record c { key = [] }) (cleared share r)).mounts)
                  e
                ∙ there)))
        ∙ sym (
            put_mount-session_key (record c { key = [] }) (cleared share r) share
            ∙ cleared-here share r))

without_key-IsKeyed :
    (share : ℕ) (r : Root)
    → IsKeyed r
    → IsKeyed (without_key (find_by (cached_for share) r.mounts) (cleared share r))
without_key-IsKeyed share r before = elim (Option-cases (find_by (cached_for share) r.mounts)) [
  | inl gone ↦ rw gone (
      rekeyed r (cleared share r) share before (λ other apart. cleared-other share other r apart)
        (λ other apart. ap (find_by (cached_for other)) (cleared-mounts share r))
        (λ c there.
          absurd (
            ground (arith, gone, there, ap (find_by (cached_for share)) (cleared-mounts share r)))))
  | inr (c, there) ↦ rw there (
      put_cleared-IsKeyed share c r before
        (==→eq c.share.id share (find_by_found (cached_for share) r.mounts c there)))
]

without_key-session_key :
    (o : Option CachedMount) (r : Root) (share : ℕ)
    → session_key share (without_key o r) ≡ session_key share r
without_key-session_key none r share = refl
without_key-session_key (some c) r share = put_mount-session_key (record c { key = [] }) r share

without_key-user_id : (o : Option CachedMount) (r : Root) → (without_key o r).user_id ≡ r.user_id
unfolding put_mount
without_key-user_id none r = refl
without_key-user_id (some c) r = refl

clear_key-ok :
    (a : Access) (name : Text) (r : Root) (s : Share) (p : SharePermission)
    → share_by_name a r.user_id name ≡ ok (s, p)
    → ◌≡◌ {A = Result (Unit {0}) × Root}
        (clear_key a name r)
        (ok tt, without_key (find_by (cached_for s.id) r.mounts) (cleared s.id r))
unfolding clear_key
clear_key-ok a name r s p h = rw (h, clear_key) refl

pub mount_named-granted :
    (a : Access) (name : Text) (s : Share) (p : SharePermission) (r : Root)
    → share_by_name a r.user_id name ≡ ok (s, p)
    → mount_named a name r ≡ ok ((mount_for s p r).0, (mount_for s p r).1)
unfolding mount_named
mount_named-granted a name s p r h =
    ap
      (λ (g : Result (Share × SharePermission)).
        g >>= λ (x : Share × SharePermission). ok (mount_for x.0 x.1 r))
      h

-- After ClearKey of a share that the user is granted, the share's key is gone from the session: the
-- instance that its next use works on has none, and every cached instance still has the key of the
-- session, as before the call.
pub clear_key-forgets :
    (a : Access) (name : Text) (r : Root) (s : Share) (p : SharePermission)
    → IsKeyed r
    → share_by_name a r.user_id name ≡ ok (s, p)
    → ((clear_key a name r).0 ≡ ok tt)
      × ((IsKeyed (clear_key a name r).1)
          × ((c : CachedMount) × (later : Root) × ((mount_named a name (clear_key a name r).1
                  ≡ ok (c, later))
                × (c.key ≡ []))))
clear_key-forgets a name r s p before granted =
    let after : Root = without_key (find_by (cached_for s.id) r.mounts) (cleared s.id r) in
    let keyed : IsKeyed after = without_key-IsKeyed s.id r before in
    let (current, (has, later_keyed)) = mount_for-current s p after keyed in
    subst
      (λ (o : Result (Unit {0}) × Root).
        (o.0 ≡ ok tt)
        × ((IsKeyed o.1)
            × ((c : CachedMount) × (later : Root) × ((mount_named a name o.1 ≡ ok (c, later))
                  × (c.key ≡ [])))))
      (sym (clear_key-ok a name r s p granted))
      (
        refl,
        (
          keyed,
          (
            (mount_for s p after).0,
            (mount_for s p after).1,
            (
              mount_named-granted a name s p after (
                  ap (λ (n : ℕ). share_by_name a n name)
                    (without_key-user_id (find_by (cached_for s.id) r.mounts) (cleared s.id r))
                  ∙ granted),
              has
                  ∙ without_key-session_key (find_by (cached_for s.id) r.mounts) (cleared s.id r)
                      s.id
                  ∙ cleared-here s.id r,
            ),
          ),
        ),
      )
