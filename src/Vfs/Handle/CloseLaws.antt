-- ===== src/Vfs/Handle/CloseLaws.antt =====
-- internal/vfs/file_write.go: the version that Close publishes, as a later open loads it.
use zenofs.Common.{
  ℕ, ◌/◌, ◌%◌, ◌≡◌, ◌≢◌, refl, sym, ◌∙◌, ap, none, some, List, [], ◌∷◌, ok, arith, get_or, find_by,
  select, update_where, inl, inr, Option-cases, Bool-cases, ◌⊎◌, ◌==◌, Option, true, false, Bool,
  find_by_found, ==→eq,
}
use zenofs.Db.{Codec, Inode, Version, VersionChunk}
use zenofs.Vfs.Handle.State.{Backend, State, set_handle, ◌>>=◌}
use zenofs.Vfs.Handle.Slices.{slice_at, is_row, active_at, flush_active}
use zenofs.Vfs.Handle.Reliable.{IsReliable, stored}
use zenofs.Vfs.Handle.View.{IsSound, text_at, byte_at, old_text, new_text, active_text, or_empty}
use zenofs.Vfs.Handle.Stores.{Frame-old_chunks}
use zenofs.Vfs.Handle.Flush.{Flushes}
use zenofs.Vfs.Handle.WriteLaws.{Covers}
use zenofs.Vfs.Handle.OpenLaws.{active_at-idle}
use zenofs.Vfs.Handle.Commit.{load_snapshot, rows_of, commit, publish, close}

slice_at-rows_of :
    (v i : ℕ) (l : List VersionChunk) → slice_at i (rows_of v l) ≡ find_by (is_row v i) l
unfolding slice_at find_by select
slice_at-rows_of v i [] = refl
slice_at-rows_of v i (vc ∷ l) = ground (arith, slice_at-rows_of v i l)

-- An update that keeps what is looked for.
find_by-update_where {ℓ} :
    {A : Type ℓ} (p : A → Bool) (f : A → A) (l : List A) (a : A)
    → ((x : A) → p x ≡ true → p (f x) ≡ true)
    → find_by p l ≡ some a
    → find_by p (update_where p f l) ≡ some (f a)
unfolding find_by update_where
find_by-update_where p f [] a keeps h = absurd (ground arith)
find_by-update_where p f (x ∷ l) a keeps h = elim (Bool-cases (p x)) [
  | inl fits ↦ ground (arith, keeps x fits)
  | inr fails ↦ ground (arith, find_by-update_where p f l a keeps)
]

load_snapshot-found :
    {P : Type 0}
    → (v : ℕ) (s : State P) (r : Version) → find_by (λ (w : Version). w.id == v) s.versions ≡ some r
    → load_snapshot (some v) s
      ≡ set_handle s
          (record s.handle { old_ver = some r; old_chunks = rows_of r.id s.version_chunks })
unfolding load_snapshot
load_snapshot-found v s r h = ground arith

module _ {B : Backend} {slice : ℕ} (L : IsReliable B slice) where
  open B use {Pool}

  -- The handle of a later open of the file, before its snapshot is loaded.
  abbrev pub just_opened : State Pool → State Pool
  just_opened s =
      set_handle s
        (record s.handle { active = none; new_chunks = []; old_ver = none; old_chunks = [] })

  pub published : State Pool → State Pool
  published s = (publish B s).1

  abbrev pub resized : ℕ → Version → Version
  resized size r = record r { size = size }

  abbrev pub reopened : Version → State Pool → State Pool
  reopened r t =
      let u = just_opened t in
      set_handle u
        (record u.handle { old_ver = some r; old_chunks = rows_of r.id t.version_chunks })

  pub reopens :
      (t : State Pool) (r : Version)
      → find_by (λ (v : Version). v.id == t.new_ver.id) t.versions ≡ some r
      → load_snapshot (some t.new_ver.id) (just_opened (published t))
        ≡ reopened (resized t.new_ver.size r) (published t)
  unfolding published publish
  reopens t r h =
      load_snapshot-found t.new_ver.id (just_opened (published t)) (resized t.new_ver.size r) (
        find_by-update_where (λ (v : Version). v.id == t.new_ver.id) (resized t.new_ver.size)
          t.versions r (λ v e. e) h)

  -- Nothing found at open shows through.
  abbrev pub Hidden : State Pool → Type 0
  Hidden t = (j : ℕ) → (slice_at j t.new_chunks ≢ none) ⊎ (slice_at j t.old_chunks ≡ none)

  old_text-none : (p : Pool) (v : Option Version) → old_text L p v none ≡ []
  old_text-none p none = refl
  old_text-none p (some v) = refl

  row_text :
      (t : State Pool) (r : Version) (i : ℕ)
      → Hidden t
      → r.codec ≡ t.new_ver.codec
      → old_text L t.pool (some r) (slice_at i t.new_chunks)
        ≡ new_text L t.pool t.new_ver.codec
            (slice_at i t.new_chunks)
            (old_text L t.pool t.old_ver (slice_at i t.old_chunks))
  row_text t r i hidden same = elim (Option-cases (slice_at i t.new_chunks)) [
    | inr (vc, found) ↦
        rw found (ap (λ (c : Codec). or_empty (stored B L t.pool c vc.chunk_id)) same)
    | inl gone ↦ elim (hidden i) [
      | inl there ↦ absurd (there gone)
      | inr unseen ↦ rw (gone, unseen) (sym (old_text-none t.pool t.old_ver))
    ]
  ]

  idle_text :
      (t : State Pool) (i : ℕ)
      → t.active ≡ none
      → text_at L t i
        ≡ new_text L t.pool t.new_ver.codec
            (slice_at i t.new_chunks)
            (old_text L t.pool t.old_ver (slice_at i t.old_chunks))
  unfolding text_at
  idle_text t i idle =
      ap
        (λ (a : Option (List ℕ)). active_text a (
          new_text L t.pool t.new_ver.codec (slice_at i t.new_chunks)
            (old_text L t.pool t.old_ver (slice_at i t.old_chunks))))
        (active_at-idle i t.active idle)

  reopened_text :
      (t : State Pool) (r : Version) (i : ℕ)
      → text_at L (reopened r (published t)) i
        ≡ old_text L t.pool (some r) (slice_at i (rows_of r.id t.version_chunks))
  unfolding text_at published publish active_at slice_at find_by
  reopened_text t r i = refl

  committed_text :
      (t : State Pool) (r : Version) (i : ℕ)
      → IsSound L t
      → t.active ≡ none
      → Hidden t
      → r.id ≡ t.new_ver.id
      → r.codec ≡ t.new_ver.codec
      → text_at L (reopened r (published t)) i ≡ text_at L t i
  committed_text t r i v idle hidden named same =
      reopened_text t r i
      ∙ ap (old_text L t.pool (some r)) (
          slice_at-rows_of r.id i t.version_chunks
          ∙ ap (λ (w : ℕ). find_by (is_row w i) t.version_chunks) named
          ∙ v.synced i)
      ∙ row_text t r i hidden same
      ∙ sym (idle_text t i idle)

  abbrev pub marked : State Pool → State Pool
  marked s = set_handle s (record s.handle { closed = true })

  pub marked-IsSound : (s : State Pool) → IsSound L s → IsSound L (marked s)
  marked-IsSound s v = record {
    slice_positive = v.slice_positive;
    slice_known = v.slice_known;
    new_holds = v.new_holds;
    old_holds = v.old_holds;
    active_fits = v.active_fits;
    ready = v.ready;
    synced = v.synced;
  }

  pub text_at-marked : (s : State Pool) (i : ℕ) → text_at L (marked s) i ≡ text_at L s i
  unfolding text_at
  text_at-marked s i = refl

  pub close-dirty :
      (s t : State Pool)
      → s.closed ≡ false
      → s.writable ≡ true
      → flush_active B (marked s) ≡ (ok tt, t)
      → t.dirty ≡ true
      → close B s ≡ (ok tt, published t)
  unfolding close commit published publish ◌>>=◌
  close-dirty s t unclosed allowed runs changed = ground arith

  pub flushed-Hidden : (s t : State Pool) → Covers L s → Flushes L (marked s) t → Hidden t
  flushed-Hidden s t covers f j = elim (covers j) [
    | inl held ↦ elim (f.covered j held) [
      | inl kept ↦ inl kept
      | inr unseen ↦ inr (ap (slice_at j) (Frame-old_chunks L (marked s) t f.frame) ∙ unseen)
    ]
    | inr unseen ↦ inr (ap (slice_at j) (Frame-old_chunks L (marked s) t f.frame) ∙ unseen)
  ]

  pub published-current :
      (t : State Pool) (i : Inode)
      → find_by (λ (j : Inode). j.id == t.inode) t.inodes ≡ some i
      → find_by (λ (j : Inode). j.id == t.inode) (published t).inodes
        ≡ some (record i {
          version_id = some t.new_ver.id;
          updated_by = t.user_id;
          updated_at = t.now;
        })
  unfolding published publish
  published-current t i h =
      find_by-update_where (λ (j : Inode). j.id == t.inode) _ t.inodes i (λ j e. e) h

  -- The bytes and the size that a later open of a flushed and published file finds.
  pub reopened_bytes :
      (s t : State Pool) (r : Version)
      → Flushes L (marked s) t
      → Hidden t
      → find_by (λ (v : Version). v.id == t.new_ver.id) t.versions ≡ some r
      → r.codec ≡ t.new_ver.codec
      → (k : ℕ)
      → byte_at L (load_snapshot (some t.new_ver.id) (just_opened (published t))) k ≡ byte_at L s k
  unfolding byte_at
  reopened_bytes s t r f hidden listed same k =
      ap (λ (u : State Pool). get_or (text_at L u (k / slice)) (k % slice) 0) (reopens t r listed)
      ∙ ap (λ (l : List ℕ). get_or l (k % slice) 0)
          (committed_text t (resized t.new_ver.size r) (k / slice) f.sound f.idle hidden
            (==→eq r.id t.new_ver.id (find_by_found _ t.versions r listed)) same)
      ∙ f.bytes (k / slice) (k % slice)
      ∙ ap (λ (l : List ℕ). get_or l (k % slice) 0) (text_at-marked s (k / slice))
