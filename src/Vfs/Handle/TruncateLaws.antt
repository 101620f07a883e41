-- ===== src/Vfs/Handle/TruncateLaws.antt =====
-- internal/vfs/file_write.go: truncateTo of a file that had no slices when it was opened.
use zenofs.Common.{
  ℕ, ◌-◌, ◌≤◌, ◌<◌, ◌≡◌, ◌≢◌, refl, none, ok, arith, find_by, if◌then◌else◌, true, ltb, pos, Bool,
}
use zenofs.Vfs.Handle.State.{Backend, Handle, State, set_handle}
use zenofs.Vfs.Handle.Slices.{is_row}
use zenofs.Vfs.Handle.Reliable.{IsReliable, Extends}
use zenofs.Vfs.Handle.View.{IsSound, text_at, byte_at}
use zenofs.Vfs.Handle.Write.{check_quota}
use zenofs.Vfs.Handle.Truncate.{set_size, truncate_to}

module _ {B : Backend} {slice : ℕ} (L : IsReliable B slice) where
  open B use {Pool}

  -- Nothing is stored past the size.
  abbrev pub ZeroTail : State Pool → Type 0
  ZeroTail s = (k : ℕ) → s.new_ver.size ≤ k → byte_at L s k ≡ 0

  -- `t` is the file `s` cut or extended to `size`.
  pub record Resized (size : ℕ) (s t : State Pool) : Type 0 where
    pub sound : IsSound L t
    pub bytes : (k : ℕ) → byte_at L t k ≡ (if ltb k size then byte_at L s k else 0)
    pub resized : t.new_ver.size ≡ size
    pub stays :
        (t.writable ≡ s.writable)
        × (t.readable ≡ s.readable)
        × (t.old_chunks ≡ s.old_chunks)
        × (t.share ≡ s.share)
    pub other_rows :
        (w j : ℕ)
        → w ≢ s.new_ver.id
        → find_by (is_row w j) t.version_chunks ≡ find_by (is_row w j) s.version_chunks
    pub extends : Extends B L s.pool t.pool

  abbrev pub sized : ℕ → State Pool → State Pool
  sized size s =
      set_handle s
        (record s.handle { new_ver = record s.new_ver { size = size }; dirty = Bool.true })

  pub sized-IsSound : (size : ℕ) (s : State Pool) → IsSound L s → IsSound L (sized size s)
  sized-IsSound size s v = record {
    slice_positive = v.slice_positive;
    slice_known = v.slice_known;
    new_holds = v.new_holds;
    old_holds = v.old_holds;
    active_fits = v.active_fits;
    ready = v.ready;
    synced = v.synced;
  }

  pub byte_at-sized : (size k : ℕ) (s : State Pool) → byte_at L (sized size s) k ≡ byte_at L s k
  unfolding byte_at text_at
  byte_at-sized size k s = refl

  pub truncate_to-grow :
      (size : ℕ) (s : State Pool)
      → s.writable ≡ true
      → s.new_ver.size < size
      → check_quota (size - s.new_ver.size) s ≡ none
      → truncate_to B (pos size) s ≡ (ok tt, sized size s)
  unfolding truncate_to set_size
  truncate_to-grow size s allowed more room = ground arith
