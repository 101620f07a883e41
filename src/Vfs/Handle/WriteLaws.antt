-- ===== src/Vfs/Handle/WriteLaws.antt =====
-- internal/vfs/file_write.go: proofs about the loop of WriteAt and WriteAt as a whole.
use zenofs.Common.{
  ℕ, ◌+◌, ◌-◌, ◌%◌, ◌<◌, ◌≡◌, ◌≢◌, none, List, get_or, length, max, find_by, ◌⊎◌, if◌then◌else◌,
  min, Option, Error,
}
use zenofs.Vfs.Handle.State.{Backend, Handle, State}
use zenofs.Vfs.Handle.Slices.{slice_at, is_row, active_at}
use zenofs.Vfs.Handle.Reliable.{IsReliable, Extends}
use zenofs.Vfs.Handle.View.{IsSound, byte_at}
use zenofs.Vfs.Handle.Stores.{Frame}
use zenofs.Vfs.Handle.Flush.{IsSolid}
use zenofs.Vfs.Handle.Offsets.{inside}

module _ {B : Backend} {slice : ℕ} (L : IsReliable B slice) where
  open B use {Pool}

  -- Bytes that no flush takes for a hole over a slice found at open: none of them is zero, or the
  -- file had no slices when it was opened.
  abbrev pub Lasting : List ℕ → State Pool → Type 0
  Lasting p s =
      ((k : ℕ) → k < length p → get_or p k 0 ≢ 0) ⊎ ((i : ℕ) → slice_at i s.old_chunks ≡ none)

  -- Every slice found at open is hidden by a buffer or by a slice of this handle.
  abbrev pub Covers : State Pool → Type 0
  Covers s =
      (j : ℕ)
      → ((active_at j s.active ≢ none) ⊎ (slice_at j s.new_chunks ≢ none))
        ⊎ (slice_at j s.old_chunks ≡ none)

  -- `t` reads as `s` with the bytes of `p` at `off`.
  pub record Writes (p : List ℕ) (off : ℕ) (s t : State Pool) : Type 0 where
    pub frame : Frame L s t
    pub sound : IsSound L t
    pub solid : IsSolid L t
    pub bytes :
        (k : ℕ)
        → byte_at L t k ≡ (if inside off (length p) k then get_or p (k - off) 0 else byte_at L s k)
    pub covers : Covers s → Covers t

  abbrev paired : ℕ → State Pool → (ℕ × Option Error) × State Pool
  paired j u = ((j, none), u)

  -- What one round takes: the rest of the bytes, or what is left of the slice.
  abbrev piece : ℕ → ℕ → List ℕ → ℕ
  piece bytes off p = min (length p) (bytes - off % bytes)

  -- `t` is the file after a write of `p` at `off`: the bytes, the size, and what stays.
  pub record Wrote (p : List ℕ) (off : ℕ) (s t : State Pool) : Type 0 where
    pub sound : IsSound L t
    pub solid : IsSolid L t
    pub bytes :
        (k : ℕ)
        → byte_at L t k ≡ (if inside off (length p) k then get_or p (k - off) 0 else byte_at L s k)
    pub size : t.new_ver.size ≡ max s.new_ver.size (off + length p)
    pub covers : Covers s → Covers t
    pub stays :
        (t.writable ≡ s.writable)
        × (t.readable ≡ s.readable)
        × (t.old_chunks ≡ s.old_chunks)
        × (t.share ≡ s.share)
    pub other_rows :
        (w j : ℕ)
        → w ≢ s.new_ver.id
        → find_by (is_row w j) t.version_chunks ≡ find_by (is_row w j) s.version_chunks
    pub extends : Extends B L s.pool t.pool
