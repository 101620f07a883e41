-- ===== src/Vfs/Handle/Truncate.antt =====
-- internal/vfs/file_write.go: truncateTo and trimSlice.
use zenofs.Common.{
  ℕ, ◌+◌, ◌-◌, ◌/◌, ◌%◌, Bool, not, ◌&&◌, Option, none, some, List, ok, err, permission, invalid,
  ltb, leb, ◌==◌, if◌then◌else◌, length, take, delete_where, ℤ, pos, negsuc,
}
use zenofs.Vfs.Handle.State.{Backend, State, Action, set_handle, ◌>>=◌, ◌>>◌}
use zenofs.Vfs.Handle.Slices.{active_at, slice_plain, put_slice}
use zenofs.Vfs.Handle.Write.{int64_limit, check_quota}

-- The active buffer goes if its slice lies past the cut, and keeps its first part if the cut is in it.
unfoldable pub cut_active : ℕ → ℕ → ℕ → Option (ℕ × List ℕ) → Option (ℕ × List ℕ)
cut_active last_kept boundary intra none = none
cut_active last_kept boundary intra (some (i, buf)) =
    if leb last_kept i
    then none
    else if not (intra == 0) && (i == boundary) && ltb intra (length buf)
    then some (i, take intra buf)
    else some (i, buf)

-- `(size + slice - 1) / slice`: where the sum wraps it is negative, and no slice comes before that.
unfoldable pub first_whole : ℕ → ℕ → ℕ
first_whole size slice =
    if ltb (size + slice - 1) int64_limit then (size + slice - 1) / slice else 0

module _ (B : Backend) where
  open B use {Pool}

  -- The stored slice is cut to `size` bytes; one that is no longer than that stays.
  unfoldable pub trim_stored : ℕ → ℕ → List ℕ → Action Pool (Unit {0})
  trim_stored i size buf s =
      if leb (length buf) size then (ok tt, s) else put_slice B i (take size buf) s

  unfoldable pub trim_slice : ℕ → ℕ → Action Pool (Unit {0})
  unfolding ◌>>=◌
  trim_slice i size s = elim (active_at i s.active) [
    | some buf ↦ (
      ok tt,
      set_handle s (record s.handle {
        active = some (i, if ltb size (length buf) then take size buf else buf);
      }),
    )
    | none ↦ (do buf ← slice_plain B i; trim_stored i size buf) s
  ]

  -- What a shrink drops at once: the tail of the active buffer, the slices and their rows.
  unfoldable pub drop_tail : ℕ → State Pool → State Pool
  drop_tail size s = record {
    handle = record s.handle {
      active = cut_active last_kept (size / s.slice_bytes) (size % s.slice_bytes) s.active;
      new_chunks = delete_where (λ vc. leb last_kept vc.idx) s.new_chunks;
    };
    world = record s.world {
      version_chunks =
          delete_where (λ vc. (vc.version_id == s.new_ver.id) && leb last_kept vc.idx)
            s.version_chunks;
    };
  }
    where
      last_kept : ℕ
      last_kept = first_whole size s.slice_bytes

  unfoldable pub shrink : ℕ → Action Pool (Unit {0})
  shrink size s =
      if size % s.slice_bytes == 0
      then (ok tt, drop_tail size s)
      else trim_slice (size / s.slice_bytes) (size % s.slice_bytes) (drop_tail size s)

  unfoldable pub set_size : ℕ → Action Pool (Unit {0})
  set_size size s = (
    ok tt,
    set_handle s
        (record s.handle { new_ver = record s.new_ver { size = size }; dirty = Bool.true }),
  )

  unfoldable pub truncate_to : ℤ → Action Pool (Unit {0})
  unfolding ◌>>=◌
  truncate_to (negsuc n) s = (err (if s.writable then invalid else permission), s)
  truncate_to (pos size) s =
      if not s.writable
      then (err permission, s)
      else if size == s.new_ver.size
      then (ok tt, s)
      else elim (check_quota (size - s.new_ver.size) s) [
        | some e ↦ (err e, s)
        | none ↦
            if ltb size s.new_ver.size then (do shrink size; set_size size) s else set_size size s
      ]
