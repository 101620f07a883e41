-- ===== src/Vfs/Handle/Write.antt =====
-- internal/vfs/file_write.go: the quota, WriteAt and Write.
use zenofs.Common.{
  ℕ, zero, suc, ◌+◌, ◌-◌, ◌*◌, ◌/◌, ◌%◌, ◌^◌, min, Bool, not, ◌||◌, ◌&&◌, Option, none, some, List,
  [], ◌∷◌, ok, err, Error, permission, invalid, no_space, ltb, ◌==◌, if◌then◌else◌, length, take,
  drop, find_by, ℤ, pos, negsuc,
}
use zenofs.Db.{Inode, Version}
use zenofs.Vfs.Handle.State.{Backend, State, set_handle}
use zenofs.Vfs.Handle.Slices.{write_into_slice}
use zenofs.Vfs.Handle.Read.{size_of, file_size}

-- The join of `usedBytes` (internal/vfs/fs.go): the sizes of the share's current versions.
unfoldable pub used_bytes : ℕ → List Inode → List Version → ℕ
used_bytes share [] versions = 0
used_bytes share (i ∷ rest) versions =
    (if i.share_id == share
      then elim i.version_id [
        | none ↦ 0
        | some v ↦ size_of (find_by (λ (r : Version). r.id == v) versions)
      ]
      else 0)
    + used_bytes share rest versions

-- An int64 that is not negative lies below this; a sum that reaches it is negative in the code.
abbrev pub int64_limit : ℕ
int64_limit = 2 ^ 63

-- The order of int64 on the bits of two numbers: the sign bit is flipped.
abbrev pub int64_bits : ℕ → ℕ
int64_bits n = (n + 2 ^ 63) % 2 ^ 64

-- `off + len(p) - size` as the code computes it, 0 where that is negative.
unfoldable pub growth : ℕ → ℕ → ℕ
growth end size = let g = (end + (2 ^ 64 - size)) % 2 ^ 64 in if ltb g int64_limit then g else 0

-- `grow` is the growth in bytes, 0 for none or a shrink; the quota is in megabytes, 0 for none. Both
-- sides of the comparison are int64 and wrap.
unfoldable pub check_quota : {P : Type 0} → ℕ → State P → Option Error
check_quota grow s =
    if s.share.quota == 0 || grow == 0
    then none
    else if ltb (int64_bits (s.share.quota * 1048576))
        (int64_bits (used_bytes s.share.id s.inodes s.versions + grow))
    then some no_space
    else none

module _ (B : Backend) where
  open B use {Pool}

  -- The loop of WriteAt: a slice a round, so `fuel = length p` rounds are enough. A round at an offset
  -- that has wrapped indexes a buffer below 0 and panics in the code; offsets here stay below 2^63.
  unfoldable pub write_loop : ℕ → List ℕ → ℕ → ℕ → State Pool → (ℕ × Option Error) × State Pool
  write_loop zero p off written s = ((written, none), s)
  write_loop (suc fuel) p off written s = elim (length p == 0) [
    | Bool.true ↦ ((written, none), s)
    | Bool.false ↦
        let n = min (length p) (s.slice_bytes - off % s.slice_bytes) in
        let r = write_into_slice B (off / s.slice_bytes) (off % s.slice_bytes) (take n p) s in
        elim r.0 [
          | err e ↦ ((written, some e), r.1)
          | ok _ ↦ write_loop fuel (drop n p) (off + n) (written + n) r.1
        ]
  ]

  -- The logical size grows in memory only; Close writes it back. An end that has wrapped is negative.
  unfoldable pub note_written : ℕ → State Pool → State Pool
  note_written end s = set_handle s (record s.handle {
    new_ver = record s.new_ver {
      size = if ltb s.new_ver.size end && ltb end int64_limit then end else s.new_ver.size;
    };
    dirty = Bool.true;
  })

  unfoldable pub finish_write :
      ℕ → (ℕ × Option Error) × State Pool → (ℕ × Option Error) × State Pool
  finish_write end ((n, none), s) = ((n, none), note_written end s)
  finish_write end ((n, some e), s) = ((n, some e), s)

  unfoldable pub write_at : List ℕ → ℤ → State Pool → (ℕ × Option Error) × State Pool
  write_at p (negsuc n) s = ((0, some (if s.writable then invalid else permission)), s)
  write_at p (pos off) s =
      if not s.writable
      then ((0, some permission), s)
      else if length p == 0
      then ((0, none), s)
      else elim (check_quota (growth (off + length p) s.new_ver.size) s) [
        | some e ↦ ((0, some e), s)
        | none ↦ finish_write (off + length p) (write_loop (length p) p off 0 s)
      ]

  -- Writes at the current offset, at the end in append mode, and moves it.
  unfoldable pub write : List ℕ → State Pool → (ℕ × Option Error) × State Pool
  write p s =
      let at = if s.appending then file_size s else s.offset in
      let r = write_at p (pos at) s in
      (r.0, set_handle r.1 (record r.1.handle { offset = at + r.0.0 }))
