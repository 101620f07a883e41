-- ===== src/Vfs/Handle/Read.antt =====
-- internal/vfs/file.go: ReadAt, Read and Seek.
use zenofs.Common.{
  ℕ, zero, suc, ◌+◌, ◌-◌, ◌/◌, ◌%◌, min, Bool, not, Option, none, some, List, [], ◌∷◌, ◌++◌, ok,
  err, Error, permission, invalid, eof, ltb, leb, ◌==◌, if◌then◌else◌, length, get_or, ℤ, pos,
  negsuc,
}
use zenofs.Db.{Version}
use zenofs.Vfs.Handle.State.{Backend, State, set_handle}
use zenofs.Vfs.Handle.Slices.{slice_plain}

-- `n` bytes of a slice from `intra`, with zeros where it is shorter.
unfoldable pub window : ℕ → ℕ → List ℕ → List ℕ
window intra zero buf = []
window intra (suc n) buf = get_or buf intra 0 ∷ window (suc intra) n buf

abbrev pub size_of : Option Version → ℕ
size_of none = 0
size_of (some v) = v.size

-- `fileHandle.size`: a writer sees the size that it has not committed yet.
unfoldable pub file_size : {P : Type 0} → State P → ℕ
file_size s = if s.writable then s.new_ver.size else size_of s.old_ver

module _ (B : Backend) where
  open B use {Pool}

  -- The loop of ReadAt; each round takes what lies in one slice, so `fuel = want` rounds are enough.
  unfoldable pub read_loop : ℕ → ℕ → ℕ → List ℕ → State Pool → (List ℕ × Option Error) × State Pool
  read_loop zero want at got s = ((got, none), s)
  read_loop (suc fuel) want at got s = elim (want == 0) [
    | Bool.true ↦ ((got, none), s)
    | Bool.false ↦
        let n = min want (s.slice_bytes - at % s.slice_bytes) in
        let r = slice_plain B (at / s.slice_bytes) s in
        elim r.0 [
          | err e ↦ ((got, some e), r.1)
          | ok buf ↦
              read_loop fuel (want - n) (at + n) (got ++ window (at % s.slice_bytes) n buf) r.1
        ]
  ]

  -- `want` is the length of the caller's buffer; the bytes come back with the error beside them.
  unfoldable pub read_at : ℕ → ℤ → State Pool → (List ℕ × Option Error) × State Pool
  read_at want (negsuc n) s = (([], some (if s.readable then invalid else permission)), s)
  read_at want (pos off) s =
      if not s.readable
      then (([], some permission), s)
      else if want == 0
      then (([], none), s)
      else if leb (file_size s) off
      then (([], some eof), s)
      else read_loop (min want (file_size s - off)) (min want (file_size s - off)) off [] s

  -- Reads at the current offset and moves it.
  unfoldable pub read : ℕ → State Pool → (List ℕ × Option Error) × State Pool
  read want s =
      let r = read_at want (pos s.offset) s in
      (r.0, set_handle r.1 (record r.1.handle { offset = s.offset + length r.0.0 }))

-- The three anchors of Seek, and any other.
pub data Whence : Type 0 where
  seek_start seek_current seek_end seek_other : Whence

-- An offset from an anchor; `none` if it lies before the start.
unfoldable pub moved : ℕ → ℤ → Option ℕ
moved base (pos n) = some (base + n)
moved base (negsuc n) = if ltb n base then some (base - suc n) else none

unfoldable pub anchor : {P : Type 0} → Whence → State P → Option ℕ
anchor seek_start s = some 0
anchor seek_current s = some s.offset
anchor seek_end s = some (file_size s)
anchor seek_other s = none

unfoldable pub seek : {P : Type 0} → ℤ → Whence → State P → Option ℕ × State P
seek off whence s = elim (anchor whence s) [
  | none ↦ (none, s)
  | some base ↦ elim (moved base off) [
    | none ↦ (none, s)
    | some to ↦ (some to, set_handle s (record s.handle { offset = to }))
  ]
]
