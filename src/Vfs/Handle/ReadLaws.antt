-- ===== src/Vfs/Handle/ReadLaws.antt =====
-- internal/vfs/file.go: proofs about the loop of ReadAt and ReadAt as a whole.
use zenofs.Common.{ℕ, zero, suc, ◌-◌, ◌%◌, List, [], ◌∷◌, min, Option, Error}
use zenofs.Vfs.Handle.State.{Backend, State}
use zenofs.Vfs.Handle.Reliable.{IsReliable}
use zenofs.Vfs.Handle.View.{byte_at}

module _ {B : Backend} {slice : ℕ} (L : IsReliable B slice) where
  open B use {Pool}

  -- The bytes of a file from an offset, one by one.
  unfoldable pub bytes_from : State Pool → ℕ → ℕ → List ℕ
  bytes_from s off zero = []
  bytes_from s off (suc n) = byte_at L s off ∷ bytes_from s (suc off) n

  -- What one round reads: the rest of what is wanted, or what is left of the slice.
  abbrev portion : ℕ → ℕ → ℕ → ℕ
  portion bytes off want = min want (bytes - off % bytes)

  abbrev Reads : Type 0
  Reads = (List ℕ × Option Error) × State Pool
