-- ===== src/Pool/Stripes/Parity.antt =====
-- internal/pool/parity.go: the parity shards of one stripe. Reads and writes of one stripe run in
-- parallel there, each for a file of its own; here they follow one another.
use zenofs.Common.{
  ℕ, zero, suc, ◌+◌, Bool, true, false, not, ◌&&◌, Option, none, some, List, [], ◌∷◌, ◌==◌,
  if◌then◌else◌, length, map, find_by,
}
use zenofs.Pool.Tables.{Chunk}
use zenofs.Pool.Disks.{Disk, ChunkHandler, read_chunk, write_chunk}
use zenofs.Pool.Stripes.{Coder, StripeJob, Shard, shard_array, pad, max_size}
use zenofs.Vfs.Crypto.{Bytes, Primitives, hash_sum}
pub mod Laws

pub record StripeResult : Type 0 where
  pub parity_idx : ℕ
  pub parity_data : Bytes
  pub parity_hash : Bytes

-- An empty slot is a shard of zeros.
abbrev pub padded_data : ℕ → Option Bytes → Bytes
padded_data n none = pad n []
padded_data n (some bytes) = pad n bytes

abbrev both : Option StripeResult → Option (List StripeResult) → Option (List StripeResult)
both (some r) (some rs) = some (r ∷ rs)
both _ _ = none

unfoldable pub parity_of : Coder → StripeJob → List Shard → Option (List Bytes)
parity_of coder job shards =
    let slots = shard_array shards job.ds 0 in
    coder.encode job.ds job.ps (map (padded_data (max_size slots)) slots)

module _ {S : Type 0} (P : Primitives) (handlers : List (ChunkHandler S)) where
  -- `none` when one of the files cannot be read.
  unfoldable pub read_data : List Disk → S → List Chunk → Option (List Shard)
  read_data disks s [] = some []
  read_data disks s (c ∷ cs) = elim (read_chunk handlers disks s c) [
    | none ↦ none
    | some bytes ↦ elim (read_data disks s cs) [
      | none ↦ none
      | some rest ↦ some (record { chunk = c; shard_idx = c.index; bytes = some bytes } ∷ rest)
    ]
  ]

  -- One parity shard, the `i`-th; `none` when its row is not there or its file cannot be written.
  unfoldable pub write_parity : List Disk → List Chunk → ℕ → Bytes → S → Option StripeResult × S
  write_parity disks parity i bytes s = elim (find_by (λ (c : Chunk). c.index == i) parity) [
    | none ↦ (none, s)
    | some c ↦ elim (write_chunk handlers disks s c bytes) [
      | none ↦ (none, s)
      | some s' ↦ (
        some (record { parity_idx = i; parity_data = bytes; parity_hash = hash_sum P bytes }),
        s',
      )
    ]
  ]

  -- Every shard is tried; the results count only when all of them were written.
  unfoldable pub write_parities :
      List Disk → List Chunk → ℕ → List Bytes → S → Option (List StripeResult) × S
  write_parities disks parity i [] s = (some [], s)
  write_parities disks parity i (bytes ∷ rest) s =
      let first = write_parity disks parity i bytes s in
      let others = write_parities disks parity (suc i) rest first.1 in
      (both first.0 others.0, others.1)

  unfoldable pub compute_stripe : Coder → List Disk → StripeJob → S → Option (List StripeResult) × S
  compute_stripe coder disks job s =
      if job.ps == 0 then (some [], s) else elim (read_data disks s job.data_chunks) [
        | none ↦ (none, s)
        | some shards ↦ elim (parity_of coder job shards) [
          | none ↦ (none, s)
          | some parity ↦ write_parities disks job.parity_by_index 0 parity s
        ]
      ]
