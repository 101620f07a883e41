-- ===== src/Pool/Stripes.antt =====
-- internal/pool/parity.go and internal/pool/rebuild.go: the shards of a stripe. What the Reed-Solomon
-- package computes is a parameter.
use zenofs.Common.{
  ℕ, zero, suc, ◌-◌, ◌+◌, Bool, true, false, not, ◌&&◌, Option, none, some, List, [], ◌∷◌, ◌++◌,
  ◌==◌, ltb, leb, if◌then◌else◌, length, replicate, max, select, delete_where, find_by,
}
use zenofs.Pool.Tables.{Chunk, is_data, is_allocated}
use zenofs.Pool.Disks.{Disk, PoolRow, Stripe}
use zenofs.Vfs.Crypto.{Bytes}
pub mod Parity
pub mod Rebuild
pub mod Local

-- Data shards, parity shards, then the shards; `none` is an error of the package, and a shard that is
-- `none` is an empty one, which it fills in.
pub record Coder : Type 0 where
  pub encode : ℕ → ℕ → List Bytes → Option (List Bytes)
  pub reconstruct : ℕ → ℕ → List (Option Bytes) → Option (List Bytes)

-- The parity chunks are a Go map by index, here in the order of the index.
pub record StripeJob : Type 0 where
  pub data_chunks : List Chunk
  pub parity_by_index : List Chunk
  pub ds : ℕ
  pub ps : ℕ

-- Chunks by index, `n` from `i` on; of two rows with one index the later one counts.
unfoldable pub later : List Chunk → ℕ → Option Chunk
later [] i = none
later (c ∷ cs) i = elim (later cs i) [
  | some d ↦ some d
  | none ↦ if c.index == i then some c else none
]

unfoldable pub ordered : List Chunk → ℕ → ℕ → List Chunk
ordered rows zero i = []
ordered rows (suc n) i = elim (later rows i) [
  | none ↦ ordered rows n (suc i)
  | some c ↦ c ∷ ordered rows n (suc i)
]

-- A pool row that is gone counts as no shards.
abbrev pub shards_of : Option PoolRow → ℕ × ℕ
shards_of none = (0, 0)
shards_of (some p) = (p.data_shards, p.parity_shards)

-- The rows of a batch of stripes.
pub record StripeMeta : Type 0 where
  pub stripes : List Stripe
  pub pools : List PoolRow
  pub disks : List Disk
  pub chunks : List Chunk

abbrev pub pool_of : StripeMeta → ℕ → ℕ
pool_of meta id = elim (find_by (λ (s : Stripe). s.id == id) meta.stripes) [
  | none ↦ 0
  | some s ↦ s.pool_id
]

-- `none` for a stripe without chunks. An index of a parity row is below the number of parity shards, as
-- the allocation of a stripe counts them.
unfoldable pub build_stripe_job : StripeMeta → ℕ → Option StripeJob
build_stripe_job meta id =
    let rows = select (λ (c : Chunk). c.stripe_id == id) meta.chunks in
    let shards = shards_of (find_by (λ (p : PoolRow). p.id == pool_of meta id) meta.pools) in
    if length rows == 0
    then none
    else some (record {
      data_chunks =
          ordered (select (λ (c : Chunk). is_data c.kind && is_allocated c.status) rows) shards.0 0;
      parity_by_index = ordered (select (λ (c : Chunk). not (is_data c.kind)) rows) shards.1 0;
      ds = shards.0;
      ps = shards.1;
    })

-- Padding with zeros to the length of the longest shard.
unfoldable pub pad : ℕ → Bytes → Bytes
pad n bytes = bytes ++ replicate (n - length bytes) 0

abbrev pub size_of : Option Bytes → ℕ
size_of none = 0
size_of (some bytes) = length bytes

unfoldable pub max_size : List (Option Bytes) → ℕ
max_size [] = 0
max_size (s ∷ rest) = max (size_of s) (max_size rest)

-- A shard by its place in the stripe, with what was read of it.
pub record Shard : Type 0 where
  pub chunk : Chunk
  pub shard_idx : ℕ
  pub bytes : Option Bytes

-- The array of the shards, `n` from `i` on; what is not there is empty.
abbrev pub shard_at : List Shard → ℕ → Option Bytes
shard_at shards i = elim (find_by (λ (s : Shard). s.shard_idx == i) shards) [
  | none ↦ none
  | some s ↦ s.bytes
]

unfoldable pub shard_array : List Shard → ℕ → ℕ → List (Option Bytes)
shard_array shards zero i = []
shard_array shards (suc n) i = shard_at shards i ∷ shard_array shards n (suc i)
