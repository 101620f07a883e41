-- ===== src/Pool/Stripes/Rebuild.antt =====
-- internal/pool/rebuild.go: recovery of the lost shards of one stripe. Reads and writes run in
-- parallel there, each for a file of its own; here they follow one another.
use zenofs.Common.{
  ℕ, zero, suc, ◌+◌, Bool, true, false, not, ◌&&◌, Option, none, some, List, [], ◌∷◌, ◌++◌, ◌==◌,
  ltb, leb, if◌then◌else◌, length, take, map, select, get_or, count,
}
use zenofs.Pool.Tables.{Chunk, is_data, is_allocated}
use zenofs.Pool.Disks.{Disk, ChunkHandler, read_verified_chunk, write_chunk}
use zenofs.Pool.Stripes.{Coder, StripeJob, Shard, shard_array, pad, max_size}
use zenofs.Vfs.Crypto.{Bytes, Primitives, hash_sum}
pub mod Whole
pub mod Slots
pub mod Refs
pub mod Restores
pub mod Recovery
pub mod Shortage
pub mod Examples

pub record RebuiltChunk : Type 0 where
  pub chunk_id : ℕ
  pub size : ℕ
  pub hash : Bytes

abbrev pub is_lost : Shard → Bool
is_lost s = elim s.bytes [ none ↦ true | some _ ↦ false ]

abbrev pub padded : ℕ → Option Bytes → Option Bytes
padded n none = none
padded n (some bytes) = some (pad n bytes)

-- A data chunk without the padding; a parity chunk has the full length.
unfoldable pub cut_to_size : Chunk → Bytes → Bytes
cut_to_size c bytes =
    if is_data c.kind && ltb 0 c.size && leb c.size (length bytes) then take c.size bytes else bytes

-- The chunks rebuilt, whether all went well, and the disks.
pub record Rebuilt (S : Type 0) : Type 0 where
  pub chunks : List RebuiltChunk
  pub complete : Bool
  pub disks : S

module _ {S : Type 0} (P : Primitives) (handlers : List (ChunkHandler S)) where
  -- Data chunks first, then the parity chunks that have been computed.
  unfoldable pub shard_refs : List Disk → S → StripeJob → List Shard
  shard_refs disks s job =
      map
        (λ (c : Chunk). record {
          chunk = c;
          shard_idx = c.index;
          bytes = read_verified_chunk handlers P disks s c;
        })
        job.data_chunks
      ++ map
          (λ (c : Chunk). record {
            chunk = c;
            shard_idx = job.ds + c.index;
            bytes = read_verified_chunk handlers P disks s c;
          })
          (select (λ (c : Chunk). is_allocated c.status) job.parity_by_index)

  unfoldable pub write_shard : List Disk → List Bytes → Shard → Rebuilt S → Rebuilt S
  write_shard disks shards ref r =
      let bytes = cut_to_size ref.chunk (get_or shards ref.shard_idx []) in
      if is_lost ref
      then elim (write_chunk handlers disks r.disks ref.chunk bytes) [
        | none ↦ record r { complete = false }
        | some s ↦ record {
          chunks =
              r.chunks
              ++ record { chunk_id = ref.chunk.id; size = length bytes; hash = hash_sum P bytes }
                ∷ [];
          complete = r.complete;
          disks = s;
        }
      ]
      else r

  -- Every lost shard is tried.
  unfoldable pub write_shards : List Disk → List Bytes → List Shard → Rebuilt S → Rebuilt S
  write_shards disks shards [] r = r
  write_shards disks shards (ref ∷ rest) r =
      write_shards disks shards rest (write_shard disks shards ref r)

unfoldable pub reconstruct_shards : Coder → StripeJob → List Shard → Option (List Bytes)
reconstruct_shards coder job refs =
    let slots = shard_array refs (job.ds + job.ps) 0 in
    if max_size slots == 0
    then none
    else coder.reconstruct job.ds job.ps (map (padded (max_size slots)) slots)

module _ {S : Type 0} (P : Primitives) (coder : Coder) (handlers : List (ChunkHandler S)) where
  unfoldable pub rebuild_stripe_job : List Disk → StripeJob → S → Rebuilt S
  rebuild_stripe_job disks job s =
      let refs = shard_refs P handlers disks s job in
      let missing = count is_lost refs in
      if missing == 0
      then record { chunks = []; complete = true; disks = s }
      else if ltb job.ps missing
      then record { chunks = []; complete = false; disks = s }
      else elim (reconstruct_shards coder job refs) [
        | none ↦ record { chunks = []; complete = false; disks = s }
        | some shards ↦
            write_shards P handlers disks shards refs
              (record { chunks = []; complete = true; disks = s })
      ]
