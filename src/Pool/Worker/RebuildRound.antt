-- ===== src/Pool/Worker/RebuildRound.antt =====
-- internal/pool/rebuild.go: a round of rebuilds. Stripes are rebuilt in parallel there, each with files
-- of its own; here one after the other.
use zenofs.Common.{
  ℕ, true, false, not, none, some, List, [], ◌∷◌, ◌++◌, ◌==◌, if◌then◌else◌, length, update_where,
  delete_where, exists_in,
}
use zenofs.Pool.Tables.{Chunk, ChunkStatus, ChunkType, StripeQueueType}
use zenofs.Pool.Disks.{ChunkHandler}
use zenofs.Pool.Stripes.{Coder, StripeMeta, build_stripe_job}
use zenofs.Pool.Stripes.Rebuild.{RebuiltChunk, rebuild_stripe_job}
use zenofs.Pool.Worker.{
  PoolDb, Outcome, Round, claim_stripe_tasks, stripe_ids_of, load_stripe_meta, with_queue,
  has_status, is_running,
}
use zenofs.Pool.Worker.Recover.{finish_rebuild_tasks}
use zenofs.Vfs.Crypto.{Primitives}

-- A row that is gone comes back with these columns alone.
abbrev new_chunk : RebuiltChunk → Chunk
new_chunk u = record {
  id = u.chunk_id;
  status = ChunkStatus.allocated;
  path = [];
  size = u.size;
  hash = some u.hash;
  pool_id = 0;
  disk_id = 0;
  stripe_id = 0;
  kind = ChunkType.data_chunk;
  index = 0;
  created_at = 0;
}

-- An upsert by the id of the chunk.
unfoldable pub save_rebuilt_chunk : RebuiltChunk → List Chunk → List Chunk
save_rebuilt_chunk u chunks =
    if exists_in (λ (c : Chunk). c.id == u.chunk_id) chunks
    then update_where (λ (c : Chunk). c.id == u.chunk_id)
        (λ (c : Chunk). record c {
          status = ChunkStatus.allocated;
          size = u.size;
          hash = some u.hash;
        })
        chunks
    else chunks ++ new_chunk u ∷ []

unfoldable pub save_rebuilt_chunks : List RebuiltChunk → List Chunk → List Chunk
save_rebuilt_chunks [] chunks = chunks
save_rebuilt_chunks (u ∷ us) chunks = save_rebuilt_chunks us (save_rebuilt_chunk u chunks)

abbrev with_chunks : PoolDb → List Chunk → PoolDb
with_chunks db chunks = record db { tables = record db.tables { chunks = chunks } }

module _ {S : Type 0} (P : Primitives) (handlers : List (ChunkHandler S)) (coder : Coder) where
  -- What an incomplete rebuild has written is not saved.
  unfoldable pub rebuild_stripes :
      StripeMeta → List ℕ → List RebuiltChunk → S → List RebuiltChunk × S
  rebuild_stripes meta [] updates s = (updates, s)
  rebuild_stripes meta (id ∷ ids) updates s = elim (build_stripe_job meta id) [
    | none ↦ rebuild_stripes meta ids updates s
    | some job ↦
        let r = rebuild_stripe_job P coder handlers meta.disks job s in
        rebuild_stripes meta ids (if r.complete then updates ++ r.chunks else updates) r.disks
  ]

  -- An error of the save is only logged.
  unfoldable pub rebuild_stripe : Outcome → PoolDb → S → Round S
  rebuild_stripe outcome db s =
      let claimed = claim_stripe_tasks StripeQueueType.rebuild db in
      let ids = stripe_ids_of claimed.0 in
      let meta = load_stripe_meta ids claimed.1 in
      let done = rebuild_stripes meta ids [] s in
      let saved =
        if outcome.saves
        then with_chunks claimed.1 (save_rebuilt_chunks done.0 claimed.1.tables.chunks)
        else claimed.1 in
      let emptied =
        with_queue saved (
          delete_where (has_status StripeQueueType.rebuild is_running) saved.tables.stripe_queue) in
      if length claimed.0 == 0
      then record { worked = false; db = claimed.1; files = s }
      else if not outcome.loads
      then record { worked = false; db = claimed.1; files = s }
      else record {
        worked = true;
        db = finish_rebuild_tasks P handlers claimed.0 meta done.1 emptied;
        files = done.1;
      }
