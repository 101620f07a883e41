-- ===== src/Pool/Orphans.antt =====
-- internal/pool/gc.go: chunks that no version refers to, their count, and a round of collection. An
-- error leaves the tables as they were; times are in seconds.
use zenofs.Common.{
  ℕ, zero, suc, ◌+◌, Bool, true, false, not, ◌&&◌, ◌||◌, List, [], ◌∷◌, map, Result, ok, err, ◌==◌,
  ltb, if◌then◌else◌, length, take, select, exists_in, ◌>>=◌,
}
use zenofs.Db.{VersionChunk}
use zenofs.Pool.Tables.{Chunk, WriteTask, Tables, is_data, is_allocated}
use zenofs.Pool.Release.{StaleFile, ReleaseResult, release_chunks}
pub mod Laws
mod Examples

abbrev pub orphan_grace_period : ℕ
orphan_grace_period = 600

abbrev pub gc_batch_limit : ℕ
gc_batch_limit = 5000

abbrev pub is_referenced : ℕ → Tables → Bool
is_referenced id t = exists_in (λ (vc : VersionChunk). vc.chunk_id == id) t.version_chunks

abbrev pub is_queued : ℕ → Tables → Bool
is_queued id t = exists_in (λ (w : WriteTask). w.chunk_id == id) t.write_queue

-- A pool id of 0 stands for every pool.
abbrev pub is_orphan : ℕ → ℕ → Tables → Chunk → Bool
is_orphan now pool t c =
    is_data c.kind
    && (is_allocated c.status
        && (not (is_referenced c.id t)
            && (ltb (c.created_at + orphan_grace_period) now
                && (not (is_queued c.id t) && (pool == 0 || c.pool_id == pool)))))

unfoldable pub orphan_query : ℕ → ℕ → Tables → List Chunk
orphan_query now pool t = select (is_orphan now pool t) t.chunks

-- 0 stands for a limit that is not positive.
unfoldable pub gc_limit : ℕ → ℕ
gc_limit limit = if limit == 0 || ltb gc_batch_limit limit then gc_batch_limit else limit

unfoldable pub candidates : ℕ → ℕ → ℕ → Tables → List ℕ
candidates now pool limit t =
    take (gc_limit limit) (map (λ (c : Chunk). c.id) (orphan_query now pool t))

pub record GcResult : Type 0 where
  pub scanned : ℕ
  pub released : ℕ
  pub freed_bytes : ℕ
  pub stale : List StaleFile

abbrev pub gc_result : ℕ → ReleaseResult → GcResult
gc_result scanned r = record {
  scanned = scanned;
  released = r.chunks;
  freed_bytes = r.bytes;
  stale = r.stale;
}

abbrev pub collected : ℕ → Result (ReleaseResult × Tables) → Result (GcResult × Tables)
collected scanned (ok (r, u)) = ok (gc_result scanned r, u)
collected scanned (err e) = err e

-- `draw` names files at random; `stale` are the files that are deleted after the transaction.
unfoldable pub garbage_collect :
    (ℕ → Result (List (List ℕ))) → ℕ → ℕ → ℕ → Tables → Result (GcResult × Tables)
garbage_collect draw now pool limit t =
    let ids = candidates now pool limit t in
    if length ids == 0
    then ok (record { scanned = 0; released = 0; freed_bytes = 0; stale = [] }, t)
    else collected (length ids) (release_chunks draw ids t)

unfoldable pub sum_sizes : List Chunk → ℕ
sum_sizes [] = 0
sum_sizes (c ∷ cs) = c.size + sum_sizes cs

unfoldable pub orphan_stats : ℕ → ℕ → Tables → ℕ × ℕ
orphan_stats now pool t = (length (orphan_query now pool t), sum_sizes (orphan_query now pool t))
