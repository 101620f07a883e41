-- ===== src/Pool/Release.antt =====
-- internal/pool/release.go and internal/pool/pool.go: ReleaseChunks, which rolls the slots of
-- chunks that no version refers to back to empty ones. It runs in a transaction: an error leaves
-- the tables as they were.
use zenofs.Common.{
  ℕ, zero, suc, ◌+◌, Bool, true, false, not, ◌&&◌, ◌||◌, Option, none, some, List, [], ◌∷◌, ◌++◌,
  map, Result, ok, err, ◌==◌, if◌then◌else◌, length, take, drop, select, delete_where, exists_in,
}
use zenofs.Db.{VersionChunk}
use zenofs.Pool.Tables.{
  ChunkStatus, ChunkType, Chunk, TaskStatus, WriteTask, StripeQueueType, StripeTask, ReadCache,
  Tables, is_data, is_allocated, is_parity_task, is_open,
}
pub mod Rows
pub mod Laws
pub mod Examples

abbrev pub member : ℕ → List ℕ → Bool
member x [] = false
member x (y ∷ ys) = x == y || member x ys

unfoldable pub keep_new : List ℕ → List ℕ → List ℕ
keep_new seen [] = []
keep_new seen (x ∷ xs) = if member x seen then keep_new seen xs else x ∷ keep_new (x ∷ seen) xs

unfoldable pub unique_ids : List ℕ → List ℕ
unique_ids = keep_new []

-- The queries of one statement each are split into batches of 500; what they find is the same.
unfoldable pub filter_unreferenced : List VersionChunk → List ℕ → List ℕ
filter_unreferenced rows =
    select (λ id. not (exists_in (λ (vc : VersionChunk). vc.chunk_id == id) rows))

-- A file to delete once the transaction is committed.
pub record StaleFile : Type 0 where
  pub disk_id : ℕ
  pub path : List ℕ

pub record ReleaseResult : Type 0 where
  pub stale : List StaleFile
  pub chunks : ℕ
  pub bytes : ℕ

-- A chunk of the batch that holds data.
abbrev pub is_releasable : List ℕ → Chunk → Bool
is_releasable batch c = member c.id batch && is_data c.kind && is_allocated c.status

abbrev pub rolled_back : List ℕ → Chunk → Chunk
rolled_back path c = record c { status = ChunkStatus.reserved; size = 0; hash = none; path = path }

abbrev next_path : List (List ℕ) → List ℕ
next_path [] = []
next_path (p ∷ ps) = p

abbrev other_paths : List (List ℕ) → List (List ℕ)
other_paths [] = []
other_paths (p ∷ ps) = ps

-- Each chunk of the batch takes the next of the new paths.
unfoldable pub roll_back : List ℕ → List (List ℕ) → List Chunk → List Chunk
roll_back batch paths [] = []
roll_back batch paths (c ∷ cs) =
    let changed = roll_back batch (other_paths paths) cs in
    let kept = roll_back batch paths cs in
    if is_releasable batch c then rolled_back (next_path paths) c ∷ changed else c ∷ kept

abbrev pub file_of : Chunk → StaleFile
file_of c = record { disk_id = c.disk_id; path = c.path }

abbrev total_size : List Chunk → ℕ
total_size [] = 0
total_size (c ∷ cs) = c.size + total_size cs

unfoldable pub cache_files : List ReadCache → List StaleFile
cache_files [] = []
cache_files (e ∷ es) =
    let rest = cache_files es in
    if e.cached && not (length e.path == 0)
    then record { disk_id = e.disk_id; path = e.path } ∷ rest
    else rest

-- The rows that go and the files that they name.
unfoldable pub drop_cache_rows : List ℕ → Tables → List StaleFile × Tables
drop_cache_rows batch t = (
  cache_files (select (λ (e : ReadCache). member e.chunk_id batch) t.read_caches),
  record t {
    read_caches = delete_where (λ (e : ReadCache). member e.chunk_id batch) t.read_caches;
  },
)

-- What has been released so far: the result, the stripes touched, and the tables.
pub record Released : Type 0 where
  pub result : ReleaseResult
  pub stripes : List ℕ
  pub tables : Tables

-- `draw n` is `n` new paths, or the error of the random source.
module _ (draw : ℕ → Result (List (List ℕ))) where
  unfoldable pub roll_back_batch : List ℕ → List Chunk → List (List ℕ) → Released → Released
  roll_back_batch batch found paths r =
      let t = record r.tables { chunks = roll_back batch paths r.tables.chunks } in
      let caches = drop_cache_rows batch t in
      record {
        result = record {
          stale = r.result.stale ++ (map file_of found ++ caches.0);
          chunks = r.result.chunks + length found;
          bytes = r.result.bytes + total_size found;
        };
        stripes = r.stripes ++ map (λ (c : Chunk). c.stripe_id) found;
        tables = record caches.1 {
          write_queue =
              delete_where (λ (w : WriteTask). member w.chunk_id batch) caches.1.write_queue;
        };
      }

  unfoldable pub release_batch : List ℕ → Released → Result Released
  release_batch batch r =
      let found = select (is_releasable batch) r.tables.chunks in
      if length found == 0 then ok r else elim (draw (length found)) [
        | err e ↦ err e
        | ok paths ↦ ok (roll_back_batch batch found paths r)
      ]

  -- Batches of 500 ids; a batch a round, so `fuel = length ids` rounds are enough.
  unfoldable pub release_batches : ℕ → List ℕ → Released → Result Released
  release_batches zero ids r = ok r
  release_batches (suc fuel) [] r = ok r
  release_batches (suc fuel) (i ∷ is) r = elim (release_batch (take 500 (i ∷ is)) r) [
    | err e ↦ err e
    | ok s ↦ release_batches fuel (drop 500 (i ∷ is)) s
  ]

-- Stripes that still hold data.
abbrev pub is_live : List Chunk → ℕ → Bool
is_live chunks id =
    exists_in (λ (c : Chunk). c.stripe_id == id && is_data c.kind && is_allocated c.status) chunks

abbrev pub is_idle_parity : List ℕ → Chunk → Bool
is_idle_parity empty c = member c.stripe_id empty && not (is_data c.kind) && is_allocated c.status

-- The slot keeps its path; a later computation writes it again.
unfoldable pub drop_parity : List ℕ → List Chunk → List Chunk
drop_parity empty [] = []
drop_parity empty (c ∷ cs) =
    (if is_idle_parity empty c
      then record c { status = ChunkStatus.reserved; size = 0; hash = none }
      else c)
    ∷ drop_parity empty cs

abbrev pub parity_task : ℕ → StripeTask
parity_task id = record {
  stripe_id = id;
  kind = StripeQueueType.parity;
  task_id = 0;
  status = TaskStatus.pending;
}

-- A stripe whose parity is waiting or being computed gets no second task.
unfoldable pub enqueue_parity : List ℕ → Tables → Tables
enqueue_parity ids t = record t {
  stripe_queue =
      t.stripe_queue
      ++ map parity_task (
          delete_where
            (λ id.
              exists_in
                (λ (q : StripeTask). q.stripe_id == id && is_parity_task q.kind && is_open q.status)
                t.stripe_queue)
            ids);
}

unfoldable pub requeue_parity : List ℕ → Tables → List StaleFile × Tables
requeue_parity stripes t =
    let empty = delete_where (is_live t.chunks) stripes in
    (
      map file_of (select (is_idle_parity empty) t.chunks),
      enqueue_parity (select (is_live t.chunks) stripes)
          (record t { chunks = drop_parity empty t.chunks }),
    )

-- Parity of the stripes touched follows once every batch is done.
unfoldable pub finish_release : Released → ReleaseResult × Tables
finish_release r =
    let parity = requeue_parity (unique_ids r.stripes) r.tables in
    (record r.result { stale = r.result.stale ++ parity.0 }, parity.1)

abbrev nothing_released : ReleaseResult
nothing_released = record { stale = []; chunks = 0; bytes = 0 }

unfoldable pub release_chunks :
    (ℕ → Result (List (List ℕ))) → List ℕ → Tables → Result (ReleaseResult × Tables)
release_chunks draw chunk_ids t =
    let ids = filter_unreferenced t.version_chunks (unique_ids chunk_ids) in
    elim (release_batches draw (length ids) ids
      (record { result = nothing_released; stripes = []; tables = t })) [
        | err e ↦ err e
        | ok r ↦ ok (finish_release r)
      ]
