-- ===== src/Pool/Worker/Examples.antt =====
-- internal/pool: a mirrored pool whose first disk is under repair, with a rebuild and a parity task.
use zenofs.Common.{
  ℕ, ◌+◌, ◌≤◌, ◌≡◌, refl, true, false, List, [], ◌∷◌, count, select, exists_in, update_where,
  if◌then◌else◌, ltb,
}
use zenofs.Pool.Tables.{TaskStatus, StripeTask, StripeQueueType, ChunkType}
use zenofs.Pool.Disks.{Disk, DiskBackend, DiskType, DiskPoolStatus}
use zenofs.Pool.Stripes.Local.{handlers}
use zenofs.Pool.Stripes.Rebuild.Examples.{primitives, mirror, chunk_on, both_there, half_lost}
use zenofs.Pool.Worker.{PoolDb, Outcome, claim_stripe_tasks}
use zenofs.Pool.Worker.ParityRound.{calculate_stripe_parity}
use zenofs.Pool.Worker.RebuildRound.{rebuild_stripe}
use zenofs.Pool.Worker.Enqueue.{rebuild_pool, is_active}
use zenofs.Pool.Worker.EnqueueLaws.{is_task, is_on_repair, rebuild_pool-queues}
use zenofs.Pool.Worker.QueueLaws.{is_running_row, is_open_parity, calculate_stripe_parity-cleared}
use zenofs.Pool.Worker.Stalled.{rebuild_stripe-stalled}
use zenofs.Pool.Worker.QueueLaws.{is_open_rebuild}
use zenofs.Pool.Worker.Soundness.{unsound_pools, rebuild_stripe-unsound_pools}

abbrev queued : StripeQueueType → ℕ → StripeTask
queued kind job = record { stripe_id = 4; kind = kind; task_id = job; status = TaskStatus.pending }

abbrev disk_in : DiskPoolStatus → ℕ → Disk
disk_in status id = record {
  id = id;
  path = id ∷ [];
  pool_id = 1;
  backend = DiskBackend.local_backend;
  kind = DiskType.data_disk;
  status = status;
}

abbrev disks : List Disk
disks = disk_in DiskPoolStatus.repair 1 ∷ disk_in DiskPoolStatus.online 2 ∷ []

abbrev idle_db : PoolDb
idle_db = record {
  tables = record {
    chunks = chunk_on 1 ChunkType.data_chunk ∷ chunk_on 2 ChunkType.parity_chunk ∷ [];
    version_chunks = [];
    read_caches = [];
    write_queue = [];
    stripe_queue = queued StripeQueueType.parity 0 ∷ [];
  };
  stripes = record { id = 4; pool_id = 1 } ∷ [];
  pools =
      record {
        id = 1;
        data_shards = 1;
        parity_shards = 1;
        chunk_size = 4096;
        status = DiskPoolStatus.offline;
      }
      ∷ [];
  disks = disks;
  tasks = [];
}

abbrev busy_db : PoolDb
busy_db = record idle_db {
  tables = record idle_db.tables {
    stripe_queue = queued StripeQueueType.parity 0 ∷ queued StripeQueueType.rebuild 7 ∷ [];
  };
  tasks = record { id = 7; name = 1; status = TaskStatus.pending } ∷ [];
}

abbrev all_works : Outcome
all_works = record { loads = true; saves = true }

abbrev fails_to_load : Outcome
fails_to_load = record { loads = false; saves = true }

calculate_stripe_parity-cleared_example :
    (count is_running_row
        (calculate_stripe_parity primitives handlers mirror all_works busy_db
          both_there).db.tables.stripe_queue
      ≡ 0)
    × (count is_open_parity
          (calculate_stripe_parity primitives handlers mirror all_works busy_db
            both_there).db.tables.stripe_queue
        ≡ 0)
unfolding calculate_stripe_parity claim_stripe_tasks update_where select
calculate_stripe_parity-cleared_example =
    calculate_stripe_parity-cleared primitives handlers mirror all_works busy_db both_there refl

rebuild_stripe-stalled_example :
    (count is_open_rebuild
        (calculate_stripe_parity primitives handlers mirror all_works
          (rebuild_stripe primitives handlers mirror fails_to_load busy_db half_lost).db
          half_lost).db.tables.stripe_queue
      ≡ 0)
    × (rebuild_pool 8 1
          (calculate_stripe_parity primitives handlers mirror all_works
            (rebuild_stripe primitives handlers mirror fails_to_load busy_db half_lost).db
            half_lost).db
        ≡ (
          0,
          (calculate_stripe_parity primitives handlers mirror all_works
              (rebuild_stripe primitives handlers mirror fails_to_load busy_db half_lost).db
              half_lost).db,
        ))
unfolding calculate_stripe_parity rebuild_stripe claim_stripe_tasks update_where select exists_in
rebuild_stripe-stalled_example =
    rebuild_stripe-stalled primitives handlers mirror fails_to_load all_works busy_db half_lost 8 1
      (rebuild_stripe primitives handlers mirror fails_to_load busy_db half_lost)
      (calculate_stripe_parity primitives handlers mirror all_works
        (rebuild_stripe primitives handlers mirror fails_to_load busy_db half_lost).db half_lost)
      refl refl refl refl refl

rebuild_pool-queues_example :
    (count (is_task 7 4) (rebuild_pool 7 1 idle_db).1.tables.stripe_queue
      ≡ count (is_task 7 4) idle_db.tables.stripe_queue
        + (if exists_in (is_on_repair 1 4 idle_db.disks) idle_db.tables.chunks then 1 else 0))
    × (exists_in (is_active 1) (rebuild_pool 7 1 idle_db).1.tasks
        ≡ ltb 0 (rebuild_pool 7 1 idle_db).0)
unfolding exists_in
rebuild_pool-queues_example = rebuild_pool-queues 7 1 4 idle_db refl

rebuild_stripe-unsound_pools_example :
    unsound_pools 1 (rebuild_stripe primitives handlers mirror all_works busy_db half_lost).db
    ≤ unsound_pools 1 busy_db
rebuild_stripe-unsound_pools_example =
    rebuild_stripe-unsound_pools primitives handlers mirror all_works busy_db half_lost 1
