-- ===== src/Pool/Worker/Enqueue.antt =====
-- internal/pool/rebuild.go: the jobs that rebuild a pool, and the tasks for chunks that cannot be read.
-- Tasks are inserted in batches of 500 there; the rows are the same.
use zenofs.Common.{
  ℕ, Bool, not, ◌&&◌, List, [], ◌∷◌, ◌++◌, map, ◌==◌, if◌then◌else◌, length, select, delete_where,
  exists_in,
}
use zenofs.Pool.Tables.{
  Chunk, TaskStatus, StripeQueueType, StripeTask, is_allocated, is_open, is_parity_task,
}
use zenofs.Pool.Disks.{Disk, is_repair}
use zenofs.Pool.Release.{member, unique_ids}
use zenofs.Pool.Worker.{PoolDb, Task, with_queue}

abbrev pub rebuild_task : ℕ → ℕ → StripeTask
rebuild_task job id = record {
  stripe_id = id;
  kind = StripeQueueType.rebuild;
  task_id = job;
  status = TaskStatus.pending;
}

abbrev pub is_active : ℕ → Task → Bool
is_active pool t = t.name == pool && is_open t.status

unfoldable pub repair_disks : ℕ → PoolDb → List ℕ
repair_disks pool db =
    map (λ (d : Disk). d.id)
      (select (λ (d : Disk). d.pool_id == pool && is_repair d.status) db.disks)

unfoldable pub stripes_on : List ℕ → PoolDb → List ℕ
stripes_on disks db = unique_ids (
    map (λ (c : Chunk). c.stripe_id)
      (select (λ (c : Chunk). member c.disk_id disks && is_allocated c.status) db.tables.chunks))

-- `job` is the id that the row of the new job gets. The result counts the tasks.
unfoldable pub rebuild_pool : ℕ → ℕ → PoolDb → ℕ × PoolDb
rebuild_pool job pool db =
    let disks = repair_disks pool db in
    let stripes = stripes_on disks db in
    if exists_in (is_active pool) db.tasks
    then (0, db)
    else if length disks == 0
    then (0, db)
    else if length stripes == 0
    then (0, db)
    else (
      length stripes,
      record (with_queue db (db.tables.stripe_queue ++ map (rebuild_task job) stripes)) {
        tasks = db.tasks ++ record { id = job; name = pool; status = TaskStatus.pending } ∷ [];
      },
    )

-- Stripes that a rebuild waits for already, whatever its status, are left out.
unfoldable pub rebuild_by_chunks : List ℕ → PoolDb → ℕ × PoolDb
rebuild_by_chunks ids db =
    let stripes = unique_ids (
      map (λ (c : Chunk). c.stripe_id)
        (select (λ (c : Chunk). member c.id ids) db.tables.chunks)) in
    let fresh =
      delete_where
        (λ id.
          exists_in (λ (q : StripeTask). q.stripe_id == id && not (is_parity_task q.kind))
            db.tables.stripe_queue)
        stripes in
    (length fresh, with_queue db (db.tables.stripe_queue ++ map (rebuild_task 0) fresh))
