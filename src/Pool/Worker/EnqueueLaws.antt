-- ===== src/Pool/Worker/EnqueueLaws.antt =====
-- internal/pool/rebuild.go: what is proved of the job that rebuilds a pool.
use zenofs.Common.{
  ℕ, ◌+◌, ◌≡◌, refl, sym, ap, ◌∙◌, inl, inr, Bool, true, false, not, ◌&&◌, List, [], ◌∷◌, ◌++◌,
  ◌==◌, ltb, length, map, arith, if◌then◌else◌, Bool-cases, count, select, exists_in,
}
use zenofs.Pool.Tables.{Chunk, StripeTask, TaskStatus, is_allocated, is_parity_task}
use zenofs.Pool.Disks.{Disk, is_repair}
use zenofs.Pool.Release.{member, keep_new, unique_ids}
use zenofs.Pool.Worker.{PoolDb, Task, is_pending}
use zenofs.Pool.Worker.Enqueue.{rebuild_pool, rebuild_task, is_active, repair_disks, stripes_on}

abbrev pub same_id : ℕ → ℕ → Bool
same_id k x = k == x

-- Each id once.
pub count-keep_new :
    (seen : List ℕ) (k : ℕ) (l : List ℕ)
    → count (same_id k) (keep_new seen l) ≡ (if member k l && not (member k seen) then 1 else 0)
unfolding keep_new count
count-keep_new seen k [] = refl
count-keep_new seen k (x ∷ l) = elim (Bool-cases (k == x)) [
  | inl same ↦ ground (
    arith,
    same,
    count-keep_new seen k l,
    count-keep_new (x ∷ seen) k l,
    ap (λ (y : ℕ). member y seen) {x = k} {y = x} (ground (arith, same)),
  )
  | inr apart ↦ ground (arith, apart, count-keep_new seen k l, count-keep_new (x ∷ seen) k l)
]

-- The task of a job for a stripe, as it waits.
abbrev pub is_task : ℕ → ℕ → StripeTask → Bool
is_task job id q =
    id == q.stripe_id && (job == q.task_id && (not (is_parity_task q.kind) && is_pending q.status))

-- A chunk of the stripe that has been written to one of the disks.
abbrev is_touched : ℕ → List ℕ → Chunk → Bool
is_touched id disks c = id == c.stripe_id && (member c.disk_id disks && is_allocated c.status)

count-rebuild_task :
    (job id : ℕ) (ids : List ℕ)
    → count (is_task job id) (map (rebuild_task job) ids) ≡ count (same_id id) ids
unfolding count
count-rebuild_task job id [] = refl
count-rebuild_task job id (x ∷ ids) = ground (arith, count-rebuild_task job id ids)

count-more :
    (job id : ℕ) (queue more : List StripeTask)
    → count (is_task job id) (queue ++ more)
      ≡ count (is_task job id) queue + count (is_task job id) more
unfolding count
count-more job id [] more = omega arith
count-more job id (q ∷ queue) more = ground (arith, count-more job id queue more)

member-touched :
    (id : ℕ) (disks : List ℕ) (cs : List Chunk)
    → member id (
        map
          (λ (c : Chunk). c.stripe_id)
          (select (λ (c : Chunk). member c.disk_id disks && is_allocated c.status) cs))
      ≡ exists_in (is_touched id disks) cs
unfolding select exists_in
member-touched id disks [] = refl
member-touched id disks (c ∷ cs) = ground (arith, member-touched id disks cs)

count-stripes_on :
    (id : ℕ) (disks : List ℕ) (db : PoolDb)
    → count (same_id id) (stripes_on disks db)
      ≡ (if exists_in (is_touched id disks) db.tables.chunks then 1 else 0)
unfolding stripes_on unique_ids
count-stripes_on id disks db = ground (
  arith,
  count-keep_new [] id (
      map (λ (c : Chunk). c.stripe_id)
        (select (λ (c : Chunk). member c.disk_id disks && is_allocated c.status) db.tables.chunks)),
  member-touched id disks db.tables.chunks,
)

pub count-empty : (id : ℕ) (ids : List ℕ) → (length ids == 0) ≡ true → count (same_id id) ids ≡ 0
unfolding count
count-empty id [] h = refl
count-empty id (x ∷ ids) h = absurd (ground (arith, h))

untouched : (id : ℕ) (cs : List Chunk) → exists_in (is_touched id []) cs ≡ false
unfolding exists_in
untouched id [] = refl
untouched id (c ∷ cs) = ground (arith, untouched id cs)

stripes_on-empty :
    (id : ℕ) (disks : List ℕ) (db : PoolDb)
    → (length disks == 0) ≡ true
    → exists_in (is_touched id disks) db.tables.chunks ≡ false
stripes_on-empty id [] db h = untouched id db.tables.chunks
stripes_on-empty id (x ∷ disks) db h = absurd (ground (arith, h))

exists_in-new :
    (job pool : ℕ) (tasks : List Task)
    → exists_in
        (is_active pool)
        (tasks ++ record { id = job; name = pool; status = TaskStatus.pending } ∷ [])
      ≡ true
unfolding exists_in
exists_in-new job pool [] = ground arith
exists_in-new job pool (t ∷ tasks) = ground (arith, exists_in-new job pool tasks)

-- The id of a disk of the pool that is under repair.
abbrev is_repairing : ℕ → ℕ → Disk → Bool
is_repairing pool id d = d.id == id && (d.pool_id == pool && is_repair d.status)

-- A written chunk of the stripe on a disk of the pool under repair.
abbrev pub is_on_repair : ℕ → ℕ → List Disk → Chunk → Bool
is_on_repair pool id disks c =
    id == c.stripe_id && (is_allocated c.status && exists_in (is_repairing pool c.disk_id) disks)

member-select_repair :
    (pool k : ℕ) (disks : List Disk)
    → member k (
        map
          (λ (d : Disk). d.id)
          (select (λ (d : Disk). d.pool_id == pool && is_repair d.status) disks))
      ≡ exists_in (is_repairing pool k) disks
unfolding select exists_in
member-select_repair pool k [] = refl
member-select_repair pool k (d ∷ ds) = ground (arith, member-select_repair pool k ds)

touched-on_repair :
    (pool id : ℕ) (db : PoolDb) (cs : List Chunk)
    → exists_in (is_touched id (repair_disks pool db)) cs
      ≡ exists_in (is_on_repair pool id db.disks) cs
unfolding exists_in repair_disks
touched-on_repair pool id db [] = refl
touched-on_repair pool id db (c ∷ cs) =
    ground (arith, member-select_repair pool c.disk_id db.disks, touched-on_repair pool id db cs)

count-on_repair :
    (pool id : ℕ) (db : PoolDb)
    → count (same_id id) (stripes_on (repair_disks pool db) db)
      ≡ (if exists_in (is_on_repair pool id db.disks) db.tables.chunks then 1 else 0)
count-on_repair pool id db =
    count-stripes_on id (repair_disks pool db) db
    ∙ ap {B = ℕ} (λ (b : Bool). if b then 1 else 0) (touched-on_repair pool id db db.tables.chunks)

-- With no job of the pool open: every stripe with a chunk that has been written to a disk of the pool
-- under repair gets exactly one task of the new job, every other stripe none, and afterwards the pool
-- has an open job just when there were tasks to queue.
pub rebuild_pool-queues :
    (job pool id : ℕ) (db : PoolDb)
    → exists_in (is_active pool) db.tasks ≡ false
    → (count (is_task job id) (rebuild_pool job pool db).1.tables.stripe_queue
        ≡ count (is_task job id) db.tables.stripe_queue
          + (if exists_in (is_on_repair pool id db.disks) db.tables.chunks then 1 else 0))
      × (exists_in (is_active pool) (rebuild_pool job pool db).1.tasks
          ≡ ltb 0 (rebuild_pool job pool db).0)
unfolding rebuild_pool
rebuild_pool-queues job pool id db idle =
    let disks = repair_disks pool db in
    let stripes = stripes_on disks db in
    elim (Bool-cases (length disks == 0)) [
      | inl nowhere ↦
          let untouched_all =
            sym (touched-on_repair pool id db db.tables.chunks)
            ∙ stripes_on-empty id disks db nowhere in
          rw (idle, nowhere, untouched_all) (omega arith, idle)
      | inr somewhere ↦ elim (Bool-cases (length stripes == 0)) [
        | inl nothing ↦
            let zero_tasks = count-empty id stripes nothing in
            rw (idle, somewhere, nothing)
              (omega (arith, count-on_repair pool id db, zero_tasks), idle)
        | inr tasks ↦
            rw (idle, somewhere, tasks)
              (
                count-more job id db.tables.stripe_queue (map (rebuild_task job) stripes)
                    ∙ omega (arith, count-rebuild_task job id stripes, count-on_repair pool id db),
                exists_in-new job pool db.tasks ∙ ground (arith, tasks),
              )
      ]
    ]
