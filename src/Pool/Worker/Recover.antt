-- ===== src/Pool/Worker/Recover.antt =====
-- internal/pool/rebuild.go: disks and pools that are online again after a rebuild, and the end of a job.
use zenofs.Common.{
  ℕ, Bool, true, false, not, ◌&&◌, Option, none, some, List, [], ◌∷◌, map, ◌==◌, if◌then◌else◌, ltb,
  select, update_where, exists_in, count,
}
use zenofs.Pool.Tables.{Chunk, StripeTask, TaskStatus, is_allocated}
use zenofs.Pool.Disks.{
  Disk, PoolRow, Stripe, DiskPoolStatus, ChunkHandler, is_online, is_repair, read_verified_chunk,
}
use zenofs.Pool.Stripes.{StripeMeta}
use zenofs.Pool.Release.{member, unique_ids}
use zenofs.Pool.Worker.{PoolDb, Task}
use zenofs.Vfs.Crypto.{Primitives, Bytes}

abbrev pub is_bad : ℕ → Disk → Bool
is_bad pool d = d.pool_id == pool && not (is_online d.status)

-- A pool without bad disks is online again.
unfoldable pub recover_pool : ℕ → PoolDb → PoolDb
recover_pool pool db = if ltb 0 (count (is_bad pool) db.disks) then db else record db {
  pools =
      update_where (λ (p : PoolRow). p.id == pool)
        (λ (p : PoolRow). record p { status = DiskPoolStatus.online }) db.pools;
}

unfoldable pub recover_pools : List ℕ → PoolDb → PoolDb
recover_pools [] db = db
recover_pools (pool ∷ pools) db = recover_pools pools (recover_pool pool db)

abbrev is_some : Option Bytes → Bool
is_some none = false
is_some (some b) = true

module _ {S : Type 0} (P : Primitives) (handlers : List (ChunkHandler S)) where
  -- Every chunk that has been written to the disk can be read and has its hash.
  unfoldable pub disk_data_complete : List Chunk → S → Disk → Bool
  disk_data_complete chunks s disk = not (
      exists_in (λ (c : Chunk). not (is_some (read_verified_chunk handlers P (disk ∷ []) s c)))
        (select (λ (c : Chunk). c.disk_id == disk.id && is_allocated c.status) chunks))

  unfoldable pub recover_after_rebuild : StripeMeta → S → PoolDb → PoolDb
  recover_after_rebuild meta s db =
      let ids = map (λ (d : Disk). d.id) meta.disks in
      let repairs = select (λ (d : Disk). member d.id ids && is_repair d.status) db.disks in
      let recovered =
        map (λ (d : Disk). d.id) (select (disk_data_complete db.tables.chunks s) repairs) in
      let online = record db {
        disks =
            update_where (λ (d : Disk). member d.id recovered && is_repair d.status)
              (λ (d : Disk). record d { status = DiskPoolStatus.online }) db.disks;
      } in
      recover_pools (unique_ids (map (λ (d : Disk). d.pool_id) repairs)) online

  abbrev all_good : PoolDb → List ℕ → Bool
  all_good db pools = not (exists_in (λ pool. ltb 0 (count (is_bad pool) db.disks)) pools)

  -- A job none of whose tasks is left in the queue.
  unfoldable pub finish_task : StripeMeta → List ℕ → S → ℕ → PoolDb → PoolDb
  finish_task meta pools s id db =
      let recovered = recover_after_rebuild meta s db in
      if ltb 0 (count (λ (q : StripeTask). q.task_id == id) db.tables.stripe_queue)
      then db
      else record recovered {
        tasks =
            update_where (λ (t : Task). t.id == id)
              (λ (t : Task). record t {
                status = if all_good recovered pools then TaskStatus.success else TaskStatus.fail;
              })
              recovered.tasks;
      }

  unfoldable pub finish_tasks : StripeMeta → List ℕ → S → List ℕ → PoolDb → PoolDb
  finish_tasks meta pools s [] db = db
  finish_tasks meta pools s (id ∷ ids) db =
      finish_tasks meta pools s ids (finish_task meta pools s id db)

  -- A task without a job has the job 0. The pools are those of the stripes of the batch.
  unfoldable pub finish_rebuild_tasks : List StripeTask → StripeMeta → S → PoolDb → PoolDb
  finish_rebuild_tasks entries meta s db =
      finish_tasks meta (unique_ids (map (λ (x : Stripe). x.pool_id) meta.stripes)) s
        (unique_ids (select (λ id. ltb 0 id) (map (λ (q : StripeTask). q.task_id) entries))) db
