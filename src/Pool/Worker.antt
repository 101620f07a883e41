-- ===== src/Pool/Worker.antt =====
-- internal/pool/parity.go and internal/pool/rebuild.go: the queue of tasks on stripes, and the rows that
-- a round of the worker reads.
use zenofs.Common.{
  ℕ, Bool, true, false, not, ◌&&◌, ◌||◌, Option, none, some, List, [], ◌∷◌, ◌++◌, map, ◌==◌,
  if◌then◌else◌, length, select, update_where, delete_where,
}
use zenofs.Pool.Tables.{Tables, TaskStatus, StripeQueueType, StripeTask, Chunk, is_open}
use zenofs.Pool.Disks.{Disk, PoolRow, Stripe}
use zenofs.Pool.Stripes.{StripeMeta}
use zenofs.Pool.Release.{member, unique_ids}
pub mod ParityRound
pub mod Recover
pub mod RebuildRound
pub mod Enqueue
pub mod QueueLaws
pub mod Stalled
pub mod Soundness
pub mod EnqueueLaws
mod Examples

-- A rebuild of the pool that its name holds.
pub record Task : Type 0 where
  pub id : ℕ
  pub name : ℕ
  pub status : TaskStatus

pub record PoolDb : Type 0 where
  pub tables : Tables
  pub stripes : List Stripe
  pub pools : List PoolRow
  pub disks : List Disk
  pub tasks : List Task

abbrev pub is_pending : TaskStatus → Bool
is_pending TaskStatus.pending = true
is_pending _ = false

abbrev pub is_running : TaskStatus → Bool
is_running TaskStatus.running = true
is_running _ = false

abbrev pub same_kind : StripeQueueType → StripeQueueType → Bool
same_kind StripeQueueType.parity StripeQueueType.parity = true
same_kind StripeQueueType.rebuild StripeQueueType.rebuild = true
same_kind _ _ = false

abbrev pub with_queue : PoolDb → List StripeTask → PoolDb
with_queue db queue = record db { tables = record db.tables { stripe_queue = queue } }

abbrev pub has_status : StripeQueueType → (TaskStatus → Bool) → StripeTask → Bool
has_status kind p q = p q.status && same_kind q.kind kind

abbrev pub set_status : TaskStatus → StripeTask → StripeTask
set_status status q = record q { status = status }

-- What a round that stopped in the middle has left is pending again; then all that is pending is taken.
unfoldable pub claim_stripe_tasks : StripeQueueType → PoolDb → List StripeTask × PoolDb
claim_stripe_tasks kind db =
    let queue =
      update_where (has_status kind is_running) (set_status TaskStatus.pending)
        db.tables.stripe_queue in
    (
      select (has_status kind is_pending) queue,
      with_queue db
          (update_where (has_status kind is_pending) (set_status TaskStatus.running) queue),
    )

unfoldable pub stripe_ids_of : List StripeTask → List ℕ
stripe_ids_of entries = unique_ids (map (λ (q : StripeTask). q.stripe_id) entries)

unfoldable pub load_stripe_meta : List ℕ → PoolDb → StripeMeta
load_stripe_meta ids db =
    let stripes = select (λ (s : Stripe). member s.id ids) db.stripes in
    let pool_ids = unique_ids (map (λ (s : Stripe). s.pool_id) stripes) in
    record {
      stripes = stripes;
      pools = select (λ (p : PoolRow). member p.id pool_ids) db.pools;
      disks = select (λ (d : Disk). member d.pool_id pool_ids) db.disks;
      chunks = select (λ (c : Chunk). member c.stripe_id ids) db.tables.chunks;
    }

-- Whether the queries of a round and what it saves go through.
pub record Outcome : Type 0 where
  pub loads : Bool
  pub saves : Bool

-- Whether a round did something, the rows, and the files of the disks.
pub record Round (S : Type 0) : Type 0 where
  pub worked : Bool
  pub db : PoolDb
  pub files : S
