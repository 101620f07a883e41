-- ===== src/Pool/Worker/Stalled.antt =====
-- internal/pool/parity.go and internal/pool/rebuild.go: what is proved of a job whose tasks are lost.
use zenofs.Common.{
  ℕ, ◌≡◌, refl, sym, ap, ◌∙◌, inl, inr, Bool, true, false, not, ◌&&◌, List, [], ◌∷◌, ◌==◌, length,
  arith, Bool-cases, count, delete_where, update_where, exists_in,
}
use zenofs.Pool.Tables.{TaskStatus, StripeQueueType, StripeTask, is_parity_task, is_open}
use zenofs.Pool.Disks.{ChunkHandler}
use zenofs.Pool.Stripes.{Coder}
use zenofs.Pool.Worker.{
  PoolDb, Outcome, Round, claim_stripe_tasks, has_status, same_kind, set_status, is_running,
  is_pending,
}
use zenofs.Pool.Worker.ParityRound.{save_parity, calculate_stripe_parity}
use zenofs.Pool.Worker.RebuildRound.{rebuild_stripe}
use zenofs.Pool.Worker.Enqueue.{rebuild_pool, is_active}
use zenofs.Vfs.Crypto.{Primitives}
use zenofs.Pool.Worker.QueueLaws.{
  count-delete, count-select_le, count-split, is_running_row, is_open_rebuild,
  claim_stripe_tasks-pending, calculate_stripe_parity-worked,
}

open_rebuild_split :
    (kind : StripeQueueType) (status : TaskStatus)
    → (not (is_parity_task kind) && is_open status) ≡ true
    → (is_pending status && same_kind kind StripeQueueType.rebuild) ≡ false
    → is_running status ≡ true
open_rebuild_split StripeQueueType.rebuild TaskStatus.pending h k = absurd (ground (arith, k))
open_rebuild_split StripeQueueType.rebuild TaskStatus.running h k = refl
open_rebuild_split StripeQueueType.rebuild TaskStatus.success h k = absurd (ground (arith, h))
open_rebuild_split StripeQueueType.rebuild TaskStatus.fail h k = absurd (ground (arith, h))
open_rebuild_split StripeQueueType.parity status h k = absurd (ground (arith, h))

-- A claim of one kind leaves the rows of the other as they are.
claim_pending_other :
    (kind : StripeQueueType) (status to : TaskStatus) (p : TaskStatus → Bool)
    → (is_pending status && same_kind kind StripeQueueType.rebuild) ≡ false
    → (p status && same_kind kind StripeQueueType.parity) ≡ true
    → (is_pending to && same_kind kind StripeQueueType.rebuild) ≡ false
claim_pending_other StripeQueueType.parity status TaskStatus.pending p h k = refl
claim_pending_other StripeQueueType.parity status TaskStatus.running p h k = refl
claim_pending_other StripeQueueType.parity status TaskStatus.success p h k = refl
claim_pending_other StripeQueueType.parity status TaskStatus.fail p h k = refl
claim_pending_other StripeQueueType.rebuild status to p h k = elim (Bool-cases (p status)) [
  | inl fits ↦ absurd (ground (arith, fits, k))
  | inr other ↦ absurd (ground (arith, other, k))
]

update_keeps_none :
    (p : TaskStatus → Bool) (to : TaskStatus) (queue : List StripeTask)
    → count (has_status StripeQueueType.rebuild is_pending) queue ≡ 0
    → count
        (has_status StripeQueueType.rebuild is_pending)
        (update_where (has_status StripeQueueType.parity p) (set_status to) queue)
      ≡ 0
unfolding count update_where
update_keeps_none p to [] h = refl
update_keeps_none p to (q ∷ qs) h =
    ground (arith, h, claim_pending_other q.kind q.status to p, update_keeps_none p to qs)

claim-other :
    (db : PoolDb)
    → count (has_status StripeQueueType.rebuild is_pending) db.tables.stripe_queue ≡ 0
    → count
        (has_status StripeQueueType.rebuild is_pending)
        (claim_stripe_tasks StripeQueueType.parity db).1.tables.stripe_queue
      ≡ 0
unfolding claim_stripe_tasks
claim-other db h =
    update_keeps_none is_pending TaskStatus.running
      (update_where (has_status StripeQueueType.parity is_running) (set_status TaskStatus.pending)
        db.tables.stripe_queue)
      (update_keeps_none is_running TaskStatus.pending db.tables.stripe_queue h)

module _ {S : Type 0} (P : Primitives) (handlers : List (ChunkHandler S)) (coder : Coder) where
  rebuild_stripe_unloaded :
      (outcome : Outcome) (db : PoolDb) (s : S)
      → outcome.loads ≡ false
      → (rebuild_stripe P handlers coder outcome db s).db
        ≡ (claim_stripe_tasks StripeQueueType.rebuild db).1
  unfolding rebuild_stripe
  rebuild_stripe_unloaded outcome db s failed =
      elim (Bool-cases (length (claim_stripe_tasks StripeQueueType.rebuild db).0 == 0)) [
        | inl idle ↦ rw (idle) refl
        | inr busy ↦ rw (busy, failed) refl
      ]

  claim_stripe_tasks_tasks :
      (kind : StripeQueueType) (db : PoolDb) → (claim_stripe_tasks kind db).1.tasks ≡ db.tasks
  unfolding claim_stripe_tasks
  claim_stripe_tasks_tasks kind db = refl

  calculate_stripe_parity_tasks :
      (outcome : Outcome) (db : PoolDb) (s : S)
      → (calculate_stripe_parity P handlers coder outcome db s).worked ≡ true
      → (calculate_stripe_parity P handlers coder outcome db s).db.tasks ≡ db.tasks
  unfolding calculate_stripe_parity save_parity
  calculate_stripe_parity_tasks outcome db s h =
      elim (Bool-cases (length (claim_stripe_tasks StripeQueueType.parity db).0 == 0)) [
        | inl idle ↦ absurd (ground (arith, idle, h))
        | inr busy ↦ elim (Bool-cases outcome.loads) [
          | inr failed ↦ absurd (ground (arith, busy, failed, h))
          | inl loaded ↦ elim (Bool-cases outcome.saves) [
            | inr failed ↦ absurd (ground (arith, busy, loaded, failed, h))
            | inl saved ↦
                rw (busy, loaded, saved) (claim_stripe_tasks_tasks StripeQueueType.parity db)
          ]
        ]
      ]

-- A round of rebuilds whose queries fail, then a round of parity that worked: no rebuild is queued any
-- more, for any pool, but a job that was open for a pool still is, so that a new job for the pool is
-- refused and nothing changes.
pub rebuild_stripe-stalled :
    {S : Type 0} (P : Primitives) (handlers : List (ChunkHandler S)) (coder : Coder)
    (failing outcome : Outcome) (db : PoolDb) (s : S) (job pool : ℕ) (r q : Round S)
    → failing.loads ≡ false
    → exists_in (is_active pool) db.tasks ≡ true
    → r ≡ rebuild_stripe P handlers coder failing db s
    → q ≡ calculate_stripe_parity P handlers coder outcome r.db r.files
    → q.worked ≡ true
    → (count is_open_rebuild q.db.tables.stripe_queue ≡ 0)
      × (rebuild_pool job pool q.db ≡ (0, q.db))
unfolding rebuild_pool
rebuild_stripe-stalled P handlers coder failing outcome db s job pool r q failed active re qe
      worked =
    let round = calculate_stripe_parity P handlers coder outcome r.db r.files in
    let works : round.worked ≡ true = ap (λ (x : Round _). x.worked) (sym qe) ∙ worked in
    let rows =
      ap (λ (x : Round _). x.db) re
      ∙ rebuild_stripe_unloaded P handlers coder failing db s failed in
    let left = (claim_stripe_tasks StripeQueueType.parity r.db).1.tables.stripe_queue in
    let queue =
      ap (λ (x : Round _). x.db.tables.stripe_queue) qe
      ∙ calculate_stripe_parity-worked P handlers coder outcome r.db r.files works in
    let tasks =
      ap (λ (x : Round _). x.db.tasks) qe
      ∙ calculate_stripe_parity_tasks P handlers coder outcome r.db r.files works
      ∙ ap (λ (x : PoolDb). x.tasks) rows
      ∙ claim_stripe_tasks_tasks P handlers coder StripeQueueType.rebuild db in
    let pends = claim-other r.db (
      ap
        (λ (x : PoolDb).
          count (has_status StripeQueueType.rebuild is_pending) x.tables.stripe_queue)
        rows
      ∙ claim_stripe_tasks-pending StripeQueueType.rebuild db) in
    let none_pends : count (has_status StripeQueueType.rebuild is_pending)
          (delete_where is_running_row left)
        ≡ 0 =
      omega (
        arith,
        pends,
        count-select_le (has_status StripeQueueType.rebuild is_pending)
            (λ x. not (is_running_row x)) left,
      ) in
    let still : exists_in (is_active pool) q.db.tasks ≡ true =
      ap (exists_in (is_active pool)) tasks ∙ active in
    (
      ap (count is_open_rebuild) queue
          ∙ count-split is_open_rebuild (has_status StripeQueueType.rebuild is_pending)
              is_running_row (delete_where is_running_row left)
              (λ x. open_rebuild_split x.kind x.status) none_pends
              (count-delete is_running_row left),
      rw (still) refl,
    )
