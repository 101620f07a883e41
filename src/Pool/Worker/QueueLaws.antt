-- ===== src/Pool/Worker/QueueLaws.antt =====
-- internal/pool/parity.go and internal/pool/rebuild.go: what is proved of the queue of tasks.
use zenofs.Common.{
  ◌≤◌, ◌≡◌, refl, sym, subst, inl, inr, Bool, true, false, not, ◌&&◌, List, [], ◌∷◌, ◌==◌, length,
  arith, Bool-cases, count, select, delete_where, update_where,
}
use zenofs.Pool.Tables.{TaskStatus, StripeQueueType, StripeTask, is_parity_task, is_open}
use zenofs.Pool.Disks.{ChunkHandler}
use zenofs.Pool.Stripes.{Coder}
use zenofs.Pool.Worker.{
  PoolDb, Outcome, claim_stripe_tasks, has_status, same_kind, set_status, is_running, is_pending,
}
use zenofs.Pool.Worker.ParityRound.{save_parity, calculate_stripe_parity}
use zenofs.Vfs.Crypto.{Primitives}

module _ {ℓ} {A : Type ℓ} where
  pub count-delete : (p : A → Bool) (xs : List A) → count p (delete_where p xs) ≡ 0
  unfolding count select
  count-delete p [] = refl
  count-delete p (x ∷ xs) = ground (arith, count-delete p xs)

  pub count-select_le : (p q : A → Bool) (xs : List A) → count p (select q xs) ≤ count p xs
  unfolding count select
  count-select_le p q [] = omega arith
  count-select_le p q (x ∷ xs) = ground (arith, count-select_le p q xs)

  -- An update of all the rows of a query that takes them out of it.
  pub count-update_all :
      (p : A → Bool) (f : A → A) (xs : List A)
      → ((x : A) → p (f x) ≡ false)
      → count p (update_where p f xs) ≡ 0
  unfolding count update_where
  count-update_all p f [] out = refl
  count-update_all p f (x ∷ xs) out = ground (arith, out x, count-update_all p f xs out)

  -- What two queries leave empty, a query of their rows does.
  pub count-split :
      (p q r : A → Bool) (xs : List A)
      → ((x : A) → p x ≡ true → q x ≡ false → r x ≡ true)
      → count q xs ≡ 0
      → count r xs ≡ 0
      → count p xs ≡ 0
  unfolding count
  count-split p q r [] h e f = refl
  count-split p q r (x ∷ xs) h e f = ground (arith, h x, e, f, count-split p q r xs h)

abbrev pub is_running_row : StripeTask → Bool
is_running_row q = is_running q.status

abbrev pub is_open_parity : StripeTask → Bool
is_open_parity q = is_parity_task q.kind && is_open q.status

abbrev pub is_open_rebuild : StripeTask → Bool
is_open_rebuild q = not (is_parity_task q.kind) && is_open q.status

pub claim_stripe_tasks-pending :
    (kind : StripeQueueType) (db : PoolDb)
    → count (has_status kind is_pending) (claim_stripe_tasks kind db).1.tables.stripe_queue ≡ 0
unfolding claim_stripe_tasks
claim_stripe_tasks-pending kind db =
    count-update_all (has_status kind is_pending) (set_status TaskStatus.running)
      (update_where (has_status kind is_running) (set_status TaskStatus.pending)
        db.tables.stripe_queue)
      (λ q. refl)

open_split :
    (kind : StripeQueueType) (status : TaskStatus)
    → (is_parity_task kind && is_open status) ≡ true
    → (is_pending status && same_kind kind StripeQueueType.parity) ≡ false
    → is_running status ≡ true
open_split StripeQueueType.parity TaskStatus.pending h k = absurd (ground (arith, k))
open_split StripeQueueType.parity TaskStatus.running h k = refl
open_split StripeQueueType.parity TaskStatus.success h k = absurd (ground (arith, h))
open_split StripeQueueType.parity TaskStatus.fail h k = absurd (ground (arith, h))
open_split StripeQueueType.rebuild status h k = absurd (ground (arith, h))

module _ {S : Type 0} (P : Primitives) (handlers : List (ChunkHandler S)) (coder : Coder) where
  -- A round that worked has gone past every test.
  pub calculate_stripe_parity-worked :
      (outcome : Outcome) (db : PoolDb) (s : S)
      → (calculate_stripe_parity P handlers coder outcome db s).worked ≡ true
      → (calculate_stripe_parity P handlers coder outcome db s).db.tables.stripe_queue
        ≡ delete_where is_running_row
            (claim_stripe_tasks StripeQueueType.parity db).1.tables.stripe_queue
  unfolding calculate_stripe_parity save_parity
  calculate_stripe_parity-worked outcome db s h =
      elim (Bool-cases (length (claim_stripe_tasks StripeQueueType.parity db).0 == 0)) [
        | inl idle ↦ absurd (ground (arith, idle, h))
        | inr busy ↦ elim (Bool-cases outcome.loads) [
          | inr failed ↦ absurd (ground (arith, busy, failed, h))
          | inl loaded ↦ elim (Bool-cases outcome.saves) [
            | inr failed ↦ absurd (ground (arith, busy, loaded, failed, h))
            | inl saved ↦ rw (busy, loaded, saved) refl
          ]
        ]
      ]

-- A round of parity that worked leaves no task that runs, of either kind, and no parity task that is
-- open, whether the parity of its stripe could be computed or not.
pub calculate_stripe_parity-cleared :
    {S : Type 0} (P : Primitives) (handlers : List (ChunkHandler S)) (coder : Coder)
    (outcome : Outcome) (db : PoolDb) (s : S)
    → (calculate_stripe_parity P handlers coder outcome db s).worked ≡ true
    → (count is_running_row
          (calculate_stripe_parity P handlers coder outcome db s).db.tables.stripe_queue
        ≡ 0)
      × (count is_open_parity
            (calculate_stripe_parity P handlers coder outcome db s).db.tables.stripe_queue
          ≡ 0)
calculate_stripe_parity-cleared P handlers coder outcome db s h =
    let left = (claim_stripe_tasks StripeQueueType.parity db).1.tables.stripe_queue in
    let none_runs = count-delete is_running_row left in
    let none_pends : count (has_status StripeQueueType.parity is_pending)
          (delete_where is_running_row left)
        ≡ 0 =
      omega (
        arith,
        claim_stripe_tasks-pending StripeQueueType.parity db,
        count-select_le (has_status StripeQueueType.parity is_pending) (λ q. not (is_running_row q))
            left,
      ) in
    subst
      (λ (queue : List StripeTask).
        (count is_running_row queue ≡ 0) × (count is_open_parity queue ≡ 0))
      (sym (calculate_stripe_parity-worked P handlers coder outcome db s h))
      (
        none_runs,
        count-split is_open_parity (has_status StripeQueueType.parity is_pending) is_running_row
            (delete_where is_running_row left) (λ q. open_split q.kind q.status) none_pends
            none_runs,
      )
