-- ===== src/Pool/Worker/Soundness.antt =====
-- internal/pool/rebuild.go: what is proved of the disks and pools that a rebuild brings back.
use zenofs.Common.{
  ℕ, ◌≤◌, ◌≡◌, ap, ◌∙◌, inl, inr, Bool, true, false, ◌&&◌, List, [], ◌∷◌, ◌==◌, ltb, length, map,
  arith, Bool-cases, count, select, update_where, count_mono, count-update_le, ==→eq,
}
use zenofs.Pool.Tables.{StripeTask, StripeQueueType}
use zenofs.Pool.Disks.{Disk, PoolRow, DiskPoolStatus, ChunkHandler, is_online, is_repair}
use zenofs.Pool.Stripes.{Coder, StripeMeta}
use zenofs.Pool.Release.{member, unique_ids}
use zenofs.Pool.Worker.{PoolDb, Outcome, claim_stripe_tasks}
use zenofs.Pool.Worker.Recover.{
  is_bad, recover_pool, recover_pools, recover_after_rebuild, finish_task, finish_tasks,
  finish_rebuild_tasks, disk_data_complete,
}
use zenofs.Pool.Worker.RebuildRound.{rebuild_stripe}
use zenofs.Vfs.Crypto.{Primitives}

-- The pool with id `k`, online with a disk that is not.
abbrev pub is_unsound : ℕ → List Disk → PoolRow → Bool
is_unsound k disks p = p.id == k && (is_online p.status && ltb 0 (count (is_bad p.id) disks))

-- The rows of the pool with id `k` that are unsound.
abbrev pub unsound_pools : ℕ → PoolDb → ℕ
unsound_pools k db = count (is_unsound k db.disks) db.pools

count-update_out {ℓ} :
    {A : Type ℓ} (p q : A → Bool) (f : A → A) (xs : List A)
    → ((x : A) → q x ≡ true → p (f x) ≡ false)
    → count p (update_where q f xs) ≤ count p xs
unfolding count update_where
count-update_out p q f [] out = omega arith
count-update_out p q f (x ∷ xs) out = ground (arith, out x, count-update_out p q f xs out)

recover_pool_le :
    (k pool : ℕ) (db : PoolDb) → unsound_pools k (recover_pool pool db) ≤ unsound_pools k db
unfolding recover_pool
recover_pool_le k pool db = elim (Bool-cases (ltb 0 (count (is_bad pool) db.disks))) [
  | inl bad ↦ rw (bad) (omega arith)
  | inr good ↦ rw (good) (
      count-update_out (is_unsound k db.disks) (λ (p : PoolRow). p.id == pool)
        (λ (p : PoolRow). record p { status = DiskPoolStatus.online }) db.pools
        (λ p same.
          ground (
            arith,
            ap (λ (i : ℕ). ltb 0 (count (is_bad i) db.disks)) (==→eq p.id pool same) ∙ good,
          )))
]

recover_pools_le :
    (k : ℕ) (pools : List ℕ) (db : PoolDb)
    → unsound_pools k (recover_pools pools db) ≤ unsound_pools k db
unfolding recover_pools
recover_pools_le k [] db = omega arith
recover_pools_le k (pool ∷ pools) db =
    omega (arith, recover_pool_le k pool db, recover_pools_le k pools (recover_pool pool db))

-- Disks that come online make no pool unsound.
online_le :
    (k : ℕ) (q : Disk → Bool) (db : PoolDb)
    → unsound_pools k (record db {
      disks = update_where q (λ (d : Disk). record d { status = DiskPoolStatus.online }) db.disks;
    })
      ≤ unsound_pools k db
online_le k q db =
    let fewer = λ (i : ℕ).
      count-update_le (is_bad i) q (λ (d : Disk). record d { status = DiskPoolStatus.online })
        db.disks (λ d h. absurd (ground (arith, h))) in
    count_mono
      (is_unsound k
        (update_where q (λ (d : Disk). record d { status = DiskPoolStatus.online }) db.disks))
      (is_unsound k db.disks) db.pools (λ p h. ground (arith, h, fewer p.id))

module _ {S : Type 0} (P : Primitives) (handlers : List (ChunkHandler S)) where
  recover_after_rebuild_le :
      (k : ℕ) (meta : StripeMeta) (s : S) (db : PoolDb)
      → unsound_pools k (recover_after_rebuild P handlers meta s db) ≤ unsound_pools k db
  unfolding recover_after_rebuild
  recover_after_rebuild_le k meta s db =
      let ids = map (λ (d : Disk). d.id) meta.disks in
      let repairs = select (λ (d : Disk). member d.id ids && is_repair d.status) db.disks in
      let recovered =
        map (λ (d : Disk). d.id)
          (select (disk_data_complete P handlers db.tables.chunks s) repairs) in
      let online = λ (d : Disk). member d.id recovered && is_repair d.status in
      omega (
        arith,
        online_le k online db,
        recover_pools_le k (unique_ids (map (λ (d : Disk). d.pool_id) repairs)) (record db {
          disks =
              update_where online (λ (d : Disk). record d { status = DiskPoolStatus.online })
                db.disks;
        }),
      )

  finish_task_le :
      (k : ℕ) (meta : StripeMeta) (pools : List ℕ) (s : S) (id : ℕ) (db : PoolDb)
      → unsound_pools k (finish_task P handlers meta pools s id db) ≤ unsound_pools k db
  unfolding finish_task
  finish_task_le k meta pools s id db =
      elim (Bool-cases
        (ltb 0 (count (λ (q : StripeTask). q.task_id == id) db.tables.stripe_queue))) [
          | inl left ↦ rw (left) (omega arith)
          | inr done ↦ rw (done) (recover_after_rebuild_le k meta s db)
        ]

  finish_tasks_le :
      (k : ℕ) (meta : StripeMeta) (pools : List ℕ) (s : S) (ids : List ℕ) (db : PoolDb)
      → unsound_pools k (finish_tasks P handlers meta pools s ids db) ≤ unsound_pools k db
  unfolding finish_tasks
  finish_tasks_le k meta pools s [] db = omega arith
  finish_tasks_le k meta pools s (id ∷ ids) db = omega (
    arith,
    finish_task_le k meta pools s id db,
    finish_tasks_le k meta pools s ids (finish_task P handlers meta pools s id db),
  )

  finish_rebuild_tasks_le :
      (k : ℕ) (entries : List StripeTask) (meta : StripeMeta) (s : S) (db : PoolDb)
      → unsound_pools k (finish_rebuild_tasks P handlers entries meta s db) ≤ unsound_pools k db
  unfolding finish_rebuild_tasks
  finish_rebuild_tasks_le k entries meta s db = finish_tasks_le k meta _ s _ db

-- A round of rebuilds makes no pool unsound: for every id, the rows of that pool that are online while
-- one of the pool's disks is not are no more afterwards than before. That holds also when the metadata
-- of the stripes does not load, and when the rows of the rebuilt chunks cannot be saved.
pub rebuild_stripe-unsound_pools :
    {S : Type 0} (P : Primitives) (handlers : List (ChunkHandler S)) (coder : Coder)
    (outcome : Outcome) (db : PoolDb) (s : S) (k : ℕ)
    → unsound_pools k (rebuild_stripe P handlers coder outcome db s).db ≤ unsound_pools k db
unfolding rebuild_stripe claim_stripe_tasks
rebuild_stripe-unsound_pools P handlers coder outcome db s k =
    elim (Bool-cases (length (claim_stripe_tasks StripeQueueType.rebuild db).0 == 0)) [
      | inl idle ↦ rw (idle) (omega arith)
      | inr busy ↦ elim (Bool-cases outcome.loads) [
        | inr failed ↦ rw (busy, failed) (omega arith)
        | inl loaded ↦ elim (Bool-cases outcome.saves) [
          | inl saved ↦ rw (busy, loaded, saved) (finish_rebuild_tasks_le P handlers k _ _ _ _)
          | inr failed ↦ rw (busy, loaded, failed) (finish_rebuild_tasks_le P handlers k _ _ _ _)
        ]
      ]
    ]
