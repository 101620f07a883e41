-- ===== src/Pool/Worker/ParityRound.antt =====
-- internal/pool/parity.go: a round of parity. Stripes are computed in parallel there, each with files of
-- its own; here one after the other.
use zenofs.Common.{
  ℕ, true, false, not, Option, none, some, List, [], ◌∷◌, ◌++◌, map, ◌==◌, if◌then◌else◌, length,
  update_where, delete_where, find_by, exists_in,
}
use zenofs.Pool.Tables.{Chunk, ChunkStatus, StripeQueueType, StripeTask}
use zenofs.Pool.Disks.{ChunkHandler}
use zenofs.Pool.Stripes.{Coder, StripeJob, StripeMeta, build_stripe_job}
use zenofs.Pool.Stripes.Parity.{StripeResult, compute_stripe}
use zenofs.Pool.Worker.{
  PoolDb, Outcome, Round, claim_stripe_tasks, stripe_ids_of, load_stripe_meta, with_queue,
  is_running,
}
use zenofs.Vfs.Crypto.{Bytes, Primitives}

pub record ParityUpdate : Type 0 where
  pub id : ℕ
  pub size : ℕ
  pub hash : Bytes

-- A result names its chunk by the index; without a row the id is 0.
abbrev parity_update : List Chunk → StripeResult → ParityUpdate
parity_update parity r = record {
  id = elim (find_by (λ (c : Chunk). c.index == r.parity_idx) parity) [ none ↦ 0 | some c ↦ c.id ];
  size = length r.parity_data;
  hash = r.parity_hash;
}

abbrev updated_parity : List ParityUpdate → Chunk → Chunk
updated_parity updates c = elim (find_by (λ (u : ParityUpdate). u.id == c.id) updates) [
  | none ↦ c
  | some u ↦ record c { status = ChunkStatus.allocated; size = u.size; hash = some u.hash }
]

unfoldable pub save_parity : List ParityUpdate → PoolDb → PoolDb
save_parity updates db = record db {
  tables = record db.tables {
    chunks =
        update_where (λ (c : Chunk). exists_in (λ (u : ParityUpdate). u.id == c.id) updates)
          (updated_parity updates) db.tables.chunks;
  };
}

module _ {S : Type 0} (P : Primitives) (handlers : List (ChunkHandler S)) (coder : Coder) where
  abbrev computed :
      StripeJob → Option (List StripeResult) × S → List ParityUpdate → List ParityUpdate × S
  computed job (none, s) updates = (updates, s)
  computed job (some results, s) updates =
      (updates ++ map (parity_update job.parity_by_index) results, s)

  -- Stripes without written data are left out; what fails is not saved.
  unfoldable pub compute_stripes :
      StripeMeta → List ℕ → List ParityUpdate → S → List ParityUpdate × S
  compute_stripes meta [] updates s = (updates, s)
  compute_stripes meta (id ∷ ids) updates s = elim (build_stripe_job meta id) [
    | none ↦ compute_stripes meta ids updates s
    | some job ↦
        let next =
          if length job.data_chunks == 0
          then (updates, s)
          else computed job (compute_stripe P handlers coder meta.disks job s) updates in
        compute_stripes meta ids next.0 next.1
  ]

  unfoldable pub calculate_stripe_parity : Outcome → PoolDb → S → Round S
  calculate_stripe_parity outcome db s =
      let claimed = claim_stripe_tasks StripeQueueType.parity db in
      let ids = stripe_ids_of claimed.0 in
      let meta = load_stripe_meta ids claimed.1 in
      let done = compute_stripes meta ids [] s in
      let saved = save_parity done.0 claimed.1 in
      if length claimed.0 == 0
      then record { worked = false; db = claimed.1; files = s }
      else if not outcome.loads
      then record { worked = false; db = claimed.1; files = s }
      else if not outcome.saves
      then record { worked = false; db = claimed.1; files = done.1 }
      else record {
        worked = true;
        db =
            with_queue saved
              (delete_where (λ (q : StripeTask). is_running q.status) saved.tables.stripe_queue);
        files = done.1;
      }
