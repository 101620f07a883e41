-- ===== src/Pool/Stripes/Rebuild/Shortage.antt =====
-- internal/pool/rebuild.go: a stripe with too few shards.
use zenofs.Common.{
  ℕ, zero, suc, ◌+◌, ◌≤◌, ◌<◌, ◌≡◌, refl, ap, inl, inr, Bool, false, not, Option, none, some, List,
  [], ◌∷◌, ◌==◌, ltb, map, arith, if◌then◌else◌, Bool-cases, Option-cases, count, find_by,
}
use zenofs.Pool.Disks.{Disk, ChunkHandler}
use zenofs.Pool.Stripes.{Coder, StripeJob, Shard, shard_array, shard_at, max_size}
use zenofs.Pool.Stripes.Rebuild.{
  is_lost, padded, shard_refs, reconstruct_shards, rebuild_stripe_job,
}
use zenofs.Pool.Stripes.Rebuild.Whole.{is_erased}
use zenofs.Pool.Stripes.Rebuild.Slots.{shard_array_skip, shard_at_head}
use zenofs.Vfs.Crypto.{Bytes, Primitives}

abbrev pub is_there : Option Bytes → Bool
is_there o = not (is_erased o)

abbrev pub is_read : Shard → Bool
is_read s = not (is_lost s)

-- The package recovers nothing from fewer shards than there are data shards.
abbrev pub NeedsData : Coder → ℕ → ℕ → Type 0
NeedsData coder ds ps =
    (slots : List (Option Bytes)) → count is_there slots < ds → coder.reconstruct ds ps slots ≡ none

shard_at_other :
    (ref : Shard) (refs : List Shard) (i : ℕ)
    → (ref.shard_idx == i) ≡ false
    → shard_at (ref ∷ refs) i ≡ shard_at refs i
unfolding find_by
shard_at_other ref refs i e = rw (e, shard_at) refl

shard_array_nil : (n i : ℕ) → count is_there (shard_array [] n i) ≡ 0
unfolding shard_array count find_by
shard_array_nil zero i = refl
shard_array_nil (suc n) i = shard_array_nil n (suc i)

-- A shard stands in one place at most.
count-shard :
    (ref : Shard) (refs : List Shard) (n i : ℕ)
    → count is_there (shard_array (ref ∷ refs) n i)
      ≤ count is_there (shard_array refs n i) + (if is_read ref then 1 else 0)
unfolding shard_array count
count-shard ref refs zero i = omega arith
count-shard ref refs (suc n) i = elim (Bool-cases (ref.shard_idx == i)) [
  | inl here ↦
      let at : ref.shard_idx ≡ i = ground (arith, here) in
      rw (shard_at_head ref refs i at, shard_array_skip ref refs n (suc i) (omega (arith, at)))
        (elim (Option-cases ref.bytes) [
          | inl gone ↦ rw (gone) (ground arith)
          | inr (x, there) ↦ rw (there) (ground arith)
        ])
  | inr other ↦
      rw (shard_at_other ref refs i other) (ground (arith, count-shard ref refs n (suc i)))
]

count-shards :
    (refs : List Shard) (n i : ℕ) → count is_there (shard_array refs n i) ≤ count is_read refs
unfolding count
count-shards [] n i = omega (arith, shard_array_nil n i)
count-shards (ref ∷ refs) n i = ground (arith, count-shard ref refs n i, count-shards refs n i)

count-padded :
    (m : ℕ) (slots : List (Option Bytes))
    → count is_there (map (padded m) slots) ≡ count is_there slots
unfolding count
count-padded m [] = refl
count-padded m (none ∷ slots) = count-padded m slots
count-padded m (some b ∷ slots) = ap suc (count-padded m slots)

reconstruct_shards_short :
    (coder : Coder) (job : StripeJob) (refs : List Shard)
    → NeedsData coder job.ds job.ps
    → count is_read refs < job.ds
    → reconstruct_shards coder job refs ≡ none
unfolding reconstruct_shards
reconstruct_shards_short coder job refs needs h =
    let slots = shard_array refs (job.ds + job.ps) 0 in
    elim (Bool-cases (max_size slots == 0)) [
      | inl nothing ↦ rw (nothing) refl
      | inr sized ↦ rw (sized) (
          needs (map (padded (max_size slots)) slots) (
            omega (
              arith,
              h,
              count-padded (max_size slots) slots,
              count-shards refs (job.ds + job.ps) 0,
            )))
    ]

-- A stripe with a lost file of which fewer shards can be read than it has data slots, written or not,
-- is not rebuilt: nothing is written, and the job fails. The slots that no chunk has been written to do
-- not count as read, although the parity was computed with zeros in them. Relied on: the Reed-Solomon
-- package recovers nothing from fewer shards than there are data shards.
pub rebuild_stripe_job_short :
    {S : Type 0} (P : Primitives) (coder : Coder) (handlers : List (ChunkHandler S))
    (disks : List Disk) (s : S) (job : StripeJob)
    → NeedsData coder job.ds job.ps
    → 0 < count is_lost (shard_refs P handlers disks s job)
    → count is_read (shard_refs P handlers disks s job) < job.ds
    → rebuild_stripe_job P coder handlers disks job s
      ≡ record { chunks = []; complete = false; disks = s }
unfolding rebuild_stripe_job
rebuild_stripe_job_short P coder handlers disks s job needs lost few =
    let refs = shard_refs P handlers disks s job in
    let some_lost : (count is_lost refs == 0) ≡ false = ground (arith, lost) in
    elim (Bool-cases (ltb job.ps (count is_lost refs))) [
      | inl many ↦ rw (some_lost, many) refl
      | inr fits ↦ rw (some_lost, fits, reconstruct_shards_short coder job refs needs few) refl
    ]
