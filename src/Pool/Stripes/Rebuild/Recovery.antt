-- ===== src/Pool/Stripes/Rebuild/Recovery.antt =====
-- internal/pool/rebuild.go: what is proved of the recovery of a whole stripe.
use zenofs.Common.{
  ℕ, ◌+◌, ◌≤◌, ◌<◌, ◌≡◌, refl, sym, ap, ◌∙◌, subst, inl, inr, Bool, true, false, Option, some, List,
  [], ◌∷◌, ◌++◌, ◌==◌, ltb, length, get_or, map, select, All, arith, max, Bool-cases, count,
}
use zenofs.Pool.Tables.{Chunk}
use zenofs.Pool.Disks.{Disk, ChunkHandler, read_chunk}
use zenofs.Pool.Stripes.{Coder, StripeJob, Shard, shard_array, max_size}
use zenofs.Pool.Stripes.Rebuild.{
  is_lost, padded, shard_refs, reconstruct_shards, rebuild_stripe_job, Rebuilt,
}
use zenofs.Pool.Stripes.Rebuild.Whole.{IsWhole, IsFiles, content, Recovers, Apart}
use zenofs.Pool.Stripes.Rebuild.Restores.{recorded, original, IsGood, CanWrite, write_shards-Step}
use zenofs.Pool.Stripes.Rebuild.Slots.{
  IsRead, shard_array-InOrder, slots_agree, count-erased, max_size-append, max_size_le,
  max_size_full, map-bytes,
}
use zenofs.Pool.Stripes.Rebuild.Refs.{
  All-append, All-imp, whole-refs, data_refs, parity_refs, shard_of, length-map,
}
use zenofs.Vfs.Crypto.{Bytes, Primitives}

map-append {ℓ κ} :
    {A : Type ℓ} {B : Type κ} (f : A → B) (xs ys : List A) → map f (xs ++ ys) ≡ map f xs ++ map f ys
map-append f [] ys = refl
map-append f (x ∷ xs) ys = ap (λ (zs : List _). f x ∷ zs) (map-append f xs ys)

count-both {ℓ} :
    {A : Type ℓ} (p : A → Bool) (xs ys : List A) → count p (xs ++ ys) ≡ count p xs + count p ys
unfolding count
count-both p [] ys = omega arith
count-both p (x ∷ xs) ys = ground (arith, count-both p xs ys)

select-count_zero {ℓ} :
    {A : Type ℓ} (p : A → Bool) (xs : List A) → count p xs ≡ 0 → select p xs ≡ []
unfolding count select
select-count_zero p [] h = refl
select-count_zero p (x ∷ xs) h = ground (arith, h, select-count_zero p xs)

module _ {S : Type 0} (P : Primitives) (handlers : List (ChunkHandler S)) (disks : List Disk)
    (s : S) where
  map-original :
      (cw : List Bytes) (cs : List Chunk)
      → map
          (λ (x : Shard). some (original cw x))
          (map (shard_of P handlers disks s (λ (c : Chunk). c.index)) cs)
        ≡ map (λ (c : Chunk). some (content c (get_or cw c.index []))) cs
  map-original cw [] = refl
  map-original cw (c ∷ cs) =
      ap (λ (xs : List (Option Bytes)). some (content c (get_or cw c.index [])) ∷ xs)
        (map-original cw cs)

  full_parity :
      (m : ℕ) (cw : List Bytes) (d : ℕ) (cs : List Chunk)
      → All (λ (c : Chunk). content c (get_or cw (d + c.index) []) ≡ get_or cw (d + c.index) []) cs
      → All
          (λ (x : Shard). original cw x ≡ get_or cw x.shard_idx [])
          (map (shard_of P handlers disks s (λ (c : Chunk). d + c.index)) cs)
  full_parity m cw d [] h = _
  full_parity m cw d (c ∷ cs) h = (h.0, full_parity m cw d cs h.1)

  all_restored :
      (m : ℕ) (cw : List Bytes) (refs : List Shard)
      → count is_lost refs ≡ 0
      → All (IsGood P handlers disks m cw s) refs
      → All (λ (x : Shard). read_chunk handlers disks s x.chunk ≡ some (original cw x)) refs
  unfolding count
  all_restored m cw [] h good = _
  all_restored m cw (ref ∷ refs) h good = elim (Bool-cases (is_lost ref)) [
    | inl lost ↦ absurd (ground (arith, lost, h))
    | inr kept ↦ (good.0.1 kept, all_restored m cw refs (ground (arith, kept, h)) good.1)
  ]

  module _ (coder : Coder) (m : ℕ) (job : StripeJob) (cw : List Bytes)
      (whole : IsWhole P coder m job cw) where
    abbrev refs : List Shard
    refs = data_refs P handlers disks s job ++ parity_refs P handlers disks s job

    whole_longest :
        count is_lost refs ≤ job.ps
        → m
          ≤ max
              (max_size (map (λ (x : Shard). x.bytes) (data_refs P handlers disks s job)))
              (max_size (map (λ (x : Shard). x.bytes) (parity_refs P handlers disks s job)))
    whole_longest few =
        let w = whole-refs P handlers disks s coder m job cw whole in
        let d = data_refs P handlers disks s job in
        let p = parity_refs P handlers disks s job in
        elim (Bool-cases (count is_lost d == 0)) [
          | inl all ↦
              let e =
                ap max_size (
                  map-bytes P m cw d w.data_reads (ground (arith, all))
                  ∙ map-original cw job.data_chunks)
                ∙ whole.longest in
              omega (arith, e)
          | inr lost ↦
              let some_left : count is_lost p < length p = ground (
                arith,
                lost,
                few,
                count-both is_lost d p,
                length-map (shard_of P handlers disks s (λ (c : Chunk). job.ds + c.index))
                    job.parity_by_index,
                whole.parity_count,
              ) in
              let e =
                max_size_full P m cw p w.parity_reads
                  (full_parity m cw job.ds job.parity_by_index
                    (All-imp job.parity_by_index (λ c h. h.1.0) whole.parity_rows))
                  some_left in
              omega (arith, e)
        ]

    whole_max_size : count is_lost refs ≤ job.ps → max_size (map (λ (x : Shard). x.bytes) refs) ≡ m
    whole_max_size few =
        let w = whole-refs P handlers disks s coder m job cw whole in
        let d = data_refs P handlers disks s job in
        let p = parity_refs P handlers disks s job in
        ap max_size (map-append (λ (x : Shard). x.bytes) d p)
        ∙ max_size-append (map (λ (x : Shard). x.bytes) d) (map (λ (x : Shard). x.bytes) p)
        ∙ omega (
          arith,
          whole_longest few,
          max_size_le P m cw d w.data_reads,
          max_size_le P m cw p w.parity_reads,
        )

    whole_reconstruct :
        Recovers coder job.ds job.ps
        → count is_lost refs ≤ job.ps
        → reconstruct_shards coder job refs ≡ some cw
    unfolding reconstruct_shards
    whole_reconstruct recovers few =
        let w = whole-refs P handlers disks s coder m job cw whole in
        let slots : shard_array refs (job.ds + job.ps) 0 ≡ map (λ (x : Shard). x.bytes) refs =
          subst (λ (n : ℕ). shard_array refs n 0 ≡ map (λ (x : Shard). x.bytes) refs) w.total
            (shard_array-InOrder refs 0 w.order) in
        let big : (m == 0) ≡ false = ground (arith, whole.positive) in
        rw (slots, whole_max_size few, big)
          (recovers m cw (map (padded m) (map (λ (x : Shard). x.bytes) refs)) whole.codeword
            (length-map (padded m) (map (λ (x : Shard). x.bytes) refs)
              ∙ length-map (λ (x : Shard). x.bytes) refs
              ∙ w.total)
            (λ i b h.
              slots_agree P m cw refs 0 i b w.order reads h
              ∙ ap (λ (j : ℕ). get_or cw j []) (omega arith))
            (omega (arith, count-erased m refs, few)))
      where
        reads : All (IsRead P m cw) refs
        reads =
            let w = whole-refs P handlers disks s coder m job cw whole in
            All-append (IsRead P m cw) (data_refs P handlers disks s job)
              (parity_refs P handlers disks s job) w.data_reads w.parity_reads

-- The rows of the chunks that were lost, with all else.
pub record Restored {S : Type 0} (handlers : List (ChunkHandler S)) (disks : List Disk)
    (cw : List Bytes) (refs : List Shard) (r : Rebuilt S) : Type 0 where
  pub complete : r.complete ≡ true
  pub chunks : r.chunks ≡ map recorded (select is_lost refs)
  pub files :
      All (λ (x : Shard). read_chunk handlers disks r.disks x.chunk ≡ some (original cw x)) refs

-- A stripe whose data slots are all written and whose parity is up to date, with as many of its files
-- lost, unreadable or corrupt as it has parity chunks, or fewer: the rebuild is complete when these
-- can be written, afterwards each chunk of the stripe reads as its original bytes, and the size and the
-- hash saved for each lost chunk are those that its row already had. Relied on: the Reed-Solomon
-- package recovers that many shards of a stripe, no other bytes have the hash of a chunk, and no two
-- chunks share a file.
pub rebuild_stripe_job-Restored :
    {S : Type 0} (P : Primitives) (coder : Coder) (handlers : List (ChunkHandler S))
    (disks : List Disk) (s : S) (m : ℕ) (job : StripeJob) (cw : List Bytes)
    → IsWhole P coder m job cw
    → Recovers coder job.ds job.ps
    → IsFiles handlers disks
    → All (λ (x : Shard). CanWrite P handlers disks x.chunk) (shard_refs P handlers disks s job)
    → Apart (map (λ (x : Shard). x.chunk) (shard_refs P handlers disks s job))
    → count is_lost (shard_refs P handlers disks s job) ≤ job.ps
    → Restored handlers disks cw
        (shard_refs P handlers disks s job)
        (rebuild_stripe_job P coder handlers disks job s)
unfolding rebuild_stripe_job
rebuild_stripe_job-Restored P coder handlers disks s m job cw whole recovers files writes apart
      few =
    let w = whole-refs P handlers disks s coder m job cw whole in
    let all = shard_refs P handlers disks s job in
    let good : All (IsGood P handlers disks m cw s) all =
      subst (λ (rs : List Shard). All (IsGood P handlers disks m cw s) rs) (sym w.refs) w.good in
    let shards : reconstruct_shards coder job all ≡ some cw =
      subst (λ (rs : List Shard). reconstruct_shards coder job rs ≡ some cw) (sym w.refs)
        (whole_reconstruct P handlers disks s coder m job cw whole recovers
          (subst (λ (rs : List Shard). count is_lost rs ≤ job.ps) w.refs few)) in
    elim (Bool-cases (count is_lost all == 0)) [
      | inl none_lost ↦
          let zero_lost : count is_lost all ≡ 0 = ground (arith, none_lost) in
          rw (none_lost) (record {
            complete = refl;
            chunks = sym (ap (map recorded) (select-count_zero is_lost all zero_lost));
            files = all_restored P handlers disks s m cw all zero_lost good;
          })
      | inr lost ↦
          let enough : ltb job.ps (count is_lost all) ≡ false = ground (arith, few) in
          let step =
            write_shards-Step P handlers disks m cw all
              (record { chunks = []; complete = true; disks = s }) files writes apart good in
          rw (lost, enough, shards)
            (record { complete = step.complete; chunks = step.chunks; files = step.restored })
    ]
