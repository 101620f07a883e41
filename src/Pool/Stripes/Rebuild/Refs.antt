-- ===== src/Pool/Stripes/Rebuild/Refs.antt =====
-- internal/pool/rebuild.go: lemmas on the shards of a whole stripe as they are read.
use zenofs.Common.{
  ℕ, suc, ◌+◌, ◌≡◌, refl, sym, ap, ◌∙◌, inl, inr, Bool, true, some, List, [], ◌∷◌, ◌++◌, length,
  get_or, map, select, All, arith, Bool-cases, Option-cases, some_injective, length-append,
}
use zenofs.Pool.Tables.{Chunk, is_allocated}
use zenofs.Pool.Disks.{Disk, ChunkHandler, read_chunk, read_verified_chunk, hash_of}
use zenofs.Pool.Stripes.{Coder, StripeJob, Shard}
use zenofs.Pool.Stripes.Rebuild.{is_lost, shard_refs}
use zenofs.Pool.Stripes.Rebuild.Whole.{IsShard, IsWhole, content, InOrder}
use zenofs.Pool.Stripes.Rebuild.Restores.{IsGood}
use zenofs.Pool.Stripes.Rebuild.Slots.{IsRead}
use zenofs.Vfs.Crypto.{Bytes, Primitives, hash_equal}

pub All-append {ℓ κ} :
    {A : Type ℓ} (Q : A → Type κ) (xs ys : List A) → All Q xs → All Q ys → All Q (xs ++ ys)
All-append Q [] ys h k = k
All-append Q (x ∷ xs) ys h k = (h.0, All-append Q xs ys h.1 k)

pub InOrder-append {ℓ} :
    {A : Type ℓ} (idx : A → ℕ) (i j : ℕ) (xs ys : List A)
    → InOrder idx i xs
    → i + length xs ≡ j
    → InOrder idx j ys
    → InOrder idx i (xs ++ ys)
InOrder-append idx i j [] ys h e k = let same : i ≡ j = omega (arith, e) in rw (same) k
InOrder-append idx i j (x ∷ xs) ys h e k =
    (h.0, InOrder-append idx (suc i) j xs ys h.1 (omega (arith, e)) k)

pub InOrder-add :
    (d i j : ℕ) (cs : List Chunk)
    → d + i ≡ j
    → InOrder (λ (c : Chunk). c.index) i cs
    → InOrder (λ (c : Chunk). d + c.index) j cs
InOrder-add d i j [] e h = _
InOrder-add d i j (c ∷ cs) e h =
    (ap (λ (n : ℕ). d + n) h.0 ∙ e, InOrder-add d (suc i) (suc j) cs (omega (arith, e)) h.1)

pub select_all {ℓ} :
    {A : Type ℓ} (p : A → Bool) (xs : List A) → All (λ (x : A). p x ≡ true) xs → select p xs ≡ xs
unfolding select
select_all p [] h = refl
select_all p (x ∷ xs) h = rw (h.0) (ap (λ (ys : List _). x ∷ ys) (select_all p xs h.1))

pub All-imp {ℓ κ μ} :
    {A : Type ℓ} {Q : A → Type κ} {R : A → Type μ} (xs : List A)
    → ((x : A) → Q x → R x)
    → All Q xs
    → All R xs
All-imp [] f h = _
All-imp (x ∷ xs) f h = (f x h.0, All-imp xs f h.1)

pub length-map {ℓ κ} :
    {A : Type ℓ} {B : Type κ} (f : A → B) (xs : List A) → length (map f xs) ≡ length xs
length-map f [] = refl
length-map f (x ∷ xs) = ap suc (length-map f xs)

module _ {S : Type 0} (P : Primitives) (handlers : List (ChunkHandler S)) (disks : List Disk)
    (s : S) where
  -- The chunk as the `i`-th shard.
  abbrev pub shard_of : (Chunk → ℕ) → Chunk → Shard
  shard_of idx c = record {
    chunk = c;
    shard_idx = idx c;
    bytes = read_verified_chunk handlers P disks s c;
  }

  read_verified_chunk-IsShard :
      (m : ℕ) (c : Chunk) (b x : Bytes)
      → IsShard P m c b
      → read_verified_chunk handlers P disks s c ≡ some x
      → (x ≡ content c b) × (read_chunk handlers disks s c ≡ some x)
  unfolding read_verified_chunk
  read_verified_chunk-IsShard m c b x h e = elim (Option-cases (read_chunk handlers disks s c)) [
    | inl gone ↦ absurd (ground (arith, gone, e))
    | inr (y, there) ↦ elim (Bool-cases (hash_equal P y (hash_of c.hash))) [
      | inl same ↦
          let eq : y ≡ x = some_injective y x (ground (arith, there, same, e)) in
          (sym eq ∙ h.only y same, there ∙ ap some eq)
      | inr other ↦ absurd (ground (arith, there, other, e))
    ]
  ]

  shard_of-IsRead :
      (m : ℕ) (cw : List Bytes) (idx : Chunk → ℕ) (c : Chunk)
      → IsShard P m c (get_or cw (idx c) [])
      → IsRead P m cw (shard_of idx c) × IsGood P handlers disks m cw s (shard_of idx c)
  shard_of-IsRead m cw idx c h = elim (Option-cases (read_verified_chunk handlers P disks s c)) [
    | inl gone ↦
        let lost : is_lost (shard_of idx c) ≡ true = rw (gone) refl in
        (
          (h, λ kept. absurd (ground (arith, lost, kept))),
          (h, λ kept. absurd (ground (arith, lost, kept))),
        )
    | inr (x, there) ↦
        let found = read_verified_chunk-IsShard m c (get_or cw (idx c) []) x h there in
        ((h, λ kept. there ∙ ap some found.0), (h, λ kept. found.1 ∙ ap some found.0))
  ]

  shards_of-IsRead :
      (m : ℕ) (cw : List Bytes) (idx : Chunk → ℕ) (cs : List Chunk)
      → All (λ (c : Chunk). IsShard P m c (get_or cw (idx c) [])) cs
      → All (IsRead P m cw) (map (shard_of idx) cs)
        × All (IsGood P handlers disks m cw s) (map (shard_of idx) cs)
  shards_of-IsRead m cw idx [] h = (_, _)
  shards_of-IsRead m cw idx (c ∷ cs) h =
      let first = shard_of-IsRead m cw idx c h.0 in
      let rest = shards_of-IsRead m cw idx cs h.1 in ((first.0, rest.0), (first.1, rest.1))

  pub InOrder-shards :
      (idx : Chunk → ℕ) (i : ℕ) (cs : List Chunk)
      → InOrder idx i cs
      → InOrder (λ (x : Shard). x.shard_idx) i (map (shard_of idx) cs)
  InOrder-shards idx i [] h = _
  InOrder-shards idx i (c ∷ cs) h = (h.0, InOrder-shards idx (suc i) cs h.1)

  abbrev pub data_refs : StripeJob → List Shard
  data_refs job = map (shard_of (λ (c : Chunk). c.index)) job.data_chunks

  abbrev pub parity_refs : StripeJob → List Shard
  parity_refs job = map (shard_of (λ (c : Chunk). job.ds + c.index)) job.parity_by_index

  -- How the shards of a whole stripe are read.
  pub record WholeRefs (m : ℕ) (job : StripeJob) (cw : List Bytes) : Type 0 where
    pub refs : shard_refs P handlers disks s job ≡ data_refs job ++ parity_refs job
    pub order : InOrder (λ (x : Shard). x.shard_idx) 0 (data_refs job ++ parity_refs job)
    pub total : length (data_refs job ++ parity_refs job) ≡ job.ds + job.ps
    pub data_reads : All (IsRead P m cw) (data_refs job)
    pub parity_reads : All (IsRead P m cw) (parity_refs job)
    pub good : All (IsGood P handlers disks m cw s) (data_refs job ++ parity_refs job)

  pub whole-refs :
      (coder : Coder) (m : ℕ) (job : StripeJob) (cw : List Bytes)
      → IsWhole P coder m job cw
      → WholeRefs m job cw
  unfolding shard_refs
  whole-refs coder m job cw w =
      let d = shards_of-IsRead m cw (λ (c : Chunk). c.index) job.data_chunks w.data_rows in
      let p =
        shards_of-IsRead m cw (λ (c : Chunk). job.ds + c.index) job.parity_by_index
          (All-imp job.parity_by_index (λ c h. h.1.1) w.parity_rows) in
      record {
        refs =
            ap
              (λ (cs : List Chunk).
                data_refs job ++ map (shard_of (λ (c : Chunk). job.ds + c.index)) cs)
              (select_all (λ (c : Chunk). is_allocated c.status) job.parity_by_index
                (All-imp job.parity_by_index (λ c h. h.0) w.parity_rows));
        order =
            InOrder-append (λ (x : Shard). x.shard_idx) 0 job.ds (data_refs job) (parity_refs job)
              (InOrder-shards (λ (c : Chunk). c.index) 0 job.data_chunks w.data_order)
              (omega (
                arith,
                length-map (shard_of (λ (c : Chunk). c.index)) job.data_chunks,
                w.data_count,
              ))
              (InOrder-shards (λ (c : Chunk). job.ds + c.index) job.ds job.parity_by_index
                (InOrder-add job.ds 0 job.ds job.parity_by_index (omega arith) w.parity_order));
        total = omega (
          arith,
          length-append (data_refs job) (parity_refs job),
          length-map (shard_of (λ (c : Chunk). c.index)) job.data_chunks,
          length-map (shard_of (λ (c : Chunk). job.ds + c.index)) job.parity_by_index,
          w.data_count,
          w.parity_count,
        );
        data_reads = d.0;
        parity_reads = p.0;
        good =
            All-append (IsGood P handlers disks m cw s) (data_refs job) (parity_refs job) d.1 p.1;
      }
