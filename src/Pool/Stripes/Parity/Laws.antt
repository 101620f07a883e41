-- ===== src/Pool/Stripes/Parity/Laws.antt =====
-- internal/pool/parity.go: what is proved of the parity of one stripe.
use zenofs.Common.{
  ℕ, suc, ◌<◌, ◌≡◌, refl, ap, ◌∙◌, subst, true, false, Option, some, List, [], ◌∷◌, ◌==◌, length,
  map, All, arith, find_by,
}
use zenofs.Pool.Tables.{Chunk}
use zenofs.Pool.Disks.{Disk, ChunkHandler, read_chunk, write_chunk}
use zenofs.Pool.Stripes.{Coder, StripeJob, Shard, shard_array, max_size, pad}
use zenofs.Pool.Stripes.Rebuild.Slots.{shard_array-InOrder}
use zenofs.Pool.Stripes.Parity.{
  padded_data, StripeResult, read_data, write_parity, write_parities, both, parity_of,
  compute_stripe,
}
use zenofs.Pool.Stripes.Rebuild.Whole.{IsFiles, same_file, Apart, InOrder}
use zenofs.Pool.Stripes.Rebuild.Restores.{CanWrite}
use zenofs.Vfs.Crypto.{Bytes, Primitives, hash_sum}

module _ {S : Type 0} (P : Primitives) (handlers : List (ChunkHandler S)) (disks : List Disk) where
  abbrev pub result_of : ℕ → Bytes → StripeResult
  result_of i b = record { parity_idx = i; parity_data = b; parity_hash = hash_sum P b }

  abbrev pub results_of : ℕ → List Bytes → List StripeResult
  results_of i [] = []
  results_of i (b ∷ bs) = result_of i b ∷ results_of (suc i) bs

  -- The chunks, one after the other, read as the shards.
  abbrev pub ReadAs : S → List Chunk → List Bytes → Type 0
  ReadAs s [] [] = Unit
  ReadAs s (c ∷ cs) (b ∷ bs) = (read_chunk handlers disks s c ≡ some b) × ReadAs s cs bs
  ReadAs s _ _ = ⊥

  -- What writing the shards from `i` on does.
  pub record Written (i : ℕ) (cs : List Chunk) (bs : List Bytes) (s : S)
      (r : Option (List StripeResult) × S) : Type 0 where
    pub results : r.0 ≡ some (results_of i bs)
    pub stored : ReadAs r.1 cs bs
    pub others :
        (d : Chunk)
        → All (λ (c : Chunk). same_file c d ≡ false) cs
        → read_chunk handlers disks r.1 d ≡ read_chunk handlers disks s d

  -- The row that the write of a shard looks up.
  abbrev IsFound : List Chunk → Chunk → Type 0
  IsFound rows c = find_by (λ (d : Chunk). d.index == c.index) rows ≡ some c

  find_by-skip :
      (c : Chunk) (i : ℕ) (rows cs : List Chunk)
      → c.index < i
      → InOrder (λ (d : Chunk). d.index) i cs
      → All (IsFound rows) cs
      → All (IsFound (c ∷ rows)) cs
  unfolding find_by
  find_by-skip c i rows [] h order found = _
  find_by-skip c i rows (d ∷ ds) h order found =
      let e : (c.index == d.index) ≡ false = ground (arith, h, order.0) in
      (rw (e) found.0, find_by-skip c (suc i) rows ds (omega (arith, h)) order.1 found.1)

  pub find_by-InOrder :
      (i : ℕ) (cs : List Chunk) → InOrder (λ (d : Chunk). d.index) i cs → All (IsFound cs) cs
  unfolding find_by
  find_by-InOrder i [] order = _
  find_by-InOrder i (c ∷ cs) order =
      let e : (c.index == c.index) ≡ true = ground arith in
      (
        rw (e) refl,
        find_by-skip c (suc i) cs cs (omega (arith, order.0)) order.1
            (find_by-InOrder (suc i) cs order.1),
      )

  write_parity_ok :
      (rows : List Chunk) (i : ℕ) (c : Chunk) (b : Bytes) (s s' : S)
      → IsFound rows c
      → c.index ≡ i
      → write_chunk handlers disks s c b ≡ some s'
      → write_parity P handlers disks rows i b s ≡ (some (result_of i b), s')
  unfolding write_parity
  write_parity_ok rows i c b s s' found at wrote =
      let here : find_by (λ (d : Chunk). d.index == i) rows ≡ some c =
        subst (λ (j : ℕ). find_by (λ (d : Chunk). d.index == j) rows ≡ some c) at found in
      ground (arith, here, wrote)

  before :
      (c : Chunk) (cs : List Chunk)
      → All (λ (d : Chunk). (same_file c d ≡ false) × (same_file d c ≡ false)) cs
      → All (λ (d : Chunk). same_file d c ≡ false) cs
  before c [] h = _
  before c (d ∷ ds) h = (h.0.1, before c ds h.1)

  write_parities-Written :
      (rows : List Chunk) (i : ℕ) (cs : List Chunk) (bs : List Bytes) (s : S)
      → IsFiles handlers disks
      → All (CanWrite P handlers disks) cs
      → Apart cs
      → All (IsFound rows) cs
      → InOrder (λ (c : Chunk). c.index) i cs
      → length cs ≡ length bs
      → Written i cs bs s (write_parities P handlers disks rows i bs s)
  unfolding write_parities Apart
  write_parities-Written rows i [] [] s files writes apart found order len = record {
    results = refl;
    stored = _;
    others = λ d h. refl;
  }
  write_parities-Written rows i [] (b ∷ bs) s files writes apart found order len =
      absurd (ground (arith, len))
  write_parities-Written rows i (c ∷ cs) [] s files writes apart found order len =
      absurd (ground (arith, len))
  write_parities-Written rows i (c ∷ cs) (b ∷ bs) s files writes apart found order len =
      let w = writes.0 s b in
      let rest =
        write_parities-Written rows (suc i) cs bs w.0 files writes.1 apart.1 found.1 order.1
          (omega (arith, len)) in
      rw (write_parity_ok rows i c b s w.0 found.0 order.0 w.1) (record {
        results =
            ap (λ (o : Option (List StripeResult)). both (some (result_of i b)) o) rest.results;
        stored = (rest.others c (before c cs apart.0) ∙ files.written s w.0 c b w.1, rest.stored);
        others = λ d h. rest.others d h.1 ∙ files.others s w.0 c d b w.1 h.0;
      })

  shards_as : List Chunk → List Bytes → List Shard
  shards_as [] bs = []
  shards_as (c ∷ cs) [] = []
  shards_as (c ∷ cs) (b ∷ bs) =
      record { chunk = c; shard_idx = c.index; bytes = some b } ∷ shards_as cs bs

  read_data-ReadAs :
      (s : S) (cs : List Chunk) (bs : List Bytes)
      → ReadAs s cs bs
      → read_data P handlers disks s cs ≡ some (shards_as cs bs)
  unfolding read_data shards_as
  read_data-ReadAs s [] [] h = refl
  read_data-ReadAs s (c ∷ cs) (b ∷ bs) h = ground (arith, h.0, read_data-ReadAs s cs bs h.1)
  read_data-ReadAs s [] (b ∷ bs) h = absurd h
  read_data-ReadAs s (c ∷ cs) [] h = absurd h

  shards_as-order :
      (s : S) (i : ℕ) (cs : List Chunk) (bs : List Bytes)
      → ReadAs s cs bs
      → InOrder (λ (c : Chunk). c.index) i cs
      → InOrder (λ (x : Shard). x.shard_idx) i (shards_as cs bs)
        × ((length (shards_as cs bs) ≡ length cs)
            × (map (λ (x : Shard). x.bytes) (shards_as cs bs) ≡ map some bs))
  unfolding shards_as
  shards_as-order s i [] [] h order = (_, (refl, refl))
  shards_as-order s i (c ∷ cs) (b ∷ bs) h order =
      let rest = shards_as-order s (suc i) cs bs h.1 order.1 in
      (
        (order.0, rest.0),
        (ap suc rest.1.0, ap (λ (xs : List (Option Bytes)). some b ∷ xs) rest.1.1),
      )
  shards_as-order s i [] (b ∷ bs) h order = absurd h
  shards_as-order s i (c ∷ cs) [] h order = absurd h

  map-padded_data : (m : ℕ) (bs : List Bytes) → map (padded_data m) (map some bs) ≡ map (pad m) bs
  map-padded_data m [] = refl
  map-padded_data m (b ∷ bs) = ap (λ (xs : List Bytes). pad m b ∷ xs) (map-padded_data m bs)

  parity_of_full :
      (coder : Coder) (job : StripeJob) (s : S) (bs : List Bytes)
      → ReadAs s job.data_chunks bs
      → length job.data_chunks ≡ job.ds
      → InOrder (λ (c : Chunk). c.index) 0 job.data_chunks
      → parity_of coder job (shards_as job.data_chunks bs)
        ≡ coder.encode job.ds job.ps (map (pad (max_size (map some bs))) bs)
  unfolding parity_of
  parity_of_full coder job s bs h len order =
      let o = shards_as-order s 0 job.data_chunks bs h order in
      let slots : shard_array (shards_as job.data_chunks bs) job.ds 0 ≡ map some bs =
        subst (λ (n : ℕ). shard_array (shards_as job.data_chunks bs) n 0 ≡ map some bs)
          (o.1.0 ∙ len) (shard_array-InOrder (shards_as job.data_chunks bs) 0 o.0 ∙ o.1.1) in
      ap
        (λ (xs : List (Option Bytes)).
          coder.encode job.ds job.ps (map (padded_data (max_size xs)) xs))
        slots
      ∙ ap (coder.encode job.ds job.ps) (map-padded_data (max_size (map some bs)) bs)

-- A stripe whose data slots are all written, and can all be read, with parity chunks to compute: the
-- results are the shards that the Reed-Solomon package makes of the data, padded with zeros to the
-- longest, in order and with their hashes; each parity chunk then reads as its shard, and every file
-- other than theirs is as before. Relied on: the parity chunks can be written, and no two of
-- them share a file.
pub compute_stripe-Written :
    {S : Type 0} (P : Primitives) (handlers : List (ChunkHandler S)) (disks : List Disk)
    (coder : Coder) (job : StripeJob) (s : S) (contents parity : List Bytes)
    → IsFiles handlers disks
    → All (CanWrite P handlers disks) job.parity_by_index
    → Apart job.parity_by_index
    → 0 < job.ps
    → InOrder (λ (c : Chunk). c.index) 0 job.data_chunks
    → InOrder (λ (c : Chunk). c.index) 0 job.parity_by_index
    → length job.data_chunks ≡ job.ds
    → length job.parity_by_index ≡ length parity
    → ReadAs P handlers disks s job.data_chunks contents
    → coder.encode job.ds job.ps (map (pad (max_size (map some contents))) contents) ≡ some parity
    → Written P handlers disks 0 job.parity_by_index parity s
        (compute_stripe P handlers coder disks job s)
unfolding compute_stripe
compute_stripe-Written P handlers disks coder job s contents parity files writes apart positive
      data_order order len plen reads encoded =
    let some_parity : (job.ps == 0) ≡ false = ground (arith, positive) in
    let shards = read_data-ReadAs P handlers disks s job.data_chunks contents reads in
    let computed =
      parity_of_full P handlers disks coder job s contents reads len data_order ∙ encoded in
    rw (some_parity, shards, computed)
      (write_parities-Written P handlers disks job.parity_by_index 0 job.parity_by_index parity s
        files writes apart (find_by-InOrder P handlers disks 0 job.parity_by_index order) order
        plen)
