-- ===== src/Pool/Stripes/Rebuild/Restores.antt =====
-- internal/pool/rebuild.go: lemmas on the shards that are written back.
use zenofs.Common.{
  arith, take, leb, length-take, zero, suc, ℕ, ◌≡◌, refl, sym, ap, ap₂, ◌∙◌, subst, inl, inr, true,
  false, some, List, [], ◌∷◌, ◌++◌, length, get_or, map, select, All, if◌then◌else◌, Bool-cases,
}
use mathlib.Core.List.{append-nil, append_assoc}
use zenofs.Pool.Tables.{Chunk, is_data}
use zenofs.Pool.Disks.{Disk, ChunkHandler, read_chunk, write_chunk, hash_of}
use zenofs.Pool.Stripes.{Shard}
use zenofs.Pool.Stripes.Rebuild.{
  cut_to_size, is_lost, Rebuilt, RebuiltChunk, write_shard, write_shards,
}
use zenofs.Pool.Stripes.Rebuild.Whole.{IsShard, content, IsFiles, same_file, Apart}
use zenofs.Vfs.Crypto.{Bytes, Primitives, hash_sum}

-- The row that was there before.
abbrev pub recorded : Shard → RebuiltChunk
recorded ref = record {
  chunk_id = ref.chunk.id;
  size = ref.chunk.size;
  hash = hash_of ref.chunk.hash;
}

abbrev pub original : List Bytes → Shard → Bytes
original cw ref = content ref.chunk (get_or cw ref.shard_idx [])

abbrev recorded_if_lost : Shard → List RebuiltChunk
recorded_if_lost ref = if is_lost ref then recorded ref ∷ [] else []

module _ {S : Type 0} (P : Primitives) (handlers : List (ChunkHandler S)) (disks : List Disk) where
  -- The file of the chunk can be written.
  abbrev pub CanWrite : Chunk → Type 0
  CanWrite c = (s : S) (b : Bytes) → (s' : S) × (write_chunk handlers disks s c b ≡ some s')

  -- A shard that is not lost is the original one.
  abbrev pub IsGood : ℕ → List Bytes → S → Shard → Type 0
  IsGood m cw s ref =
      IsShard P m ref.chunk (get_or cw ref.shard_idx [])
      × (is_lost ref ≡ false → read_chunk handlers disks s ref.chunk ≡ some (original cw ref))

  pub record Step (cw : List Bytes) (r : Rebuilt S) (refs : List Shard) (u : Rebuilt S)
      : Type 0 where
    pub chunks : u.chunks ≡ r.chunks ++ map recorded (select is_lost refs)
    pub complete : u.complete ≡ r.complete
    pub restored :
        All
          (λ (ref : Shard). read_chunk handlers disks u.disks ref.chunk ≡ some (original cw ref))
          refs
    pub others :
        (d : Chunk)
        → All (λ (ref : Shard). same_file ref.chunk d ≡ false) refs
        → read_chunk handlers disks u.disks d ≡ read_chunk handlers disks r.disks d

  row_of : List Bytes → Shard → RebuiltChunk
  row_of cw ref = record {
    chunk_id = ref.chunk.id;
    size = length (original cw ref);
    hash = hash_sum P (original cw ref);
  }

  row_of-recorded :
      (m : ℕ) (cw : List Bytes) (ref : Shard)
      → IsShard P m ref.chunk (get_or cw ref.shard_idx [])
      → row_of cw ref ≡ recorded ref
  unfolding row_of
  row_of-recorded m cw ref h =
      ap₂ (λ (n : ℕ) (x : Bytes). record { chunk_id = ref.chunk.id; size = n; hash = x }) h.size
        h.hash

  take_all : (n : ℕ) (b : Bytes) → length b ≡ n → take n b ≡ b
  take_all zero [] h = refl
  take_all zero (x ∷ b) h = absurd (ground (arith, h))
  take_all (suc n) [] h = refl
  take_all (suc n) (x ∷ b) h = ap (λ (xs : Bytes). x ∷ xs) (take_all n b (omega (arith, h)))

  cut_to_size-IsShard :
      (m : ℕ) (c : Chunk) (b : Bytes) → IsShard P m c b → cut_to_size c b ≡ content c b
  unfolding cut_to_size
  cut_to_size-IsShard m c b h = elim (Bool-cases (is_data c.kind)) [
    | inl of_data ↦
        let inside : leb c.size (length b) ≡ true = ground (arith, h.size, length-take c.size b) in
        rw (of_data, h.some_data, inside) refl
    | inr of_parity ↦
        let whole : c.size ≡ m = ground (arith, of_parity, h.full_parity) in
        rw (of_parity) (sym (take_all c.size b (h.fits ∙ sym whole)))
  ]

  rebuilt_row : Shard → Bytes → RebuiltChunk
  rebuilt_row ref x = record { chunk_id = ref.chunk.id; size = length x; hash = hash_sum P x }

  write_shard_cut :
      (cw : List Bytes) (ref : Shard) (r : Rebuilt S) (s' : S)
      → is_lost ref ≡ true
      → write_chunk handlers disks r.disks ref.chunk
          (cut_to_size ref.chunk (get_or cw ref.shard_idx []))
        ≡ some s'
      → write_shard P handlers disks cw ref r ≡ record {
        chunks =
            r.chunks ++ rebuilt_row ref (cut_to_size ref.chunk (get_or cw ref.shard_idx [])) ∷ [];
        complete = r.complete;
        disks = s';
      }
  unfolding write_shard rebuilt_row
  write_shard_cut cw ref r s' lost e = rw (lost, e) refl

  write_shard_lost :
      (m : ℕ) (cw : List Bytes) (ref : Shard) (r : Rebuilt S) (s' : S)
      → IsShard P m ref.chunk (get_or cw ref.shard_idx [])
      → is_lost ref ≡ true
      → write_chunk handlers disks r.disks ref.chunk (original cw ref) ≡ some s'
      → write_shard P handlers disks cw ref r
        ≡ record { chunks = r.chunks ++ row_of cw ref ∷ []; complete = r.complete; disks = s' }
  unfolding row_of rebuilt_row
  write_shard_lost m cw ref r s' shard lost e =
      let cut = cut_to_size-IsShard m ref.chunk (get_or cw ref.shard_idx []) shard in
      write_shard_cut cw ref r s' lost (ap (write_chunk handlers disks r.disks ref.chunk) cut ∙ e)
      ∙ ap
          (λ (x : Bytes). record {
            chunks = r.chunks ++ rebuilt_row ref x ∷ [];
            complete = r.complete;
            disks = s';
          })
          cut

  write_shard_kept :
      (cw : List Bytes) (ref : Shard) (r : Rebuilt S)
      → is_lost ref ≡ false
      → write_shard P handlers disks cw ref r ≡ r
  unfolding write_shard
  write_shard_kept cw ref r kept = rw (kept) refl

  recorded-append :
      (ref : Shard) (rest : List Shard)
      → map recorded (select is_lost (ref ∷ rest))
        ≡ map recorded (select is_lost (ref ∷ [])) ++ map recorded (select is_lost rest)
  unfolding select
  recorded-append ref rest = elim (Bool-cases (is_lost ref)) [
    | inl lost ↦ rw (lost) refl
    | inr kept ↦ rw (kept) refl
  ]

  Step-append :
      (cw : List Bytes) (r s u : Rebuilt S) (ref : Shard) (rest : List Shard)
      → All (λ (x : Shard). same_file x.chunk ref.chunk ≡ false) rest
      → Step cw r (ref ∷ []) s
      → Step cw s rest u
      → Step cw r (ref ∷ rest) u
  unfolding select
  Step-append cw r s u ref rest apart first later = record {
    chunks =
        later.chunks
        ∙ ap (λ (cs : List RebuiltChunk). cs ++ map recorded (select is_lost rest)) first.chunks
        ∙ append_assoc r.chunks (map recorded (select is_lost (ref ∷ [])))
            (map recorded (select is_lost rest))
        ∙ sym (ap (λ (cs : List RebuiltChunk). r.chunks ++ cs) (recorded-append ref rest));
    complete = later.complete ∙ first.complete;
    restored = (later.others ref.chunk apart ∙ first.restored.0, later.restored);
    others = λ d h. later.others d h.1 ∙ first.others d (h.0, _);
  }

  others_before :
      (ref : Shard) (rest : List Shard)
      → All
          (λ (d : Chunk). (same_file ref.chunk d ≡ false) × (same_file d ref.chunk ≡ false))
          (map (λ (x : Shard). x.chunk) rest)
      → All (λ (x : Shard). same_file x.chunk ref.chunk ≡ false) rest
  others_before ref [] h = _
  others_before ref (x ∷ xs) h = (h.0.1, others_before ref xs h.1)

  goods_after :
      (m : ℕ) (cw : List Bytes) (ref : Shard) (rest : List Shard) (r u : Rebuilt S)
      → Step cw r (ref ∷ []) u
      → All
          (λ (d : Chunk). (same_file ref.chunk d ≡ false) × (same_file d ref.chunk ≡ false))
          (map (λ (x : Shard). x.chunk) rest)
      → All (IsGood m cw r.disks) rest
      → All (IsGood m cw u.disks) rest
  goods_after m cw ref [] r u step apart goods = _
  goods_after m cw ref (x ∷ xs) r u step apart goods = (
    (goods.0.0, λ kept. step.others x.chunk (apart.0.0, _) ∙ goods.0.1 kept),
    goods_after m cw ref xs r u step apart.1 goods.1,
  )

  write_shard-Step :
      (m : ℕ) (cw : List Bytes) (ref : Shard) (r : Rebuilt S)
      → IsFiles handlers disks
      → CanWrite ref.chunk
      → IsGood m cw r.disks ref
      → Step cw r (ref ∷ []) (write_shard P handlers disks cw ref r)
  unfolding select
  write_shard-Step m cw ref r files writes good = elim (Bool-cases (is_lost ref)) [
    | inl lost ↦
        let w = writes r.disks (original cw ref) in
        subst (λ (u : Rebuilt S). Step cw r (ref ∷ []) u)
          (sym (write_shard_lost m cw ref r w.0 good.0 lost w.1))
          (record {
            chunks = rw (lost, row_of-recorded m cw ref good.0) refl;
            complete = refl;
            restored = (files.written r.disks w.0 ref.chunk (original cw ref) w.1, _);
            others = λ d h. files.others r.disks w.0 ref.chunk d (original cw ref) w.1 h.0;
          })
    | inr kept ↦
        subst (λ (u : Rebuilt S). Step cw r (ref ∷ []) u) (sym (write_shard_kept cw ref r kept))
          (record {
            chunks = rw (kept) (sym (append-nil r.chunks));
            complete = refl;
            restored = (good.1 kept, _);
            others = λ d h. refl;
          })
  ]

  pub write_shards-Step :
      (m : ℕ) (cw : List Bytes) (refs : List Shard) (r : Rebuilt S)
      → IsFiles handlers disks
      → All (λ (ref : Shard). CanWrite ref.chunk) refs
      → Apart (map (λ (ref : Shard). ref.chunk) refs)
      → All (IsGood m cw r.disks) refs
      → Step cw r refs (write_shards P handlers disks cw refs r)
  unfolding write_shards select Apart
  write_shards-Step m cw [] r files writes apart good = record {
    chunks = sym (append-nil r.chunks);
    complete = refl;
    restored = _;
    others = λ d h. refl;
  }
  write_shards-Step m cw (ref ∷ rest) r files (write, writes) (apart, aparts) (good, goods) =
      let first = write_shard-Step m cw ref r files write good in
      Step-append cw r (write_shard P handlers disks cw ref r)
        (write_shards P handlers disks cw rest (write_shard P handlers disks cw ref r)) ref rest
        (others_before ref rest apart) first
        (write_shards-Step m cw rest (write_shard P handlers disks cw ref r) files writes aparts
          (goods_after m cw ref rest r (write_shard P handlers disks cw ref r) first apart goods))
