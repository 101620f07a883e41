-- ===== src/Pool/Stripes/Rebuild/Examples.antt =====
-- internal/pool/rebuild.go: a stripe of one data chunk and its mirror, whose data file is lost.
use zenofs.Common.{
  ℕ, ◌≡◌, refl, sym, ap, ap₂, ◌∙◌, true, false, Option, none, some, List, [], ◌∷◌, if◌then◌else◌,
  ◌==◌, ltb, arith, count, take, find_by, select, map,
}
use zenofs.Pool.Tables.{Chunk, ChunkType, ChunkStatus}
use zenofs.Pool.Disks.{
  Disk, DiskBackend, DiskType, DiskPoolStatus, read_chunk, read_verified_chunk, write_chunk,
  handler_for,
}
use zenofs.Pool.Stripes.{Coder, StripeJob, pad, max_size}
use zenofs.Pool.Stripes.Local.{Files, handlers, local-IsFiles}
use zenofs.Pool.Stripes.Rebuild.{shard_refs, rebuild_stripe_job}
use zenofs.Pool.Stripes.Rebuild.Whole.{IsShard, IsWhole, Recovers, Apart}
use zenofs.Pool.Stripes.Rebuild.Recovery.{Restored, rebuild_stripe_job-Restored}
use zenofs.Pool.Stripes.Rebuild.Shortage.{NeedsData, is_there, rebuild_stripe_job_short}
use zenofs.Pool.Stripes.Parity.{compute_stripe}
use zenofs.Pool.Stripes.Parity.Laws.{Written, compute_stripe-Written}
use zenofs.Vfs.Crypto.{Bytes, Primitives, hash_sum, hash_equal}
use zenofs.Vfs.Path.Equal.{same_text→eq}

abbrev pub primitives : Primitives
primitives = record {
  zstd_encode = λ b. some b;
  zstd_decode = λ b. some b;
  gcm_seal = λ k n p. p;
  gcm_open = λ k n p. some p;
  pbkdf2_key = λ p s. p;
  blake3 = λ b. 1 ∷ b;
}

abbrev mirror_encode : List Bytes → Option (List Bytes)
mirror_encode (b ∷ []) = some (b ∷ [])
mirror_encode _ = none

abbrev mirror_reconstruct : List (Option Bytes) → Option (List Bytes)
mirror_reconstruct (some b ∷ x ∷ []) = some (b ∷ b ∷ [])
mirror_reconstruct (none ∷ some b ∷ []) = some (b ∷ b ∷ [])
mirror_reconstruct _ = none

-- One data shard and one parity shard.
abbrev pub mirror : Coder
mirror = record { encode = λ ds ps. mirror_encode; reconstruct = λ ds ps. mirror_reconstruct }

abbrev first_or : List Bytes → Bytes
first_or [] = []
first_or (b ∷ bs) = b

abbrev or_none : Option (List Bytes) → List Bytes
or_none none = []
or_none (some bs) = bs

mirror-Recovers : Recovers mirror 1 1
unfolding count
mirror-Recovers m (a ∷ b ∷ []) (some x ∷ y ∷ []) word len agree few =
    let same : a ≡ b = ap (λ (o : Option (List Bytes)). first_or (or_none o)) word.encoded in
    let at : x ≡ a = agree 0 x refl in ap₂ (λ (u v : Bytes). some (u ∷ v ∷ [])) at (at ∙ same)
mirror-Recovers m (a ∷ b ∷ []) (none ∷ some y ∷ []) word len agree few =
    let same : a ≡ b = ap (λ (o : Option (List Bytes)). first_or (or_none o)) word.encoded in
    let at : y ≡ b = agree 1 y refl in ap₂ (λ (u v : Bytes). some (u ∷ v ∷ [])) (at ∙ sym same) at
mirror-Recovers m (a ∷ b ∷ []) (none ∷ none ∷ []) word len agree few = absurd (ground (arith, few))
mirror-Recovers m (a ∷ b ∷ []) [] word len agree few = absurd (ground (arith, len))
mirror-Recovers m (a ∷ b ∷ []) (x ∷ []) word len agree few = absurd (ground (arith, len))
mirror-Recovers m (a ∷ b ∷ []) (x ∷ y ∷ z ∷ zs) word len agree few = absurd (ground (arith, len))
mirror-Recovers m [] slots word len agree few = absurd (ground (arith, word.count))
mirror-Recovers m (a ∷ []) slots word len agree few = absurd (ground (arith, word.count))
mirror-Recovers m (a ∷ b ∷ c ∷ cs) slots word len agree few = absurd (ground (arith, word.count))

abbrev disk : ℕ → Disk
disk id = record {
  id = id;
  path = id ∷ [];
  pool_id = 1;
  backend = DiskBackend.local_backend;
  kind = DiskType.data_disk;
  status = DiskPoolStatus.online;
}

abbrev pub two_disks : List Disk
two_disks = disk 1 ∷ disk 2 ∷ []

abbrev bytes : Bytes
bytes = 5 ∷ 6 ∷ []

abbrev pub chunk_on : ℕ → ChunkType → Chunk
chunk_on id kind = record {
  id = id;
  status = ChunkStatus.allocated;
  path = 9 ∷ [];
  size = 2;
  hash = some (1 ∷ bytes);
  pool_id = 1;
  disk_id = id;
  stripe_id = 4;
  kind = kind;
  index = 0;
  created_at = 0;
}

abbrev pub job : StripeJob
job = record {
  data_chunks = chunk_on 1 ChunkType.data_chunk ∷ [];
  parity_by_index = chunk_on 2 ChunkType.parity_chunk ∷ [];
  ds = 1;
  ps = 1;
}

abbrev pub both_there : Files
both_there i p = some bytes

-- The second disk has its file, the first has none.
abbrev pub half_lost : Files
half_lost i p = if i == 2 then some bytes else none

chunk_on-IsShard : (id : ℕ) (kind : ChunkType) → IsShard primitives 2 (chunk_on id kind) bytes
unfolding pad hash_sum hash_equal
chunk_on-IsShard id ChunkType.data_chunk = record {
  fits = refl;
  some_data = refl;
  full_parity = refl;
  padding = refl;
  size = refl;
  hash = refl;
  only = λ x h. same_text→eq x bytes (ground (arith, h));
}
chunk_on-IsShard id ChunkType.parity_chunk = record {
  fits = refl;
  some_data = refl;
  full_parity = refl;
  padding = refl;
  size = refl;
  hash = refl;
  only = λ x h. same_text→eq x bytes (ground (arith, h));
}

job-IsWhole : IsWhole primitives mirror 2 job (bytes ∷ bytes ∷ [])
unfolding max_size
job-IsWhole = record {
  codeword = record { count = refl; equal = (refl, (refl, _)); encoded = refl };
  positive = omega arith;
  longest = refl;
  data_count = refl;
  parity_count = refl;
  data_order = (refl, _);
  parity_order = (refl, _);
  data_rows = (chunk_on-IsShard 1 ChunkType.data_chunk, _);
  parity_rows = ((refl, (refl, chunk_on-IsShard 2 ChunkType.parity_chunk)), _);
}

rebuild_stripe_job-Restored_example :
    Restored handlers two_disks
      (bytes ∷ bytes ∷ [])
      (shard_refs primitives handlers two_disks half_lost job)
      (rebuild_stripe_job primitives mirror handlers two_disks job half_lost)
unfolding shard_refs select Apart write_chunk handler_for find_by count read_verified_chunk
    read_chunk hash_equal
rebuild_stripe_job-Restored_example =
    rebuild_stripe_job-Restored primitives mirror handlers two_disks half_lost 2 job
      (bytes ∷ bytes ∷ []) job-IsWhole mirror-Recovers (local-IsFiles two_disks)
      ((λ s b. (_, refl)), ((λ s b. (_, refl)), _)) (((refl, refl), _), (_, _)) (omega arith)

-- Enough shards, or nothing.
abbrev or_empty : Option Bytes → Bytes
or_empty none = []
or_empty (some b) = b

abbrev strict : Coder
strict = record {
  encode = λ ds ps bs. some (take ps bs);
  reconstruct =
      λ ds ps slots. if ltb (count is_there slots) ds then none else some (map or_empty slots);
}

strict-NeedsData : NeedsData strict 2 1
strict-NeedsData slots h =
    let few : ltb (count is_there slots) 2 ≡ true = ground (arith, h) in rw (few) refl

-- The second data slot has not been written.
abbrev partly_written : StripeJob
partly_written = record job { ds = 2 }

rebuild_stripe_job_short_example :
    rebuild_stripe_job primitives strict handlers two_disks partly_written half_lost
    ≡ record { chunks = []; complete = false; disks = half_lost }
unfolding shard_refs select write_chunk handler_for find_by count read_verified_chunk read_chunk
    hash_equal
rebuild_stripe_job_short_example =
    rebuild_stripe_job_short primitives strict handlers two_disks half_lost partly_written
      strict-NeedsData (omega arith) (omega arith)

compute_stripe-Written_example :
    Written primitives handlers two_disks 0 job.parity_by_index
      (bytes ∷ [])
      both_there
      (compute_stripe primitives handlers mirror two_disks job both_there)
unfolding Apart write_chunk read_chunk handler_for find_by pad max_size
compute_stripe-Written_example =
    compute_stripe-Written primitives handlers two_disks mirror job both_there (bytes ∷ [])
      (bytes ∷ []) (local-IsFiles two_disks) ((λ s b. (_, refl)), _) (_, _) (omega arith) (refl, _)
      (refl, _) refl refl (refl, _) refl
