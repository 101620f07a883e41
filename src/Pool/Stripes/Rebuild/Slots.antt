-- ===== src/Pool/Stripes/Rebuild/Slots.antt =====
-- internal/pool/rebuild.go: lemmas on the array of the shards of a whole stripe.
use zenofs.Common.{
  ℕ, zero, suc, ◌+◌, ◌≤◌, ◌<◌, ◌≡◌, refl, sym, ap, ap₂, ◌∙◌, ◌⊎◌, inl, inr, true, false, Option,
  none, some, List, [], ◌∷◌, ◌++◌, ◌==◌, length, get_or, map, All, arith, max, Option-cases, count,
  find_by, length-take, some_injective,
}
use zenofs.Pool.Stripes.{Shard, shard_array, shard_at, pad, max_size}
use zenofs.Pool.Stripes.Rebuild.{is_lost, padded}
use zenofs.Pool.Stripes.Rebuild.Whole.{IsShard, InOrder, is_erased}
use zenofs.Pool.Stripes.Rebuild.Restores.{original}
use zenofs.Vfs.Crypto.{Bytes, Primitives}

-- What has been read is the original shard.
abbrev pub IsRead : Primitives → ℕ → List Bytes → Shard → Type 0
IsRead P m cw ref =
    IsShard P m ref.chunk (get_or cw ref.shard_idx [])
    × (is_lost ref ≡ false → ref.bytes ≡ some (original cw ref))

-- A shard is lost, or the original.
pub IsRead-cases :
    (P : Primitives) (m : ℕ) (cw : List Bytes) (ref : Shard)
    → IsRead P m cw ref
    → (ref.bytes ≡ none) ⊎ (ref.bytes ≡ some (original cw ref))
IsRead-cases P m cw ref h = elim (Option-cases ref.bytes) [
  | inl gone ↦ inl gone
  | inr (x, there) ↦ inr (h.1 (rw (there) refl))
]

shard_at_skip :
    (ref : Shard) (refs : List Shard) (i : ℕ)
    → ref.shard_idx < i
    → shard_at (ref ∷ refs) i ≡ shard_at refs i
unfolding find_by
shard_at_skip ref refs i h =
    let e : (ref.shard_idx == i) ≡ false = ground (arith, h) in rw (e, shard_at) refl

pub shard_array_skip :
    (ref : Shard) (refs : List Shard) (n i : ℕ)
    → ref.shard_idx < i
    → shard_array (ref ∷ refs) n i ≡ shard_array refs n i
unfolding shard_array
shard_array_skip ref refs zero i h = refl
shard_array_skip ref refs (suc n) i h =
    ap₂ (λ (s : Option Bytes) (rest : List (Option Bytes)). s ∷ rest) (shard_at_skip ref refs i h)
      (shard_array_skip ref refs n (suc i) (omega (arith, h)))

pub shard_at_head :
    (ref : Shard) (refs : List Shard) (i : ℕ)
    → ref.shard_idx ≡ i
    → shard_at (ref ∷ refs) i ≡ ref.bytes
unfolding find_by
shard_at_head ref refs i h =
    let e : (ref.shard_idx == i) ≡ true = ground (arith, h) in rw (e, shard_at) refl

pub shard_array-InOrder :
    (refs : List Shard) (i : ℕ)
    → InOrder (λ (s : Shard). s.shard_idx) i refs
    → shard_array refs (length refs) i ≡ map (λ (s : Shard). s.bytes) refs
unfolding shard_array
shard_array-InOrder [] i h = refl
shard_array-InOrder (ref ∷ refs) i (here, later) =
    ap₂ (λ (s : Option Bytes) (rest : List (Option Bytes)). s ∷ rest)
      (shard_at_head ref refs i here)
      (shard_array_skip ref refs (length refs) (suc i) (omega (arith, here))
        ∙ shard_array-InOrder refs (suc i) later)

pub slots_agree :
    (P : Primitives) (m : ℕ) (cw : List Bytes) (refs : List Shard) (k i : ℕ) (b : Bytes)
    → InOrder (λ (s : Shard). s.shard_idx) k refs
    → All (IsRead P m cw) refs
    → get_or (map (padded m) (map (λ (s : Shard). s.bytes) refs)) i none ≡ some b
    → b ≡ get_or cw (k + i) []
slots_agree P m cw [] k i b order reads h = absurd (ground (arith, h))
slots_agree P m cw (ref ∷ refs) k zero b order reads h = elim (IsRead-cases P m cw ref reads.0) [
  | inl gone ↦ absurd (ground (arith, ap (padded m) gone, h))
  | inr there ↦
      let whole : some b ≡ some (pad m (original cw ref)) = sym h ∙ ap (padded m) there in
      some_injective b (pad m (original cw ref)) whole
      ∙ reads.0.0.padding
      ∙ ap (λ (j : ℕ). get_or cw j []) (omega (arith, order.0))
]
slots_agree P m cw (ref ∷ refs) k (suc i) b order reads h =
    slots_agree P m cw refs (suc k) i b order.1 reads.1 h
    ∙ ap (λ (j : ℕ). get_or cw j []) (omega arith)

pub count-erased :
    (m : ℕ) (refs : List Shard)
    → count is_erased (map (padded m) (map (λ (s : Shard). s.bytes) refs)) ≡ count is_lost refs
unfolding count
count-erased m [] = refl
count-erased m (ref ∷ refs) = elim (Option-cases ref.bytes) [
  | inl gone ↦ rw (gone) (ap suc (count-erased m refs))
  | inr (x, there) ↦ rw (there) (count-erased m refs)
]

pub max_size-append :
    (xs ys : List (Option Bytes)) → max_size (xs ++ ys) ≡ max (max_size xs) (max_size ys)
unfolding max_size
max_size-append [] ys = omega arith
max_size-append (x ∷ xs) ys = omega (arith, max_size-append xs ys)

pub max_size_le :
    (P : Primitives) (m : ℕ) (cw : List Bytes) (refs : List Shard)
    → All (IsRead P m cw) refs
    → max_size (map (λ (s : Shard). s.bytes) refs) ≤ m
unfolding max_size
max_size_le P m cw [] reads = omega arith
max_size_le P m cw (ref ∷ refs) reads = elim (IsRead-cases P m cw ref reads.0) [
  | inl gone ↦ rw (gone) (omega (arith, max_size_le P m cw refs reads.1))
  | inr there ↦ rw (there) (
      omega (
        arith,
        max_size_le P m cw refs reads.1,
        length-take ref.chunk.size (get_or cw ref.shard_idx []),
        reads.0.0.fits,
      ))
]

-- One of several shards is there, and has the full length.
pub max_size_full :
    (P : Primitives) (m : ℕ) (cw : List Bytes) (refs : List Shard)
    → All (IsRead P m cw) refs
    → All (λ (s : Shard). original cw s ≡ get_or cw s.shard_idx []) refs
    → count is_lost refs < length refs
    → m ≤ max_size (map (λ (s : Shard). s.bytes) refs)
unfolding max_size count
max_size_full P m cw [] reads full few = absurd (omega (arith, few))
max_size_full P m cw (ref ∷ refs) reads full few = elim (IsRead-cases P m cw ref reads.0) [
  | inl gone ↦
      let lost : is_lost ref ≡ true = rw (gone) refl in
      let less : count is_lost refs < length refs = ground (arith, lost, few) in
      omega (arith, max_size_full P m cw refs reads.1 full.1 less)
  | inr there ↦ rw (there) (omega (arith, ap length full.0, reads.0.0.fits))
]

-- With nothing lost every shard is the original.
pub map-bytes :
    (P : Primitives) (m : ℕ) (cw : List Bytes) (refs : List Shard)
    → All (IsRead P m cw) refs
    → count is_lost refs ≡ 0
    → map (λ (s : Shard). s.bytes) refs ≡ map (λ (s : Shard). some (original cw s)) refs
unfolding count
map-bytes P m cw [] reads none_lost = refl
map-bytes P m cw (ref ∷ refs) reads none_lost = elim (IsRead-cases P m cw ref reads.0) [
  | inl gone ↦ absurd (ground (arith, none_lost, gone))
  | inr there ↦ rw (there) (
      ap (λ (ss : List (Option Bytes)). some (original cw ref) ∷ ss)
        (map-bytes P m cw refs reads.1 (ground (arith, none_lost, there))))
]
