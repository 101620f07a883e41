-- ===== src/Pool/Write/Slots.antt =====
-- internal/pool/chunk.go: lemmas on the slots for new chunks.
use zenofs.Common.{
  ℕ, zero, suc, ◌+◌, ◌≤◌, ◌≡◌, refl, sym, ap, subst, inl, inr, true, false, some, List, [], ◌∷◌,
  ◌++◌, ◌==◌, ltb, arith, length, take, drop, select, Bool-cases,
}
use zenofs.Pool.Tables.{Chunk, is_allocated}
use zenofs.Pool.Disks.{Disk, PoolRow}
use zenofs.Pool.Write.{ChunkData, Fresh, stripe_slots, is_new_data, fill, paths_after}

-- The chunks hold the items, in their order.
abbrev pub AsItems : List Chunk → List ChunkData → Type 0
AsItems [] [] = Unit
AsItems (c ∷ cs) (it ∷ its) =
    ((c.size ≡ it.size) × ((c.hash ≡ some it.hash) × (is_allocated c.status ≡ true)))
    × AsItems cs its
AsItems _ _ = ⊥

pub AsItems-append :
    (cs ds : List Chunk) (its jts : List ChunkData)
    → AsItems cs its
    → AsItems ds jts
    → AsItems (cs ++ ds) (its ++ jts)
AsItems-append [] ds [] jts h k = k
AsItems-append (c ∷ cs) ds (it ∷ its) jts h k = (h.0, AsItems-append cs ds its jts h.1 k)
AsItems-append [] ds (it ∷ its) jts h k = absurd h
AsItems-append (c ∷ cs) ds [] jts h k = absurd h

pub take_and_drop {ℓ} : {A : Type ℓ} (n : ℕ) (xs : List A) → take n xs ++ drop n xs ≡ xs
take_and_drop zero xs = refl
take_and_drop (suc n) [] = refl
take_and_drop (suc n) (x ∷ xs) = ap (λ (ys : List _). x ∷ ys) (take_and_drop n xs)

pub take_whole {ℓ} :
    {A : Type ℓ} (n : ℕ) (xs : List A) → (length (drop n xs) == 0) ≡ true → take n xs ≡ xs
take_whole zero [] h = refl
take_whole zero (x ∷ xs) h = absurd (ground (arith, h))
take_whole (suc n) [] h = refl
take_whole (suc n) (x ∷ xs) h = ap (λ (ys : List _). x ∷ ys) (take_whole n xs h)

module _ (fresh : Fresh) (pool : PoolRow) where
  pub fill-AsItems :
      (cs : List Chunk) (items : List ChunkData)
      → length cs ≤ length items
      → AsItems (fill cs items) (take (length cs) items)
  unfolding fill
  fill-AsItems [] items h = _
  fill-AsItems (c ∷ cs) [] h = absurd (omega (arith, h))
  fill-AsItems (c ∷ cs) (it ∷ its) h =
      ((refl, (refl, refl)), fill-AsItems cs its (omega (arith, h)))

  -- Without items no slot is used.
  stripe_slots-rest :
      (n stripe i : ℕ) (disks : List Disk) (paths : List (List ℕ))
      → select is_new_data (stripe_slots fresh pool n stripe i disks paths []) ≡ []
  unfolding stripe_slots select
  stripe_slots-rest n stripe i [] paths = refl
  stripe_slots-rest n stripe i (d ∷ disks) paths = elim (Bool-cases (ltb i pool.data_shards)) [
    | inl here ↦ rw (here) (stripe_slots-rest (suc n) stripe (suc i) disks (paths_after paths))
    | inr past ↦ rw (past) (stripe_slots-rest (suc n) stripe (suc i) disks (paths_after paths))
  ]

  -- Past the data slots nothing is used.
  stripe_slots-parity :
      (n stripe i : ℕ) (disks : List Disk) (paths : List (List ℕ)) (items : List ChunkData)
      → pool.data_shards ≤ i
      → select is_new_data (stripe_slots fresh pool n stripe i disks paths items) ≡ []
  unfolding stripe_slots select
  stripe_slots-parity n stripe i [] paths items h = refl
  stripe_slots-parity n stripe i (d ∷ disks) paths [] h =
      let past : ltb i pool.data_shards ≡ false = ground (arith, h) in
      rw (past)
        (stripe_slots-parity (suc n) stripe (suc i) disks (paths_after paths) [] (omega (arith, h)))
  stripe_slots-parity n stripe i (d ∷ disks) paths (it ∷ its) h =
      let past : ltb i pool.data_shards ≡ false = ground (arith, h) in
      rw (past) (
        stripe_slots-parity (suc n) stripe (suc i) disks (paths_after paths) (it ∷ its)
          (omega (arith, h)))

  pub stripe_slots-AsItems :
      (left n stripe i : ℕ) (disks : List Disk) (paths : List (List ℕ)) (items : List ChunkData)
      → i + left ≡ pool.data_shards
      → left ≤ length disks
      → AsItems
          (select is_new_data (stripe_slots fresh pool n stripe i disks paths items))
          (take left items)
  unfolding stripe_slots select
  stripe_slots-AsItems zero n stripe i disks paths items e h =
      subst (λ (cs : List Chunk). AsItems cs [])
        (sym (stripe_slots-parity n stripe i disks paths items (omega (arith, e)))) _
  stripe_slots-AsItems (suc left) n stripe i [] paths items e h = absurd (omega (arith, h))
  stripe_slots-AsItems (suc left) n stripe i (d ∷ disks) paths [] e h =
      subst (λ (cs : List Chunk). AsItems cs [])
        (sym (stripe_slots-rest n stripe i (d ∷ disks) paths)) _
  stripe_slots-AsItems (suc left) n stripe i (d ∷ disks) paths (it ∷ its) e h =
      let here : ltb i pool.data_shards ≡ true = ground (arith, e) in
      rw (here) (
        (refl, (refl, refl)),
        stripe_slots-AsItems left (suc n) stripe (suc i) disks (paths_after paths) its
            (omega (arith, e)) (omega (arith, h)),
      )
