-- ===== src/Pool/Write/Allocation.antt =====
-- internal/pool/chunk.go: what is proved of the chunks that are given for new data.
use zenofs.Common.{
  ℕ, zero, suc, ◌+◌, ◌-◌, ◌*◌, ◌/◌, ◌≤◌, ◌<◌, ◌≡◌, refl, sym, ap, subst, inl, inr, Bool, not, ◌&&◌,
  List, [], ◌∷◌, ◌++◌, Result, ok, err, Error, ◌==◌, arith, length, take, drop, select, Bool-cases,
  Result-cases, length-take, length-drop, ok_injective,
}
use native.Mathlib.Nat.{div-add-mod, mod-lt}
use zenofs.Pool.Tables.{Chunk, is_data, is_allocated}
use zenofs.Pool.Disks.{Disk, PoolRow, is_online}
use zenofs.Pool.Worker.{PoolDb}
use zenofs.Pool.Write.{
  ChunkData, Fresh, stripe_slots, new_slots, is_new_data, fill, allocate, get_pool, get_new_chunks,
  is_usable, fits_all,
}
use zenofs.Pool.Write.Slots.{
  AsItems, AsItems-append, take_and_drop, take_whole, fill-AsItems, stripe_slots-AsItems,
}

module _ (fresh : Fresh) (pool : PoolRow) where
  select-append :
      (p : Chunk → Bool) (xs ys : List Chunk) → select p (xs ++ ys) ≡ select p xs ++ select p ys
  unfolding select
  select-append p [] ys = refl
  select-append p (x ∷ xs) ys = elim (Bool-cases (p x)) [
    | inl yes_p ↦ rw (yes_p) (ap (λ (zs : List Chunk). x ∷ zs) (select-append p xs ys))
    | inr no_p ↦ rw (no_p) (select-append p xs ys)
  ]

  new_slots-AsItems :
      (k stripe : ℕ) (disks : List Disk) (paths : List (List ℕ)) (items : List ChunkData)
      → ((n : ℕ) (ds : List Disk) → length (fresh.shuffle n ds) ≡ length ds)
      → pool.data_shards ≤ length disks
      → length items ≤ k * pool.data_shards
      → AsItems (select is_new_data (new_slots fresh pool k stripe disks paths items)) items
  unfolding new_slots select
  new_slots-AsItems zero stripe disks paths [] same fits enough = _
  new_slots-AsItems zero stripe disks paths (it ∷ its) same fits enough =
      absurd (ground (arith, enough))
  new_slots-AsItems (suc k) stripe disks paths items same fits enough =
      let first =
        stripe_slots fresh pool (stripe * length disks) stripe 0 (fresh.shuffle stripe disks) paths
          items in
      let rest =
        new_slots fresh pool k (suc stripe) disks (drop (length disks) paths)
          (drop pool.data_shards items) in
      subst (λ (cs : List Chunk). AsItems cs items) (sym (select-append is_new_data first rest))
        (subst
          (λ (its : List ChunkData).
            AsItems (select is_new_data first ++ select is_new_data rest) its)
          (take_and_drop pool.data_shards items)
          (AsItems-append (select is_new_data first) (select is_new_data rest)
            (take pool.data_shards items) (drop pool.data_shards items)
            (stripe_slots-AsItems fresh pool pool.data_shards (stripe * length disks) stripe 0
              (fresh.shuffle stripe disks) paths items (omega arith)
              (omega (arith, fits, same stripe disks)))
            (new_slots-AsItems k (suc stripe) disks (drop (length disks) paths)
              (drop pool.data_shards items) same fits
              (omega (arith, enough, length-drop pool.data_shards items)))))

  -- The number of stripes is the number of items over that of data slots, rounded up.
  enough_stripes : (n ds : ℕ) → 0 < ds → n ≤ (n + ds - 1) / ds * ds
  enough_stripes n ds h = omega (arith, div-add-mod (n + ds - 1) ds, mod-lt (n + ds - 1) h)

  abbrev Gives : List ChunkData → Result (List Chunk × PoolDb) → Type 0
  Gives items r = (cs : List Chunk) (u : PoolDb) → r ≡ ok (cs, u) → AsItems cs items

  ok-Gives :
      (items : List ChunkData) (ds : List Chunk) (v : PoolDb)
      → AsItems ds items
      → Gives items (ok (ds, v))
  ok-Gives items ds v h cs u e =
      subst (λ (xs : List Chunk). AsItems xs items)
        (ap (λ (x : List Chunk × PoolDb). x.0) (ok_injective (ds, v) (cs, u) e)) h

  err-Gives : (items : List ChunkData) (e : Error) → Gives items (err e)
  err-Gives items e cs u h = absurd (ground (arith, h))

  allocate-AsItems :
      (disks : List Disk) (items : List ChunkData) (db : PoolDb)
      → 0 < pool.data_shards
      → ((n : ℕ) (ds : List Disk) → length (fresh.shuffle n ds) ≡ length ds)
      → Gives items (allocate fresh pool disks items db)
  unfolding allocate
  allocate-AsItems disks items db positive same =
      let reserved = take (length items) (
        select
          (λ (c : Chunk). not (is_allocated c.status) && (is_data c.kind && c.pool_id == pool.id))
          db.tables.chunks) in
      let rest = drop (length reserved) items in
      let slots = pool.data_shards + pool.parity_shards in
      let stripes = (length rest + pool.data_shards - 1) / pool.data_shards in
      let short : length reserved ≤ length items = omega (
        arith,
        length-take (length items) (
            select
              (λ (c : Chunk).
                not (is_allocated c.status) && (is_data c.kind && c.pool_id == pool.id))
              db.tables.chunks),
      ) in
      let filled = fill-AsItems fresh pool reserved items short in
      elim (Bool-cases (length rest == 0)) [
        | inl enough ↦ rw (enough) (
            ok-Gives items _ _ (
              subst (λ (its : List ChunkData). AsItems (fill reserved items) its)
                (take_whole (length reserved) items enough) filled))
        | inr more ↦ elim (Bool-cases (slots == 0)) [
          | inl bad ↦ rw (more, bad) (err-Gives items _)
          | inr good ↦ elim (Bool-cases (not (length disks == slots))) [
            | inl missing ↦ rw (more, good, missing) (err-Gives items _)
            | inr there ↦ elim (Result-cases (fresh.paths (stripes * slots))) [
              | inr (e, failed) ↦ rw (more, good, there, failed) (err-Gives items _)
              | inl (paths, drawn) ↦
                  rw (more, good, there, drawn)
                    (ok-Gives items _ _ (
                      subst
                        (λ (its : List ChunkData).
                          AsItems
                            (fill reserved items
                              ++ select is_new_data
                                  (new_slots fresh pool stripes 0 disks paths rest))
                            its)
                        (take_and_drop (length reserved) items)
                        (AsItems-append (fill reserved items)
                          (select is_new_data (new_slots fresh pool stripes 0 disks paths rest))
                          (take (length reserved) items) rest filled
                          (new_slots-AsItems stripes 0 disks paths rest same (ground (arith, there))
                            (enough_stripes (length rest) pool.data_shards positive)))))
            ]
          ]
        ]
      ]

-- The chunks that are given for new data hold the items: one for each, in their order, allocated, with
-- its size and its hash, whether the slots were reserved before or are of new stripes. The pool has a
-- data shard, and a shuffle of the disks leaves as many as there were.
pub get_new_chunks-AsItems :
    (fresh : Fresh) (id : ℕ) (items : List ChunkData) (db u : PoolDb) (pool : PoolRow)
    (cs : List Chunk)
    → get_pool id db ≡ ok pool
    → 0 < pool.data_shards
    → ((n : ℕ) (ds : List Disk) → length (fresh.shuffle n ds) ≡ length ds)
    → get_new_chunks fresh id items db ≡ ok (cs, u)
    → AsItems cs items
unfolding get_new_chunks
get_new_chunks-AsItems fresh id items db u pool cs found positive same h =
    elim (Bool-cases (is_online pool.status)) [
      | inr offline ↦ absurd (ground (arith, found, offline, h))
      | inl online ↦ elim (Bool-cases (fits_all (pool.chunk_size * 1024) items)) [
        | inr big ↦ absurd (ground (arith, found, online, big, h))
        | inl fits ↦
            allocate-AsItems fresh pool (select (is_usable id) db.disks) items db positive same cs u
              (ground (arith, found, online, fits, h))
      ]
    ]
