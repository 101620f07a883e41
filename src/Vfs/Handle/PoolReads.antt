-- ===== src/Vfs/Handle/PoolReads.antt =====
-- internal/pool/chunk.go under an open file: what a read leaves of a pool without cache disks.
use zenofs.Common.{
  ℕ, ◌≡◌, ap, ap₂, ◌∙◌, true, List, [], ◌∷◌, arith, ◌==◌, length, inl, inr, Option-cases,
  Result-cases,
}
use zenofs.Pool.Disks.{ChunkHandler}
use zenofs.Pool.Worker.{PoolDb}
use zenofs.Pool.Write.{Fresh}
use zenofs.Pool.Write.Calls.{disks_of}
use zenofs.Pool.Cache.{cache_disks}
use zenofs.Pool.Cache.Reads.{read_chunks, check_read, read_all, update_cache_access}
use zenofs.Vfs.Crypto.{Primitives}
use zenofs.Vfs.Handle.PoolStore.{PoolState, read_back, first_read}

module _ {S : Type 0} (handlers : List (ChunkHandler S)) where
  -- The answer of a read does not depend on the ids and paths that are drawn for the cache.
  read_chunks-result :
      (f g : Fresh) (m n pool : ℕ) (ids : List ℕ) (db : PoolDb) (s : S)
      → (read_chunks handlers f m pool ids db s).result
        ≡ (read_chunks handlers g n pool ids db s).result
  unfolding read_chunks
  read_chunks-result f g m n pool ids db s = elim (Result-cases (check_read handlers pool ids db)) [
    | inr (e, refused) ↦ ground (arith, refused)
    | inl (cs, found) ↦
        elim (Option-cases (read_all handlers (disks_of pool db) db.tables.read_caches s cs)) [
          | inl failed ↦ ground (arith, found, failed)
          | inr (bytes, reads) ↦ ground (arith, found, reads)
        ]
  ]

  read_chunks-state :
      (f : Fresh) (n pool : ℕ) (ids : List ℕ) (db : PoolDb) (s : S)
      → (length (cache_disks pool db) == 0) ≡ true
      → ((read_chunks handlers f n pool ids db s).db ≡ db)
        × ((read_chunks handlers f n pool ids db s).files ≡ s)
  unfolding read_chunks update_cache_access
  read_chunks-state f n pool ids db s uncached =
      elim (Result-cases (check_read handlers pool ids db)) [
        | inr (e, refused) ↦ (ground (arith, refused), ground (arith, refused))
        | inl (cs, found) ↦
            elim (Option-cases (read_all handlers (disks_of pool db) db.tables.read_caches s cs)) [
              | inl failed ↦ (ground (arith, found, failed), ground (arith, found, failed))
              | inr (bytes, reads) ↦
                  (ground (arith, found, reads, uncached), ground (arith, found, reads, uncached))
            ]
      ]

module _ {S : Type 0} (P : Primitives) (handlers : List (ChunkHandler S)) (fresh : ℕ → Fresh)
    (cache_id : ℕ → ℕ) (pool : ℕ) where
  -- A read of a pool without cache disks changes nothing that a later read sees: whatever is read
  -- first, every chunk reads as it would have, or fails as it would have.
  pub read_back-keeps :
      (p : PoolState S) (id j : ℕ)
      → (length (cache_disks pool p.db) == 0) ≡ true
      → (read_back P handlers fresh cache_id pool
          (read_back P handlers fresh cache_id pool p id).1
          j).0
        ≡ (read_back P handlers fresh cache_id pool p j).0
  unfolding read_back
  read_back-keeps p id j uncached =
      let (rows, files) =
        read_chunks-state handlers (fresh p.calls) (cache_id p.calls) pool (id ∷ []) p.db p.files
          uncached in
      ap first_read (
        read_chunks-result handlers _ (fresh p.calls) _ (cache_id p.calls) pool (j ∷ []) _ _
        ∙ ap₂
            (λ (d : PoolDb) (s : S).
              (read_chunks handlers (fresh p.calls) (cache_id p.calls) pool (j ∷ []) d s).result)
            rows files)
