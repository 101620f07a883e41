-- ===== src/Pool/Cache/Reads/Laws.antt =====
-- internal/pool/chunk.go and internal/pool/cache.go: what is proved of a read of chunks.
use zenofs.Common.{ℕ, none, some, List, [], ◌∷◌, ok, ◌≡◌, refl, ◌⊎◌, inl, inr, arith}
use zenofs.Pool.Tables.{Chunk, ReadCache}
use zenofs.Pool.Disks.{Disk, ChunkHandler}
use zenofs.Pool.Worker.{PoolDb}
use zenofs.Pool.Write.{Fresh}
use zenofs.Pool.Write.Calls.{disks_of}
use zenofs.Pool.Cache.Reads.{read_source, copy_of, read_one, read_all, check_read, read_chunks}
use zenofs.Vfs.Crypto.{Bytes}

module _ {S : Type 0} (handlers : List (ChunkHandler S)) where
  -- The chunks can be read, and a copy that can be read holds the same bytes.
  abbrev pub IsCoherent : List Disk → List ReadCache → S → List Chunk → List Bytes → Type 0
  IsCoherent disks rows s [] [] = Unit
  IsCoherent disks rows s (c ∷ cs) (b ∷ bs) =
      ((read_source handlers disks s c ≡ some b)
        × ((copy_of handlers disks rows s c ≡ none) ⊎ (copy_of handlers disks rows s c ≡ some b)))
      × IsCoherent disks rows s cs bs
  IsCoherent disks rows s _ _ = ⊥

  read_one-IsCoherent :
      (disks : List Disk) (rows : List ReadCache) (s : S) (c : Chunk) (b : Bytes)
      → read_source handlers disks s c ≡ some b
      → (copy_of handlers disks rows s c ≡ none) ⊎ (copy_of handlers disks rows s c ≡ some b)
      → read_one handlers disks rows s c ≡ some b
  unfolding read_one
  read_one-IsCoherent disks rows s c b source (inl gone) = ground (arith, gone, source)
  read_one-IsCoherent disks rows s c b source (inr copied) = ground (arith, copied)

  read_all-IsCoherent :
      (disks : List Disk) (rows : List ReadCache) (s : S) (cs : List Chunk) (bs : List Bytes)
      → IsCoherent disks rows s cs bs
      → read_all handlers disks rows s cs ≡ some bs
  unfolding read_all
  read_all-IsCoherent disks rows s [] [] h = refl
  read_all-IsCoherent disks rows s (c ∷ cs) (b ∷ bs) h = ground (
    arith,
    read_one-IsCoherent disks rows s c b h.0.0 h.0.1,
    read_all-IsCoherent disks rows s cs bs h.1,
  )
  read_all-IsCoherent disks rows s [] (b ∷ bs) h = absurd h
  read_all-IsCoherent disks rows s (c ∷ cs) [] h = absurd h

  -- A read that is not refused, of chunks whose files can be read and whose copies, where one can be
  -- read, hold the same bytes, gives the bytes of the files in the order asked for.
  read_chunks-IsCoherent :
      (fresh : Fresh) (n id : ℕ) (ids : List ℕ) (db : PoolDb) (s : S) (cs : List Chunk)
      (bs : List Bytes)
      → check_read handlers id ids db ≡ ok cs
      → IsCoherent (disks_of id db) db.tables.read_caches s cs bs
      → (read_chunks handlers fresh n id ids db s).result ≡ ok bs
  unfolding read_chunks
  read_chunks-IsCoherent fresh n id ids db s cs bs fine h =
      ground (arith, fine, read_all-IsCoherent (disks_of id db) db.tables.read_caches s cs bs h)
