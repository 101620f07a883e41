-- ===== src/Vfs/Handle/PoolStore.antt =====
-- internal/pool/chunk.go under an open file: AddChunks and ReadChunks of one pool with one chunk a call,
-- as internal/vfs/file.go and internal/vfs/file_write.go make them, and RebuildByChunks.
use zenofs.Common.{ℕ, suc, List, [], ◌∷◌, Result, ok, err}
use zenofs.Pool.Tables.{Chunk}
use zenofs.Pool.Disks.{ChunkHandler, hash_of}
use zenofs.Pool.Worker.{PoolDb}
use zenofs.Pool.Worker.Enqueue.{rebuild_by_chunks}
use zenofs.Pool.Write.{Fresh, chunk_not_found}
use zenofs.Pool.Write.Calls.{add_chunks}
use zenofs.Pool.Cache.Reads.{read_chunks}
use zenofs.Vfs.Crypto.{Bytes, Primitives}
use zenofs.Vfs.Handle.State.{Stored, Backend}
use zenofs.Vfs.Handle.Coded.{ChunkStore, KeyedMount, coded}

-- The tables, the files of the disks, and how many calls have drawn new ids.
pub record PoolState (S : Type 0) : Type 0 where
  pub db : PoolDb
  pub files : S
  pub calls : ℕ

-- `chunks[0]`: AddChunks answers with as many chunks as it was given, so there is one.
abbrev pub first_stored : Result (List Chunk) → Result Stored
first_stored (err e) = err e
first_stored (ok []) = err chunk_not_found
first_stored (ok (c ∷ cs)) = ok (record { chunk_id = c.id; hash = hash_of c.hash })

-- `data[0]`, which is there likewise.
abbrev pub first_read : Result (List Bytes) → Result Bytes
first_read (err e) = err e
first_read (ok []) = err chunk_not_found
first_read (ok (b ∷ bs)) = ok b

module _ {S : Type 0} (P : Primitives) (handlers : List (ChunkHandler S)) (fresh : ℕ → Fresh)
    (cache_id : ℕ → ℕ) (pool : ℕ) where
  unfoldable pub add_one : PoolState S → Bytes → Result Stored × PoolState S
  add_one p st =
      let r = add_chunks P handlers (fresh p.calls) pool (st ∷ []) p.db p.files in
      (first_stored r.result, record { db = r.db; files = r.files; calls = suc p.calls })

  unfoldable pub read_back : PoolState S → ℕ → Result Bytes × PoolState S
  read_back p id =
      let r = read_chunks handlers (fresh p.calls) (cache_id p.calls) pool (id ∷ []) p.db p.files in
      (first_read r.result, record { db = r.db; files = r.files; calls = suc p.calls })

  unfoldable pub rebuild_one : PoolState S → ℕ → PoolState S
  rebuild_one p id = record p { db = (rebuild_by_chunks (id ∷ []) p.db).1 }

  abbrev pub pool_store : ChunkStore
  pool_store = record {
    Shelf = PoolState S;
    add = add_one;
    read = read_back;
    rebuild = rebuild_one;
  }

  -- What an open file of the program stands on: its codec over its pool.
  abbrev pub program_backend : KeyedMount → Backend
  program_backend m = coded pool_store P m
