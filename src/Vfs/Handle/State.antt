-- ===== src/Vfs/Handle/State.antt =====
-- internal/vfs/file.go: the open file, the tables it writes, and the storage pool below it.
use zenofs.Common.{ℕ, Bool, Option, List, Result, ok, err}
use zenofs.Db.{Codec, Inode, Version, VersionChunk, Share}

-- What `AddChunks` returns of a stored chunk.
pub record Stored : Type 0 where
  pub chunk_id : ℕ
  pub hash : List ℕ

-- The storage pool and the codec as an open file calls them: `AddChunks`, `ReadChunks` and
-- `RebuildByChunks` of internal/pool, `encodeSlice` and `decodeSlice` of internal/vfs/crypto.go.
-- Encoding draws a nonce, so it changes the state too.
pub record Backend : Type 1 where
  pub Pool : Type 0
  pub add_chunk : Pool → List ℕ → Result Stored × Pool
  pub read_chunk : Pool → ℕ → Result (List ℕ) × Pool
  pub rebuild_chunk : Pool → ℕ → Pool
  pub encode : Pool → List ℕ → Codec → Result (List ℕ) × Pool
  pub decode : Pool → List ℕ → Codec → Result (List ℕ)

-- The open file: `fileHandle`. `active` is the slice that is being written, with its plain text.
pub record Handle : Type 0 where
  pub inode : ℕ
  pub readable : Bool
  pub writable : Bool
  pub appending : Bool
  pub offset : ℕ
  pub closed : Bool
  pub old_ver : Option Version
  pub old_chunks : List VersionChunk
  pub new_ver : Version
  pub new_chunks : List VersionChunk
  pub dirty : Bool
  pub active : Option (ℕ × List ℕ)

-- The tables, the clock, and the mount that the file was opened through.
pub record World (P : Type 0) : Type 0 where
  pub pool : P
  pub versions : List Version
  pub version_chunks : List VersionChunk
  pub inodes : List Inode
  pub next_version : ℕ
  pub now : ℕ
  pub share : Share
  pub user_id : ℕ
  pub slice_bytes : ℕ

pub record State (P : Type 0) : Type 0 where
  pub handle : Handle
  pub open handle use *
  pub world : World P
  pub open world use *

-- A method of the open file: its result and the state that it leaves, on an error too.
abbrev pub Action : Type 0 → Type 0 → Type 0
Action P A = State P → Result A × State P

module _ {P : Type 0} where
  pub pure : {A : Type 0} → A → Action P A
  pure a s = (ok a, s)

  abbrev continue : {A B : Type 0} → Result A → (A → Action P B) → Action P B
  continue (ok a) f s = f a s
  continue (err e) f s = (err e, s)

  infixl 10 ◌>>=◌ ◌>>◌
  unfoldable pub ◌>>=◌ : {A B : Type 0} → Action P A → (A → Action P B) → Action P B
  unfolding pure
  ◌>>=◌ m f s = let r = m s in continue r.0 f r.1

  abbrev pub ◌>>◌ : {A B : Type 0} → Action P A → Action P B → Action P B
  m >> n = m >>= λ _. n

  abbrev pub set_handle : State P → Handle → State P
  set_handle s h = record s { handle = h }

  abbrev pub set_pool : State P → P → State P
  set_pool s p = record s { world = record s.world { pool = p } }
