-- ===== src/Pool/Stripes/Rebuild/Whole.antt =====
-- internal/pool/rebuild.go: what it means for a stripe to be whole, and what is relied on of the
-- Reed-Solomon package and of the files of the disks.
use zenofs.Common.{
  ltb, ◌||◌, ℕ, suc, ◌+◌, ◌≤◌, ◌<◌, ◌≡◌, ◌&&◌, true, false, Bool, Option, none, some, List, [], ◌∷◌,
  ◌==◌, length, get_or, take, drop, map, All, count,
}
use zenofs.Pool.Tables.{Chunk, is_allocated, is_data}
use zenofs.Pool.Disks.{Disk, ChunkHandler, read_chunk, write_chunk, hash_of}
use zenofs.Pool.Stripes.{Coder, StripeJob, pad, max_size}
use zenofs.Vfs.Crypto.{Bytes, Primitives, hash_sum, hash_equal}
use zenofs.Vfs.Path.{same_text}

-- Data shards of one length, and the parity that the package computes of them.
pub record IsCodeword (coder : Coder) (ds ps m : ℕ) (cw : List Bytes) : Type 0 where
  pub count : length cw ≡ ds + ps
  pub equal : All (λ (b : Bytes). length b ≡ m) cw
  pub encoded : coder.encode ds ps (take ds cw) ≡ some (drop ds cw)

abbrev pub is_erased : Option Bytes → Bool
is_erased none = true
is_erased (some b) = false

-- What is there of the shards is as it was.
abbrev pub Agree : List Bytes → List (Option Bytes) → Type 0
Agree cw slots = (i : ℕ) (b : Bytes) → get_or slots i none ≡ some b → b ≡ get_or cw i []

-- The package fills in as many shards as there are parity shards.
abbrev pub Recovers : Coder → ℕ → ℕ → Type 0
Recovers coder ds ps =
    (m : ℕ) (cw : List Bytes) (slots : List (Option Bytes))
    → IsCodeword coder ds ps m cw
    → length slots ≡ ds + ps
    → Agree cw slots
    → count is_erased slots ≤ ps
    → coder.reconstruct ds ps slots ≡ some cw

-- The bytes of a chunk within its shard, whose length is that of the longest chunk.
abbrev pub content : Chunk → Bytes → Bytes
content c b = take c.size b

-- The row of a chunk describes the shard `b` of length `m`, all of it for a parity chunk, and nothing
-- else has its hash.
pub record IsShard (P : Primitives) (m : ℕ) (c : Chunk) (b : Bytes) : Type 0 where
  pub fits : length b ≡ m
  pub some_data : ltb 0 c.size ≡ true
  pub full_parity : (is_data c.kind || c.size == m) ≡ true
  pub padding : pad m (content c b) ≡ b
  pub size : length (content c b) ≡ c.size
  pub hash : hash_sum P (content c b) ≡ hash_of c.hash
  pub only : (x : Bytes) → hash_equal P x (hash_of c.hash) ≡ true → x ≡ content c b

-- Numbered from `i` on.
abbrev pub InOrder {ℓ} : {A : Type ℓ} → (A → ℕ) → ℕ → List A → Type 0
InOrder idx i [] = Unit
InOrder idx i (x ∷ xs) = (idx x ≡ i) × InOrder idx (suc i) xs

abbrev pub same_file : Chunk → Chunk → Bool
same_file c d = c.disk_id == d.disk_id && same_text c.path d.path

-- No two chunks have one file.
unfoldable pub Apart : List Chunk → Type 0
Apart [] = Unit
Apart (c ∷ cs) =
    All (λ (d : Chunk). (same_file c d ≡ false) × (same_file d c ≡ false)) cs × Apart cs

abbrev pub data_of : StripeJob → List Bytes → List (Option Bytes)
data_of job cw = map (λ (c : Chunk). some (content c (get_or cw c.index []))) job.data_chunks

-- Every data slot of the stripe is written and its parity is up to date: the rows describe the shards
-- `cw`, of the length of the longest data chunk.
pub record IsWhole (P : Primitives) (coder : Coder) (m : ℕ) (job : StripeJob) (cw : List Bytes)
    : Type 0 where
  pub codeword : IsCodeword coder job.ds job.ps m cw
  pub positive : 0 < m
  pub longest : max_size (data_of job cw) ≡ m
  pub data_count : length job.data_chunks ≡ job.ds
  pub parity_count : length job.parity_by_index ≡ job.ps
  pub data_order : InOrder (λ (c : Chunk). c.index) 0 job.data_chunks
  pub parity_order : InOrder (λ (c : Chunk). c.index) 0 job.parity_by_index
  pub data_rows : All (λ (c : Chunk). IsShard P m c (get_or cw c.index [])) job.data_chunks
  pub parity_rows :
      All
        (λ (c : Chunk).
          (is_allocated c.status ≡ true)
          × ((content c (get_or cw (job.ds + c.index) []) ≡ get_or cw (job.ds + c.index) [])
              × IsShard P m c (get_or cw (job.ds + c.index) [])))
        job.parity_by_index

-- A file that has been written reads as it was written, and the others as before.
pub record IsFiles {S : Type 0} (handlers : List (ChunkHandler S)) (disks : List Disk)
    : Type 0 where
  pub written :
      (s s' : S) (c : Chunk) (b : Bytes)
      → write_chunk handlers disks s c b ≡ some s'
      → read_chunk handlers disks s' c ≡ some b
  pub others :
      (s s' : S) (c d : Chunk) (b : Bytes)
      → write_chunk handlers disks s c b ≡ some s'
      → same_file c d ≡ false
      → read_chunk handlers disks s' d ≡ read_chunk handlers disks s d
