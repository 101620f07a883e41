-- ===== src/Pool/Write/CallLaws.antt =====
-- internal/pool/chunk.go: what is proved of the calls that write chunks.
use zenofs.Common.{
  ℕ, suc, ◌<◌, ◌≡◌, refl, sym, ap, ◌∙◌, subst, inl, inr, true, false, Option, none, some, List, [],
  ◌∷◌, map, ok, Error, ◌==◌, length, arith, All, Bool-cases, Option-cases, Result-cases, exists_in,
  ok_injective,
}
use zenofs.Pool.Tables.{Chunk}
use zenofs.Pool.Disks.{
  Disk, PoolRow, ChunkHandler, disk_by_id, handler_for, read_chunk, write_chunk,
  read_verified_chunk, hash_of,
}
use zenofs.Pool.Stripes.Rebuild.Whole.{IsFiles, same_file, Apart}
use zenofs.Pool.Stripes.Parity.Laws.{ReadAs}
use zenofs.Pool.Worker.{PoolDb}
use zenofs.Pool.Write.{Fresh, get_pool, get_new_chunks}
use zenofs.Pool.Write.Slots.{AsItems}
use zenofs.Pool.Write.Allocation.{get_new_chunks-AsItems}
use zenofs.Pool.Write.Files.{first_err, write_chunk_file, write_chunk_files, persist_chunk_data}
use zenofs.Pool.Write.Calls.{add_chunks, item_of, answer, disks_of}
use zenofs.Vfs.Crypto.{Bytes, Primitives, hash_sum, hash_equal}
use zenofs.Vfs.Path.Equal.{same_text_self}

pub hash_equal_self : (P : Primitives) (b : Bytes) → hash_equal P b (hash_sum P b) ≡ true
unfolding hash_equal hash_sum
hash_equal_self P b = ground (arith, same_text_self (P.blake3 b))

module _ {S : Type 0} (P : Primitives) (handlers : List (ChunkHandler S)) (disks : List Disk) where
  write_chunk_file-ok :
      (c : Chunk) (b : Bytes) (s : S)
      → (write_chunk_file P handlers disks c b s).0 ≡ none
      → write_chunk handlers disks s c b ≡ some (write_chunk_file P handlers disks c b s).1
  unfolding write_chunk_file write_chunk
  write_chunk_file-ok c b s h = elim (Option-cases (disk_by_id disks c.disk_id)) [
    | inl gone ↦ absurd (ground (arith, gone, h))
    | inr (d, there) ↦ elim (Option-cases (handler_for handlers d.backend)) [
      | inl no_handler ↦ absurd (ground (arith, there, no_handler, h))
      | inr (k, handled) ↦ elim (Option-cases (k.write s d c.path b)) [
        | inl failed ↦ absurd (ground (arith, there, handled, failed, h))
        | inr (s', wrote) ↦ ground (arith, there, handled, wrote)
      ]
    ]
  ]

  -- Without an error every chunk reads as its bytes, and nothing else has changed.
  record AllWritten (cs : List Chunk) (bs : List Bytes) (s u : S) : Type 0 where
    stored : ReadAs P handlers disks u cs bs
    others :
        (d : Chunk)
        → All (λ (c : Chunk). same_file c d ≡ false) cs
        → read_chunk handlers disks u d ≡ read_chunk handlers disks s d

  before :
      (c : Chunk) (cs : List Chunk)
      → All (λ (d : Chunk). (same_file c d ≡ false) × (same_file d c ≡ false)) cs
      → All (λ (d : Chunk). same_file d c ≡ false) cs
  before c [] h = _
  before c (d ∷ ds) h = (h.0.1, before c ds h.1)

  write_chunk_files-AllWritten :
      (cs : List Chunk) (bs : List Bytes) (s : S)
      → IsFiles handlers disks
      → Apart cs
      → length cs ≡ length bs
      → first_err (write_chunk_files P handlers disks cs bs s).0 ≡ none
      → AllWritten cs bs s (write_chunk_files P handlers disks cs bs s).1
  unfolding write_chunk_files first_err Apart
  write_chunk_files-AllWritten [] [] s files apart len h = record {
    stored = _;
    others = λ d k. refl;
  }
  write_chunk_files-AllWritten [] (b ∷ bs) s files apart len h = absurd (ground (arith, len))
  write_chunk_files-AllWritten (c ∷ cs) [] s files apart len h = absurd (ground (arith, len))
  write_chunk_files-AllWritten (c ∷ cs) (b ∷ bs) s files apart len h =
      let first = write_chunk_file P handlers disks c b s in
      elim (Option-cases first.0) [
        | inr (e, failed) ↦ absurd (ground (arith, failed, h))
        | inl fine ↦
            let wrote = write_chunk_file-ok c b s fine in
            let rest =
              write_chunk_files-AllWritten cs bs first.1 files apart.1 (omega (arith, len))
                (ground (arith, fine, h)) in
            record {
              stored = (
                rest.others c (before c cs apart.0) ∙ files.written s first.1 c b wrote,
                rest.stored,
              );
              others = λ d k. rest.others d k.1 ∙ files.others s first.1 c d b wrote k.0;
            }
      ]

  -- The chunks read as the bytes and have their hash.
  abbrev pub VerifiedAs : S → List Chunk → List Bytes → Type 0
  VerifiedAs s [] [] = Unit
  VerifiedAs s (c ∷ cs) (b ∷ bs) =
      (read_verified_chunk handlers P disks s c ≡ some b) × VerifiedAs s cs bs
  VerifiedAs s _ _ = ⊥

  AsItems-VerifiedAs :
      (s : S) (cs : List Chunk) (bs : List Bytes)
      → AsItems cs (map (item_of P) bs)
      → ReadAs P handlers disks s cs bs
      → VerifiedAs s cs bs
  unfolding read_verified_chunk
  AsItems-VerifiedAs s [] [] items reads = _
  AsItems-VerifiedAs s (c ∷ cs) (b ∷ bs) items reads =
      let test : hash_equal P b (hash_of c.hash) ≡ true =
        ap (λ (h : Option Bytes). hash_equal P b (hash_of h)) items.0.1.0 ∙ hash_equal_self P b in
      (ground (arith, reads.0, test), AsItems-VerifiedAs s cs bs items.1 reads.1)
  AsItems-VerifiedAs s [] (b ∷ bs) items reads = absurd items
  AsItems-VerifiedAs s (c ∷ cs) [] items reads = absurd items

  length-AsItems :
      (cs : List Chunk) (bs : List Bytes) → AsItems cs (map (item_of P) bs) → length cs ≡ length bs
  length-AsItems [] [] items = refl
  length-AsItems (c ∷ cs) (b ∷ bs) items = ap suc (length-AsItems cs bs items.1)
  length-AsItems [] (b ∷ bs) items = absurd items
  length-AsItems (c ∷ cs) [] items = absurd items

answer-ok :
    (chunks cs : List Chunk) (e : Option Error)
    → answer chunks e ≡ ok cs
    → (chunks ≡ cs) × (e ≡ none)
answer-ok chunks cs none h = (ok_injective chunks cs h, refl)
answer-ok chunks cs (some e) h = absurd (ground (arith, h))

-- Chunks that were added: one for each of the data, in their order, with its size and hash, and each
-- reads as its data and passes the check of its hash. Relied on: what is written to a file is read from
-- it, and no two of the chunks share a file. The pool has a data shard, and a shuffle of the disks leaves
-- as many as there were.
pub add_chunks-VerifiedAs :
    {S : Type 0} (P : Primitives) (handlers : List (ChunkHandler S)) (fresh : Fresh) (id : ℕ)
    (list : List Bytes) (db : PoolDb) (s : S) (pool : PoolRow) (cs : List Chunk)
    → get_pool id db ≡ ok pool
    → 0 < pool.data_shards
    → ((n : ℕ) (ds : List Disk) → length (fresh.shuffle n ds) ≡ length ds)
    → IsFiles handlers (disks_of id db)
    → Apart cs
    → (add_chunks P handlers fresh id list db s).result ≡ ok cs
    → AsItems cs (map (item_of P) list)
      × VerifiedAs P handlers
          (disks_of id db)
          (add_chunks P handlers fresh id list db s).files
          cs
          list
unfolding add_chunks persist_chunk_data
add_chunks-VerifiedAs P handlers fresh id list db s pool cs found positive same files apart h =
    elim (Bool-cases (length list == 0)) [
      | inl empty ↦ absurd (ground (arith, empty, h))
      | inr full ↦ elim (Bool-cases (exists_in (λ (b : Bytes). length b == 0) list)) [
        | inl empty ↦ absurd (ground (arith, full, empty, h))
        | inr each ↦ elim (Result-cases (get_new_chunks fresh id (map (item_of P) list) db)) [
          | inr (e, failed) ↦ absurd (ground (arith, full, each, failed, h))
          | inl ((chunks, u), got) ↦
              let disks = disks_of id db in
              let r = write_chunk_files P handlers disks chunks list s in
              let answered : answer chunks (first_err r.0) ≡ ok cs =
                ground (arith, full, each, got, h) in
              let ao = answer-ok chunks cs (first_err r.0) answered in
              let items =
                get_new_chunks-AsItems fresh id (map (item_of P) list) db u pool chunks found
                  positive same got in
              let written =
                write_chunk_files-AllWritten P handlers disks chunks list s files
                  (subst Apart (sym ao.0) apart) (length-AsItems P handlers disks chunks list items)
                  ao.1 in
              rw (full, each, got)
                (subst
                  (λ (xs : List Chunk).
                    AsItems xs (map (item_of P) list) × VerifiedAs P handlers disks r.1 xs list)
                  ao.0
                  (items, AsItems-VerifiedAs P handlers disks r.1 chunks list items written.stored))
        ]
      ]
    ]
