-- ===== src/Vfs/Handle/Slices.antt =====
-- internal/vfs/file.go and internal/vfs/file_write.go: reading and storing one slice.
use zenofs.Common.{
  ℕ, ◌+◌, ◌-◌, Bool, true, ◌&&◌, Option, none, some, List, [], ◌∷◌, ◌++◌, ok, err, ltb, ◌==◌,
  if◌then◌else◌, length, take, drop, replicate, find_by, delete_where,
}
use zenofs.Db.{Codec, VersionChunk}
use zenofs.Vfs.Handle.State.{Stored, Backend, Action, ◌>>=◌, ◌>>◌, set_handle, set_pool}

-- A lookup in `oldChunks` or `newChunks`.
unfoldable pub slice_at : ℕ → List VersionChunk → Option VersionChunk
unfolding find_by
slice_at i = find_by (λ vc. vc.idx == i)

-- The row of the table version_chunks with this primary key.
abbrev pub is_row : ℕ → ℕ → VersionChunk → Bool
is_row v i vc = vc.version_id == v && vc.idx == i

unfoldable pub is_all_zero : List ℕ → Bool
is_all_zero [] = true
is_all_zero (x ∷ xs) = x == 0 && is_all_zero xs

-- `grown` and the two copies of writeIntoSlice.
unfoldable pub grow : ℕ → List ℕ → List ℕ
grow end buf = if ltb (length buf) end then buf ++ replicate (end - length buf) 0 else buf

unfoldable pub copy_at : ℕ → List ℕ → List ℕ → List ℕ
copy_at intra data_bytes buf =
    take intra buf ++ (data_bytes ++ drop (intra + length data_bytes) buf)

unfoldable pub active_at : ℕ → Option (ℕ × List ℕ) → Option (List ℕ)
active_at i none = none
active_at i (some (j, buf)) = if j == i then some buf else none

module _ (B : Backend) where
  open B use {Pool, add_chunk, read_chunk, rebuild_chunk, encode, decode}

  -- A failed read or decode asks for the stripe to be rebuilt.
  unfoldable pub read_slice : ℕ → Codec → Action Pool (List ℕ)
  read_slice id codec s =
      let r = read_chunk s.pool id in
      elim r.0 [
        | err e ↦ (err e, set_pool s (rebuild_chunk r.1 id))
        | ok stored ↦ elim (decode r.1 stored codec) [
          | ok plain ↦ (ok plain, set_pool s r.1)
          | err e ↦ (err e, set_pool s (rebuild_chunk r.1 id))
        ]
      ]

  -- The active buffer, else a slice stored by this handle, else the slice found at open, else a hole.
  unfoldable pub slice_plain : ℕ → Action Pool (List ℕ)
  slice_plain i s = elim (active_at i s.active) [
    | some buf ↦ (ok buf, s)
    | none ↦ elim (slice_at i s.new_chunks) [
      | some vc ↦ read_slice vc.chunk_id s.new_ver.codec s
      | none ↦ elim (slice_at i s.old_chunks) [
        | some vc ↦ elim s.old_ver [ some v ↦ read_slice vc.chunk_id v.codec s | none ↦ (ok [], s) ]
        | none ↦ (ok [], s)
      ]
    ]
  ]

  unfoldable pub drop_slice : ℕ → Action Pool (Unit {0})
  drop_slice i s = (
    ok tt,
    record {
      handle = record s.handle { new_chunks = delete_where (λ vc. vc.idx == i) s.new_chunks };
      world = record s.world {
        version_chunks = delete_where (is_row s.new_ver.id i) s.version_chunks;
      };
    },
  )

  -- The upsert of the row and the entry of `newChunks`.
  unfoldable pub record_slice : ℕ → List ℕ → Stored → Action Pool (Unit {0})
  record_slice i plain stored s = (
    ok tt,
    record {
      handle = record s.handle { new_chunks = row ∷ delete_where (λ vc. vc.idx == i) s.new_chunks };
      world = record s.world {
        version_chunks = row ∷ delete_where (is_row s.new_ver.id i) s.version_chunks;
      };
    },
  )
    where
      row : VersionChunk
      row = record {
        version_id = s.new_ver.id;
        idx = i;
        chunk_id = stored.chunk_id;
        size = length plain;
        hash = stored.hash;
      }

  unfoldable pub encode_slice : List ℕ → Codec → Action Pool (List ℕ)
  encode_slice plain codec s = let r = encode s.pool plain codec in (r.0, set_pool s r.1)

  unfoldable pub store_chunk : List ℕ → Action Pool Stored
  store_chunk stored s = let r = add_chunk s.pool stored in (r.0, set_pool s r.1)

  -- Encode, add to the pool, and record.
  unfoldable pub store_slice : ℕ → List ℕ → Action Pool (Unit {0})
  unfolding ◌>>=◌
  store_slice i plain s =
      (do
        stored ← encode_slice plain s.new_ver.codec
        chunk ← store_chunk stored
        record_slice i plain chunk)
        s

  -- An all-zero slice is a hole and is not stored.
  unfoldable pub put_slice : ℕ → List ℕ → Action Pool (Unit {0})
  put_slice i plain s = if is_all_zero plain then drop_slice i s else store_slice i plain s

  unfoldable pub flush_active : Action Pool (Unit {0})
  flush_active s = elim s.active [
    | none ↦ (ok tt, s)
    | some (i, buf) ↦ put_slice i buf (set_handle s (record s.handle { active = none }))
  ]

  -- The active buffer takes the bytes.
  unfoldable pub overlay_active : ℕ → ℕ → List ℕ → List ℕ → Action Pool (Unit {0})
  overlay_active i intra data_bytes buf s = (
    ok tt,
    set_handle s (record s.handle {
      active = some (i, copy_at intra data_bytes (grow (intra + length data_bytes) buf));
    }),
  )

  -- Another slice becomes the active one: it is read, and the buffer before it is flushed.
  unfoldable pub switch_slice : ℕ → ℕ → List ℕ → Action Pool (Unit {0})
  unfolding ◌>>=◌
  switch_slice i intra data_bytes = do
    buf ← slice_plain i
    flush_active
    overlay_active i intra data_bytes buf

  unfoldable pub write_into_slice : ℕ → ℕ → List ℕ → Action Pool (Unit {0})
  write_into_slice i intra data_bytes s = elim (active_at i s.active) [
    | some buf ↦ overlay_active i intra data_bytes buf s
    | none ↦ switch_slice i intra data_bytes s
  ]
