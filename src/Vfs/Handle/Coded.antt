-- ===== src/Vfs/Handle/Coded.antt =====
-- internal/vfs/crypto.go under an open file: the codec of a mount that has a key, over the storage pool.
use zenofs.Common.{
  ℕ, suc, ◌*◌, ◌≤◌, ◌<◌, ◌≡◌, refl, sym, ◌∙◌, ap, Option, some, Result, ok, arith, length, inl, inr,
  Bool-cases, Result-cases, ok_injective, ◌==◌, ◌>>=◌,
}
use zenofs.Db.{Codec}
use zenofs.Vfs.Crypto.{
  Bytes, Primitives, key_bytes, has_key, require_codec, slice_size, encode_slice, decode_slice,
  compress_slice, encrypt_slice, or_crypto_error,
}
use zenofs.Vfs.Crypto.Laws.{
  IsSound, decode_slice-encode_slice, encode_slice-fits, require_codec-encode_slice, length-encrypt,
}
use zenofs.Vfs.Handle.State.{Stored, Backend}
use zenofs.Vfs.Handle.Reliable.{IsReliable}

-- The storage pool alone, as an open file calls it: one chunk a call.
pub record ChunkStore : Type 1 where
  pub Shelf : Type 0
  pub add : Shelf → Bytes → Result Stored × Shelf
  pub read : Shelf → ℕ → Result Bytes × Shelf
  pub rebuild : Shelf → ℕ → Shelf

-- The mount: its key, what the process has unlocked, and the nonces that the random source draws.
pub record KeyedMount : Type 0 where
  pub key : Bytes
  pub unlocked : Option Bytes
  pub nonce : ℕ → Bytes

-- `encodeSlice` and `decodeSlice` of the mount; the state counts the nonces that have been drawn.
abbrev pub coded : ChunkStore → Primitives → KeyedMount → Backend
coded K P m = record {
  Pool = K.Shelf × ℕ;
  add_chunk = λ p st. let r = K.add p.0 st in (r.0, (r.1, p.1));
  read_chunk = λ p id. let r = K.read p.0 id in (r.0, (r.1, p.1));
  rebuild_chunk = λ p id. (K.rebuild p.0 id, p.1);
  encode = λ p plain c.
      (encode_slice P (key_bytes m.key m.unlocked) (some (m.nonce p.1)) plain c, (p.0, suc p.1));
  decode = λ p st c. decode_slice P (key_bytes m.key m.unlocked) st c;
}

-- What an online pool promises: it stores every chunk that is not empty and no longer than `limit`,
-- reads back what it stored, and stays online while its disks do.
pub record IsKeeping (K : ChunkStore) (limit : ℕ) : Type 1 where
  pub content : K.Shelf → ℕ → Option Bytes
  pub Online : K.Shelf → Type 0
  pub read_ok :
      (p : K.Shelf) (id : ℕ) (d : Bytes) → Online p → content p id ≡ some d → (K.read p id).0 ≡ ok d
  pub read_keeps : (p : K.Shelf) (id j : ℕ) → Online p → content (K.read p id).1 j ≡ content p j
  pub read_online : (p : K.Shelf) (id : ℕ) → Online p → Online (K.read p id).1
  pub add_ok :
      (p : K.Shelf) (st : Bytes)
      → Online p
      → 0 < length st
      → length st ≤ limit
      → (r : Stored) × ((K.add p st).0 ≡ ok r) × (content (K.add p st).1 r.chunk_id ≡ some st)
  pub add_keeps :
      (p : K.Shelf) (st : Bytes) (j : ℕ) (d : Bytes)
      → Online p
      → 0 < length st
      → length st ≤ limit
      → content p j ≡ some d
      → content (K.add p st).1 j ≡ some d
  pub add_online :
      (p : K.Shelf) (st : Bytes)
      → Online p
      → 0 < length st
      → length st ≤ limit
      → Online (K.add p st).1

-- What else is relied on of the packages: zstd gives a frame for every input, never an empty one, and
-- the random source gives 12 bytes.
pub record IsWorking (P : Primitives) (m : KeyedMount) : Type 0 where
  pub sound : IsSound P
  pub packs : (b : Bytes) → (out : Bytes) × (P.zstd_encode b ≡ some out)
  pub packs_some : (b out : Bytes) → P.zstd_encode b ≡ some out → 0 < length out
  pub drawn : (n : ℕ) → length (m.nonce n) ≡ 12

compress_slice-some :
    (P : Primitives) (m : KeyedMount) (plain packed : Bytes) (algo : ℕ)
    → IsWorking P m
    → 0 < length plain
    → compress_slice P plain algo ≡ ok packed
    → 0 < length packed
unfolding compress_slice or_crypto_error
compress_slice-some P m plain packed algo w some_bytes h = elim (Bool-cases (algo == 0)) [
  | inl off ↦
      let same : plain ≡ packed = ok_injective plain packed (ground (arith, off, h)) in
      ground (arith, some_bytes, ap length same)
  | inr on ↦ elim (Bool-cases (algo == 1)) [
    | inr other ↦ absurd (ground (arith, on, other, h))
    | inl zstd ↦
        let (b, there) = w.packs plain in
        let same : b ≡ packed = ok_injective b packed (ground (arith, on, zstd, there, h)) in
        w.packs_some plain packed (there ∙ ap some same)
  ]
]

module _ (P : Primitives) (m : KeyedMount) (w : IsWorking P m) where
  abbrev key_of_mount : Option Bytes
  key_of_mount = key_bytes m.key m.unlocked

  encrypt_slice-some :
      (n : ℕ) (plain out : Bytes) (algo : ℕ)
      → 0 < length plain
      → encrypt_slice P key_of_mount (some (m.nonce n)) plain algo ≡ ok out
      → 0 < length out
  encrypt_slice-some n plain out algo some_bytes h = omega (
    arith,
    some_bytes,
    length-encrypt P w.sound key_of_mount (m.nonce n) plain out algo (w.drawn n) h,
  )

  encode_slice-some :
      (n : ℕ) (plain out : Bytes) (c : Codec)
      → 0 < length plain
      → encode_slice P key_of_mount (some (m.nonce n)) plain c ≡ ok out
      → 0 < length out
  unfolding encode_slice
  encode_slice-some n plain out c some_bytes h =
      elim (Result-cases (compress_slice P plain c.compression)) [
        | inr (e, fails) ↦ absurd (ground (arith, fails, h))
        | inl (packed, there) ↦
            encrypt_slice-some n packed out c.encryption
              (compress_slice-some P m plain packed c.compression w some_bytes there)
              (ap
                  (λ (r : Result Bytes).
                    r >>= λ b. encrypt_slice P key_of_mount (some (m.nonce n)) b c.encryption)
                  (sym there)
                ∙ h)
      ]

  module _ {K : ChunkStore} (chunk_size slice : ℕ) (some_size : 0 < chunk_size)
      (k : IsKeeping K (chunk_size * 1024)) where
    -- The codec is one that requireCodec accepts for the key of the mount, and the slices are no
    -- longer than sliceSize says for it.
    abbrev pub IsUsable : K.Shelf × ℕ → Codec → Type 0
    IsUsable p c =
        k.Online p.0
        × (require_codec c (has_key m.key m.unlocked) ≡ ok tt)
        × (slice ≤ slice_size (some chunk_size) c)

    abbrev pub IsChunk : Bytes → Type 0
    IsChunk st = (0 < length st) × (length st ≤ chunk_size * 1024)

    pub encodes :
        (p : K.Shelf × ℕ) (plain : Bytes) (c : Codec)
        → IsUsable p c
        → 0 < length plain
        → length plain ≤ slice
        → (st : Bytes) × (encode_slice P key_of_mount (some (m.nonce p.1)) plain c ≡ ok st)
          × IsChunk st
          × (decode_slice P key_of_mount st c ≡ ok plain)
    encodes p plain c (online, accepted, long) some_bytes within =
        let (packed, packs) = w.packs plain in
        let (st, runs) =
          require_codec-encode_slice P c m.key m.unlocked (m.nonce p.1) plain packed packs
            accepted in
        (
          st,
          runs,
          (
            encode_slice-some p.1 plain st c some_bytes runs,
            encode_slice-fits P w.sound key_of_mount (m.nonce p.1) plain st c chunk_size
                (w.drawn p.1) some_size (omega (arith, within, long)) runs,
          ),
          decode_slice-encode_slice P w.sound key_of_mount (m.nonce p.1) plain st c (w.drawn p.1)
              runs,
        )

    -- The codec of crypto.go over a pool that keeps its chunks is what an open file relies on.
    abbrev pub coded-IsReliable : IsReliable (coded K P m) slice
    coded-IsReliable = record {
      content = λ p. k.content p.0;
      Fits = IsChunk;
      Healthy = λ p. k.Online p.0;
      Ready = IsUsable;
      ready_healthy = λ p c h. h.0;
      read_ok = λ p id d online h. k.read_ok p.0 id d online h;
      read_keeps = λ p id j online. k.read_keeps p.0 id j online;
      encode_ok = encodes;
      encode_keeps = λ p plain c j. refl;
      encode_decode = λ p plain st c d. refl;
      read_decode = λ p id st d. refl;
      add_decode = λ p chunk st d. refl;
      add_ok = λ p st c usable fits. k.add_ok p.0 st usable.0 fits.0 fits.1;
      read_ready = λ p id c usable. (k.read_online p.0 id usable.0, usable.1, usable.2);
      encode_ready = λ p plain e c usable. usable;
      add_ready =
          λ p st c usable fits. (k.add_online p.0 st usable.0 fits.0 fits.1, usable.1, usable.2);
      add_keeps = λ p st j d online fits h. k.add_keeps p.0 st j d online fits.0 fits.1 h;
    }
