-- ===== src/Vfs/Crypto/Laws.antt =====
-- internal/vfs/crypto.go: proofs about encoded slices and passwords.
use zenofs.Common.{
  ℕ, zero, suc, ◌+◌, ◌*◌, ◌/◌, ◌≤◌, ◌<◌, le→ltb, ◌≡◌, refl, sym, ap, subst, ◌∙◌, ◌||◌, Bool, true,
  Option, some, [], ◌∷◌, ◌++◌, Result, ok, err, permission, ok_injective, Result-cases, inl, inr,
  Bool-cases, Option-cases, arith, ◌==◌, if◌then◌else◌, length, take, drop, length-append, ◌>>=◌,
}
use zenofs.Db.{Codec, Share}
use zenofs.Vfs.Path.{same_text}
use zenofs.Vfs.Path.Equal.{same_text_self}
use zenofs.Vfs.Crypto.{
  Bytes, Primitives, slice_overhead_for, slice_size, key_bytes, has_key, require_encryption,
  require_codec, compress_slice, decompress_slice, seal_slice, encrypt_slice, open_slice,
  decrypt_slice, encode_slice, decode_slice, verify_password, set_password, hash_equal, hash_sum,
  checked, or_crypto_error, or_invalid,
}

-- What the code relies on: decoding undoes encoding, and how much longer the results are.
pub record IsSound (P : Primitives) : Type 0 where
  pub zstd_decodes : (b out : Bytes) → P.zstd_encode b ≡ some out → P.zstd_decode out ≡ some b
  pub zstd_bound :
      (b out : Bytes) → P.zstd_encode b ≡ some out → length out ≤ length b + length b / 256 + 64
  pub gcm_opens : (key nonce b : Bytes) → P.gcm_open key nonce (P.gcm_seal key nonce b) ≡ some b
  pub gcm_length : (key nonce b : Bytes) → length (P.gcm_seal key nonce b) ≡ length b + 16
  pub blake3_length : (b : Bytes) → length (P.blake3 b) ≡ 32

pub take-append : (a b : Bytes) (n : ℕ) → length a ≡ n → take n (a ++ b) ≡ a
take-append [] b zero h = refl
take-append [] b (suc n) h = absurd (omega arith)
take-append (x ∷ a) b zero h = absurd (omega arith)
take-append (x ∷ a) b (suc n) h = ap (λ (l : Bytes). x ∷ l) (take-append a b n (omega arith))

drop-append : (a b : Bytes) (n : ℕ) → length a ≡ n → drop n (a ++ b) ≡ b
drop-append [] b zero h = refl
drop-append [] b (suc n) h = absurd (omega arith)
drop-append (x ∷ a) b zero h = absurd (omega arith)
drop-append (x ∷ a) b (suc n) h = drop-append a b n (omega arith)

module _ (P : Primitives) (sound : IsSound P) where
  decompress-compress :
      (plain out : Bytes) (algo : ℕ)
      → compress_slice P plain algo ≡ ok out
      → decompress_slice P out algo ≡ ok plain
  unfolding compress_slice decompress_slice
  decompress-compress plain out algo h = elim (Bool-cases (algo == 0)) [
    | inl off ↦ ground (arith, off, h)
    | inr on ↦ elim (Bool-cases (algo == 1)) [
      | inr other ↦ absurd (ground (arith, on, other, h))
      | inl zstd ↦ elim (Option-cases (P.zstd_encode plain)) [
        | inl fails ↦ absurd (ground (arith, on, zstd, fails, h))
        | inr (b, there) ↦
            let same : b ≡ out = ok_injective b out (ground (arith, on, zstd, there, h)) in
            let back : P.zstd_decode out ≡ some plain =
              sound.zstd_decodes plain out (there ∙ ap some same) in
            ground (arith, on, zstd, back)
      ]
    ]
  ]

  -- A sealed slice opens again.
  open-seal :
      (k nonce plain : Bytes)
      → length nonce ≡ 12
      → open_slice P (some k) (nonce ++ P.gcm_seal k nonce plain) ≡ ok plain
  unfolding open_slice or_invalid
  open-seal k nonce plain l =
      let long : 12 ≤ length (nonce ++ P.gcm_seal k nonce plain) =
        omega (arith, length-append nonce (P.gcm_seal k nonce plain), l) in
      rw (le→ltb (length (nonce ++ P.gcm_seal k nonce plain)) 12 long) (
        rw (take-append nonce (P.gcm_seal k nonce plain) 12 l) (
          rw (drop-append nonce (P.gcm_seal k nonce plain) 12 l)
            (rw (sound.gcm_opens k nonce plain) refl)))

  decrypt-encrypt :
      (key : Option Bytes) (nonce plain out : Bytes) (algo : ℕ)
      → length nonce ≡ 12
      → encrypt_slice P key (some nonce) plain algo ≡ ok out
      → decrypt_slice P key out algo ≡ ok plain
  unfolding encrypt_slice decrypt_slice seal_slice
  decrypt-encrypt key nonce plain out algo l h = elim (Bool-cases (algo == 0)) [
    | inl off ↦ ground (arith, off, h)
    | inr on ↦ elim (Bool-cases (algo == 1)) [
      | inr other ↦ absurd (ground (arith, on, other, h))
      | inl gcm ↦ elim (Option-cases key) [
        | inl no_key ↦ absurd (ground (arith, on, gcm, no_key, h))
        | inr (k, has) ↦
            let same : nonce ++ P.gcm_seal k nonce plain ≡ out =
              ok_injective (nonce ++ P.gcm_seal k nonce plain) out
                (ground (arith, on, gcm, has, h)) in
            let opens : open_slice P key out ≡ ok plain =
              ap (λ (o : Option Bytes). open_slice P o out) has
              ∙ ap (open_slice P (some k)) (sym same)
              ∙ open-seal k nonce plain l in
            ground (arith, on, gcm, opens)
      ]
    ]
  ]

  -- Whatever encodeSlice stores of a slice, decodeSlice with the same key and algorithms gives the
  -- slice back, when the packages decode what they encoded and the nonce has 12 bytes.
  pub decode_slice-encode_slice :
      (key : Option Bytes) (nonce plain out : Bytes) (c : Codec)
      → length nonce ≡ 12
      → encode_slice P key (some nonce) plain c ≡ ok out
      → decode_slice P key out c ≡ ok plain
  unfolding encode_slice decode_slice
  decode_slice-encode_slice key nonce plain out c l h =
      elim (Result-cases (compress_slice P plain c.compression)) [
        | inr (e, fails) ↦ absurd (ground (arith, fails, h))
        | inl (packed, there) ↦
            let sealed : encrypt_slice P key (some nonce) packed c.encryption ≡ ok out =
              ap (λ (r : Result Bytes). r >>= λ b. encrypt_slice P key (some nonce) b c.encryption)
                (sym there)
              ∙ h in
            ap (λ (r : Result Bytes). r >>= λ b. decompress_slice P b c.compression)
              (decrypt-encrypt key nonce packed out c.encryption l sealed)
            ∙ decompress-compress plain packed c.compression there
      ]

  length-compress :
      (plain out : Bytes) (algo : ℕ)
      → compress_slice P plain algo ≡ ok out
      → length out ≤ length plain + (if algo == 1 then length plain / 256 + 64 else 0)
  unfolding compress_slice or_crypto_error
  length-compress plain out algo h = elim (Bool-cases (algo == 0)) [
    | inl off ↦
        let same : plain ≡ out = ok_injective plain out (ground (arith, off, h)) in
        ground (arith, off, ap length same)
    | inr on ↦ elim (Bool-cases (algo == 1)) [
      | inr other ↦ absurd (ground (arith, on, other, h))
      | inl zstd ↦ elim (Option-cases (P.zstd_encode plain)) [
        | inl fails ↦ absurd (ground (arith, on, zstd, fails, h))
        | inr (b, there) ↦
            let same : b ≡ out = ok_injective b out (ground (arith, on, zstd, there, h)) in
            ground (arith, zstd, sound.zstd_bound plain b there, ap length same)
      ]
    ]
  ]

  pub length-encrypt :
      (key : Option Bytes) (nonce plain out : Bytes) (algo : ℕ)
      → length nonce ≡ 12
      → encrypt_slice P key (some nonce) plain algo ≡ ok out
      → length out ≡ length plain + (if algo == 1 then 28 else 0)
  unfolding encrypt_slice seal_slice
  length-encrypt key nonce plain out algo l h = elim (Bool-cases (algo == 0)) [
    | inl off ↦
        let same : plain ≡ out = ok_injective plain out (ground (arith, off, h)) in
        ground (arith, off, ap length same)
    | inr on ↦ elim (Bool-cases (algo == 1)) [
      | inr other ↦ absurd (ground (arith, on, other, h))
      | inl gcm ↦ elim (Option-cases key) [
        | inl no_key ↦ absurd (ground (arith, on, gcm, no_key, h))
        | inr (k, has) ↦
            let same : nonce ++ P.gcm_seal k nonce plain ≡ out =
              ok_injective (nonce ++ P.gcm_seal k nonce plain) out
                (ground (arith, on, gcm, has, h)) in
            ground (
              arith,
              gcm,
              l,
              sym (ap length same),
              length-append nonce (P.gcm_seal k nonce plain),
              sound.gcm_length k nonce plain,
            )
      ]
    ]
  ]

  -- A slice of at most the slice size, encoded with a nonce of 12 bytes, fits a chunk of a pool
  -- with a chunk size that is not 0, given the documented bounds of the packages.
  pub encode_slice-fits :
      (key : Option Bytes) (nonce plain out : Bytes) (c : Codec) (chunk_size : ℕ)
      → length nonce ≡ 12
      → 0 < chunk_size
      → length plain ≤ slice_size (some chunk_size) c
      → encode_slice P key (some nonce) plain c ≡ ok out
      → length out ≤ chunk_size * 1024
  unfolding encode_slice slice_size slice_overhead_for
  encode_slice-fits key nonce plain out c chunk_size l some_size within h =
      elim (Result-cases (compress_slice P plain c.compression)) [
        | inr (e, fails) ↦ absurd (ground (arith, fails, h))
        | inl (packed, there) ↦
            let sealed : encrypt_slice P key (some nonce) packed c.encryption ≡ ok out =
              ap (λ (r : Result Bytes). r >>= λ b. encrypt_slice P key (some nonce) b c.encryption)
                (sym there)
              ∙ h in
            ground (
              arith,
              within,
              some_size,
              length-compress plain packed c.compression there,
              length-encrypt key nonce packed out c.encryption l sealed,
            )
      ]

  verify-blob :
      (salt key other : Bytes)
      → length salt ≡ 16
      → (length (salt ++ P.blake3 key) ≡ 48)
        × (verify_password P (salt ++ P.blake3 key) other ≡ (
            if same_text (P.blake3 (P.pbkdf2_key other salt)) (P.blake3 key)
            then ok (P.pbkdf2_key other salt)
            else err permission))
  unfolding verify_password hash_equal
  verify-blob salt key other l =
      let long : length (salt ++ P.blake3 key) ≡ 48 =
        omega (arith, length-append salt (P.blake3 key), l, sound.blake3_length key) in
      (
        long,
        rw long (
            rw (take-append salt (P.blake3 key) 16 l)
              (rw (drop-append salt (P.blake3 key) 16 l) (rw (sound.blake3_length key) refl))),
      )

  -- The check value that a set password leaves has 48 bytes; that password opens the share with
  -- the key that the session got, and another one just when its key has the same hash, else it is
  -- refused as not permitted. The random source gives 16 bytes of salt.
  pub verify_password-set_password :
      (share : Share) (salt password blob key other : Bytes)
      → length salt ≡ 16
      → set_password P share (some salt) password ≡ ok (blob, key)
      → (length blob ≡ 48)
        × ((verify_password P blob password ≡ ok key)
            × (verify_password P blob other ≡ (
                if same_text (P.blake3 (P.pbkdf2_key other salt)) (P.blake3 key)
                then ok (P.pbkdf2_key other salt)
                else err permission)))
  unfolding set_password hash_sum
  verify_password-set_password share salt password blob key other l h =
      elim (Bool-cases (share.codec.encryption == 0)) [
        | inl off ↦ absurd (ground (arith, off, h))
        | inr on ↦ elim (Bool-cases (length share.key_hash == 0)) [
          | inr known ↦ absurd (ground (arith, on, known, h))
          | inl first ↦
              let same : ◌≡◌ {A = Bytes × Bytes} (checked P password salt) (blob, key) =
                ok_injective (checked P password salt) (blob, key) (ground (arith, on, first, h)) in
              let (long, opens) = verify-blob salt (P.pbkdf2_key password salt) password l in
              let (long_, other_opens) = verify-blob salt (P.pbkdf2_key password salt) other l in
              subst
                (λ (bk : Bytes × Bytes).
                  (length bk.0 ≡ 48)
                  × ((verify_password P bk.0 password ≡ ok bk.1)
                      × (verify_password P bk.0 other ≡ (
                          if same_text (P.blake3 (P.pbkdf2_key other salt)) (P.blake3 bk.1)
                          then ok (P.pbkdf2_key other salt)
                          else err permission))))
                same
                (
                  long,
                  (
                    opens ∙ rw (same_text_self (P.blake3 (P.pbkdf2_key password salt))) refl,
                    other_opens,
                  ),
                )
        ]
      ]

compress_slice-ok :
    (P : Primitives) (plain packed : Bytes) (algo : ℕ)
    → P.zstd_encode plain ≡ some packed
    → (algo == 0) || (algo == 1) ≡ true
    → (b : Bytes) × (compress_slice P plain algo ≡ ok b)
unfolding compress_slice or_crypto_error
compress_slice-ok P plain packed algo works known = elim (Bool-cases (algo == 0)) [
  | inl off ↦ (plain, ground (arith, off))
  | inr on ↦ (packed, ground (arith, on, known, works))
]

encrypt_slice-ok :
    (P : Primitives) (key : Bytes) (unlocked : Option Bytes) (nonce plain : Bytes) (algo : ℕ)
    → require_encryption algo (has_key key unlocked) ≡ ok tt
    → (out : Bytes) × (encrypt_slice P (key_bytes key unlocked) (some nonce) plain algo ≡ ok out)
unfolding encrypt_slice seal_slice require_encryption has_key
encrypt_slice-ok P key unlocked nonce plain algo accepted = elim (Bool-cases (algo == 0)) [
  | inl off ↦ (plain, ground (arith, off))
  | inr on ↦ elim (Option-cases (key_bytes key unlocked)) [
    | inl no_key ↦ absurd (ground (arith, on, no_key, accepted))
    | inr (k, has) ↦ (nonce ++ P.gcm_seal k nonce plain, ground (arith, on, has, accepted))
  ]
]

require_codec-known :
    (c : Codec) (keyed : Bool)
    → require_codec c keyed ≡ ok tt
    → ((c.compression == 0) || (c.compression == 1) ≡ true)
      × (require_encryption c.encryption keyed ≡ ok tt)
unfolding require_codec
require_codec-known c keyed h = elim (Bool-cases (c.compression == 0)) [
  | inl off ↦ (ground (arith, off), ground (arith, off, h))
  | inr on ↦ (ground (arith, on, h), ground (arith, on, h))
]

-- A share that requireCodec accepts encodes every slice, when zstd and the random source work.
pub require_codec-encode_slice :
    (P : Primitives) (c : Codec) (key : Bytes) (unlocked : Option Bytes)
    (nonce plain packed : Bytes)
    → P.zstd_encode plain ≡ some packed
    → require_codec c (has_key key unlocked) ≡ ok tt
    → (out : Bytes) × (encode_slice P (key_bytes key unlocked) (some nonce) plain c ≡ ok out)
unfolding encode_slice
require_codec-encode_slice P c key unlocked nonce plain packed works accepted =
    let (known, keyed) = require_codec-known c (has_key key unlocked) accepted in
    let (b, packs) = compress_slice-ok P plain packed c.compression works known in
    let (out, seals) = encrypt_slice-ok P key unlocked nonce b c.encryption keyed in
    (
      out,
      ap
            (λ (r : Result Bytes).
              r >>= λ x. encrypt_slice P (key_bytes key unlocked) (some nonce) x c.encryption)
            packs
          ∙ seals,
    )
