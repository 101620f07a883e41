-- ===== src/Vfs/Crypto/Examples.antt =====
-- Packages that keep the laws: they pack nothing, seal with zeros and hash to zeros.
use zenofs.Common.{
  ℕ, ◌+◌, ◌-◌, ◌≤◌, ◌≡◌, refl, sym, ap, some_injective, ◌/◌, Option, some, [], ◌∷◌, ◌++◌, ok, err,
  permission, arith, if◌then◌else◌, length, take, replicate, length-append,
}
use zenofs.Db.{Codec, Share}
use zenofs.Vfs.Path.{same_text}
use zenofs.Vfs.Crypto.{
  Bytes, Primitives, slice_overhead_for, slice_size, key_bytes, has_key, require_encryption,
  require_codec, compress_slice, seal_slice, encrypt_slice, encode_slice, decode_slice,
  or_crypto_error, verify_password, set_password, hash_sum,
}
use zenofs.Vfs.Crypto.Laws.{
  IsSound, take-append, decode_slice-encode_slice, encode_slice-fits, verify_password-set_password,
  require_codec-encode_slice,
}

abbrev pub zeros : ℕ → Bytes
zeros n = replicate n 0

abbrev pub toy : Primitives
toy = record {
  zstd_encode = λ b. some b;
  zstd_decode = λ b. some b;
  gcm_seal = λ key nonce b. b ++ zeros 16;
  gcm_open = λ key nonce s. some (take (length s - 16) s);
  pbkdf2_key = λ password salt. zeros 32;
  blake3 = λ b. zeros 32;
}

pub toy-IsSound : IsSound toy
toy-IsSound = record {
  zstd_decodes = λ b out h. ap (λ (o : Option Bytes). o) (sym_some b out h);
  zstd_bound = λ b out h. shorter b out h;
  gcm_opens = λ key nonce b. ap some (
      take-append b (zeros 16) (length (b ++ zeros 16) - 16)
        (omega (arith, length-append b (zeros 16))));
  gcm_length = λ key nonce b. length-append b (zeros 16);
  blake3_length = λ b. refl;
}
  where
    sym_some : (b out : Bytes) → some b ≡ some out → some out ≡ some b
    sym_some b out h = sym h

    shorter : (b out : Bytes) → some b ≡ some out → length out ≤ length b + length b / 256 + 64
    shorter b out h = omega (arith, ap length (some_injective b out h))

abbrev full : Codec
full = record { compression = 1; encryption = 1 }

abbrev slice : Bytes
slice = 1 ∷ 2 ∷ 3 ∷ []

abbrev slice_stored : Bytes
slice_stored = zeros 12 ++ (slice ++ zeros 16)

encoded : encode_slice toy (some (zeros 32)) (some (zeros 12)) slice full ≡ ok slice_stored
unfolding encode_slice compress_slice encrypt_slice seal_slice or_crypto_error
encoded = refl

decode_slice-encode_slice_example : decode_slice toy (some (zeros 32)) slice_stored full ≡ ok slice
decode_slice-encode_slice_example =
    decode_slice-encode_slice toy toy-IsSound (some (zeros 32)) (zeros 12) slice slice_stored full
      refl encoded

few : length slice ≤ slice_size (some 4) full
unfolding slice_size slice_overhead_for
few = omega arith

encode_slice-fits_example : length slice_stored ≤ 4096
encode_slice-fits_example =
    encode_slice-fits toy toy-IsSound (some (zeros 32)) (zeros 12) slice slice_stored full 4 refl
      (omega arith) few encoded

abbrev locked_share : Share
locked_share = record {
  id = 1;
  name = 115 ∷ [];
  pool_id = 1;
  quota = 0;
  codec = full;
  key_hash = [];
  created_by = 2;
  created_at = 0;
}

abbrev word : Bytes
word = 112 ∷ 119 ∷ []

password_set :
    set_password toy locked_share (some (zeros 16)) word ≡ ok (zeros 16 ++ zeros 32, zeros 32)
unfolding set_password hash_sum
password_set = refl

verify_password-set_password_example :
    (length (zeros 16 ++ zeros 32) ≡ 48)
    × ((verify_password toy (zeros 16 ++ zeros 32) word ≡ ok (zeros 32))
        × (verify_password toy (zeros 16 ++ zeros 32) []
            ≡ (if same_text (zeros 32) (zeros 32) then ok (zeros 32) else err permission)))
verify_password-set_password_example =
    verify_password-set_password toy toy-IsSound locked_share (zeros 16) word (zeros 16 ++ zeros 32)
      (zeros 32) [] refl password_set

accepted : require_codec full (has_key [] (some (zeros 32))) ≡ ok tt
unfolding require_codec require_encryption has_key key_bytes
accepted = refl

require_codec-encode_slice_example :
    (out : Bytes) × (encode_slice toy (key_bytes [] (some (zeros 32))) (some (zeros 12)) slice full
      ≡ ok out)
require_codec-encode_slice_example =
    require_codec-encode_slice toy full [] (some (zeros 32)) (zeros 12) slice slice refl accepted
