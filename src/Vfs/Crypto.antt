-- ===== src/Vfs/Crypto.antt =====
-- internal/vfs/crypto.go: the codec of a slice, and the keys of an encrypted share.
use zenofs.Common.{
  ℕ, zero, suc, ◌+◌, ◌-◌, ◌*◌, ◌/◌, Bool, true, false, not, Option, none, some, List, [], ◌∷◌, ◌++◌,
  Result, ok, err, Error, invalid, exist, permission, not_supported, encrypted, ◌==◌, ltb,
  if◌then◌else◌, length, take, drop, ◌>>=◌, ◌>>◌,
}
use zenofs.Db.{Codec, Share}
use zenofs.Pool.Keyring.{Keyring, new_buffer, set_key, get_key, delete_key}
use zenofs.Vfs.Path.{same_text}
pub mod Laws
pub mod Examples

abbrev pub Bytes : Type 0
Bytes = List ℕ

-- What the code calls of packages: zstd, AES-GCM, PBKDF2 and BLAKE3. `none` is a failure of the package.
pub record Primitives : Type 0 where
  pub zstd_encode : Bytes → Option Bytes
  pub zstd_decode : Bytes → Option Bytes
  -- key, nonce, plain
  pub gcm_seal : Bytes → Bytes → Bytes → Bytes
  -- key, nonce, sealed
  pub gcm_open : Bytes → Bytes → Bytes → Option Bytes
  -- password, salt
  pub pbkdf2_key : Bytes → Bytes → Bytes
  pub blake3 : Bytes → Bytes

abbrev pub compression_none : ℕ
compression_none = 0

abbrev pub compression_zstd : ℕ
compression_zstd = 1

abbrev pub encryption_none : ℕ
encryption_none = 0

abbrev pub encryption_aes_gcm : ℕ
encryption_aes_gcm = 1

abbrev pub salt_len : ℕ
salt_len = 16

abbrev pub key_len : ℕ
key_len = 32

abbrev pub verify_len : ℕ
verify_len = 32

abbrev pub nonce_len : ℕ
nonce_len = 12

abbrev pub gcm_tag_len : ℕ
gcm_tag_len = 16

-- The code of CRYPTO_ERROR.
abbrev pub crypto_error : Error
crypto_error = Error.coded 10

unfoldable pub slice_overhead_for : ℕ → Codec → ℕ
slice_overhead_for size c =
    (if c.compression == compression_zstd then size / 256 + 64 else 0)
    + (if c.encryption == encryption_aes_gcm then nonce_len + gcm_tag_len else 0)

-- `none` for a pool row that could not be read; its chunk size is in kilobytes.
abbrev pub default_slice_size : ℕ
default_slice_size = 4 * 1024 * 1024

unfoldable pub slice_size : Option ℕ → Codec → ℕ
slice_size none c = default_slice_size
slice_size (some chunk_size) c =
    let size = chunk_size * 1024 in
    if size == 0
    then default_slice_size
    else if ltb (slice_overhead_for size c) size
    then size - slice_overhead_for size c
    else size

-- The key of the mount, then the one that the process has unlocked.
abbrev full_key : Bytes → Bool
full_key key = length key == key_len

unfoldable pub key_bytes : Bytes → Option Bytes → Option Bytes
key_bytes key unlocked =
    if full_key key
    then some key
    else elim unlocked [ none ↦ none | some k ↦ if full_key k then some k else none ]

abbrev has_some : Option Bytes → Bool
has_some none = false
has_some (some k) = true

unfoldable pub has_key : Bytes → Option Bytes → Bool
has_key key unlocked = has_some (key_bytes key unlocked)

unfoldable pub require_encryption : ℕ → Bool → Result (Unit {0})
require_encryption encryption keyed =
    if encryption == encryption_none
    then ok tt
    else if not (encryption == encryption_aes_gcm)
    then err not_supported
    else if keyed
    then ok tt
    else err encrypted

unfoldable pub require_codec : Codec → Bool → Result (Unit {0})
require_codec c keyed =
    if c.compression == compression_none
    then require_encryption c.encryption keyed
    else if c.compression == compression_zstd
    then require_encryption c.encryption keyed
    else err not_supported

unfoldable pub lock_share : ℕ → Keyring → Keyring
lock_share = delete_key

unfoldable pub share_unlocked : ℕ → Keyring → Bool
share_unlocked share keys = elim (get_key share keys) [
  | none ↦ false
  | some key ↦ full_key (keys.memory.buffer key)
]

module _ (P : Primitives) where
  -- internal/hash: an empty expectation is met by everything.
  unfoldable pub hash_sum : Bytes → Bytes
  hash_sum plain = P.blake3 plain

  unfoldable pub hash_equal : Bytes → Bytes → Bool
  hash_equal plain want = if length want == 0 then true else same_text (P.blake3 plain) want

  unfoldable pub or_crypto_error : Option Bytes → Result Bytes
  or_crypto_error none = err crypto_error
  or_crypto_error (some b) = ok b

  unfoldable pub compress_slice : Bytes → ℕ → Result Bytes
  unfolding or_crypto_error
  compress_slice plain algo =
      if algo == compression_none
      then ok plain
      else if algo == compression_zstd
      then or_crypto_error (P.zstd_encode plain)
      else err not_supported

  unfoldable pub decompress_slice : Bytes → ℕ → Result Bytes
  unfolding or_crypto_error
  decompress_slice stored algo =
      if algo == compression_none
      then ok stored
      else if algo == compression_zstd
      then or_crypto_error (P.zstd_decode stored)
      else err not_supported

  -- `nonce` is what the random source gives, `none` when it fails.
  unfoldable pub seal_slice : Option Bytes → Option Bytes → Bytes → Result Bytes
  seal_slice none drawn plain = err encrypted
  seal_slice (some key) none plain = err crypto_error
  seal_slice (some key) (some nonce) plain = ok (nonce ++ P.gcm_seal key nonce plain)

  unfoldable pub encrypt_slice : Option Bytes → Option Bytes → Bytes → ℕ → Result Bytes
  encrypt_slice key nonce plain algo =
      if algo == encryption_none
      then ok plain
      else if algo == encryption_aes_gcm
      then seal_slice key nonce plain
      else err not_supported

  unfoldable pub or_invalid : Option Bytes → Result Bytes
  or_invalid none = err invalid
  or_invalid (some b) = ok b

  unfoldable pub open_slice : Option Bytes → Bytes → Result Bytes
  unfolding or_invalid
  open_slice key stored = if ltb (length stored) nonce_len then err invalid else elim key [
    | none ↦ err encrypted
    | some k ↦ or_invalid (P.gcm_open k (take nonce_len stored) (drop nonce_len stored))
  ]

  unfoldable pub decrypt_slice : Option Bytes → Bytes → ℕ → Result Bytes
  decrypt_slice key stored algo =
      if algo == encryption_none
      then ok stored
      else if algo == encryption_aes_gcm
      then open_slice key stored
      else err not_supported

  unfoldable pub encode_slice : Option Bytes → Option Bytes → Bytes → Codec → Result Bytes
  encode_slice key nonce plain c =
      compress_slice plain c.compression >>= λ out. encrypt_slice key nonce out c.encryption

  unfoldable pub decode_slice : Option Bytes → Bytes → Codec → Result Bytes
  decode_slice key stored c =
      decrypt_slice key stored c.encryption >>= λ out. decompress_slice out c.compression

  unfoldable pub verify_password : Bytes → Bytes → Result Bytes
  verify_password blob password =
      if not (length blob == salt_len + verify_len)
      then err invalid
      else if hash_equal (P.pbkdf2_key password (take salt_len blob)) (drop salt_len blob)
      then ok (P.pbkdf2_key password (take salt_len blob))
      else err permission

  -- The share's new check value and the key of the session; `salt` is what the random source gives.
  abbrev pub checked : Bytes → Bytes → Bytes × Bytes
  checked password salt =
      (salt ++ hash_sum (P.pbkdf2_key password salt), P.pbkdf2_key password salt)

  unfoldable pub set_password : Share → Option Bytes → Bytes → Result (Bytes × Bytes)
  set_password share salt password =
      if share.codec.encryption == encryption_none
      then err invalid
      else if not (length share.key_hash == 0)
      then err exist
      else elim salt [ none ↦ err crypto_error | some s ↦ ok (checked password s) ]

  -- The key of the mount afterwards.
  unfoldable pub use_password : Share → Bytes → Bytes → Result Bytes
  use_password share password key =
      if share.codec.encryption == encryption_none
      then ok key
      else verify_password share.key_hash password

  -- The process-wide keys afterwards; the key that the password gives is a new buffer.
  unfoldable pub unlock_share : Share → Bytes → Keyring → Result Keyring
  unlock_share share password keys =
      if share.codec.encryption == encryption_none
      then err invalid
      else verify_password share.key_hash password >>= λ key.
          ok (
            set_key share.id keys.memory.next (record keys { memory = new_buffer key keys.memory }))
