-- ===== src/Pool/Keyring.antt =====
-- internal/pool/keyring.go: the keys of unlocked shares, kept in memory only. The bytes of a key lie in
-- a buffer, as a Go slice does: who holds the buffer's address sees what is written there later.
use zenofs.Common.{
  ℕ, suc, Bool, Option, none, some, List, [], ◌∷◌, map, ◌==◌, if◌then◌else◌, length, replicate,
  delete_where, find_by,
}
pub mod Laws
mod Examples

-- The buffers by their addresses; those from `next` on are free.
pub record Memory : Type 0 where
  pub buffer : ℕ → List ℕ
  pub next : ℕ

unfoldable pub write_buffer : ℕ → List ℕ → Memory → Memory
write_buffer at bytes m = record m { buffer = λ i. if i == at then bytes else m.buffer i }

-- A new buffer with the bytes; its address is the old `next`.
unfoldable pub new_buffer : List ℕ → Memory → Memory
unfolding write_buffer
new_buffer bytes m = record (write_buffer m.next bytes m) { next = suc m.next }

-- A share and the buffer of its key.
pub record Unlocked : Type 0 where
  pub share_id : ℕ
  pub key : ℕ

-- `none` is the nil table.
pub record Keyring : Type 0 where
  pub keys : Option (List Unlocked)
  pub memory : Memory

abbrev pub is_of : ℕ → Unlocked → Bool
is_of share u = u.share_id == share

-- `key` is the address of the caller's bytes; the table gets a copy of them.
abbrev set_in : ℕ → ℕ → Memory → Option (List Unlocked) → Keyring
set_in share key m none = record { keys = none; memory = m }
set_in share key m (some ks) = record {
  keys = some (record { share_id = share; key = m.next } ∷ delete_where (is_of share) ks);
  memory = new_buffer (m.buffer key) m;
}

unfoldable pub set_key : ℕ → ℕ → Keyring → Keyring
set_key share key k = set_in share key k.memory k.keys

abbrev key_of : Option Unlocked → Option ℕ
key_of none = none
key_of (some u) = some u.key

abbrev get_in : ℕ → Option (List Unlocked) → Option ℕ
get_in share none = none
get_in share (some ks) = key_of (find_by (is_of share) ks)

-- The address of the table's own bytes.
unfoldable pub get_key : ℕ → Keyring → Option ℕ
get_key share k = get_in share k.keys

unfoldable pub zero_buffer : Option ℕ → Memory → Memory
zero_buffer none m = m
zero_buffer (some key) m = write_buffer key (replicate (length (m.buffer key)) 0) m

abbrev without : ℕ → Option (List Unlocked) → Option (List Unlocked)
without share none = none
without share (some ks) = some (delete_where (is_of share) ks)

-- The bytes are zeroed where they lie, then the entry goes.
unfoldable pub delete_key : ℕ → Keyring → Keyring
delete_key share k = record {
  keys = without share k.keys;
  memory = zero_buffer (get_key share k) k.memory;
}

abbrev ids_of : Option (List Unlocked) → List ℕ
ids_of none = []
ids_of (some ks) = map (λ (u : Unlocked). u.share_id) ks

unfoldable pub key_ids : Keyring → List ℕ
key_ids k = ids_of k.keys
