-- ===== src/Pool/Keyring/Examples.antt =====
-- Two shares, both unlocked, and a caller's buffer.
use zenofs.Common.{◌≡◌, refl, arith, none, some, List, [], ◌∷◌, find_by, replicate}
use zenofs.Pool.Keyring.{Memory, Unlocked, Keyring, write_buffer, get_key, set_key, delete_key}
use zenofs.Pool.Keyring.Laws.{IsOwned, bytes_at, key_bytes_of, set_key-copies, delete_key-zeroes}

abbrev unlocked : List Unlocked
unlocked = record { share_id = 2; key = 1 } ∷ record { share_id = 1; key = 0 } ∷ []

abbrev memory : Memory
memory = record { buffer = λ i. i ∷ 9 ∷ []; next = 3 }

abbrev table : Keyring
table = record { keys = some unlocked; memory = memory }

table-IsOwned : IsOwned table
unfolding get_key find_by
table-IsOwned = record {
  taken = λ share at h. ground (arith, h);
  apart = λ share other a b h k l e. ground (arith, h, k, l, e);
}

unlocked_first : get_key 1 table ≡ some 0
unfolding get_key find_by
unlocked_first = refl

set_key-copies_example :
    (bytes_at (write_buffer 2 (0 ∷ []) (set_key 3 2 table).memory) (get_key 3 (set_key 3 2 table))
      ≡ some (2 ∷ 9 ∷ []))
    × ((set_key 3 2 table).memory.buffer 2 ≡ 2 ∷ 9 ∷ [])
set_key-copies_example = set_key-copies 3 2 2 (0 ∷ []) unlocked memory (omega arith) (omega arith)

delete_key-zeroes_example :
    ((delete_key 1 table).memory.buffer 0 ≡ replicate 2 0)
    × ((get_key 1 (delete_key 1 table) ≡ none)
        × (key_bytes_of 2 (delete_key 1 table) ≡ key_bytes_of 2 table))
delete_key-zeroes_example =
    delete_key-zeroes 1 2 0 unlocked memory table-IsOwned (λ e. omega (arith, e)) unlocked_first
