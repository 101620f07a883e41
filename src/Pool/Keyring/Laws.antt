-- ===== src/Pool/Keyring/Laws.antt =====
-- internal/pool/keyring.go: proofs about the bytes of keys, and who can see them change.
use zenofs.Common.{
  ℕ, suc, ◌<◌, ◌≡◌, ◌≢◌, refl, sym, ap, ◌∙◌, true, false, not, Option, Bool-cases, some_injective,
  ==→eq, ==→ne, none, some, List, arith, ◌==◌, ==_self, ==_ne, length, replicate, inl, inr,
  Option-cases, find_by, find_by-select_keep, find_by-select-none, delete_where,
}
use zenofs.Pool.Keyring.{
  Memory, Unlocked, Keyring, is_of, key_of, write_buffer, new_buffer, zero_buffer, set_key, get_key,
  delete_key,
}

-- Every key of the table lies in a buffer of its own, none of which is free.
pub record IsOwned (k : Keyring) : Type 0 where
  pub taken : (share at : ℕ) → get_key share k ≡ some at → at < k.memory.next
  pub apart :
      (share other a b : ℕ)
      → share ≢ other
      → get_key share k ≡ some a
      → get_key other k ≡ some b
      → a ≢ b

-- The bytes that Get hands out for a share.
abbrev pub bytes_at : Memory → Option ℕ → Option (List ℕ)
bytes_at m none = none
bytes_at m (some at) = some (m.buffer at)

abbrev pub key_bytes_of : ℕ → Keyring → Option (List ℕ)
key_bytes_of share k = bytes_at k.memory (get_key share k)

find_by-other :
    (share other : ℕ) (ks : List Unlocked)
    → share ≢ other
    → find_by (is_of other) (delete_where (is_of share) ks) ≡ find_by (is_of other) ks
find_by-other share other ks apart =
    find_by-select_keep (is_of other) (λ (u : Unlocked). not (is_of share u)) ks
      (λ u h. ground (arith, h, apart))

get_key-set_key_self :
    (share key : ℕ) (ks : List Unlocked) (m : Memory)
    → get_key share (set_key share key (record { keys = some ks; memory = m })) ≡ some m.next
unfolding get_key set_key find_by
get_key-set_key_self share key ks m = rw (==_self share) refl

set_key-next :
    (share key : ℕ) (ks : List Unlocked) (m : Memory)
    → (set_key share key (record { keys = some ks; memory = m })).memory.next ≡ suc m.next
unfolding set_key new_buffer
set_key-next share key ks m = refl

get_key-set_key_other :
    (share other key : ℕ) (ks : List Unlocked) (m : Memory)
    → share ≢ other
    → get_key other (set_key share key (record { keys = some ks; memory = m }))
      ≡ get_key other (record { keys = some ks; memory = m })
unfolding get_key set_key find_by
get_key-set_key_other share other key ks m apart =
    rw (==_ne share other apart) (ap key_of (find_by-other share other ks apart))

get_key-delete_key_self :
    (share : ℕ) (ks : List Unlocked) (m : Memory)
    → get_key share (delete_key share (record { keys = some ks; memory = m })) ≡ none
unfolding get_key delete_key
get_key-delete_key_self share ks m = ap key_of (
    find_by-select-none (is_of share) (λ (u : Unlocked). not (is_of share u)) ks
      (λ u h. ground (arith, h)))

get_key-delete_key_other :
    (share other : ℕ) (ks : List Unlocked) (m : Memory)
    → share ≢ other
    → get_key other (delete_key share (record { keys = some ks; memory = m }))
      ≡ get_key other (record { keys = some ks; memory = m })
unfolding get_key delete_key
get_key-delete_key_other share other ks m apart = ap key_of (find_by-other share other ks apart)

-- Set keeps the buffers of the table apart, since the copy is a new one.
pub set_key-IsOwned :
    (share key : ℕ) (ks : List Unlocked) (m : Memory)
    → IsOwned (record { keys = some ks; memory = m })
    → IsOwned (set_key share key (record { keys = some ks; memory = m }))
set_key-IsOwned share key ks m owned = record {
  taken = λ s at h. elim (Bool-cases (share == s)) [
    | inl same ↦ ground (arith, next-set_key, some_injective m.next at (sym (here s same) ∙ h))
    | inr other ↦
        let old : at < m.next = owned.taken s at (sym (there s other) ∙ h) in
        omega (arith, next-set_key, old)
  ];
  apart = λ s t a b differ h k. elim (Bool-cases (share == s)) [
    | inl same_s ↦ elim (Bool-cases (share == t)) [
      | inl same_t ↦ absurd (differ (sym (==→eq share s same_s) ∙ ==→eq share t same_t))
      | inr other_t ↦
          let old : b < m.next = owned.taken t b (sym (there t other_t) ∙ k) in
          λ e. omega (arith, e, old, some_injective m.next a (sym (here s same_s) ∙ h))
    ]
    | inr other_s ↦ elim (Bool-cases (share == t)) [
      | inl same_t ↦
          let old : a < m.next = owned.taken s a (sym (there s other_s) ∙ h) in
          λ e. omega (arith, e, old, some_injective m.next b (sym (here t same_t) ∙ k))
      | inr other_t ↦
          owned.apart s t a b differ (sym (there s other_s) ∙ h) (sym (there t other_t) ∙ k)
    ]
  ];
}
  where
    here :
        (s : ℕ)
        → share == s ≡ true
        → get_key s (set_key share key (record { keys = some ks; memory = m })) ≡ some m.next
    here s same =
        ap (λ (x : ℕ). get_key x (set_key share key (record { keys = some ks; memory = m })))
          (sym (==→eq share s same))
        ∙ get_key-set_key_self share key ks m

    there :
        (s : ℕ)
        → share == s ≡ false
        → get_key s (set_key share key (record { keys = some ks; memory = m }))
          ≡ get_key s (record { keys = some ks; memory = m })
    there s other = get_key-set_key_other share s key ks m (==→ne share s other)

    next-set_key :
        (set_key share key (record { keys = some ks; memory = m })).memory.next ≡ suc m.next
    next-set_key = set_key-next share key ks m

-- What the caller does to its own buffer after Set does not reach the table, since Set took a copy:
-- Get hands out the bytes as they were at the call, whatever is written to the caller's buffer or to
-- any other that was in use then; and the caller's bytes are not changed by Set.
pub set_key-copies :
    (share key at : ℕ) (bytes : List ℕ) (ks : List Unlocked) (m : Memory)
    → key < m.next
    → at < m.next
    → (bytes_at
          (write_buffer at bytes (set_key share key (record { keys = some ks; memory = m })).memory)
          (get_key share (set_key share key (record { keys = some ks; memory = m })))
        ≡ some (m.buffer key))
      × ((set_key share key (record { keys = some ks; memory = m })).memory.buffer key
          ≡ m.buffer key)
unfolding set_key new_buffer write_buffer
set_key-copies share key at bytes ks m below used = (
  ap
        (bytes_at (
          write_buffer at bytes (set_key share key (record { keys = some ks; memory = m })).memory))
        (get_key-set_key_self share key ks m)
      ∙ ground (arith, below, used),
  ground (arith, below),
)

-- Delete of an unlocked share overwrites with zeros the very bytes that an earlier Get handed out, and
-- finds no key for the share afterwards, while the key of every other share stays, bytes and all. The
-- keys of the table lie in buffers of their own.
pub delete_key-zeroes :
    (share other at : ℕ) (ks : List Unlocked) (m : Memory)
    → IsOwned (record { keys = some ks; memory = m })
    → share ≢ other
    → get_key share (record { keys = some ks; memory = m }) ≡ some at
    → ((delete_key share (record { keys = some ks; memory = m })).memory.buffer at
        ≡ replicate (length (m.buffer at)) 0)
      × ((get_key share (delete_key share (record { keys = some ks; memory = m })) ≡ none)
          × (key_bytes_of other (delete_key share (record { keys = some ks; memory = m }))
              ≡ key_bytes_of other (record { keys = some ks; memory = m })))
unfolding delete_key zero_buffer write_buffer
delete_key-zeroes share other at ks m owned apart there = (
  rw there (rw (==_self at) refl),
  (
    get_key-delete_key_self share ks m,
    ap (bytes_at (delete_key share (record { keys = some ks; memory = m })).memory)
          (get_key-delete_key_other share other ks m apart)
        ∙ elim (Option-cases (get_key other (record { keys = some ks; memory = m }))) [
          | inl gone ↦ rw gone refl
          | inr (b, held) ↦
              let differs : at ≢ b = owned.apart share other at b apart there held in
              rw (held, there) (ground (arith, differs))
        ],
  ),
)
