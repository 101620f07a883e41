-- ===== src/Vfs/Handle/Bytes.antt =====
-- Lemmas on the buffers of an open file: growing, overlaying, cutting, and offsets within slices.
use zenofs.Common.{
  ℕ, zero, suc, ◌+◌, ◌-◌, ◌≤◌, ◌≡◌, refl, ap, true, ◌&&◌, List, [], ◌∷◌, ◌++◌, arith, ltb, leb,
  if◌then◌else◌, length, get_or, take, drop, replicate, length-append, length-take, length-drop,
  length-replicate, get_or-append, get_or-take, get_or-drop, get_or-replicate, get_or-beyond,
}
use zenofs.Vfs.Handle.Slices.{is_all_zero, grow, copy_at}

pub get_or-zero : (xs : List ℕ) (k : ℕ) → is_all_zero xs ≡ true → get_or xs k 0 ≡ 0
unfolding is_all_zero
get_or-zero [] k h = refl
get_or-zero (x ∷ xs) zero h = ground arith
get_or-zero (x ∷ xs) (suc k) h = ground (arith, get_or-zero xs k)

pub length-grow :
    (end : ℕ) (buf : List ℕ) → (end ≤ length (grow end buf)) × (length buf ≤ length (grow end buf))
unfolding grow
length-grow end buf = ground (
  arith,
  length-append buf (replicate (end - length buf) 0),
  length-replicate {A = ℕ} (end - length buf) 0,
)

pub length-grow_le :
    (end bound : ℕ) (buf : List ℕ)
    → end ≤ bound
    → length buf ≤ bound
    → length (grow end buf) ≤ bound
unfolding grow
length-grow_le end bound buf h k = ground (
  arith,
  length-append buf (replicate (end - length buf) 0),
  length-replicate {A = ℕ} (end - length buf) 0,
)

pub get_or-grow : (end : ℕ) (buf : List ℕ) (k : ℕ) → get_or (grow end buf) k 0 ≡ get_or buf k 0
unfolding grow
get_or-grow end buf k = ground (
  arith,
  get_or-append buf (replicate (end - length buf) 0) k 0,
  get_or-replicate {A = ℕ} (end - length buf) 0 (k - length buf),
  get_or-beyond buf k 0,
)

pub length-copy_at :
    (intra : ℕ) (d buf : List ℕ)
    → intra + length d ≤ length buf
    → length (copy_at intra d buf) ≡ length buf
unfolding copy_at
length-copy_at intra d buf h = omega (
  arith,
  length-append (take intra buf) (d ++ drop (intra + length d) buf),
  length-append d (drop (intra + length d) buf),
  length-take intra buf,
  length-drop (intra + length d) buf,
)

-- The bytes of `d` in their place, the others as they were.
pub get_or-copy_at :
    (intra : ℕ) (d buf : List ℕ) (k : ℕ)
    → intra + length d ≤ length buf
    → get_or (copy_at intra d buf) k 0
      ≡ (if leb intra k && ltb k (intra + length d) then get_or d (k - intra) 0 else get_or buf k 0)
unfolding copy_at
get_or-copy_at intra d buf k h = ground (
  arith,
  length-take intra buf,
  get_or-append (take intra buf) (d ++ drop (intra + length d) buf) k 0,
  get_or-take intra buf k 0,
  get_or-append d (drop (intra + length d) buf) (k - length (take intra buf)) 0,
  get_or-drop (intra + length d) buf (k - length (take intra buf) - length d) 0,
  copied_index,
)
  where
    copied_index :
        intra + length d ≤ k
        → get_or buf (intra + length d + (k - length (take intra buf) - length d)) 0
          ≡ get_or buf k 0
    copied_index past = ap (λ (j : ℕ). get_or buf j 0) (omega (arith, length-take intra buf, past))
