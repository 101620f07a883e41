-- ===== src/Pool/Release/Rows.antt =====
-- internal/pool/release.go: what a release does to one row of the table chunks.
use zenofs.Common.{
  length, ◌⊎◌, ap, ◌∙◌, sym, subst, ==→eq, ℕ, zero, suc, ◌≡◌, refl, Bool, true, false, not, ◌&&◌,
  ◌||◌, none, some, List, [], ◌∷◌, arith, Option, ◌==◌, take, drop, find_by, exists_in, select, inl,
  inr, Bool-cases,
}
use zenofs.Db.{VersionChunk}
use zenofs.Pool.Tables.{Chunk, is_data}
use zenofs.Pool.Release.{
  member, is_releasable, rolled_back, roll_back, drop_parity, keep_new, unique_ids,
  filter_unreferenced, is_live, next_path, other_paths,
}

abbrev pub find_chunk : ℕ → List Chunk → Option Chunk
find_chunk k = find_by (λ (c : Chunk). c.id == k)

from_some : Chunk → Option Chunk → Chunk
from_some d none = d
from_some d (some c) = c

first_or_later :
    (k : ℕ) (c d : Chunk) (l : List Chunk)
    → find_chunk k (d ∷ l) ≡ some c
    → (((d.id == k) ≡ true) × (d ≡ c)) ⊎ (((d.id == k) ≡ false) × (find_chunk k l ≡ some c))
unfolding find_by from_some
first_or_later k c d l h = elim (Bool-cases (d.id == k)) [
  | inl here ↦ inl (here, ap (from_some d) {x = some d} {y = some c} (ground (arith, here, h)))
  | inr apart ↦ inr (apart, ground (arith, apart, h))
]

pub roll_back-kept :
    (batch : List ℕ) (paths : List (List ℕ)) (k : ℕ) (c : Chunk) (l : List Chunk)
    → find_chunk k l ≡ some c
    → is_releasable batch c ≡ false
    → find_chunk k (roll_back batch paths l) ≡ some c
unfolding find_by roll_back
roll_back-kept batch paths k c [] h kept = h
roll_back-kept batch paths k c (d ∷ l) h kept = elim (first_or_later k c d l h) [
  | inl (here, same) ↦
      subst (λ (x : Chunk). find_chunk k (roll_back batch paths (d ∷ l)) ≡ some x) same
        (ground (arith, here, ap (is_releasable batch) same ∙ kept))
  | inr (apart, later) ↦ ground (
    arith,
    apart,
    roll_back-kept batch paths k c l later kept,
    roll_back-kept batch (other_paths paths) k c l later kept,
  )
]

pub roll_back-released :
    (batch : List ℕ) (paths : List (List ℕ)) (k : ℕ) (c : Chunk) (l : List Chunk)
    → find_chunk k l ≡ some c
    → is_releasable batch c ≡ true
    → (path : List ℕ) × (find_chunk k (roll_back batch paths l) ≡ some (rolled_back path c))
unfolding find_by roll_back
roll_back-released batch paths k c [] h released = absurd (ground arith)
roll_back-released batch paths k c (d ∷ l) h released = elim (first_or_later k c d l h) [
  | inl (here, same) ↦ (
    next_path paths,
    subst
        (λ (x : Chunk).
          find_chunk k (roll_back batch paths (d ∷ l)) ≡ some (rolled_back (next_path paths) x))
        same (ground (arith, here, ap (is_releasable batch) same ∙ released)),
  )
  | inr (apart, later) ↦ elim (Bool-cases (is_releasable batch d)) [
    | inl out ↦
        let (path, e) = roll_back-released batch (other_paths paths) k c l later released in
        (path, ground (arith, apart, out, e))
    | inr stays ↦
        let (path, e) = roll_back-released batch paths k c l later released in
        (path, ground (arith, apart, stays, e))
  ]
]

pub drop_parity-data :
    (empty : List ℕ) (k : ℕ) (c : Chunk) (l : List Chunk)
    → find_chunk k l ≡ some c
    → is_data c.kind ≡ true
    → find_chunk k (drop_parity empty l) ≡ some c
unfolding find_by drop_parity
drop_parity-data empty k c [] h holds = h
drop_parity-data empty k c (d ∷ l) h holds = ground (arith, h, drop_parity-data empty k c l)

pub member-take : (n k : ℕ) (l : List ℕ) → member k l ≡ false → member k (take n l) ≡ false
member-take zero k l h = refl
member-take (suc n) k [] h = refl
member-take (suc n) k (x ∷ l) h = ground (arith, member-take n k l)

pub member-drop : (n k : ℕ) (l : List ℕ) → member k l ≡ false → member k (drop n l) ≡ false
member-drop zero k l h = h
member-drop (suc n) k [] h = refl
member-drop (suc n) k (x ∷ l) h = ground (arith, member-drop n k l)

pub member-split :
    (n k : ℕ) (l : List ℕ) → member k l ≡ true → (member k (take n l) || member k (drop n l)) ≡ true
member-split zero k l h = h
member-split (suc n) k [] h = h
member-split (suc n) k (x ∷ l) h = ground (arith, member-split n k l)

pub member-select :
    (p : ℕ → Bool) (k : ℕ) (l : List ℕ) → member k (select p l) ≡ (member k l && p k)
unfolding select
member-select p k [] = refl
member-select p k (x ∷ l) = elim (Bool-cases (k == x)) [
  | inl same ↦ ground (arith, member-select p k l, ap p (==→eq k x same))
  | inr apart ↦ ground (arith, apart, member-select p k l)
]

pub member-filter :
    (k : ℕ) (rows : List VersionChunk) (l : List ℕ)
    → member k (filter_unreferenced rows l)
      ≡ (member k l && not (exists_in (λ (vc : VersionChunk). vc.chunk_id == k) rows))
unfolding filter_unreferenced
member-filter k rows l = member-select _ k l

member-keep_new :
    (seen : List ℕ) (k : ℕ) (l : List ℕ)
    → member k (keep_new seen l) ≡ (member k l && not (member k seen))
unfolding keep_new
member-keep_new seen k [] = refl
member-keep_new seen k (x ∷ l) = elim (Bool-cases (k == x)) [
  | inl same ↦ ground (
    arith,
    member-keep_new seen k l,
    member-keep_new (x ∷ seen) k l,
    ap (λ (n : ℕ). member n seen) (==→eq k x same),
  )
  | inr apart ↦ ground (arith, apart, member-keep_new seen k l, member-keep_new (x ∷ seen) k l)
]

pub member-unique_ids : (k : ℕ) (l : List ℕ) → member k (unique_ids l) ≡ member k l
unfolding unique_ids
member-unique_ids k l = ground (arith, member-keep_new [] k l)

pub select-none :
    (p : Chunk → Bool) (k : ℕ) (c : Chunk) (l : List Chunk)
    → length (select p l) ≡ 0
    → find_chunk k l ≡ some c
    → p c ≡ false
unfolding select find_by
select-none p k c [] empty h = absurd (ground arith)
select-none p k c (d ∷ l) empty h = elim (first_or_later k c d l h) [
  | inl (here, same) ↦ ap p (sym same) ∙ ground arith
  | inr (apart, later) ↦ select-none p k c l (ground arith) later
]

pub drop_parity-kept :
    (empty : List ℕ) (k : ℕ) (c : Chunk) (l : List Chunk)
    → find_chunk k l ≡ some c
    → member c.stripe_id empty ≡ false
    → find_chunk k (drop_parity empty l) ≡ some c
unfolding find_by drop_parity
drop_parity-kept empty k c [] h out = h
drop_parity-kept empty k c (d ∷ l) h out = elim (first_or_later k c d l h) [
  | inl (here, same) ↦
      subst (λ (x : Chunk). find_chunk k (drop_parity empty (d ∷ l)) ≡ some x) same
        (ground (arith, here, ap (λ (x : Chunk). member x.stripe_id empty) same ∙ out))
  | inr (apart, later) ↦ ground (arith, apart, drop_parity-kept empty k c l later out)
]

pub is_live-drop_parity :
    (empty : List ℕ) (id : ℕ) (l : List Chunk) → is_live (drop_parity empty l) id ≡ is_live l id
unfolding exists_in drop_parity
is_live-drop_parity empty id [] = refl
is_live-drop_parity empty id (d ∷ l) = ground (arith, is_live-drop_parity empty id l)
