-- ===== src/Vfs/Handle/Offsets.antt =====
-- Offsets of a file and their places in slices: pieces within a slice, and cuts.
use native.Mathlib.Decide.{dec_lt}
use native.Mathlib.Nat.{div-add-mod, mod-lt, lt_of_mul-lt-mul_left}
use zenofs.Common.{
  ℕ, suc, sym, Bool, Bool-cases, false, ◌==◌, ◌+◌, ◌-◌, ◌*◌, ◌/◌, ◌%◌, ◌≤◌, ◌<◌, ◌≡◌, ◌≢◌, refl, ap,
  ◌↔◌, ◌⊎◌, inl, inr, true, ◌&&◌, List, arith, ltb, leb, if◌then◌else◌, length, get_or, take, drop,
  length-take, length-drop, get_or-take, get_or-drop,
}

mul_gap : (s p q : ℕ) → p < q → s * p + s ≤ s * q
mul_gap s p q h = grind arith

-- Two slices are one, or one lies a whole slice before the other.
pub slice_cases : (s p q : ℕ) → (p ≡ q) ⊎ ((s * p + s ≤ s * q) ⊎ (s * q + s ≤ s * p))
slice_cases s p q = elim (dec_lt p q) [
  | yes h ↦ inr (inl (mul_gap s p q h))
  | no h ↦ elim (dec_lt q p) [ yes k ↦ inr (inr (mul_gap s q p k)) | no k ↦ inl (omega arith) ]
]

-- An offset splits into a slice and a place in it; a piece that stays in its slice covers the
-- offsets of that slice between its ends.
piece_within :
    (slice off n k : ℕ)
    → 0 < slice
    → off % slice + n ≤ slice
    → off ≤ k
    → k < off + n
    → k / slice ≡ off / slice
piece_within slice off n k positive fits low high = omega (
  arith,
  div-add-mod off slice,
  div-add-mod k slice,
  mod-lt k positive,
  mod-lt off positive,
  slice_cases slice (k / slice) (off / slice),
)

pub piece_iff :
    (slice off n k : ℕ)
    → 0 < slice
    → off % slice + n ≤ slice
    → ((off ≤ k) × (k < off + n))
      ↔ ((k / slice ≡ off / slice) × (off % slice ≤ k % slice) × (k % slice < off % slice + n))
piece_iff slice off n k positive fits = (
  λ h.
      let same = piece_within slice off n k positive fits h.0 h.1 in
      let times = ap (λ (q : ℕ). slice * q) same in
      (
        same,
        omega (arith, div-add-mod off slice, div-add-mod k slice, times),
        omega (arith, div-add-mod off slice, div-add-mod k slice, times),
      ),
  λ h.
      let times = ap (λ (q : ℕ). slice * q) h.0 in
      omega (arith, div-add-mod off slice, div-add-mod k slice, times),
)

bool_ext : (a b : Bool) → (a ≡ true → b ≡ true) → (b ≡ true → a ≡ true) → a ≡ b
bool_ext true true f g = refl
bool_ext true false f g = sym (f refl)
bool_ext false true f g = g refl
bool_ext false false f g = refl

abbrev pub inside : ℕ → ℕ → ℕ → Bool
inside off n k = leb off k && ltb k (off + n)

inside_iff : (off n k : ℕ) → (inside off n k ≡ true) ↔ ((off ≤ k) × (k < off + n))
inside_iff off n k = (λ h. (ground arith, ground arith), λ h. ground arith)

-- The same as a test.
pub piece_test :
    (slice off n k : ℕ)
    → 0 < slice
    → off % slice + n ≤ slice
    → ((k / slice == off / slice) && inside (off % slice) n (k % slice)) ≡ inside off n k
piece_test slice off n k positive fits =
    bool_ext _ _
      (λ h.
        (inside_iff off n k).1
          ((piece_iff slice off n k positive fits).1 (ground arith, ground arith, ground arith)))
      (λ h.
        let (same, low, high) =
          (piece_iff slice off n k positive fits).0 ((inside_iff off n k).0 h) in
        ground arith)

-- Within one piece, places in the slice differ as the offsets do.
pub piece_index : (slice off k : ℕ) → k / slice ≡ off / slice → k % slice - off % slice ≡ k - off
piece_index slice off k same =
    let times = ap (λ (q : ℕ). slice * q) same in
    omega (arith, div-add-mod off slice, div-add-mod k slice, times)

-- A piece and the rest of the bytes, read together.
pub pieces_together :
    (p : List ℕ) (off n k : ℕ) (e : ℕ)
    → n ≤ length p
    → (if inside (off + n) (length (drop n p)) k
        then get_or (drop n p) (k - (off + n)) 0
        else (if inside off (length (take n p)) k then get_or (take n p) (k - off) 0 else e))
      ≡ (if inside off (length p) k then get_or p (k - off) 0 else e)
pieces_together p off n k e h = ground (
  arith,
  length-drop n p,
  length-take n p,
  get_or-drop n p (k - (off + n)) 0,
  get_or-take n p (k - off) 0,
  ap (λ (j : ℕ). get_or p j 0) {x = n + (k - (off + n))} {y = k - off},
)

-- A piece of one slice, read by its place in the slice or by its offset.
pub piece_byte :
    (slice off k e : ℕ) (d : List ℕ)
    → 0 < slice
    → off % slice + length d ≤ slice
    → (if (k / slice == off / slice) && inside (off % slice) (length d) (k % slice)
        then get_or d (k % slice - off % slice) 0
        else e)
      ≡ (if inside off (length d) k then get_or d (k - off) 0 else e)
piece_byte slice off k e d positive fits =
    elim (Bool-cases ((k / slice == off / slice) && inside (off % slice) (length d) (k % slice))) [
      | inr out ↦ ground (arith, out, piece_test slice off (length d) k positive fits)
      | inl hit ↦ ground (
        arith,
        hit,
        piece_test slice off (length d) k positive fits,
        ap (λ (j : ℕ). get_or d j 0) (piece_index slice off k (ground arith)),
      )
    ]

-- The next offset, while it lies in the same slice.
pub next_place :
    (slice off : ℕ)
    → suc (off % slice) < slice
    → (suc off / slice ≡ off / slice) × (suc off % slice ≡ suc (off % slice))
next_place slice off room =
    let same =
      (piece_iff slice off 2 (suc off) (omega arith) (omega arith)).0 (omega arith, omega arith) in
    let times = ap (λ (q : ℕ). slice * q) same.0 in
    (same.0, omega (arith, div-add-mod off slice, div-add-mod (suc off) slice, times))

abbrev pub first_dropped : ℕ → ℕ → ℕ
first_dropped slice size = (size + slice - 1) / slice

slice_split : (slice n q r : ℕ) → r < slice → n ≡ slice * q + r → n / slice ≡ q
slice_split slice n q r small split =
    let below = mod-lt n {m = slice} (omega arith) in
    omega (arith, div-add-mod n slice, below, slice_cases slice (n / slice) q)

-- A cut at a slice boundary drops the slices from there on.
pub first_dropped-even :
    (slice size : ℕ) → 0 < slice → size % slice ≡ 0 → first_dropped slice size ≡ size / slice
first_dropped-even slice size positive even =
    slice_split slice (size + slice - 1) (size / slice) (slice - 1) (omega arith)
      (omega (arith, div-add-mod size slice))

-- A cut inside a slice keeps that slice.
pub first_dropped-odd :
    (slice size : ℕ) → 0 < slice → size % slice ≢ 0 → first_dropped slice size ≡ suc (size / slice)
first_dropped-odd slice size positive odd =
    let below = mod-lt size positive in
    slice_split slice (size + slice - 1) (suc (size / slice)) (size % slice - 1) (omega arith)
      (omega (arith, div-add-mod size slice, mul_suc slice (size / slice)))
  where
    mul_suc : (a b : ℕ) → a * suc b ≡ a * b + a
    mul_suc a b = omega arith

-- Which offsets lie before a cut.
pub before_cut_iff :
    (slice size k : ℕ)
    → 0 < slice
    → (k < size)
      ↔ ((k / slice < size / slice) ⊎ ((k / slice ≡ size / slice) × (k % slice < size % slice)))
before_cut_iff slice size k positive = (
  λ h. elim (slice_cases slice (k / slice) (size / slice)) [
    | inl same ↦
        let times = ap (λ (q : ℕ). slice * q) same in
        inr (same, omega (arith, div-add-mod k slice, div-add-mod size slice, times))
    | inr (inl less) ↦ inl (lt_of_mul-lt-mul_left slice (omega arith))
    | inr (inr more) ↦
        absurd (omega (arith, div-add-mod k slice, div-add-mod size slice, mod-lt size positive))
  ],
  λ h. elim h [
    | inl less ↦
        let gap = mul_gap slice (k / slice) (size / slice) less in
        omega (arith, div-add-mod k slice, div-add-mod size slice, mod-lt k positive, gap)
    | inr (same, place) ↦
        let times = ap (λ (q : ℕ). slice * q) same in
        omega (arith, div-add-mod k slice, div-add-mod size slice, times)
  ],
)
