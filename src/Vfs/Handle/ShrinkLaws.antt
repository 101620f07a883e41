-- ===== src/Vfs/Handle/ShrinkLaws.antt =====
-- internal/vfs/file_write.go: proofs about the part of truncateTo that shrinks a file.
use zenofs.Common.{
  ℕ, suc, ◌+◌, ◌/◌, ◌%◌, ◌≤◌, ◌<◌, ◌≡◌, ◌≢◌, refl, sym, ◌∙◌, ap, subst, List, ok, arith, get_or,
  inl, inr, Bool-cases, ◌==◌, if◌then◌else◌, false, ltb, ltb→lt, ltb→le, ==→eq, ==→ne, lt→ltb,
  le→ltb,
}
use zenofs.Vfs.Handle.State.{Backend, State}
use zenofs.Vfs.Handle.Reliable.{IsReliable}
use zenofs.Vfs.Handle.View.{IsSound, byte_at}
use zenofs.Vfs.Handle.Stores.{Frame, Frame-trans}
use zenofs.Vfs.Handle.Write.{int64_limit}
use zenofs.Vfs.Handle.Truncate.{first_whole, trim_slice, drop_tail, shrink}
use zenofs.Vfs.Handle.TruncateSlices.{
  Unseen, Kept, last_kept, drop_tail-Frame, drop_tail-IsSound, drop_tail-past, drop_tail-before,
}
use zenofs.Vfs.Handle.Offsets.{first_dropped, first_dropped-even, first_dropped-odd, before_cut_iff}
use zenofs.Vfs.Handle.TrimLaws.{Trims, trim_slice_ok}

module _ {B : Backend} {slice : ℕ} (L : IsReliable B slice) where
  open B use {Pool}

  -- The bytes before the cut stay, the others are 0.
  pub record Shrinks (size : ℕ) (s t : State Pool) : Type 0 where
    pub frame : Frame L s t
    pub sound : IsSound L t
    pub bytes : (k : ℕ) → byte_at L t k ≡ (if ltb k size then byte_at L s k else 0)

  shrink-even :
      (size : ℕ) (s : State Pool)
      → size % s.slice_bytes ≡ 0
      → shrink B size s ≡ (ok tt, drop_tail B size s)
  unfolding shrink
  shrink-even size s even = ground arith

  shrink-odd :
      (size : ℕ) (s : State Pool)
      → size % s.slice_bytes ≢ 0
      → shrink B size s
        ≡ trim_slice B (size / s.slice_bytes) (size % s.slice_bytes) (drop_tail B size s)
  unfolding shrink
  shrink-odd size s odd = ground arith

  module _ (size : ℕ) (s : State Pool) (v : IsSound L s) (unseen : Unseen L s)
      (bound : size + slice ≤ int64_limit) where
    abbrev tail_gone : State Pool
    tail_gone = drop_tail B size s

    last_known : last_kept L size s ≡ first_dropped slice size
    unfolding first_whole
    last_known = ap (first_whole size) v.slice_known ∙ ground (arith, bound, v.slice_positive)

    -- A slice before the cut's, or one after.
    byte_before :
        (k : ℕ)
        → k / slice < first_dropped slice size
        → Kept (size / slice) (size % slice) (k / slice) (k % slice)
        → byte_at L tail_gone k ≡ byte_at L s k
    unfolding byte_at
    byte_before k h kept =
        drop_tail-before L size (k / slice) (k % slice) s (omega (arith, last_known)) (
          subst (λ (b : ℕ). Kept (size / b) (size % b) (k / slice) (k % slice)) (sym v.slice_known)
            kept)

    byte_past : (k : ℕ) → first_dropped slice size ≤ k / slice → byte_at L tail_gone k ≡ 0
    unfolding byte_at
    byte_past k h =
        ap (λ (l : List ℕ). get_or l (k % slice) 0)
          (drop_tail-past L size (k / slice) s unseen (omega (arith, last_known)))

    even_bytes :
        size % slice ≡ 0
        → (k : ℕ) → byte_at L tail_gone k ≡ (if ltb k size then byte_at L s k else 0)
    even_bytes even k =
        let last = first_dropped-even slice size v.slice_positive even in
        let cases = before_cut_iff slice size k v.slice_positive in
        elim (Bool-cases (ltb k size)) [
          | inl before ↦ rw before (
              byte_before k
                (elim (cases.0 (ltb→lt k size before)) [
                  | inl less ↦ omega arith
                  | inr (same, place) ↦ omega arith
                ])
                (inr (inl even)))
          | inr past ↦
              rw past
                (byte_past k (not_before k last (λ less. le_contra k (cases.1 (inl less)) past)))
        ]
      where
        not_before :
            (k : ℕ)
            → first_dropped slice size ≡ size / slice
            → (k / slice < size / slice → ⊥)
            → first_dropped slice size ≤ k / slice
        not_before k last f = elim (Bool-cases (ltb (k / slice) (size / slice))) [
          | inl less ↦ absurd (f (ltb→lt (k / slice) (size / slice) less))
          | inr more ↦ ground (arith, last)
        ]

        le_contra : (k : ℕ) → k < size → ltb k size ≡ false → ⊥
        le_contra k h e = ground arith

    even_ok :
        size % slice ≡ 0 → (t : State Pool) × (shrink B size s ≡ (ok tt, t)) × Shrinks size s t
    even_ok even = (
      tail_gone,
      shrink-even size s (ap (λ (b : ℕ). size % b) v.slice_known ∙ even),
      record {
        frame = drop_tail-Frame L size s;
        sound = drop_tail-IsSound L size s v;
        bytes = even_bytes even;
      },
    )

    -- The slice that holds the cut, and the others.
    module _ (t : State Pool) (odd : size % slice ≢ 0)
        (x : Trims L (size / slice) (size % slice) tail_gone t) where
      apart_byte : (k : ℕ) → k / slice ≢ size / slice → byte_at L t k ≡ byte_at L tail_gone k
      unfolding byte_at
      apart_byte k apart = x.elsewhere (k / slice) (k % slice) apart

      cut_byte :
          (k : ℕ)
          → k / slice ≡ size / slice
          → byte_at L t k ≡ (if ltb (k % slice) (size % slice) then byte_at L tail_gone k else 0)
      unfolding byte_at
      cut_byte k same = rw same (x.here (k % slice))

      odd_before : (k : ℕ) → k < size → byte_at L t k ≡ byte_at L s k
      odd_before k h = elim ((before_cut_iff slice size k v.slice_positive).0 h) [
        | inl less ↦
            apart_byte k (λ same. absurd (omega (arith, less, same)))
            ∙ byte_before k (omega (arith, less, last))
                (inl (λ same. absurd (omega (arith, less, same))))
        | inr (same, place) ↦
            cut_byte k same
            ∙ rw (lt→ltb (k % slice) (size % slice) place)
                (byte_before k (omega (arith, same, last)) (inr (inr place)))
      ]
        where
          last : first_dropped slice size ≡ suc (size / slice)
          last = first_dropped-odd slice size v.slice_positive odd

      odd_past : (k : ℕ) → size ≤ k → byte_at L t k ≡ 0
      odd_past k h = elim (Bool-cases (k / slice == size / slice)) [
        | inl same ↦
            cut_byte k (==→eq (k / slice) (size / slice) same)
            ∙ rw
                (le→ltb (k % slice) (size % slice)
                  (out_of_place (==→eq (k / slice) (size / slice) same)))
                refl
        | inr apart ↦
            apart_byte k (==→ne (k / slice) (size / slice) apart)
            ∙ byte_past k (further (==→ne (k / slice) (size / slice) apart))
      ]
        where
          out_of_place : k / slice ≡ size / slice → size % slice ≤ k % slice
          out_of_place same = elim (Bool-cases (ltb (k % slice) (size % slice))) [
            | inl place ↦ absurd (
                omega (
                  arith,
                  h,
                  (before_cut_iff slice size k v.slice_positive).1
                      (inr (same, ltb→lt (k % slice) (size % slice) place)),
                ))
            | inr past ↦ ltb→le (k % slice) (size % slice) past
          ]

          further : k / slice ≢ size / slice → first_dropped slice size ≤ k / slice
          further apart = elim (Bool-cases (ltb (k / slice) (size / slice))) [
            | inl less ↦ absurd (
                omega (
                  arith,
                  h,
                  (before_cut_iff slice size k v.slice_positive).1
                      (inl (ltb→lt (k / slice) (size / slice) less)),
                ))
            | inr more ↦ ground (
              arith,
              first_dropped-odd slice size v.slice_positive odd,
              ltb→le (k / slice) (size / slice) more,
            )
          ]

      odd_bytes : (k : ℕ) → byte_at L t k ≡ (if ltb k size then byte_at L s k else 0)
      odd_bytes k = elim (Bool-cases (ltb k size)) [
        | inl before ↦ rw before (odd_before k (ltb→lt k size before))
        | inr past ↦ rw past (odd_past k (ltb→le k size past))
      ]

    odd_ok :
        size % slice ≢ 0
        → Unseen L tail_gone
        → (t : State Pool) × (shrink B size s ≡ (ok tt, t)) × Shrinks size s t
    odd_ok odd unseen_too =
        let (t, runs, x) =
          trim_slice_ok L (size / slice) (size % slice) tail_gone (drop_tail-IsSound L size s v)
            unseen_too in
        (
          t,
          shrink-odd size s (λ even. odd (sym (ap (λ (b : ℕ). size % b) v.slice_known) ∙ even))
              ∙ ap (λ (b : ℕ). trim_slice B (size / b) (size % b) (drop_tail B size s))
                  v.slice_known
              ∙ runs,
          record {
            frame = Frame-trans L s tail_gone t (drop_tail-Frame L size s) x.frame;
            sound = x.sound;
            bytes = odd_bytes t odd x;
          },
        )

  drop_tail-Unseen : (size : ℕ) (s : State Pool) → Unseen L s → Unseen L (drop_tail B size s)
  unfolding drop_tail
  drop_tail-Unseen size s unseen = unseen

  pub shrink_ok :
      (size : ℕ) (s : State Pool)
      → IsSound L s
      → Unseen L s
      → size + slice ≤ int64_limit
      → (t : State Pool) × (shrink B size s ≡ (ok tt, t)) × Shrinks size s t
  shrink_ok size s v unseen bound = elim (Bool-cases (size % slice == 0)) [
    | inl even ↦ even_ok size s v unseen bound (==→eq (size % slice) 0 even)
    | inr odd ↦
        odd_ok size s v unseen bound (==→ne (size % slice) 0 odd) (drop_tail-Unseen size s unseen)
  ]
