-- ===== src/Vfs/Handle/TrimLaws.antt =====
-- internal/vfs/file_write.go: proofs about trimSlice.
use zenofs.Common.{
  ℕ, ◌≤◌, ◌≡◌, ◌≢◌, refl, sym, ◌∙◌, ap, none, some, List, ok, arith, get_or, length, inl, inr,
  Bool-cases, Option-cases, if◌then◌else◌, take, leb, ltb, length-take, get_or-take, get_or-beyond,
  ==_ne, ==_self,
}
use zenofs.Vfs.Handle.State.{Backend, State, set_pool, ◌>>=◌}
use zenofs.Vfs.Handle.Slices.{active_at, slice_plain}
use zenofs.Vfs.Handle.Reliable.{IsReliable, Extends, Extends-refl}
use zenofs.Vfs.Handle.View.{
  IsSound, IsSound-set_pool, text_at, text_at-set_pool, slice_plain_ok, text_at-fits,
}
use zenofs.Vfs.Handle.Stores.{Frame, Frame-trans, Frame-set_pool, put_slice_ok}
use zenofs.Vfs.Handle.Flush.{text_at-busy, text_at-idled, idled, IsSound-idled, Frame-idled}
use zenofs.Vfs.Handle.WriteSlice.{buffered, buffered-IsSound, text_at-buffered, active_at-busy}
use zenofs.Vfs.Handle.Truncate.{trim_stored, trim_slice}
use zenofs.Vfs.Handle.TruncateSlices.{Unseen}

module _ {B : Backend} {slice : ℕ} (L : IsReliable B slice) where
  open B use {Pool}

  -- Slice `i` ends at `size`; the others are as they were.
  pub record Trims (i size : ℕ) (s t : State Pool) : Type 0 where
    pub frame : Frame L s t
    pub sound : IsSound L t
    pub elsewhere : (j k : ℕ) → j ≢ i → get_or (text_at L t j) k 0 ≡ get_or (text_at L s j) k 0
    pub here :
        (k : ℕ)
        → get_or (text_at L t i) k 0 ≡ (if ltb k size then get_or (text_at L s i) k 0 else 0)

  abbrev cut : ℕ → List ℕ → List ℕ
  cut size buf = if ltb size (length buf) then take size buf else buf

  get_or-cut :
      (size k : ℕ) (buf : List ℕ)
      → get_or (cut size buf) k 0 ≡ (if ltb k size then get_or buf k 0 else 0)
  get_or-cut size k buf = ground (arith, get_or-take size buf k 0, get_or-beyond buf k 0)

  length-cut : (size : ℕ) (buf : List ℕ) → length (cut size buf) ≤ length buf
  length-cut size buf = ground (arith, length-take size buf)

  trim_busy :
      (i size : ℕ) (buf : List ℕ) (s : State Pool)
      → IsSound L s
      → s.active ≡ some (i, buf)
      → Trims i size s (buffered L s i (cut size buf))
  trim_busy i size buf s v busy = record {
    frame = Frame-trans L s (idled L s) _ (Frame-idled L s) (record {
      handle_same = refl;
      world_same = refl;
      other_rows = λ w j h. refl;
      extends = Extends-refl B L s.pool;
    });
    sound =
        buffered-IsSound L i (cut size buf) (idled L s) (IsSound-idled L s v)
          (omega (arith, length-cut size buf, v.active_fits i buf busy));
    elsewhere = λ j k apart.
        text_at-buffered L (idled L s) i j k (cut size buf) refl
        ∙ rw (==_ne j i apart)
            (ap (λ (x : List ℕ). get_or x k 0) (text_at-idled L s i j buf busy apart));
    here = λ k.
        text_at-buffered L (idled L s) i i k (cut size buf) refl
        ∙ rw (==_self i) (
            get_or-cut size k buf
            ∙ ap (λ (x : List ℕ). if ltb k size then get_or x k 0 else 0)
                (sym (text_at-busy L s i buf busy)));
  }

  trim_idle :
      (i size : ℕ) (s : State Pool)
      → IsSound L s
      → Unseen L s
      → active_at i s.active ≡ none
      → (t : State Pool) × (trim_stored B i size (text_at L s i) s ≡ (ok tt, t)) × Trims i size s t
  unfolding trim_stored
  trim_idle i size s v unseen idle = elim (Bool-cases (leb (length (text_at L s i)) size)) [
    | inl short ↦ (
      s,
      rw short refl,
      record {
        frame = Frame-set_pool L s s.pool (Extends-refl B L s.pool);
        sound = v;
        elsewhere = λ j k apart. refl;
        here = λ k. ground (arith, get_or-beyond (text_at L s i) k 0);
      },
    )
    | inr long ↦
        let (t, runs, p) =
          put_slice_ok L i (take size (text_at L s i)) s v idle
            (omega (arith, length-take size (text_at L s i), text_at-fits L s i v)) in
        (
          t,
          rw long runs,
          record {
            frame = p.frame;
            sound = p.sound;
            elsewhere = λ j k apart. ap (λ (x : List ℕ). get_or x k 0) (p.elsewhere j apart);
            here = λ k. p.bytes (inr (unseen i)) k ∙ get_or-take size (text_at L s i) k 0;
          },
        )
  ]

  Trims-set_pool :
      (i size : ℕ) (s : State Pool) (q : Pool) (t : State Pool)
      → IsSound L s
      → Extends B L s.pool q
      → Trims i size (set_pool s q) t
      → Trims i size s t
  Trims-set_pool i size s q t v e x = record {
    frame = Frame-trans L s (set_pool s q) t (Frame-set_pool L s q e) x.frame;
    sound = x.sound;
    elsewhere = λ j k apart.
        x.elsewhere j k apart ∙ ap (λ (l : List ℕ). get_or l k 0) (text_at-set_pool L s q j e v);
    here = λ k.
        x.here k
        ∙ ap (λ (l : List ℕ). if ltb k size then get_or l k 0 else 0)
            (text_at-set_pool L s q i e v);
  }

  trim_slice-busy :
      (i size : ℕ) (buf : List ℕ) (s : State Pool)
      → active_at i s.active ≡ some buf
      → trim_slice B i size s ≡ (ok tt, buffered L s i (cut size buf))
  unfolding trim_slice
  trim_slice-busy i size buf s held = ground arith

  trim_slice-idle :
      (i size : ℕ) (buf : List ℕ) (s t : State Pool)
      → active_at i s.active ≡ none
      → slice_plain B i s ≡ (ok buf, t)
      → trim_slice B i size s ≡ trim_stored B i size buf t
  unfolding trim_slice ◌>>=◌
  trim_slice-idle i size buf s t idle reads = ground arith

  pub trim_slice_ok :
      (i size : ℕ) (s : State Pool)
      → IsSound L s
      → Unseen L s
      → (t : State Pool) × (trim_slice B i size s ≡ (ok tt, t)) × Trims i size s t
  trim_slice_ok i size s v unseen = elim (Option-cases (active_at i s.active)) [
    | inr (buf, held) ↦ (
      buffered L s i (cut size buf),
      trim_slice-busy i size buf s held,
      trim_busy i size buf s v (active_at-busy i s.active buf held),
    )
    | inl idle ↦
        let (q, reads, e) = slice_plain_ok L i s v in
        let w : IsSound L (set_pool s q) = IsSound-set_pool L s q e v in
        let same = text_at-set_pool L s q i e v in
        let (t, runs, x) = trim_idle i size (set_pool s q) w unseen idle in
        (
          t,
          trim_slice-idle i size (text_at L s i) s (set_pool s q) idle reads
              ∙ ap (λ (l : List ℕ). trim_stored B i size l (set_pool s q)) (sym same)
              ∙ runs,
          Trims-set_pool i size s q t v e x,
        )
  ]
