-- ===== src/Vfs/Handle/WriteSlice.antt =====
-- internal/vfs/file_write.go: proofs about writeIntoSlice.
use zenofs.Common.{
  ℕ, ◌+◌, ◌-◌, ◌≤◌, ◌<◌, ◌≡◌, ◌≢◌, refl, sym, ◌∙◌, ap, subst, none, some, List, ok, arith, get_or,
  length, inl, inr, Option-cases, Bool-cases, false, ◌⊎◌, ◌&&◌, ◌==◌, ltb, leb, if◌then◌else◌,
  ==→eq, ==→ne, ==_self, ==_ne, Option,
}
use zenofs.Vfs.Handle.State.{Backend, State, set_handle, set_pool, ◌>>=◌}
use zenofs.Vfs.Handle.Slices.{
  slice_at, is_all_zero, active_at, grow, copy_at, overlay_active, switch_slice, write_into_slice,
}
use zenofs.Vfs.Handle.Reliable.{IsReliable, Extends-refl}
use zenofs.Vfs.Handle.View.{
  IsSound, IsSound-set_pool, text_at, text_at-set_pool, slice_plain_ok, text_at-fits,
}
use zenofs.Vfs.Handle.Stores.{Frame, Frame-trans, Frame-old_chunks, Frame-set_pool}
use zenofs.Vfs.Handle.Flush.{
  IsSolid, flush_active_ok, text_at-busy, text_at-idled, idled, IsSound-idled, Frame-idled,
}
use zenofs.Vfs.Handle.Bytes.{
  length-grow, length-grow_le, get_or-grow, length-copy_at, get_or-copy_at, get_or-zero,
}

-- The text of a slice after a piece is written over it.
abbrev pub overlaid : ℕ → List ℕ → List ℕ → List ℕ
overlaid intra d buf = copy_at intra d (grow (intra + length d) buf)

pub get_or-overlaid :
    (intra : ℕ) (d buf : List ℕ) (k : ℕ)
    → get_or (overlaid intra d buf) k 0
      ≡ (if leb intra k && ltb k (intra + length d) then get_or d (k - intra) 0 else get_or buf k 0)
get_or-overlaid intra d buf k =
    get_or-copy_at intra d (grow (intra + length d) buf) k (length-grow (intra + length d) buf).0
    ∙ ap (λ (e : ℕ). if leb intra k && ltb k (intra + length d) then get_or d (k - intra) 0 else e)
        (get_or-grow (intra + length d) buf k)

length-overlaid :
    (intra bound : ℕ) (d buf : List ℕ)
    → intra + length d ≤ bound
    → length buf ≤ bound
    → length (overlaid intra d buf) ≤ bound
length-overlaid intra bound d buf h k =
    rw (length-copy_at intra d (grow (intra + length d) buf) (length-grow (intra + length d) buf).0)
      (length-grow_le (intra + length d) bound buf h k)

abbrev paired : ℕ → List ℕ → Option (ℕ × List ℕ)
paired i x = some (i, x)

some_pair : (i j : ℕ) (x y : List ℕ) → paired i x ≡ paired j y → (i ≡ j) × (x ≡ y)
some_pair i j x y e = ground arith

pub active_at-busy :
    (i : ℕ) (a : Option (ℕ × List ℕ)) (buf : List ℕ) → active_at i a ≡ some buf → a ≡ paired i buf
unfolding active_at
active_at-busy i none buf e = cc
active_at-busy i (some (j, x)) buf e = ground arith

-- The piece has a byte that is not zero, or its slice had nothing stored when the file was opened.
module _ {B : Backend} {slice : ℕ} (L : IsReliable B slice) where
  open B use {Pool}

  abbrev pub Solid : ℕ → List ℕ → State Pool → Type 0
  Solid i d s = ((k : ℕ) × (k < length d) × (get_or d k 0 ≢ 0)) ⊎ (slice_at i s.old_chunks ≡ none)

  -- The piece lies over the bytes of its slice, and the other slices are as they were.
  pub record Overlays (i intra : ℕ) (d : List ℕ) (s t : State Pool) : Type 0 where
    pub frame : Frame L s t
    pub sound : IsSound L t
    pub solid : IsSolid L t
    pub bytes :
        (j k : ℕ)
        → get_or (text_at L t j) k 0 ≡ (
            if (j == i) && (leb intra k && ltb k (intra + length d))
            then get_or d (k - intra) 0
            else get_or (text_at L s j) k 0)
    pub covered :
        (j : ℕ)
        → (active_at j s.active ≢ none) ⊎ (slice_at j s.new_chunks ≢ none)
        → ((active_at j t.active ≢ none) ⊎ (slice_at j t.new_chunks ≢ none))
          ⊎ (slice_at j s.old_chunks ≡ none)

  overlaid-Solid :
      (i intra : ℕ) (d buf : List ℕ) (s : State Pool)
      → Solid i d s
      → (is_all_zero (overlaid intra d buf) ≡ false) ⊎ (slice_at i s.old_chunks ≡ none)
  overlaid-Solid i intra d buf s (inr unseen) = inr unseen
  overlaid-Solid i intra d buf s (inl (k, within, full)) =
      elim (Bool-cases (is_all_zero (overlaid intra d buf))) [
        | inr some_byte ↦ inl some_byte
        | inl zeros ↦ absurd (
            full (
              ground (
                arith,
                get_or-zero (overlaid intra d buf) (intra + k) zeros,
                get_or-overlaid intra d buf (intra + k),
                same_byte,
              )))
      ]
    where
      same_byte : get_or d (intra + k - intra) 0 ≡ get_or d k 0
      same_byte = ap (λ (j : ℕ). get_or d j 0) {x = intra + k - intra} {y = k} (omega arith)

  Solid-Frame : (i : ℕ) (d : List ℕ) (s u : State Pool) → Frame L s u → Solid i d s → Solid i d u
  Solid-Frame i d s u f (inl full) = inl full
  Solid-Frame i d s u f (inr unseen) = inr (ap (slice_at i) (Frame-old_chunks L s u f) ∙ unseen)

  abbrev pub buffered : State Pool → ℕ → List ℕ → State Pool
  buffered u i buf = set_handle u (record u.handle { active = some (i, buf) })

  pub buffered-IsSound :
      (i : ℕ) (buf : List ℕ) (u : State Pool)
      → IsSound L u
      → length buf ≤ slice
      → IsSound L (buffered u i buf)
  buffered-IsSound i buf u v fits = record {
    slice_positive = v.slice_positive;
    slice_known = v.slice_known;
    new_holds = v.new_holds;
    old_holds = v.old_holds;
    active_fits = λ j b e. subst (λ (x : List ℕ). length x ≤ slice) (some_pair i j buf b e).1 fits;
    ready = v.ready;
    synced = v.synced;
  }

  buffered-IsSolid :
      (i : ℕ) (buf : List ℕ) (u : State Pool)
      → (is_all_zero buf ≡ false) ⊎ (slice_at i u.old_chunks ≡ none)
      → IsSolid L (buffered u i buf)
  buffered-IsSolid i buf u solid j b e =
      let (same, text) = some_pair i j buf b e in
      subst (λ (x : ℕ). (is_all_zero b ≡ false) ⊎ (slice_at x u.old_chunks ≡ none)) same
        (subst (λ (x : List ℕ). (is_all_zero x ≡ false) ⊎ (slice_at i u.old_chunks ≡ none)) text
          solid)

  pub text_at-buffered :
      (u : State Pool) (i j k : ℕ) (buf : List ℕ)
      → u.active ≡ none
      → get_or (text_at L (buffered u i buf) j) k 0
        ≡ (if j == i then get_or buf k 0 else get_or (text_at L u j) k 0)
  unfolding text_at active_at
  text_at-buffered u i j k buf idle = elim (Bool-cases (j == i)) [
    | inl here ↦ rw (==→eq j i here, ==_self i) refl
    | inr apart ↦ rw (apart, ==_ne i j (λ e. ==→ne j i apart (sym e)), idle) refl
  ]

  -- A file with no active buffer, that reads as `s` does but for slice `i`, takes the new buffer.
  overlay_ok :
      (i intra : ℕ) (d buf : List ℕ) (s u : State Pool)
      → Frame L s u
      → IsSound L u
      → u.active ≡ none
      → ((j k : ℕ) → j ≢ i → get_or (text_at L u j) k 0 ≡ get_or (text_at L s j) k 0)
      → ((j : ℕ)
          → j ≢ i
          → (active_at j s.active ≢ none) ⊎ (slice_at j s.new_chunks ≢ none)
          → (slice_at j u.new_chunks ≢ none) ⊎ (slice_at j s.old_chunks ≡ none))
      → length buf ≤ slice
      → ((k : ℕ) → get_or buf k 0 ≡ get_or (text_at L s i) k 0)
      → intra + length d ≤ slice
      → Solid i d s
      → Overlays i intra d s (buffered u i (overlaid intra d buf))
  unfolding active_at
  overlay_ok i intra d buf s u f v idle same cover fits text room solid = record {
    frame = Frame-trans L s u _ f (record {
      handle_same = refl;
      world_same = refl;
      other_rows = λ w j h. refl;
      extends = Extends-refl B L u.pool;
    });
    sound =
        buffered-IsSound i (overlaid intra d buf) u v (length-overlaid intra slice d buf room fits);
    solid =
        buffered-IsSolid i (overlaid intra d buf) u
          (overlaid-Solid i intra d buf u (Solid-Frame i d s u f solid));
    bytes = λ j k. text_at-buffered u i j k (overlaid intra d buf) idle ∙ new_byte j k;
    covered = λ j h. elim (Bool-cases (j == i)) [
      | inl here ↦ inl (inl (rw (==→eq j i here, ==_self i) (λ e. ground arith)))
      | inr apart ↦ elim (cover j (==→ne j i apart) h) [
        | inl found ↦ inl (inr found)
        | inr unseen ↦ inr unseen
      ]
    ];
  }
    where
      new_byte :
          (j k : ℕ)
          → (if j == i then get_or (overlaid intra d buf) k 0 else get_or (text_at L u j) k 0) ≡ (
              if (j == i) && (leb intra k && ltb k (intra + length d))
              then get_or d (k - intra) 0
              else get_or (text_at L s j) k 0)
      new_byte j k = elim (Bool-cases (j == i)) [
        | inl here ↦ rw here (
            get_or-overlaid intra d buf k
            ∙ ap
                (λ (e : ℕ).
                  if leb intra k && ltb k (intra + length d) then get_or d (k - intra) 0 else e)
                (text k ∙ ap (λ (m : ℕ). get_or (text_at L s m) k 0) (sym (==→eq j i here))))
        | inr apart ↦ rw apart (same j k (==→ne j i apart))
      ]

  -- The buffer of the slice is the active one already.
  overlay_busy :
      (i intra : ℕ) (d buf : List ℕ) (s : State Pool)
      → IsSound L s
      → s.active ≡ some (i, buf)
      → intra + length d ≤ slice
      → Solid i d s
      → Overlays i intra d s (buffered s i (overlaid intra d buf))
  unfolding active_at
  overlay_busy i intra d buf s v busy room solid =
      overlay_ok i intra d buf s (idled L s) (Frame-idled L s) (IsSound-idled L s v) refl
        (λ j k apart. ap (λ (x : List ℕ). get_or x k 0) (text_at-idled L s i j buf busy apart))
        (λ j apart h. elim h [
          | inl held ↦ absurd (held (rw (busy, ==_ne i j (λ e. apart (sym e)))))
          | inr found ↦ inl found
        ])
        (v.active_fits i buf busy)
        (λ k. ap (λ (x : List ℕ). get_or x k 0) (sym (text_at-busy L s i buf busy))) room solid

  -- Another slice becomes the active one, after the flush of the one before.
  switch_slice_ok :
      (i intra : ℕ) (d : List ℕ) (s : State Pool)
      → IsSound L s
      → IsSolid L s
      → intra + length d ≤ slice
      → Solid i d s
      → (t : State Pool) × (switch_slice B i intra d s ≡ (ok tt, t)) × Overlays i intra d s t
  unfolding switch_slice ◌>>=◌ overlay_active
  switch_slice_ok i intra d s v solid room full =
      let (q, reads, e) = slice_plain_ok L i s v in
      let w : IsSound L (set_pool s q) = IsSound-set_pool L s q e v in
      let (u, flushes, f) = flush_active_ok L (set_pool s q) w solid in
      (
        buffered u i (overlaid intra d (text_at L s i)),
        rw (reads, flushes) refl,
        overlay_ok i intra d (text_at L s i) s u
            (Frame-trans L s (set_pool s q) u (Frame-set_pool L s q e) f.frame) f.sound f.idle
            (λ j k apart.
              f.bytes j k ∙ ap (λ (x : List ℕ). get_or x k 0) (text_at-set_pool L s q j e v))
            (λ j apart h. f.covered j h) (text_at-fits L s i v) (λ k. refl) room full,
      )

  write_into_slice-switch :
      (i intra : ℕ) (d : List ℕ) (s : State Pool)
      → active_at i s.active ≡ none
      → write_into_slice B i intra d s ≡ switch_slice B i intra d s
  unfolding write_into_slice
  write_into_slice-switch i intra d s idle = ground arith

  write_into_slice-overlay :
      (i intra : ℕ) (d buf : List ℕ) (s : State Pool)
      → active_at i s.active ≡ some buf
      → write_into_slice B i intra d s ≡ (ok tt, buffered s i (overlaid intra d buf))
  unfolding write_into_slice overlay_active
  write_into_slice-overlay i intra d buf s held = ground arith

  -- Writing a piece into one slice.
  pub write_into_slice_ok :
      (i intra : ℕ) (d : List ℕ) (s : State Pool)
      → IsSound L s
      → IsSolid L s
      → intra + length d ≤ slice
      → Solid i d s
      → (t : State Pool) × (write_into_slice B i intra d s ≡ (ok tt, t)) × Overlays i intra d s t
  write_into_slice_ok i intra d s v solid room full = elim (Option-cases (active_at i s.active)) [
    | inr (buf, held) ↦ (
      buffered s i (overlaid intra d buf),
      write_into_slice-overlay i intra d buf s held,
      overlay_busy i intra d buf s v (active_at-busy i s.active buf held) room full,
    )
    | inl idle ↦
        let (t, runs, o) = switch_slice_ok i intra d s v solid room full in
        (t, write_into_slice-switch i intra d s idle ∙ runs, o)
  ]
