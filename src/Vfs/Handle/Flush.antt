-- ===== src/Vfs/Handle/Flush.antt =====
-- internal/vfs/file_write.go: what a flush of the active buffer leaves behind.
use zenofs.Common.{
  ℕ, ◌≡◌, ◌≢◌, refl, sym, ◌∙◌, ap, none, some, List, ok, arith, get_or, inl, inr, Option-cases,
  Bool-cases, false, ◌⊎◌, ◌==◌, ==→eq, ==→ne, ==_self, ==_ne,
}
use zenofs.Vfs.Handle.State.{Backend, State, set_handle}
use zenofs.Vfs.Handle.Slices.{slice_at, is_all_zero, active_at, put_slice, flush_active}
use zenofs.Vfs.Handle.Reliable.{IsReliable, Extends-refl}
use zenofs.Vfs.Handle.View.{IsSound, text_at}
use zenofs.Vfs.Handle.Stores.{Frame, Frame-trans, Places, put_slice_ok}

module _ {B : Backend} {slice : ℕ} (L : IsReliable B slice) where
  open B use {Pool}

  -- Flushing keeps every byte; an all-zero buffer must not uncover a slice found at open.
  pub record Flushes (s t : State Pool) : Type 0 where
    pub frame : Frame L s t
    pub sound : IsSound L t
    pub idle : t.active ≡ none
    pub bytes : (j k : ℕ) → get_or (text_at L t j) k 0 ≡ get_or (text_at L s j) k 0
    pub covered :
        (j : ℕ)
        → (active_at j s.active ≢ none) ⊎ (slice_at j s.new_chunks ≢ none)
        → (slice_at j t.new_chunks ≢ none) ⊎ (slice_at j s.old_chunks ≡ none)

  -- A buffer of zeros lies where no slice was found at open.
  abbrev pub IsSolid : State Pool → Type 0
  IsSolid s =
      (i : ℕ) (buf : List ℕ)
      → s.active ≡ some (i, buf)
      → (is_all_zero buf ≡ false) ⊎ (slice_at i s.old_chunks ≡ none)

  abbrev pub idled : State Pool → State Pool
  idled s = set_handle s (record s.handle { active = none })

  pub IsSound-idled : (s : State Pool) → IsSound L s → IsSound L (idled s)
  IsSound-idled s v = record {
    slice_positive = v.slice_positive;
    slice_known = v.slice_known;
    new_holds = v.new_holds;
    old_holds = v.old_holds;
    active_fits = λ i buf h. cc;
    ready = v.ready;
    synced = v.synced;
  }

  pub Frame-idled : (s : State Pool) → Frame L s (idled s)
  Frame-idled s = record {
    handle_same = refl;
    world_same = refl;
    other_rows = λ w j h. refl;
    extends = Extends-refl B L s.pool;
  }

  -- The buffer is the text of its slice, and no other slice looks at it.
  pub text_at-idled :
      (s : State Pool) (i j : ℕ) (buf : List ℕ)
      → s.active ≡ some (i, buf)
      → j ≢ i
      → text_at L (idled s) j ≡ text_at L s j
  unfolding text_at active_at
  text_at-idled s i j buf busy apart = rw (busy, ==_ne i j (λ e. apart (sym e)))

  pub text_at-busy :
      (s : State Pool) (i : ℕ) (buf : List ℕ) → s.active ≡ some (i, buf) → text_at L s i ≡ buf
  unfolding text_at active_at
  text_at-busy s i buf busy = rw (busy, ==_self i)

  covered-Places :
      (s t : State Pool) (i j : ℕ) (buf : List ℕ)
      → s.active ≡ some (i, buf)
      → (is_all_zero buf ≡ false) ⊎ (slice_at i s.old_chunks ≡ none)
      → Places L i buf (idled s) t
      → (active_at j s.active ≢ none) ⊎ (slice_at j s.new_chunks ≢ none)
      → (slice_at j t.new_chunks ≢ none) ⊎ (slice_at j s.old_chunks ≡ none)
  unfolding active_at
  covered-Places s t i j buf busy solid p h = elim (Bool-cases (j == i)) [
    | inl same ↦
        rw (==→eq j i same)
          (elim solid [ inl full ↦ inl (p.kept_solid full) | inr unseen ↦ inr unseen ])
    | inr apart ↦ elim h [
      | inl held ↦ absurd (held (rw (busy, ==_ne i j (λ e. ==→ne j i apart (sym e)))))
      | inr found ↦ inl (λ gone. found (sym (p.slices_elsewhere j (==→ne j i apart)) ∙ gone))
    ]
  ]

  Flushes-Places :
      (s t : State Pool) (i : ℕ) (buf : List ℕ)
      → s.active ≡ some (i, buf)
      → (is_all_zero buf ≡ false) ⊎ (slice_at i s.old_chunks ≡ none)
      → Places L i buf (idled s) t
      → Flushes s t
  Flushes-Places s t i buf busy solid p = record {
    frame = Frame-trans L s (idled s) t (Frame-idled s) p.frame;
    sound = p.sound;
    idle = p.active_same;
    bytes = λ j k. elim (Bool-cases (j == i)) [
      | inl same ↦
          rw (==→eq j i same)
            (p.bytes solid k ∙ ap (λ (x : List ℕ). get_or x k 0) (sym (text_at-busy s i buf busy)))
      | inr apart ↦
          ap (λ (x : List ℕ). get_or x k 0)
            (p.elsewhere j (==→ne j i apart) ∙ text_at-idled s i j buf busy (==→ne j i apart))
    ];
    covered = λ j h. covered-Places s t i j buf busy solid p h;
  }

  flush_busy :
      (s : State Pool) (i : ℕ) (buf : List ℕ)
      → IsSound L s
      → IsSolid s
      → s.active ≡ some (i, buf)
      → (t : State Pool) × (put_slice B i buf (idled s) ≡ (ok tt, t)) × Flushes s t
  unfolding active_at
  flush_busy s i buf v solid busy =
      let (t, runs, p) =
        put_slice_ok L i buf (idled s) (IsSound-idled s v) refl (v.active_fits i buf busy) in
      (t, runs, Flushes-Places s t i buf busy (solid i buf busy) p)

  pub flush_active_ok :
      (s : State Pool)
      → IsSound L s
      → IsSolid s
      → (t : State Pool) × (flush_active B s ≡ (ok tt, t)) × Flushes s t
  flush_active_ok s v solid = elim (Option-cases s.active) [
    | inl idle ↦ (
      s,
      unfold flush_active in rw idle refl,
      record {
        frame = record {
          handle_same = refl;
          world_same = refl;
          other_rows = λ w j h. refl;
          extends = Extends-refl B L s.pool;
        };
        sound = v;
        idle = idle;
        bytes = λ j k. refl;
        covered = λ j h. unfold active_at in ground arith;
      },
    )
    | inr (a, busy) ↦
        let (t, runs, f) = flush_busy s a.0 a.1 v solid busy in
        (t, unfold flush_active in rw busy runs, f)
  ]
