-- ===== src/Vfs/Handle/Stores.antt =====
-- internal/vfs/file_write.go: what storing and dropping a slice leave behind.
use zenofs.Common.{
  ℕ, ◌≤◌, ◌<◌, ◌≡◌, ◌≢◌, refl, sym, ◌∙◌, ap, subst, none, some, List, [], ◌∷◌, ok, arith, length,
  get_or, find_by, inl, inr, Option-cases, Bool-cases, true, false, ◌⊎◌, ◌==◌, ==_ne,
}
use zenofs.Db.{VersionChunk}
use zenofs.Vfs.Handle.State.{Backend, Handle, State, World, set_pool, ◌>>=◌, Stored}
use zenofs.Vfs.Handle.Slices.{
  slice_at, is_row, is_all_zero, active_at, drop_slice, record_slice, store_slice, put_slice,
  encode_slice, store_chunk,
}
use zenofs.Vfs.Handle.Reliable.{
  IsReliable, stored, Extends, Extends-refl, Extends-trans, encode-Extends, add-Extends, stored_of,
}
use zenofs.Vfs.Handle.View.{IsSound, Holds, text_at, IsSound-set_pool, text_at-set_pool}
use zenofs.Vfs.Handle.Bytes.{get_or-zero}
use zenofs.Vfs.Handle.Lookups.{
  slice_at-delete, row_at-delete, row_at-delete_other, slice_at-place, row_at-place,
  row_at-place_other,
}

module _ {B : Backend} {slice : ℕ} (L : IsReliable B slice) where
  open B use {Pool}

  -- What no operation on slices changes: all of the open file but its slices, all of the tables
  -- but the rows of the new version; and what could be read stays readable.
  pub record Frame (s t : State Pool) : Type 0 where
    pub handle_same : t.handle ≡ record s.handle { new_chunks = t.new_chunks; active = t.active }
    pub world_same : t.world ≡ record s.world { pool = t.pool; version_chunks = t.version_chunks }
    pub other_rows :
        (w j : ℕ)
        → w ≢ s.new_ver.id
        → find_by (is_row w j) t.version_chunks ≡ find_by (is_row w j) s.version_chunks
    pub extends : Extends B L s.pool t.pool

  pub Frame-old_chunks : (s t : State Pool) → Frame s t → t.old_chunks ≡ s.old_chunks
  Frame-old_chunks s t f = ap (λ (h : Handle). h.old_chunks) f.handle_same

  pub Frame-new_ver : (s t : State Pool) → Frame s t → t.new_ver ≡ s.new_ver
  Frame-new_ver s t f = ap (λ (h : Handle). h.new_ver) f.handle_same

  pub Frame-slice_bytes : (s t : State Pool) → Frame s t → t.slice_bytes ≡ s.slice_bytes
  Frame-slice_bytes s t f = ap (λ (w : World Pool). w.slice_bytes) f.world_same

  pub Frame-trans : (s t u : State Pool) → Frame s t → Frame t u → Frame s u
  Frame-trans s t u e f = record {
    handle_same =
        f.handle_same
        ∙ ap (λ (h : Handle). record h { new_chunks = u.new_chunks; active = u.active })
            e.handle_same;
    world_same =
        f.world_same
        ∙ ap (λ (w : World Pool). record w { pool = u.pool; version_chunks = u.version_chunks })
            e.world_same;
    other_rows = λ w j apart.
        f.other_rows w j (λ same. apart (same ∙ ap (λ (h : Handle). h.new_ver.id) e.handle_same))
        ∙ e.other_rows w j apart;
    extends = Extends-trans B L e.extends f.extends;
  }

  pub Frame-set_pool : (s : State Pool) (q : Pool) → Extends B L s.pool q → Frame s (set_pool s q)
  Frame-set_pool s q e = record {
    handle_same = refl;
    world_same = refl;
    other_rows = λ w j h. refl;
    extends = e;
  }

  -- The slice holds the bytes of `plain`; the others are as they were.
  pub record Places (i : ℕ) (plain : List ℕ) (s t : State Pool) : Type 0 where
    pub frame : Frame s t
    pub sound : IsSound L t
    pub active_same : t.active ≡ s.active
    pub elsewhere : (j : ℕ) → j ≢ i → text_at L t j ≡ text_at L s j
    pub slices_elsewhere : (j : ℕ) → j ≢ i → slice_at j t.new_chunks ≡ slice_at j s.new_chunks
    pub kept_solid : is_all_zero plain ≡ false → slice_at i t.new_chunks ≢ none
    pub bytes :
        (is_all_zero plain ≡ false) ⊎ (slice_at i s.old_chunks ≡ none)
        → (k : ℕ) → get_or (text_at L t i) k 0 ≡ get_or plain k 0

  drop_slice_ok :
      (i : ℕ) (plain : List ℕ) (s : State Pool)
      → IsSound L s
      → active_at i s.active ≡ none
      → is_all_zero plain ≡ true
      → Places i plain s (drop_slice B i s).1
  unfolding drop_slice text_at
  drop_slice_ok i plain s v idle zeros = record {
    frame = record {
      handle_same = refl;
      world_same = refl;
      other_rows = λ w j apart. row_at-delete_other s.new_ver.id w i j s.version_chunks apart;
      extends = Extends-refl B L s.pool;
    };
    sound = record {
      slice_positive = v.slice_positive;
      slice_known = v.slice_known;
      new_holds = λ j vc h. v.new_holds j vc (ground (arith, slice_at-delete i j s.new_chunks, h));
      old_holds = v.old_holds;
      active_fits = v.active_fits;
      ready = v.ready;
      synced = λ j. ground (
        arith,
        slice_at-delete i j s.new_chunks,
        row_at-delete s.new_ver.id i j s.version_chunks,
        v.synced j,
      );
    };
    active_same = refl;
    elsewhere =
        λ j apart. rw (slice_at-delete i j s.new_chunks, ==_ne i j (λ e. apart (sym e))) refl;
    slices_elsewhere = λ j apart. ground (arith, slice_at-delete i j s.new_chunks);
    kept_solid = λ h. ground arith;
    bytes = λ how k. hole_bytes how k;
  }
    where
      hole_bytes :
          (is_all_zero plain ≡ false) ⊎ (slice_at i s.old_chunks ≡ none)
          → (k : ℕ) → get_or (text_at L (drop_slice B i s).1 i) k 0 ≡ get_or plain k 0
      hole_bytes (inl solid) k = ground arith
      hole_bytes (inr unseen) k = ground (
        arith,
        idle,
        slice_at-delete i i s.new_chunks,
        get_or-zero plain k,
        Option-cases s.old_ver,
      )

  -- The row and the entry of a stored slice.
  abbrev placed_row : ℕ → List ℕ → Stored → State Pool → VersionChunk
  placed_row i plain r s = record {
    version_id = s.new_ver.id;
    idx = i;
    chunk_id = r.chunk_id;
    size = length plain;
    hash = r.hash;
  }

  -- Storing a slice succeeds, through a pool in which the slice reads back.
  store_slice_runs :
      (i : ℕ) (plain : List ℕ) (s : State Pool)
      → L.Ready s.pool s.new_ver.codec
      → 0 < length plain
      → length plain ≤ slice
      → (q : Pool) × (r : Stored) × (store_slice B i plain s
          ≡ record_slice B i plain r (set_pool s q))
        × Extends B L s.pool q
        × (stored B L q s.new_ver.codec r.chunk_id ≡ some plain)
  unfolding store_slice encode_slice store_chunk ◌>>=◌
  store_slice_runs i plain s usable some_bytes fits =
      let (st, coded, accepted, decodes) =
        L.encode_ok s.pool plain s.new_ver.codec usable some_bytes fits in
      let p : Pool = (B.encode s.pool plain s.new_ver.codec).1 in
      let still = L.encode_ready s.pool plain s.new_ver.codec s.new_ver.codec usable in
      let (r, added, held) = L.add_ok p st s.new_ver.codec still accepted in
      (
        (B.add_chunk p st).1,
        r,
        rw (coded, added) refl,
        Extends-trans B L (encode-Extends B L s.pool plain s.new_ver.codec)
            (add-Extends B L p st (L.ready_healthy p s.new_ver.codec still) accepted),
        stored_of B L (B.add_chunk p st).1 s.new_ver.codec r.chunk_id st plain held
            (L.add_decode p st st s.new_ver.codec ∙ decodes),
      )

  record_slice_ok :
      (i : ℕ) (plain : List ℕ) (r : Stored) (s : State Pool)
      → IsSound L s
      → active_at i s.active ≡ none
      → length plain ≤ slice
      → stored B L s.pool s.new_ver.codec r.chunk_id ≡ some plain
      → Places i plain s (record_slice B i plain r s).1
  unfolding record_slice text_at
  record_slice_ok i plain r s v idle fits reads = record {
    frame = record {
      handle_same = refl;
      world_same = refl;
      other_rows = λ w j apart.
          row_at-place_other s.new_ver.id w i j (placed_row i plain r s) s.version_chunks refl
            apart;
      extends = Extends-refl B L s.pool;
    };
    sound = record {
      slice_positive = v.slice_positive;
      slice_known = v.slice_known;
      new_holds = λ j vc h. elim (Bool-cases (i == j)) [
        | inl same ↦
            let e : placed_row i plain r s ≡ vc =
              ground (arith, slice_at-place i j (placed_row i plain r s) s.new_chunks refl) in
            subst (λ (x : VersionChunk). Holds L s.pool s.new_ver.codec x.chunk_id) e
              (record { text = plain; reads = reads; fits = fits })
        | inr apart ↦
            v.new_holds j vc
              (ground (arith, slice_at-place i j (placed_row i plain r s) s.new_chunks refl))
      ];
      old_holds = v.old_holds;
      active_fits = v.active_fits;
      ready = v.ready;
      synced = λ j. ground (
        arith,
        slice_at-place i j (placed_row i plain r s) s.new_chunks refl,
        row_at-place s.new_ver.id i j (placed_row i plain r s) s.version_chunks refl refl,
        v.synced j,
      );
    };
    active_same = refl;
    elsewhere = λ j apart. rw (
      slice_at-place i j (placed_row i plain r s) s.new_chunks refl,
      ==_ne i j (λ e. apart (sym e)),
    );
    slices_elsewhere =
        λ j apart. ground (arith, slice_at-place i j (placed_row i plain r s) s.new_chunks refl);
    kept_solid = λ h. ground (arith, slice_at-place i i (placed_row i plain r s) s.new_chunks refl);
    bytes = λ how k.
        ap (λ (t : List ℕ). get_or t k 0)
          (ground
            (arith, idle, reads, slice_at-place i i (placed_row i plain r s) s.new_chunks refl));
  }

  zeros_nonempty : (plain : List ℕ) → is_all_zero plain ≡ false → 0 < length plain
  unfolding is_all_zero
  zeros_nonempty [] h = ground arith
  zeros_nonempty (x ∷ xs) h = omega arith

  Places-after :
      (i : ℕ) (plain : List ℕ) (s : State Pool) (q : Pool) (t : State Pool)
      → IsSound L s
      → Extends B L s.pool q
      → Places i plain (set_pool s q) t
      → Places i plain s t
  Places-after i plain s q t v e p = record {
    frame =
        Frame-trans s (set_pool s q) t
          (record {
            handle_same = refl;
            world_same = refl;
            other_rows = λ w j h. refl;
            extends = e;
          })
          p.frame;
    sound = p.sound;
    active_same = p.active_same;
    elsewhere = λ j apart. p.elsewhere j apart ∙ text_at-set_pool L s q j e v;
    slices_elsewhere = p.slices_elsewhere;
    kept_solid = p.kept_solid;
    bytes = p.bytes;
  }

  -- Putting a slice succeeds and places its bytes.
  pub put_slice_ok :
      (i : ℕ) (plain : List ℕ) (s : State Pool)
      → IsSound L s
      → active_at i s.active ≡ none
      → length plain ≤ slice
      → (t : State Pool) × (put_slice B i plain s ≡ (ok tt, t)) × Places i plain s t
  unfolding put_slice
  put_slice_ok i plain s v idle fits = elim (Bool-cases (is_all_zero plain)) [
    | inl zeros ↦ (
      (drop_slice B i s).1,
      rw zeros (unfold drop_slice in refl),
      drop_slice_ok i plain s v idle zeros,
    )
    | inr solid ↦
        let (q, r, runs, e, reads) =
          store_slice_runs i plain s v.ready (zeros_nonempty plain solid) fits in
        let t : State Pool = (record_slice B i plain r (set_pool s q)).1 in
        (
          t,
          rw solid (runs ∙ (unfold record_slice in refl)),
          Places-after i plain s q t v e (
              record_slice_ok i plain r (set_pool s q) (IsSound-set_pool L s q e v) idle fits
                reads),
        )
  ]
