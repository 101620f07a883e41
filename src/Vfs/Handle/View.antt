-- ===== src/Vfs/Handle/View.antt =====
-- What an open file reads as, the invariant of its slices, and reading one slice.
use zenofs.Common.{
  ℕ, ◌/◌, ◌%◌, ◌≤◌, ◌<◌, ◌≡◌, refl, Option, none, some, List, [], ok, arith, length, get_or,
  find_by, inl, inr, Option-cases, Bool-cases, ◌==◌,
}
use zenofs.Db.{Codec, Version, VersionChunk}
use zenofs.Vfs.Handle.State.{Backend, State, set_pool}
use zenofs.Vfs.Handle.Slices.{slice_at, is_row, active_at, read_slice, slice_plain}
use zenofs.Vfs.Handle.Reliable.{
  IsReliable, stored, Extends, Extends-refl, stored_cases, read-Extends,
}

abbrev pub or_empty : Option (List ℕ) → List ℕ
or_empty none = []
or_empty (some d) = d

abbrev pub active_text : Option (List ℕ) → List ℕ → List ℕ
active_text none else_text = else_text
active_text (some buf) else_text = buf

module _ {B : Backend} {slice : ℕ} (L : IsReliable B slice) where
  open B use {Pool}

  -- The plain text of a slice found at open.
  abbrev pub old_text : Pool → Option Version → Option VersionChunk → List ℕ
  old_text p none vc = []
  old_text p (some v) none = []
  old_text p (some v) (some vc) = or_empty (stored B L p v.codec vc.chunk_id)

  abbrev pub new_text : Pool → Codec → Option VersionChunk → List ℕ → List ℕ
  new_text p c none else_text = else_text
  new_text p c (some vc) else_text = or_empty (stored B L p c vc.chunk_id)

  -- The plain text of a slice: its buffer, else what this handle stored, else what it opened.
  unfoldable pub text_at : State Pool → ℕ → List ℕ
  text_at s i = active_text (active_at i s.active) (
      new_text s.pool s.new_ver.codec (slice_at i s.new_chunks)
        (old_text s.pool s.old_ver (slice_at i s.old_chunks)))

  -- The byte at an offset, 0 in a hole.
  unfoldable pub byte_at : State Pool → ℕ → ℕ
  byte_at s k = get_or (text_at s (k / slice)) (k % slice) 0

  -- A chunk that is there and no longer than a slice.
  pub record Holds (p : Pool) (c : Codec) (id : ℕ) : Type 0 where
    pub text : List ℕ
    pub reads : stored B L p c id ≡ some text
    pub fits : length text ≤ slice

  -- Every slice can be read and is no longer than a slice; the rows of the new version are those
  -- that the handle has in memory.
  pub record IsSound (s : State Pool) : Type 0 where
    pub slice_positive : 0 < slice
    pub slice_known : s.slice_bytes ≡ slice
    pub new_holds :
        (i : ℕ) (vc : VersionChunk)
        → slice_at i s.new_chunks ≡ some vc
        → Holds s.pool s.new_ver.codec vc.chunk_id
    pub old_holds :
        (i : ℕ) (vc : VersionChunk)
        → slice_at i s.old_chunks ≡ some vc
        → (v : Version) × (s.old_ver ≡ some v) × Holds s.pool v.codec vc.chunk_id
    pub active_fits : (i : ℕ) (buf : List ℕ) → s.active ≡ some (i, buf) → length buf ≤ slice
    pub ready : L.Ready s.pool s.new_ver.codec
    pub synced :
        (i : ℕ) → find_by (is_row s.new_ver.id i) s.version_chunks ≡ slice_at i s.new_chunks

  sound_healthy : (s : State Pool) → IsSound s → L.Healthy s.pool
  sound_healthy s v = L.ready_healthy s.pool s.new_ver.codec v.ready

  -- The same file but for the pool: everything reads as before.
  pub Holds-Extends :
      {p q : Pool} {c : Codec} {id : ℕ} → Extends B L p q → Holds p c id → Holds q c id
  Holds-Extends {c = c} {id = id} e h = record {
    text = h.text;
    reads = e.kept c id h.text h.reads;
    fits = h.fits;
  }

  pub IsSound-set_pool :
      (s : State Pool) (q : Pool) → Extends B L s.pool q → IsSound s → IsSound (set_pool s q)
  IsSound-set_pool s q e v = record {
    slice_positive = v.slice_positive;
    slice_known = v.slice_known;
    new_holds = λ i vc h. Holds-Extends e (v.new_holds i vc h);
    old_holds =
        λ i vc h. let (r, known, holds) = v.old_holds i vc h in (r, known, Holds-Extends e holds);
    active_fits = v.active_fits;
    ready = e.ready s.new_ver.codec v.ready;
    synced = v.synced;
  }

  same_text :
      {p q : Pool} {c : Codec} {id : ℕ}
      → Extends B L p q
      → Holds p c id
      → or_empty (stored B L q c id) ≡ or_empty (stored B L p c id)
  same_text {c = c} {id = id} e h = cc (h.reads, e.kept c id h.text h.reads)

  old_text-Extends :
      (s : State Pool) (q : Pool) (i : ℕ)
      → Extends B L s.pool q
      → IsSound s
      → old_text q s.old_ver (slice_at i s.old_chunks)
        ≡ old_text s.pool s.old_ver (slice_at i s.old_chunks)
  old_text-Extends s q i e v = elim (Option-cases (slice_at i s.old_chunks)) [
    | inl gone ↦ rw gone (elim (Option-cases s.old_ver) [
      | inl unknown ↦ rw unknown refl
      | inr (r, known) ↦ rw known refl
    ])
    | inr (vc, found) ↦
        let (r, known, holds) = v.old_holds i vc found in rw (found, known) (same_text e holds)
  ]

  pub text_at-set_pool :
      (s : State Pool) (q : Pool) (i : ℕ)
      → Extends B L s.pool q
      → IsSound s
      → text_at (set_pool s q) i ≡ text_at s i
  unfolding text_at
  text_at-set_pool s q i e v = elim (Option-cases (active_at i s.active)) [
    | inr (buf, busy) ↦ rw busy refl
    | inl idle ↦ rw idle (elim (Option-cases (slice_at i s.new_chunks)) [
      | inr (vc, found) ↦ rw found (same_text e (v.new_holds i vc found))
      | inl gone ↦ rw gone (old_text-Extends s q i e v)
    ])
  ]

  -- A read of a slice that is there.
  read_slice_ok :
      (s : State Pool) (c : Codec) (id : ℕ)
      → L.Healthy s.pool
      → Holds s.pool c id
      → read_slice B id c s
        ≡ (ok (or_empty (stored B L s.pool c id)), set_pool s (B.read_chunk s.pool id).1)
  unfolding read_slice
  read_slice_ok s c id well h =
      let (st, held, plain) = stored_cases B L s.pool c id h.text h.reads in
      ground (arith, L.read_ok s.pool id st well held, L.read_decode s.pool id st c, h.reads)

  slice_plain_old :
      (i : ℕ) (s : State Pool)
      → IsSound s
      → active_at i s.active ≡ none
      → slice_at i s.new_chunks ≡ none
      → (q : Pool) × (slice_plain B i s ≡ (ok (text_at s i), set_pool s q)) × Extends B L s.pool q
  unfolding slice_plain text_at
  slice_plain_old i s v idle missing = elim (Option-cases (slice_at i s.old_chunks)) [
    | inl gone ↦ (s.pool, ground arith, Extends-refl B L s.pool)
    | inr (vc, found) ↦
        let (r, known, holds) = v.old_holds i vc found in
        (
          (B.read_chunk s.pool vc.chunk_id).1,
          ground (arith, read_slice_ok s r.codec vc.chunk_id (sound_healthy s v) holds),
          read-Extends B L s.pool vc.chunk_id (sound_healthy s v),
        )
  ]

  -- Reading a slice returns its text and leaves every other slice readable.
  pub slice_plain_ok :
      (i : ℕ) (s : State Pool)
      → IsSound s
      → (q : Pool) × (slice_plain B i s ≡ (ok (text_at s i), set_pool s q)) × Extends B L s.pool q
  unfolding slice_plain text_at
  slice_plain_ok i s v = elim (Option-cases (active_at i s.active)) [
    | inr (buf, busy) ↦ (s.pool, ground arith, Extends-refl B L s.pool)
    | inl idle ↦ elim (Option-cases (slice_at i s.new_chunks)) [
      | inl missing ↦ slice_plain_old i s v idle missing
      | inr (vc, found) ↦ (
        (B.read_chunk s.pool vc.chunk_id).1,
        ground (
          arith,
          read_slice_ok s s.new_ver.codec vc.chunk_id (sound_healthy s v) (v.new_holds i vc found),
        ),
        read-Extends B L s.pool vc.chunk_id (sound_healthy s v),
      )
    ]
  ]

  Holds-fits :
      {p : Pool} {c : Codec} {id : ℕ} → Holds p c id → length (or_empty (stored B L p c id)) ≤ slice
  Holds-fits h = rw (h.reads) h.fits

  old_text-fits :
      (s : State Pool) (i : ℕ)
      → IsSound s
      → length (old_text s.pool s.old_ver (slice_at i s.old_chunks)) ≤ slice
  old_text-fits s i v = elim (Option-cases (slice_at i s.old_chunks)) [
    | inl gone ↦ rw gone (elim (Option-cases s.old_ver) [
      | inl unknown ↦ rw unknown (omega arith)
      | inr (r, known) ↦ rw known (omega arith)
    ])
    | inr (vc, found) ↦
        let (r, known, holds) = v.old_holds i vc found in rw (found, known) (Holds-fits holds)
  ]

  stored_fits :
      (s : State Pool) (i : ℕ)
      → IsSound s
      → length (
          new_text s.pool s.new_ver.codec
            (slice_at i s.new_chunks)
            (old_text s.pool s.old_ver (slice_at i s.old_chunks)))
        ≤ slice
  stored_fits s i v = elim (Option-cases (slice_at i s.new_chunks)) [
    | inr (vc, found) ↦ rw found (Holds-fits (v.new_holds i vc found))
    | inl gone ↦ rw gone (old_text-fits s i v)
  ]

  -- No slice is longer than a slice.
  pub text_at-fits : (s : State Pool) (i : ℕ) → IsSound s → length (text_at s i) ≤ slice
  unfolding text_at active_at
  text_at-fits s i v = elim (Option-cases s.active) [
    | inr (a, busy) ↦ elim (Bool-cases (a.0 == i)) [
      | inl here ↦ rw (busy, here) (v.active_fits a.0 a.1 busy)
      | inr apart ↦ rw (busy, apart) (stored_fits s i v)
    ]
    | inl idle ↦ rw idle (stored_fits s i v)
  ]
