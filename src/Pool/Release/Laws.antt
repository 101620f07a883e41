-- ===== src/Pool/Release/Laws.antt =====
-- internal/pool/release.go: proofs about ReleaseChunks, batch by batch and as a whole.
use zenofs.Common.{
  ℕ, zero, suc, ◌≤◌, ◌≡◌, refl, ◌∙◌, ap, true, false, not, ◌&&◌, some, List, [], ◌∷◌, arith, ok,
  Result, ◌==◌, length, delete_where, take, drop, select, exists_in, find_by_found, ==→eq, inl, inr,
  Bool-cases, length-drop,
}
use zenofs.Db.{VersionChunk}
use zenofs.Pool.Tables.{Chunk, Tables, is_data, is_allocated}
use zenofs.Pool.Release.{
  member, is_releasable, rolled_back, roll_back, Released, ReleaseResult, roll_back_batch,
  release_batch, release_batches, finish_release, release_chunks, requeue_parity, enqueue_parity,
  drop_cache_rows, filter_unreferenced, unique_ids, nothing_released, is_live,
}
use zenofs.Pool.Release.Rows.{
  find_chunk, roll_back-kept, roll_back-released, drop_parity-data, member-take, member-drop,
  member-split, member-filter, member-unique_ids, select-none, member-select, drop_parity-kept,
  is_live-drop_parity,
}

-- The random source has not failed.
abbrev pub Draws : (ℕ → Result (List (List ℕ))) → Type 0
Draws draw = (n : ℕ) → (paths : List (List ℕ)) × (draw n ≡ ok paths)

-- An empty slot that was chunk `c`.
abbrev pub IsFreed : ℕ → Chunk → List Chunk → Type 0
IsFreed k c l = (path : List ℕ) × (find_chunk k l ≡ some (rolled_back path c))

-- From `l` to `m`, chunks not among the ids and chunks without data stay, chunks with data among
-- the ids become empty slots.
pub record Frees (ids : List ℕ) (l m : List Chunk) : Type 0 where
  pub others :
      (k : ℕ) (c : Chunk)
      → find_chunk k l ≡ some c
      → (member k ids && (is_data c.kind && is_allocated c.status)) ≡ false
      → find_chunk k m ≡ some c
  pub freed :
      (k : ℕ) (c : Chunk)
      → find_chunk k l ≡ some c
      → (member k ids && (is_data c.kind && is_allocated c.status)) ≡ true
      → IsFreed k c m

named : (k : ℕ) (c : Chunk) (l : List Chunk) → find_chunk k l ≡ some c → c.id ≡ k
named k c l h = ==→eq c.id k (find_by_found (λ (x : Chunk). x.id == k) l c h)

releasable_here :
    (batch : List ℕ) (k : ℕ) (c : Chunk) (l : List Chunk)
    → find_chunk k l ≡ some c
    → is_releasable batch c ≡ (member k batch && (is_data c.kind && is_allocated c.status))
releasable_here batch k c l h = ground (arith, ap (λ (n : ℕ). member n batch) (named k c l h))

Frees-roll_back :
    (batch : List ℕ) (paths : List (List ℕ)) (l : List Chunk)
    → Frees batch l (roll_back batch paths l)
Frees-roll_back batch paths l = record {
  others = λ k c h out. roll_back-kept batch paths k c l h (releasable_here batch k c l h ∙ out);
  freed = λ k c h data_there.
      roll_back-released batch paths k c l h (releasable_here batch k c l h ∙ data_there);
}

-- No chunk of the batch has data.
Frees-nothing :
    (batch : List ℕ) (l : List Chunk)
    → length (select (is_releasable batch) l) ≡ 0
    → Frees batch l l
Frees-nothing batch l h = record {
  others = λ k c found out. found;
  freed = λ k c found data_there. absurd (
      ground (
        arith,
        releasable_here batch k c l found,
        select-none (is_releasable batch) k c l h found,
      ));
}

Frees-trans :
    (n : ℕ) (ids : List ℕ) (l m o : List Chunk)
    → Frees (take n ids) l m
    → Frees (drop n ids) m o
    → Frees ids l o
Frees-trans n ids l m o e f = record {
  others = λ k c h out.
      f.others k c (e.others k c h (ground (arith, member-take n k ids)))
        (ground (arith, member-drop n k ids));
  freed = λ k c h there. elim (Bool-cases (member k (take n ids))) [
    | inl now ↦
        let (path, found) = e.freed k c h (ground arith) in
        (path, f.others k (rolled_back path c) found (ground arith))
    | inr later ↦ f.freed k c (e.others k c h (ground arith)) (ground (arith, member-split n k ids))
  ];
}

Frees-done : (l : List Chunk) → Frees [] l l
Frees-done l = record { others = λ k c h out. h; freed = λ k c h there. absurd (ground arith) }

-- What a release leaves: chunks that a version refers to stay as they are if they are data, and
-- a chunk with data that was asked for and that nothing refers to is an empty slot; the parity of a
-- stripe that still holds data stays.
pub record Releases (ids : List ℕ) (t u : Tables) : Type 0 where
  pub referenced :
      (k : ℕ) (c : Chunk)
      → find_chunk k t.chunks ≡ some c
      → is_data c.kind ≡ true
      → exists_in (λ (vc : VersionChunk). vc.chunk_id == k) t.version_chunks ≡ true
      → find_chunk k u.chunks ≡ some c
  pub not_asked :
      (k : ℕ) (c : Chunk)
      → find_chunk k t.chunks ≡ some c
      → is_data c.kind ≡ true
      → member k ids ≡ false
      → find_chunk k u.chunks ≡ some c
  pub freed :
      (k : ℕ) (c : Chunk)
      → find_chunk k t.chunks ≡ some c
      → is_data c.kind ≡ true
      → is_allocated c.status ≡ true
      → member k ids ≡ true
      → exists_in (λ (vc : VersionChunk). vc.chunk_id == k) t.version_chunks ≡ false
      → IsFreed k c u.chunks
  pub parity :
      (k : ℕ) (c : Chunk)
      → find_chunk k t.chunks ≡ some c
      → is_data c.kind ≡ false
      → is_live u.chunks c.stripe_id ≡ true
      → find_chunk k u.chunks ≡ some c
  pub rows : u.version_chunks ≡ t.version_chunks

module _ (draw : ℕ → Result (List (List ℕ))) (draws : Draws draw) where
  release_batch_ok :
      (batch : List ℕ) (r : Released)
      → (s : Released) × (release_batch draw batch r ≡ ok s)
        × Frees batch r.tables.chunks s.tables.chunks
        × (s.tables.version_chunks ≡ r.tables.version_chunks)
  unfolding release_batch roll_back_batch drop_cache_rows
  release_batch_ok batch r =
      elim (Bool-cases (length (select (is_releasable batch) r.tables.chunks) == 0)) [
        | inl none_there ↦ (
          r,
          rw none_there refl,
          Frees-nothing batch r.tables.chunks (==→eq _ 0 none_there),
          refl,
        )
        | inr some_there ↦
            let found = select (is_releasable batch) r.tables.chunks in
            let (paths, drawn) = draws (length found) in
            (
              roll_back_batch draw batch found paths r,
              rw (some_there, drawn) refl,
              Frees-roll_back batch paths r.tables.chunks,
              refl,
            )
      ]

  release_step :
      (fuel i : ℕ) (is : List ℕ) (r s : Released)
      → release_batch draw (take 500 (i ∷ is)) r ≡ ok s
      → release_batches draw (suc fuel) (i ∷ is) r ≡ release_batches draw fuel (drop 500 (i ∷ is)) s
  unfolding release_batches
  release_step fuel i is r s runs = ground arith

  release_batches_ok :
      (fuel : ℕ) (ids : List ℕ) (r : Released)
      → length ids ≤ fuel
      → (s : Released) × (release_batches draw fuel ids r ≡ ok s)
        × Frees ids r.tables.chunks s.tables.chunks
        × (s.tables.version_chunks ≡ r.tables.version_chunks)
  unfolding release_batches
  release_batches_ok zero [] r h = (r, refl, Frees-done r.tables.chunks, refl)
  release_batches_ok zero (i ∷ is) r h = absurd (omega arith)
  release_batches_ok (suc fuel) [] r h = (r, refl, Frees-done r.tables.chunks, refl)
  release_batches_ok (suc fuel) (i ∷ is) r h =
      let (s, runs, e, same) = release_batch_ok (take 500 (i ∷ is)) r in
      let (u, rest, f, still) =
        release_batches_ok fuel (drop 500 (i ∷ is)) s (omega (arith, length-drop 500 (i ∷ is))) in
      (
        u,
        release_step fuel i is r s runs ∙ rest,
        Frees-trans 500 (i ∷ is) r.tables.chunks s.tables.chunks u.tables.chunks e f,
        still ∙ same,
      )

  abbrev start : Tables → Released
  start t = record { result = nothing_released; stripes = []; tables = t }

  finish-data :
      (r : Released) (k : ℕ) (c : Chunk)
      → find_chunk k r.tables.chunks ≡ some c
      → is_data c.kind ≡ true
      → find_chunk k (finish_release r).1.chunks ≡ some c
  unfolding finish_release requeue_parity enqueue_parity
  finish-data r k c h holds = drop_parity-data _ k c r.tables.chunks h holds

  finish-parity :
      (r : Released) (k : ℕ) (c : Chunk)
      → find_chunk k r.tables.chunks ≡ some c
      → is_live (finish_release r).1.chunks c.stripe_id ≡ true
      → find_chunk k (finish_release r).1.chunks ≡ some c
  unfolding finish_release requeue_parity enqueue_parity
  finish-parity r k c h live =
      let l = r.tables.chunks in
      let empty : List ℕ = delete_where (is_live l) (unique_ids r.stripes) in
      drop_parity-kept empty k c l h (
        ground (
          arith,
          member-select (λ id. not (is_live l id)) c.stripe_id (unique_ids r.stripes),
          is_live-drop_parity empty c.stripe_id l,
          live,
        ))

  finish-rows : (r : Released) → (finish_release r).1.version_chunks ≡ r.tables.version_chunks
  unfolding finish_release requeue_parity enqueue_parity
  finish-rows r = refl

  release_chunks-step :
      (ids : List ℕ) (t : Tables) (r : Released)
      → release_batches draw
          (length (filter_unreferenced t.version_chunks (unique_ids ids)))
          (filter_unreferenced t.version_chunks (unique_ids ids))
          (start t)
        ≡ ok r
      → release_chunks draw ids t ≡ ok (finish_release r)
  unfolding release_chunks
  release_chunks-step ids t r runs = ground arith

  -- With a random source that does not fail, a release succeeds: chunks with data that a version
  -- refers to, or that were not asked for, stay as they are, and every allocated chunk with data
  -- that was asked for and that no version refers to becomes an empty slot; the rows of the
  -- versions and the parity of each stripe that still holds data are untouched.
  pub release_chunks_ok :
      (ids : List ℕ) (t : Tables)
      → (r : ReleaseResult) × (u : Tables) × (release_chunks draw ids t ≡ ok (r, u))
        × Releases ids t u
  release_chunks_ok ids t =
      let free : List ℕ = filter_unreferenced t.version_chunks (unique_ids ids) in
      let asked = λ (k : ℕ). member-filter k t.version_chunks (unique_ids ids) in
      let unique = λ (k : ℕ). member-unique_ids k ids in
      let (s, runs, f, same) = release_batches_ok (length free) free (start t) (omega arith) in
      (
        (finish_release s).0,
        (finish_release s).1,
        release_chunks-step ids t s runs,
        record {
          referenced = λ k c h holds used.
              finish-data s k c (f.others k c h (ground (arith, asked k, unique k))) holds;
          not_asked = λ k c h holds out.
              finish-data s k c (f.others k c h (ground (arith, asked k, unique k))) holds;
          freed = λ k c h holds there listed unused.
              let (path, found) = f.freed k c h (ground (arith, asked k, unique k)) in
              (path, finish-data s k (rolled_back path c) found holds);
          parity = λ k c h checks live. finish-parity s k c (f.others k c h (ground arith)) live;
          rows = finish-rows s ∙ same;
        },
      )
