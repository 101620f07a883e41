-- ===== src/Vfs/Retention/Laws.antt =====
-- internal/vfs/retention.go: proofs about trimVersions and the current version of a file.
use zenofs.Common.{
  ℕ, ◌≡◌, ◌<◌, refl, ◌∙◌, ap, Bool, true, false, not, none, some, List, [], ◌∷◌, arith, Option, ok,
  Result, ◌==◌, length, exists_in, find_by, find_by-select_keep, ==→eq, inl, inr, Bool-cases,
  ==_self,
}
use zenofs.Db.{Inode, Version, VersionChunk}
use zenofs.Vfs.Handle.Slices.{is_row}
use zenofs.Pool.Tables.{Chunk, Tables, is_data}
use zenofs.Pool.Release.{member, StaleFile}
use zenofs.Pool.Release.Rows.{find_chunk, member-select}
use zenofs.Pool.Release.Laws.{Draws, Releases, release_chunks_ok}
use zenofs.Vfs.Retention.{
  Files, current_only, fill_kept, versions_to_drop, version_ids, chunk_ids_of, delete_versions,
  drop_versions, trim_versions,
}

member-fill_kept :
    (keep v : ℕ) (kept ids : List ℕ)
    → member v kept ≡ true
    → member v (fill_kept keep kept ids) ≡ true
unfolding fill_kept
member-fill_kept keep v kept [] h = h
member-fill_kept keep v kept (id ∷ ids) h = ground (
  arith,
  member-fill_kept keep v kept ids h,
  member-fill_kept keep v (id ∷ kept) ids (ground arith),
)

current_kept :
    (keep v : ℕ) (i : Inode) (versions : List Version)
    → i.version_id ≡ some v
    → member v (versions_to_drop keep i versions) ≡ false
unfolding versions_to_drop
current_kept keep v i versions current =
    let ids = version_ids i.id versions in
    let kept = fill_kept keep (current_only i.version_id) ids in
    ground (
      arith,
      member-select (λ id. not (member id kept)) v ids,
      member-fill_kept keep v (current_only i.version_id) ids (rw current (ground arith)),
    )

from_some {ℓ} : {A : Type ℓ} → A → Option A → A
from_some d none = d
from_some d (some a) = a

exists_in-found {ℓ} :
    {A : Type ℓ} (p q : A → Bool) (l : List A) (a : A)
    → find_by p l ≡ some a
    → q a ≡ true
    → exists_in q l ≡ true
unfolding exists_in find_by
exists_in-found p q [] a h holds = absurd (ground arith)
exists_in-found p q (x ∷ l) a h holds = elim (Bool-cases (p x)) [
  | inl here ↦
      let same : x ≡ a =
        unfold from_some in ap (from_some x) {x = some x} {y = some a} (ground (arith, here, h)) in
      ground (arith, ap q same ∙ holds)
  | inr later ↦ ground (arith, exists_in-found p q l a (ground (arith, later, h)) holds)
]

-- Version `v` is as it was: its row, the rows of its slices, and their chunks.
pub record Keeps (v : ℕ) (f g : Files) : Type 0 where
  pub row :
      find_by (λ (r : Version). r.id == v) g.versions
      ≡ find_by (λ (r : Version). r.id == v) f.versions
  pub slices :
      (j : ℕ)
      → find_by (is_row v j) g.tables.version_chunks ≡ find_by (is_row v j) f.tables.version_chunks
  pub chunks :
      (j : ℕ) (vc : VersionChunk) (c : Chunk)
      → find_by (is_row v j) f.tables.version_chunks ≡ some vc
      → find_chunk vc.chunk_id f.tables.chunks ≡ some c
      → is_data c.kind ≡ true
      → find_chunk vc.chunk_id g.tables.chunks ≡ some c

-- What dropping versions does to one that is not among them.
delete_versions-row :
    (drop : List ℕ) (v : ℕ) (f : Files)
    → member v drop ≡ false
    → find_by (λ (r : Version). r.id == v) (delete_versions drop f).versions
      ≡ find_by (λ (r : Version). r.id == v) f.versions
unfolding delete_versions
delete_versions-row drop v f out =
    find_by-select_keep (λ (r : Version). r.id == v) _ f.versions
      (λ r h. ground (arith, ap (λ (n : ℕ). member n drop) (==→eq r.id v h)))

version_of : (v j : ℕ) (vc : VersionChunk) → is_row v j vc ≡ true → vc.version_id ≡ v
version_of v j vc h = ground arith

delete_versions-slices :
    (drop : List ℕ) (v j : ℕ) (f : Files)
    → member v drop ≡ false
    → find_by (is_row v j) (delete_versions drop f).tables.version_chunks
      ≡ find_by (is_row v j) f.tables.version_chunks
unfolding delete_versions
delete_versions-slices drop v j f out =
    find_by-select_keep (is_row v j) _ f.tables.version_chunks
      (λ vc h. ground (arith, ap (λ (n : ℕ). member n drop) (version_of v j vc h)))

delete_versions-chunks :
    (drop : List ℕ) (f : Files) → (delete_versions drop f).tables.chunks ≡ f.tables.chunks
unfolding delete_versions
delete_versions-chunks drop f = refl

Keeps-same : (v : ℕ) (f : Files) → Keeps v f f
Keeps-same v f = record {
  row = refl;
  slices = λ j. refl;
  chunks = λ j vc c listed found holds. found;
}

Keeps-released :
    (drop asked : List ℕ) (v : ℕ) (f : Files) (u : Tables)
    → member v drop ≡ false
    → Releases asked (delete_versions drop f).tables u
    → Keeps v f (record (delete_versions drop f) { tables = u })
Keeps-released drop asked v f u out r = record {
  row = delete_versions-row drop v f out;
  slices = λ j.
      ap (λ (l : List VersionChunk). find_by (is_row v j) l) r.rows
      ∙ delete_versions-slices drop v j f out;
  chunks = λ j vc c listed found holds.
      r.referenced vc.chunk_id c
        (ap (find_chunk vc.chunk_id) (delete_versions-chunks drop f) ∙ found) holds
        (exists_in-found (is_row v j) (λ (w : VersionChunk). w.chunk_id == vc.chunk_id)
          (delete_versions drop f).tables.version_chunks vc
          (delete_versions-slices drop v j f out ∙ listed) (==_self vc.chunk_id));
}

module _ (draw : ℕ → Result (List (List ℕ))) (draws : Draws draw) where
  drop_versions_ok :
      (drop : List ℕ) (v : ℕ) (f : Files)
      → member v drop ≡ false
      → (stale : List StaleFile) × (g : Files) × (drop_versions draw drop f
          ≡ ok ((length drop, stale), g))
        × Keeps v f g
  unfolding drop_versions
  drop_versions_ok drop v f out =
      let asked = chunk_ids_of drop f.tables.version_chunks in
      let (r, u, runs, x) = release_chunks_ok draw draws asked (delete_versions drop f).tables in
      (
        r.stale,
        record (delete_versions drop f) { tables = u },
        ground (arith, runs),
        Keeps-released drop asked v f u out x,
      )

  trim_versions-drops :
      (inode keep : ℕ) (i : Inode) (f : Files)
      → 0 < keep
      → find_by (λ (x : Inode). x.id == inode) f.inodes ≡ some i
      → (length (versions_to_drop keep i f.versions) == 0) ≡ false
      → trim_versions draw inode keep f ≡ drop_versions draw (versions_to_drop keep i f.versions) f
  unfolding trim_versions
  trim_versions-drops inode keep i f some_kept found many = ground arith

  trim_versions-nothing :
      (inode keep : ℕ) (i : Inode) (f : Files)
      → 0 < keep
      → find_by (λ (x : Inode). x.id == inode) f.inodes ≡ some i
      → (length (versions_to_drop keep i f.versions) == 0) ≡ true
      → trim_versions draw inode keep f ≡ ok ((0, []), f)
  unfolding trim_versions
  trim_versions-nothing inode keep i f some_kept found few = ground arith

  -- With a random source that does not fail, trimming the versions of a file that is there to at
  -- least one succeeds, and the file's current version is as it was: its row, the rows of its
  -- slices, and the chunks of data that these name.
  pub trim_versions_ok :
      (inode keep v : ℕ) (i : Inode) (f : Files)
      → 0 < keep
      → find_by (λ (x : Inode). x.id == inode) f.inodes ≡ some i
      → i.version_id ≡ some v
      → (n : ℕ) × (stale : List StaleFile) × (g : Files) × (trim_versions draw inode keep f
          ≡ ok ((n, stale), g))
        × Keeps v f g
  trim_versions_ok inode keep v i f some_kept found current =
      elim (Bool-cases (length (versions_to_drop keep i f.versions) == 0)) [
        | inl few ↦
            (0, [], f, trim_versions-nothing inode keep i f some_kept found few, Keeps-same v f)
        | inr many ↦
            let drop = versions_to_drop keep i f.versions in
            let (stale, g, runs, k) =
              drop_versions_ok drop v f (current_kept keep v i f.versions current) in
            (
              length drop,
              stale,
              g,
              trim_versions-drops inode keep i f some_kept found many ∙ runs,
              k,
            )
      ]
