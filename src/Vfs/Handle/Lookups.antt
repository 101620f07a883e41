-- ===== src/Vfs/Handle/Lookups.antt =====
-- internal/vfs/file_write.go: lookups in the maps and rows of slices after an upsert or a removal.
use zenofs.Common.{
  ℕ, ◌≡◌, ◌≢◌, none, some, List, ◌∷◌, arith, find_by, inl, inr, Bool-cases, ◌==◌,
  find_by-select_keep, find_by-select-none, delete_where, if◌then◌else◌,
}
use zenofs.Db.{VersionChunk}
use zenofs.Vfs.Handle.Slices.{slice_at, is_row}

-- Lookups in the map of slices after a removal.
pub slice_at-delete :
    (i j : ℕ) (l : List VersionChunk)
    → slice_at j (delete_where (λ vc. vc.idx == i) l) ≡ (if i == j then none else slice_at j l)
unfolding slice_at
slice_at-delete i j l = elim (Bool-cases (i == j)) [
  | inl same ↦
      rw same (find_by-select-none (λ (vc : VersionChunk). vc.idx == j) _ l (λ vc h. ground arith))
  | inr apart ↦
      rw apart (find_by-select_keep (λ (vc : VersionChunk). vc.idx == j) _ l (λ vc h. ground arith))
]

-- Rows of the table after a removal: of the same version, and of another.
pub row_at-delete :
    (v i j : ℕ) (l : List VersionChunk)
    → find_by (is_row v j) (delete_where (is_row v i) l)
      ≡ (if i == j then none else find_by (is_row v j) l)
row_at-delete v i j l = elim (Bool-cases (i == j)) [
  | inl same ↦ rw same (find_by-select-none (is_row v j) _ l (λ vc h. ground arith))
  | inr apart ↦ rw apart (find_by-select_keep (is_row v j) _ l (λ vc h. ground arith))
]

pub row_at-delete_other :
    (v w i j : ℕ) (l : List VersionChunk)
    → w ≢ v
    → find_by (is_row w j) (delete_where (is_row v i) l) ≡ find_by (is_row w j) l
row_at-delete_other v w i j l apart = find_by-select_keep (is_row w j) _ l (λ vc h. ground arith)

-- Lookups after an upsert.
pub slice_at-place :
    (i j : ℕ) (row : VersionChunk) (l : List VersionChunk)
    → row.idx ≡ i
    → slice_at j (row ∷ delete_where (λ vc. vc.idx == i) l)
      ≡ (if i == j then some row else slice_at j l)
unfolding slice_at find_by
slice_at-place i j row l e = ground (arith, slice_at-delete i j l)

pub row_at-place :
    (v i j : ℕ) (row : VersionChunk) (l : List VersionChunk)
    → row.version_id ≡ v
    → row.idx ≡ i
    → find_by (is_row v j) (row ∷ delete_where (is_row v i) l)
      ≡ (if i == j then some row else find_by (is_row v j) l)
unfolding find_by
row_at-place v i j row l e f = ground (arith, row_at-delete v i j l)

pub row_at-place_other :
    (v w i j : ℕ) (row : VersionChunk) (l : List VersionChunk)
    → row.version_id ≡ v
    → w ≢ v
    → find_by (is_row w j) (row ∷ delete_where (is_row v i) l) ≡ find_by (is_row w j) l
unfolding find_by
row_at-place_other v w i j row l e apart = ground (arith, row_at-delete_other v w i j l apart)
