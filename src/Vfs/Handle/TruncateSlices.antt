-- ===== src/Vfs/Handle/TruncateSlices.antt =====
-- internal/vfs/file_write.go: what truncateTo drops at once when it shrinks a file.
use zenofs.Common.{
  ℕ, ◌/◌, ◌%◌, ◌≤◌, ◌<◌, ◌≡◌, ◌≢◌, refl, none, some, List, [], arith, get_or, length, find_by, inl,
  inr, Bool-cases, Option-cases, ◌⊎◌, ◌&&◌, ◌==◌, if◌then◌else◌, delete_where, Option, leb, lt→leb,
  le→leb, length-take, get_or-take, find_by-select_keep, find_by-select-none, Bool,
}
use zenofs.Db.{VersionChunk}
use zenofs.Vfs.Handle.State.{Backend, State}
use zenofs.Vfs.Handle.Slices.{slice_at, is_row, active_at}
use zenofs.Vfs.Handle.Reliable.{IsReliable, Extends-refl}
use zenofs.Vfs.Handle.View.{IsSound, text_at, active_text, old_text}
use zenofs.Vfs.Handle.Stores.{Frame}
use zenofs.Vfs.Handle.Truncate.{first_whole, cut_active, drop_tail}

pub slice_at-tail :
    (last j : ℕ) (l : List VersionChunk)
    → slice_at j (delete_where (λ vc. leb last vc.idx) l)
      ≡ (if leb last j then none else slice_at j l)
unfolding slice_at
slice_at-tail last j l = elim (Bool-cases (leb last j)) [
  | inl out ↦
      rw out (find_by-select-none (λ (vc : VersionChunk). vc.idx == j) _ l (λ vc h. ground arith))
  | inr kept ↦
      rw kept (find_by-select_keep (λ (vc : VersionChunk). vc.idx == j) _ l (λ vc h. ground arith))
]

abbrev in_tail : ℕ → ℕ → VersionChunk → Bool
in_tail v last vc = (vc.version_id == v) && leb last vc.idx

row_at-tail :
    (v last j : ℕ) (l : List VersionChunk)
    → find_by (is_row v j) (delete_where (in_tail v last) l)
      ≡ (if leb last j then none else find_by (is_row v j) l)
row_at-tail v last j l = elim (Bool-cases (leb last j)) [
  | inl out ↦ rw out (find_by-select-none (is_row v j) _ l (λ vc h. ground arith))
  | inr kept ↦ rw kept (find_by-select_keep (is_row v j) _ l (λ vc h. ground arith))
]

row_at-tail_other :
    (v w last j : ℕ) (l : List VersionChunk)
    → w ≢ v
    → find_by (is_row w j) (delete_where (in_tail v last) l) ≡ find_by (is_row w j) l
row_at-tail_other v w last j l apart = find_by-select_keep (is_row w j) _ l (λ vc h. ground arith)

-- The places of slice `j` that a cut at place `intra` of slice `boundary` leaves alone.
abbrev pub Kept : ℕ → ℕ → ℕ → ℕ → Type 0
Kept boundary intra j k = (j ≢ boundary) ⊎ ((intra ≡ 0) ⊎ (k < intra))

pub cut_active-past :
    (last boundary intra j : ℕ) (a : Option (ℕ × List ℕ))
    → last ≤ j
    → active_at j (cut_active last boundary intra a) ≡ none
unfolding active_at cut_active
cut_active-past last boundary intra j none h = refl
cut_active-past last boundary intra j (some (i, buf)) h = ground arith

cut_active-before :
    (last boundary intra j k : ℕ) (a : Option (ℕ × List ℕ)) (below : List ℕ)
    → j < last
    → Kept boundary intra j k
    → get_or (active_text (active_at j (cut_active last boundary intra a)) below) k 0
      ≡ get_or (active_text (active_at j a) below) k 0
unfolding active_at cut_active
cut_active-before last boundary intra j k none below h kept = refl
cut_active-before last boundary intra j k (some (i, buf)) below h kept =
    ground (arith, get_or-take intra buf k 0)

cut_active-fits :
    (last boundary intra i bound : ℕ) (a : Option (ℕ × List ℕ)) (buf : List ℕ)
    → ((m : ℕ) (b : List ℕ) → a ≡ some (m, b) → length b ≤ bound)
    → cut_active last boundary intra a ≡ some (i, buf)
    → length buf ≤ bound
unfolding cut_active
cut_active-fits last boundary intra i bound none buf h e = ground arith
cut_active-fits last boundary intra i bound (some (m, b)) buf h e =
    ground (arith, h m b refl, length-take intra b)

module _ {B : Backend} {slice : ℕ} (L : IsReliable B slice) where
  open B use {Pool}

  -- No slice was found when the file was opened, as in a file that is new or was empty.
  abbrev pub Unseen : State Pool → Type 0
  Unseen s = (i : ℕ) → slice_at i s.old_chunks ≡ none

  -- The first slice that a cut drops whole.
  abbrev pub last_kept : ℕ → State Pool → ℕ
  last_kept size s = first_whole size s.slice_bytes

  pub drop_tail-Frame : (size : ℕ) (s : State Pool) → Frame L s (drop_tail B size s)
  unfolding drop_tail
  drop_tail-Frame size s = record {
    handle_same = refl;
    world_same = refl;
    other_rows =
        λ w j apart. row_at-tail_other s.new_ver.id w (last_kept size s) j s.version_chunks apart;
    extends = Extends-refl B L s.pool;
  }

  pub drop_tail-IsSound : (size : ℕ) (s : State Pool) → IsSound L s → IsSound L (drop_tail B size s)
  unfolding drop_tail
  drop_tail-IsSound size s v = record {
    slice_positive = v.slice_positive;
    slice_known = v.slice_known;
    new_holds = λ j vc h.
        v.new_holds j vc (ground (arith, slice_at-tail (last_kept size s) j s.new_chunks));
    old_holds = v.old_holds;
    active_fits = λ i buf e.
        cut_active-fits (last_kept size s) (size / s.slice_bytes) (size % s.slice_bytes) i slice
          s.active buf v.active_fits e;
    ready = v.ready;
    synced = λ j. ground (
      arith,
      slice_at-tail (last_kept size s) j s.new_chunks,
      row_at-tail s.new_ver.id (last_kept size s) j s.version_chunks,
      v.synced j,
    );
  }

  old_text-Unseen :
      (s : State Pool) (j : ℕ)
      → Unseen s
      → old_text L s.pool s.old_ver (slice_at j s.old_chunks) ≡ []
  old_text-Unseen s j unseen =
      rw (unseen j)
        (elim (Option-cases s.old_ver) [ inl gone ↦ rw gone refl | inr (r, known) ↦ rw known refl ])

  pub drop_tail-past :
      (size j : ℕ) (s : State Pool)
      → Unseen s
      → last_kept size s ≤ j
      → text_at L (drop_tail B size s) j ≡ []
  unfolding drop_tail text_at
  drop_tail-past size j s unseen h =
      rw
        (
          cut_active-past (last_kept size s) (size / s.slice_bytes) (size % s.slice_bytes) j
              s.active h,
          slice_at-tail (last_kept size s) j s.new_chunks,
          le→leb (last_kept size s) j h,
        )
        (old_text-Unseen s j unseen)

  pub drop_tail-before :
      (size j k : ℕ) (s : State Pool)
      → j < last_kept size s
      → Kept (size / s.slice_bytes) (size % s.slice_bytes) j k
      → get_or (text_at L (drop_tail B size s) j) k 0 ≡ get_or (text_at L s j) k 0
  unfolding drop_tail text_at
  drop_tail-before size j k s h kept =
      rw (slice_at-tail (last_kept size s) j s.new_chunks, lt→leb (last_kept size s) j h)
        (cut_active-before (last_kept size s) (size / s.slice_bytes) (size % s.slice_bytes) j k
          s.active _ h kept)
