-- ===== src/Vfs/Handle/OpenLaws.antt =====
-- internal/vfs/file_write.go: beginWrite, the version that a writer starts.
use mathlib.Core.Bool.{Bool}
use zenofs.Common.{
  ℕ, ◌<◌, ◌≡◌, ◌≢◌, refl, ◌∙◌, ap, none, some, List, [], ◌∷◌, map, Option, arith, find_by, ==_self,
}
use zenofs.Db.{Version, VersionChunk}
use zenofs.Vfs.Handle.State.{Backend, State}
use zenofs.Vfs.Handle.Slices.{slice_at, is_row, active_at, read_slice, slice_plain}
use zenofs.Vfs.Handle.Reliable.{IsReliable}
use zenofs.Vfs.Handle.View.{IsSound, Holds, byte_at}
use zenofs.Vfs.Handle.Flush.{IsSolid}
use zenofs.Vfs.Handle.WriteLaws.{Covers}
use zenofs.Vfs.Handle.Read.{size_of}
use zenofs.Vfs.Handle.Commit.{begin_write, inherited, new_version_record}

abbrev pub inherit_one : ℕ → Option VersionChunk → Option VersionChunk
inherit_one v none = none
inherit_one v (some vc) = some (inherited v vc)

slice_at-inherited :
    (v i : ℕ) (l : List VersionChunk)
    → slice_at i (map (inherited v) l) ≡ inherit_one v (slice_at i l)
unfolding slice_at find_by
slice_at-inherited v i [] = refl
slice_at-inherited v i (vc ∷ l) = ground (arith, slice_at-inherited v i l)

pub row_at-inherited :
    (v i : ℕ) (l : List VersionChunk)
    → find_by (is_row v i) (map (inherited v) l) ≡ inherit_one v (slice_at i l)
unfolding slice_at find_by
row_at-inherited v i [] = refl
row_at-inherited v i (vc ∷ l) = ground (arith, row_at-inherited v i l, ==_self v)

pub active_at-idle : (i : ℕ) (a : Option (ℕ × List ℕ)) → a ≡ none → active_at i a ≡ none
unfolding active_at
active_at-idle i a idle = rw idle refl

slice_plain-stored :
    (B : Backend) (i : ℕ) (vc : VersionChunk) (s : State B.Pool)
    → active_at i s.active ≡ none
    → slice_at i s.new_chunks ≡ some vc
    → slice_plain B i s ≡ read_slice B vc.chunk_id s.new_ver.codec s
unfolding slice_plain
slice_plain-stored B i vc s idle found = ground arith

-- A writer that has written nothing yet reads a slice that it found at open with the codec that the
-- share has now, whatever the codec of the version that stored it.
pub begin_write-reads_with_share_codec :
    (B : Backend) (i : ℕ) (vc : VersionChunk) (s : State B.Pool)
    → s.active ≡ none
    → slice_at i s.old_chunks ≡ some vc
    → slice_plain B i (begin_write s) ≡ read_slice B vc.chunk_id s.share.codec (begin_write s)
unfolding begin_write new_version_record
begin_write-reads_with_share_codec B i vc s idle found =
    slice_plain-stored B i (inherited s.next_version vc) (begin_write s)
      (active_at-idle i s.active idle)
      (slice_at-inherited s.next_version i s.old_chunks ∙ ap (inherit_one s.next_version) found)

module _ {B : Backend} {slice : ℕ} (L : IsReliable B slice) where
  open B use {Pool}

  -- A file that was just opened: nothing written, the slices of the snapshot readable, no rows yet
  -- for the next version, and the share's codec the one that the snapshot was stored with.
  pub record IsOpened (s : State Pool) : Type 0 where
    pub slice_positive : 0 < slice
    pub slice_known : s.slice_bytes ≡ slice
    pub ready : L.Ready s.pool s.share.codec
    pub idle : s.active ≡ none
    pub unwritten : s.new_chunks ≡ []
    pub old_holds :
        (i : ℕ) (vc : VersionChunk)
        → slice_at i s.old_chunks ≡ some vc
        → (v : Version) × (s.old_ver ≡ some v) × Holds L s.pool v.codec vc.chunk_id
    pub same_codec : (v : Version) → s.old_ver ≡ some v → v.codec ≡ s.share.codec
    pub fresh : (i : ℕ) → find_by (is_row s.next_version i) s.version_chunks ≡ none

  -- `t` is ready to write and reads as `s`.
  pub record Begins (s t : State Pool) : Type 0 where
    pub sound : IsSound L t
    pub solid : IsSolid L t
    pub covers : Covers L t
    pub size : t.new_ver.size ≡ size_of s.old_ver
    pub bytes : (k : ℕ) → byte_at L t k ≡ byte_at L s k
    pub other_rows :
        (w j : ℕ)
        → w ≢ s.next_version
        → find_by (is_row w j) t.version_chunks ≡ find_by (is_row w j) s.version_chunks
