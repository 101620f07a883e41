-- ===== src/Vfs/Handle/CloseExamples.antt =====
-- A new file with three bytes in its buffer, closed; and one that was opened and not written.
use zenofs.Common.{ℕ, ◌≡◌, refl, true, none, [], ◌∷◌, ok, arith, find_by, ◌==◌}
use zenofs.Db.{Version}
use zenofs.Vfs.Handle.State.{State}
use zenofs.Vfs.Handle.Slices.{slice_at, is_row}
use zenofs.Vfs.Handle.Commit.{begin_write, close}
use zenofs.Vfs.Handle.OpenLaws.{inherit_one}
use zenofs.Vfs.Handle.DiscardLaws.{close-leaves_rows}
use zenofs.Vfs.Handle.Examples.{OnShelf, chunks, plain_codec, three_bytes}
use zenofs.Vfs.Handle.OpenExamples.{opened}

abbrev written : State OnShelf
written = record {
  handle = record three_bytes.handle { dirty = true };
  world = record three_bytes.world { versions = three_bytes.new_ver ∷ [] };
}

no_rows_yet : (i : ℕ) → find_by (is_row 8 i) (opened plain_codec).version_chunks ≡ none
unfolding find_by
no_rows_yet i = ground arith

close-leaves_rows_example :
    (t : State OnShelf) × (close chunks (begin_write (opened plain_codec)) ≡ (ok tt, t))
    × (find_by (λ (v : Version). v.id == 8) t.versions ≡ none)
    × ((i : ℕ)
        → find_by (is_row 8 i) t.version_chunks
          ≡ inherit_one 8 (slice_at i (opened plain_codec).old_chunks))
close-leaves_rows_example =
    close-leaves_rows chunks (opened plain_codec) refl refl refl refl (λ same. ground arith)
      no_rows_yet
