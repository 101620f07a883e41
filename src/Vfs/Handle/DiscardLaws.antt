-- ===== src/Vfs/Handle/DiscardLaws.antt =====
-- internal/vfs/file_write.go: Close of a writer that wrote nothing.
use zenofs.Common.{
  ℕ, ◌≡◌, ◌≢◌, ◌∙◌, none, ok, arith, find_by, true, false, find_by-select-none, ◌==◌,
  find_by-append, not, select,
}
use zenofs.Db.{Version}
use zenofs.Vfs.Handle.State.{Backend, State, ◌>>=◌}
use zenofs.Vfs.Handle.Slices.{slice_at, is_row, flush_active}
use zenofs.Vfs.Handle.Commit.{begin_write, new_version_record, close, commit, discard_new_version}
use zenofs.Vfs.Handle.OpenLaws.{inherit_one, row_at-inherited}

module _ (B : Backend) where
  open B use {Pool}

  abbrev discarded : State Pool → State Pool
  discarded s = record {
    handle = record s.handle { closed = true };
    world = record s.world {
      versions = select (λ (v : Version). not (v.id == s.new_ver.id)) s.versions;
    };
  }

  close-unwritten :
      (s : State Pool)
      → s.closed ≡ false
      → s.writable ≡ true
      → s.dirty ≡ false
      → s.active ≡ none
      → s.new_ver.id ≢ 0
      → close B s ≡ (ok tt, discarded s)
  unfolding close flush_active commit discard_new_version ◌>>=◌
  close-unwritten s unclosed allowed clean idle known = ground arith

  -- Opening a file for writing and closing it unwritten removes the row of the new version, and
  -- leaves one row for each slice of the file under the id of that version.
  pub close-leaves_rows :
      (s : State Pool)
      → s.closed ≡ false
      → s.writable ≡ true
      → s.dirty ≡ false
      → s.active ≡ none
      → s.next_version ≢ 0
      → ((i : ℕ) → find_by (is_row s.next_version i) s.version_chunks ≡ none)
      → (t : State Pool) × (close B (begin_write s) ≡ (ok tt, t))
        × (find_by (λ (v : Version). v.id == s.next_version) t.versions ≡ none)
        × ((i : ℕ)
            → find_by (is_row s.next_version i) t.version_chunks
              ≡ inherit_one s.next_version (slice_at i s.old_chunks))
  unfolding begin_write new_version_record
  close-leaves_rows s unclosed allowed clean idle known fresh = (
    discarded (begin_write s),
    close-unwritten (begin_write s) unclosed allowed clean idle known,
    find_by-select-none (λ (v : Version). v.id == s.next_version) _ (begin_write s).versions
        (λ v h. ground arith),
    λ i.
        find_by-append (is_row s.next_version i) s.version_chunks _ (fresh i)
        ∙ row_at-inherited s.next_version i s.old_chunks,
  )
