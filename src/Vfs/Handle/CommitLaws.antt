-- ===== src/Vfs/Handle/CommitLaws.antt =====
-- internal/vfs/file_write.go: proofs about Close of a writer that changed the file.
use zenofs.Common.{ℕ, ◌≡◌, some, find_by, ◌==◌}
use zenofs.Db.{Inode}
use zenofs.Vfs.Handle.State.{Backend, Handle, State}
use zenofs.Vfs.Handle.Reliable.{IsReliable}
use zenofs.Vfs.Handle.View.{byte_at}
use zenofs.Vfs.Handle.Read.{size_of}
use zenofs.Vfs.Handle.Commit.{load_snapshot}
use zenofs.Vfs.Handle.CloseLaws.{just_opened}

module _ {B : Backend} {slice : ℕ} (L : IsReliable B slice) where
  open B use {Pool}

  -- What a later open reads after `t` was left by Close of `s`.
  pub record Commits (s t : State Pool) : Type 0 where
    pub bytes :
        (k : ℕ) → byte_at L (load_snapshot (some s.new_ver.id) (just_opened L t)) k ≡ byte_at L s k
    pub size :
        size_of (load_snapshot (some s.new_ver.id) (just_opened L t)).old_ver ≡ s.new_ver.size
    pub current :
        (i : Inode)
        → find_by (λ (j : Inode). j.id == s.inode) s.inodes ≡ some i
        → find_by (λ (j : Inode). j.id == s.inode) t.inodes
          ≡ some (record i {
            version_id = some s.new_ver.id;
            updated_by = s.user_id;
            updated_at = s.now;
          })
