-- ===== src/Vfs/Tree/UsageLaws.antt =====
-- internal/vfs/usage.go and internal/vfs/fs.go: proofs about the sums of usage and the capacity.
use zenofs.Common.{
  ℕ, ◌+◌, ◌-◌, ◌*◌, ◌%◌, ◌^◌, ◌≤◌, ◌<◌, ◌≡◌, refl, Bool, false, ◌&&◌, exists_in, find_by, Option,
  none, some, List, [], ◌∷◌, arith, ◌==◌, ltb, if◌then◌else◌, inl, inr, Bool-cases,
}
use zenofs.Db.{Inode, Version, VersionChunk}
use zenofs.Pool.Tables.{Chunk, is_data}
use zenofs.Vfs.Tree.Info.{capacity}
use zenofs.Vfs.Tree.Usage.{
  UsageClass, UsageBreakdown, current, history, recycle, chunk_class, add_usage, usage_breakdown,
}

abbrev pub total_usage : UsageBreakdown → ℕ
total_usage u = u.current_bytes + u.history_bytes + u.recycle_bytes

abbrev size_if : Option UsageClass → ℕ → ℕ
size_if none size = 0
size_if (some c) size = size

abbrev is_of : List Inode → ℕ → Version → Bool
is_of inodes share v = elim (find_by (λ (i : Inode). i.id == v.inode_id) inodes) [
  | none ↦ false
  | some i ↦ i.share_id == share
]

abbrev is_found_of : List Inode → ℕ → Option Version → Bool
is_found_of inodes share none = false
is_found_of inodes share (some v) = is_of inodes share v

-- A row of the chunk in a version of a file of the share, deleted or not.
abbrev is_reference : ℕ → List Inode → List Version → ℕ → VersionChunk → Bool
is_reference share inodes versions chunk vc =
    vc.chunk_id == chunk
    && is_found_of inodes share (find_by (λ (v : Version). v.id == vc.version_id) versions)

-- The sizes of the data chunks that some version of a file of the share refers to, each once.
unfoldable pub referenced_bytes : ℕ → List Inode → List Version → List VersionChunk → List Chunk → ℕ
referenced_bytes share inodes versions vcs [] = 0
referenced_bytes share inodes versions vcs (c ∷ cs) =
    (if is_data c.kind && exists_in (is_reference share inodes versions c.id) vcs
      then c.size
      else 0)
    + referenced_bytes share inodes versions vcs cs

-- A chunk has a class just when a row of a file of the share refers to it.
size_if-chunk_class :
    (share : ℕ) (inodes : List Inode) (versions : List Version) (vcs : List VersionChunk)
    (chunk size : ℕ)
    → size_if (chunk_class share inodes versions vcs chunk) size
      ≡ (if exists_in (is_reference share inodes versions chunk) vcs then size else 0)
unfolding chunk_class exists_in
size_if-chunk_class share inodes versions [] chunk size = refl
size_if-chunk_class share inodes versions (vc ∷ vcs) chunk size =
    ground (arith, size_if-chunk_class share inodes versions vcs chunk size)

add_usage-total :
    (o : Option UsageClass) (size : ℕ) (u : UsageBreakdown)
    → total_usage (add_usage o size u) ≡ size_if o size + total_usage u
unfolding add_usage
add_usage-total none size u = omega arith
add_usage-total (some current) size u = omega arith
add_usage-total (some history) size u = omega arith
add_usage-total (some recycle) size u = omega arith

-- The three classes of a share's usage add up to the sizes of the data chunks that its files refer
-- to, live, older or deleted: no chunk is counted in two classes, and none is left out.
pub usage_breakdown-total :
    (share : ℕ) (inodes : List Inode) (versions : List Version) (vcs : List VersionChunk)
    (cs : List Chunk)
    → total_usage (usage_breakdown share inodes versions vcs cs)
      ≡ referenced_bytes share inodes versions vcs cs
unfolding usage_breakdown referenced_bytes
usage_breakdown-total share inodes versions vcs [] = refl
usage_breakdown-total share inodes versions vcs (c ∷ cs) = ground (
  arith,
  usage_breakdown-total share inodes versions vcs cs,
  size_if-chunk_class share inodes versions vcs c.id c.size,
  add_usage-total (chunk_class share inodes versions vcs c.id) c.size
      (usage_breakdown share inodes versions vcs cs),
)

-- With a quota below 2^44 megabytes the total does not wrap around, the free bytes are what the used
-- ones leave of it, none when they exceed it, and the free bytes never exceed the total; without a
-- quota only the used bytes are told.
pub capacity-bounds :
    (quota used : ℕ)
    → quota < 2 ^ 44
    → ((capacity quota used).total_bytes ≡ quota * 1048576)
      × (((capacity quota used).free_bytes ≡ quota * 1048576 - used)
          × (((capacity quota used).free_bytes ≤ (capacity quota used).total_bytes)
              × ((capacity quota used).used_bytes ≡ used)))
unfolding capacity
capacity-bounds quota used h =
    let fits : quota * 1048576 % 18446744073709551616 ≡ quota * 1048576 = omega (arith, h) in
    elim (Bool-cases (quota == 0)) [
      | inl unset ↦ (
        ground (arith, unset),
        (ground (arith, unset), (ground (arith, unset), ground (arith, unset))),
      )
      | inr limited ↦ elim (Bool-cases (ltb used (quota * 1048576))) [
        | inl below ↦ (
          ground (arith, limited, fits),
          (
            ground (arith, limited, fits, below),
            (ground (arith, limited, fits, below), ground (arith, limited)),
          ),
        )
        | inr over ↦ (
          ground (arith, limited, fits),
          (
            ground (arith, limited, fits, over),
            (ground (arith, limited, fits, over), ground (arith, limited)),
          ),
        )
      ]
    ]
