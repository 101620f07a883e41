-- ===== src/Vfs/Tree/Keeps.antt =====
-- internal/vfs/fs_write.go: proofs that each operation on the tree keeps its names apart.
use zenofs.Common.{
  ℕ, ◌≡◌, refl, Bool, true, false, ◌&&◌, Option, none, some, [], ◌∷◌, Result, ok, err, not_exist,
  inl, inr, Bool-cases, ◌>>=◌,
}
use zenofs.Db.{Inode, InodeKind, InodeEventType}
use zenofs.Vfs.Path.{Text, same_text, base_name, parent_path, clean_path}
use zenofs.Vfs.Path.Parts.{clean_path-Parts}
use zenofs.Vfs.Tree.State.{Store, Mount, require_write, is_dir_kind}
use zenofs.Vfs.Tree.Lookup.{lookup}
use zenofs.Vfs.Tree.Change.{
  check_name, add_inode, require_dir, must_be_absent, new_inode, has_exec, create_at, mkdir,
  remove_inode, remove_clean, remove, symlink, not_root, has_children,
}
use zenofs.Vfs.Tree.Walk.{Below, lookup-Below}
use zenofs.Vfs.Tree.Tidy.{
  IsTidy, IsTidy-no_root, IsTidy-add, mark_deleted-IsTidy, lookup-free, must_be_absent-not_exist,
}

-- Results that are tidy when they are ones.
abbrev pub Tidies : Result Store → Type 0
Tidies (ok st) = IsTidy st
Tidies (err e) = Unit

-- A chain of steps is tidy when what follows a success is.
pub Tidies-then :
    {P : Type 0}
    → (r : Result P) (k : P → Result Store) → ((a : P) → r ≡ ok a → Tidies (k a))
    → Tidies (r >>= k)
Tidies-then (ok a) k h = h a refl
Tidies-then (err e) k h = tt

added :
    (m : Mount) (clean : Text) (dir : Inode) (kind : InodeKind) (executable : Bool)
    (link : Option ℕ) (st : Store)
    → IsTidy st
    → Below m clean dir st
    → lookup m clean false st ≡ err not_exist
    → IsTidy (add_inode (new_inode m dir (base_name clean) kind executable link st) st)
unfolding new_inode
added m clean dir kind executable link st tidy below absent =
    IsTidy-add st (new_inode m dir (base_name clean) kind executable link st) tidy refl
      (lookup-free m clean dir st below absent)

pub create_at-Tidies :
    (m : Mount) (p clean : Text) (kind : InodeKind) (executable : Bool) (link : Option ℕ)
    (st : Store)
    → IsTidy st
    → clean_path p ≡ ok clean
    → Tidies (create_at m clean kind executable link st)
unfolding create_at
create_at-Tidies m p clean kind executable link st tidy cleaned =
    elim (Bool-cases (same_text clean (47 ∷ []))) [
      | inl root ↦ rw root tt
      | inr below ↦ rw below (
          Tidies-then (require_dir m (parent_path clean) st) _ (λ dir found.
            Tidies-then (check_name (base_name clean)) _ (λ named fits.
              Tidies-then (must_be_absent (lookup m clean false st)) _ (λ u absent.
                added m clean dir kind executable link st tidy
                  (lookup-Below m clean dir st (clean_path-Parts p clean cleaned below) found
                    (IsTidy-no_root st tidy))
                  (must_be_absent-not_exist (lookup m clean false st) absent)))))
    ]

pub mkdir-Tidies :
    (m : Mount) (p : Text) (mode : ℕ) (st : Store) → IsTidy st → Tidies (mkdir m p mode st)
unfolding mkdir
mkdir-Tidies m p mode st tidy = Tidies-then (require_write m) _ (λ u allowed.
    Tidies-then (clean_path p) _ (λ clean cleaned.
      create_at-Tidies m p clean InodeKind.dir (has_exec mode) none st tidy cleaned))

pub symlink-Tidies :
    (m : Mount) (target p : Text) (st : Store) → IsTidy st → Tidies (symlink m target p st)
unfolding symlink
symlink-Tidies m target p st tidy = Tidies-then (require_write m) _ (λ u allowed.
    Tidies-then (clean_path target) _ (λ to cleaned.
      Tidies-then (lookup m to true st) _ (λ tgt found. Tidies-then (not_root tgt) _ (λ u_ real.
        Tidies-then (clean_path p) _ (λ at at_cleaned.
          create_at-Tidies m p at InodeKind.link false (some tgt.id) st tidy at_cleaned)))))

remove_inode-Tidies :
    (m : Mount) (i : Inode) (st : Store) → IsTidy st → Tidies (remove_inode m i st)
unfolding remove_inode
remove_inode-Tidies m i st tidy = elim (Bool-cases (is_dir_kind i.kind && has_children i.id st)) [
  | inl full ↦ rw full tt
  | inr clear ↦ rw clear (mark_deleted-IsTidy m st i InodeEventType.inode_deleted tidy)
]

pub remove-Tidies : (m : Mount) (p : Text) (st : Store) → IsTidy st → Tidies (remove m p st)
unfolding remove remove_clean
remove-Tidies m p st tidy = Tidies-then (require_write m) _ (λ u allowed.
    Tidies-then (clean_path p) _ (λ clean cleaned. elim (Bool-cases (same_text clean (47 ∷ []))) [
      | inl root ↦ rw root tt
      | inr below ↦
          rw below
            (Tidies-then (lookup m clean false st) _ (λ i found. remove_inode-Tidies m i st tidy))
    ]))
