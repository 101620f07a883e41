-- ===== src/Vfs/Root/RouteLaws.antt =====
-- internal/vfs/root.go: proofs about the paths of the root and where a rename goes.
use zenofs.Common.{
  ◌≡◌, refl, ap, ◌∙◌, true, ◌||◌, List, [], ◌∷◌, Result, ok, err, cross_device, not_supported,
  arith, ◌==◌, if◌then◌else◌, length,
}
use zenofs.Vfs.Path.{Text, same_text, joined, rooted, clean_path}
use zenofs.Vfs.Path.Laws.{all_names, path_segments-rooted, clean_path-rooted}
use zenofs.Vfs.Tree.State.{Store, Mount}
use zenofs.Vfs.Tree.Change.{rename}
use zenofs.Vfs.Root.{Access, Root, split_segments, split_mount}
use zenofs.Vfs.Root.Routes.{on_share, is_top, with_clean, change_both, root_rename}

-- The path of a share's entry is split into the name of the share and the path within it.
pub split_mount-rooted :
    (name : Text) (segs : List Text)
    → all_names (name ∷ segs) ≡ true
    → ◌≡◌ {A = Text × Text} (split_mount (rooted (name ∷ segs))) (name, rooted segs)
unfolding split_mount split_segments
split_mount-rooted name segs h = ap split_segments (path_segments-rooted (name ∷ segs) h)

-- A share by its name: the path within it is not the root when a segment follows.
is_top-share :
    (name : Text) (segs : List Text)
    → all_names (name ∷ segs) ≡ true
    → is_top (name, rooted segs) ≡ (length segs == 0)
unfolding rooted
is_top-share [] segs h = absurd (ground (arith, h))
is_top-share (n ∷ ns) [] h = ground arith
is_top-share (n ∷ ns) ([] ∷ segs) h = absurd (ground (arith, h))
is_top-share (n ∷ ns) ((c ∷ cs) ∷ segs) h = unfold joined in ground arith

with_clean-ok :
    {B : Type 0}
    → (p clean : Text) (op : Text → Root → Result B × Root) (r : Root) → clean_path p ≡ ok clean
    → ◌≡◌ {A = Result B × Root} (with_clean p op r) (op clean r)
with_clean-ok p clean op r h =
    ap (λ (c : Result Text). elim c [ err e ↦ (err e, r) | ok t ↦ op t r ]) h

change_both-shares :
    (a : Access) (name : Text) (segs : List Text) (other : Text) (others : List Text)
    (op : Mount → Text → Text → Result Store) (r : Root)
    → all_names (name ∷ segs) ≡ true
    → all_names (other ∷ others) ≡ true
    → ◌≡◌ {A = Result Store × Root}
        (change_both a
          (split_mount (rooted (name ∷ segs)))
          (split_mount (rooted (other ∷ others)))
          op
          r)
        (if length segs == 0 || length others == 0
          then (err not_supported, r)
          else if same_text name other
          then on_share a name (λ m. op m (rooted segs) (rooted others)) r
          else (err cross_device, r))
unfolding change_both
change_both-shares a name segs other others op r h k =
    ap (λ (s : Text × Text). change_both a s (split_mount (rooted (other ∷ others))) op r)
      (split_mount-rooted name segs h)
    ∙ ap (λ (t : Text × Text). change_both a (name, rooted segs) t op r)
        (split_mount-rooted other others k)
    ∙ rw (is_top-share name segs h) (rw (is_top-share other others k) refl)

-- Rename of the path /name/segs to /other/others: it is not supported on a share itself, it is a
-- cross-device error between two shares, and else exactly the rename of the paths within the share;
-- the errors leave the cached mounts as they are.
pub root_rename-routes :
    (a : Access) (name : Text) (segs : List Text) (other : Text) (others : List Text) (st : Store)
    (r : Root)
    → all_names (name ∷ segs) ≡ true
    → all_names (other ∷ others) ≡ true
    → ◌≡◌ {A = Result Store × Root}
        (root_rename a (rooted (name ∷ segs)) (rooted (other ∷ others)) st r)
        (if length segs == 0 || length others == 0
          then (err not_supported, r)
          else if same_text name other
          then on_share a name (λ m. rename m (rooted segs) (rooted others) st) r
          else (err cross_device, r))
unfolding root_rename
root_rename-routes a name segs other others st r h k =
    with_clean-ok (rooted (name ∷ segs)) (rooted (name ∷ segs))
      (λ old.
        with_clean (rooted (other ∷ others))
          (λ new. change_both a (split_mount old) (split_mount new) (λ m s t. rename m s t st)))
      r (clean_path-rooted (name ∷ segs) h)
    ∙ with_clean-ok (rooted (other ∷ others)) (rooted (other ∷ others))
        (λ new.
          change_both a (split_mount (rooted (name ∷ segs))) (split_mount new)
            (λ m s t. rename m s t st))
        r (clean_path-rooted (other ∷ others) k)
    ∙ change_both-shares a name segs other others (λ m s t. rename m s t st) r h k
