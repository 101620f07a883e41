-- ===== src/Vfs/Tree/Created.antt =====
-- internal/vfs/fs_write.go: proofs about what a lookup finds after an entry was added.
use zenofs.Common.{
  ℕ, zero, suc, ◌≡◌, refl, sym, ◌∙◌, ap, subst, Bool, true, false, Option, none, some, List, [],
  ◌∷◌, ◌++◌, Result, ok, err, not_exist, ok_injective, then-ok, inl, inr, Bool-cases, Option-cases,
  arith, ◌==◌, find_by, find_by-append, find_by-count_zero, ◌>>=◌, ◌>>◌,
}
use zenofs.Db.{Inode, InodeKind}
use zenofs.Vfs.Path.{Text, same_text, path_segments, parent_path, base_name, clean_path}
use zenofs.Vfs.Path.Parts.{Parts, clean_path-Parts}
use zenofs.Vfs.Tree.State.{Store, Mount, require_write, is_dir_kind}
use zenofs.Vfs.Tree.Lookup.{
  root_inode, is_entry, entry, walk, inode_by_id, link_target, max_symlink_depth, follow_links,
  lookup_entry, lookup,
}
use zenofs.Vfs.Tree.Change.{
  ref_of, check_name, require_dir, must_be_absent, add_inode, new_inode, has_exec, create_at, mkdir,
}
use zenofs.Vfs.Tree.Walk.{found_entry, Below, lookup-Below, lookup-under, require_dir-found}
use zenofs.Vfs.Tree.Tidy.{
  IsTidy, IsTidy-no_root, lookup-free, must_be_absent-not_exist, new_inode-is_entry,
  not_exist-not_dir,
}
use zenofs.Vfs.Tree.Keeps.{create_at-Tidies, Tidies}

find_by-more :
    (p : Inode → Bool) (xs ys : List Inode) (i : Inode)
    → find_by p xs ≡ some i
    → find_by p (xs ++ ys) ≡ some i
unfolding find_by
find_by-more p [] ys i h = absurd (ground (arith, h))
find_by-more p (x ∷ xs) ys i h = ground (arith, h, find_by-more p xs ys i)

-- A walk over rows that stay takes the same steps.
walk-more :
    (share : ℕ) (inodes : List Inode) (new : Inode) (parent : Option ℕ) (cur i : Inode)
    (segs : List Text)
    → walk share inodes parent cur segs ≡ ok i
    → walk share (inodes ++ new ∷ []) parent cur segs ≡ ok i
unfolding walk entry
walk-more share inodes new parent cur i [] h = h
walk-more share inodes new parent cur i (seg ∷ []) h =
    elim (Option-cases (find_by (is_entry share parent seg) inodes)) [
      | inl gone ↦ absurd (ground (arith, gone, h))
      | inr (j, there) ↦
          ground
            (arith, h, there, find_by-more (is_entry share parent seg) inodes (new ∷ []) j there)
    ]
walk-more share inodes new parent cur i (seg ∷ next ∷ segs) h =
    elim (Option-cases (find_by (is_entry share parent seg) inodes)) [
      | inl gone ↦ absurd (ground (arith, gone, h))
      | inr (j, there) ↦ elim (Bool-cases (is_dir_kind j.kind)) [
        | inr other ↦ absurd (ground (arith, there, other, h))
        | inl dir ↦ ground (
          arith,
          dir,
          find_by-more (is_entry share parent seg) inodes (new ∷ []) j there,
          walk-more share inodes new (some j.id) j i (next ∷ segs) (ground (arith, there, dir, h)),
        )
      ]
    ]

follow_links-more :
    (fuel : ℕ) (inodes : List Inode) (new cur i : Inode)
    → follow_links fuel inodes cur ≡ ok i
    → follow_links fuel (inodes ++ new ∷ []) cur ≡ ok i
unfolding follow_links
follow_links-more zero inodes new cur i h = h
follow_links-more (suc fuel) inodes new cur i h = elim (Option-cases (link_target cur)) [
  | inl ends ↦ ground (arith, ends, h)
  | inr (id, goes) ↦ elim (Option-cases (inode_by_id id inodes)) [
    | inl gone ↦ absurd (ground (arith, goes, gone, h))
    | inr (j, there) ↦ ground (
      arith,
      goes,
      find_by-more (λ (k : Inode). k.id == id) inodes (new ∷ []) j there,
      follow_links-more fuel inodes new j i (ground (arith, goes, there, h)),
    )
  ]
]

-- What a path leads to stays when a row is added.
pub lookup-add_inode :
    (m : Mount) (q : Text) (follow : Bool) (new i : Inode) (st : Store)
    → lookup m q follow st ≡ ok i
    → lookup m q follow (add_inode new st) ≡ ok i
unfolding lookup lookup_entry add_inode
lookup-add_inode m q false new i st h =
    let (cur, (there, same)) =
      then-ok (walk m.share.id st.inodes none (root_inode m) (path_segments q))
        (λ (c : Inode). ok c) i h in
    ap (λ (r : Result Inode). r >>= λ c. ok c)
      (walk-more m.share.id st.inodes new none (root_inode m) cur (path_segments q) there)
    ∙ same
lookup-add_inode m q true new i st h =
    let (cur, (there, goes)) =
      then-ok (walk m.share.id st.inodes none (root_inode m) (path_segments q))
        (follow_links max_symlink_depth st.inodes) i h in
    ap (λ (r : Result Inode). r >>= follow_links max_symlink_depth (st.inodes ++ new ∷ []))
      (walk-more m.share.id st.inodes new none (root_inode m) cur (path_segments q) there)
    ∙ follow_links-more max_symlink_depth st.inodes new cur i goes

-- What create_at does in the directory.
abbrev add_below : Mount → Text → InodeKind → Bool → Option ℕ → Store → Inode → Result Store
add_below m clean kind executable link st dir =
    check_name (base_name clean)
    >> (must_be_absent (lookup m clean false st)
        >> ok (add_inode (new_inode m dir (base_name clean) kind executable link st) st))

create_at-below :
    (m : Mount) (clean : Text) (kind : InodeKind) (executable : Bool) (link : Option ℕ) (st : Store)
    → same_text clean (47 ∷ []) ≡ false
    → create_at m clean kind executable link st
      ≡ (require_dir m (parent_path clean) st >>= add_below m clean kind executable link st)
unfolding create_at
create_at-below m clean kind executable link st below = rw below refl

find_by-new :
    (p : Inode → Bool) (xs : List Inode) (i : Inode)
    → find_by p xs ≡ none
    → p i ≡ true
    → find_by p (xs ++ i ∷ []) ≡ some i
unfolding find_by
find_by-new p xs i gone fits = find_by-append p xs (i ∷ []) gone ∙ rw fits refl

added-found :
    (m : Mount) (clean : Text) (dir : Inode) (kind : InodeKind) (executable : Bool)
    (link : Option ℕ) (st : Store)
    → Parts clean
    → IsTidy st
    → require_dir m (parent_path clean) st ≡ ok dir
    → lookup m clean false st ≡ err not_exist
    → IsTidy (add_inode (new_inode m dir (base_name clean) kind executable link st) st)
    → lookup m clean false
        (add_inode (new_inode m dir (base_name clean) kind executable link st) st)
      ≡ ok (new_inode m dir (base_name clean) kind executable link st)
unfolding add_inode entry
added-found m clean dir kind executable link st parts tidy parent gone tidier =
    let (opened, is_dir) = require_dir-found m (parent_path clean) st dir parent in
    let below : Below m clean dir st =
      lookup-Below m clean dir st parts parent (IsTidy-no_root st tidy) in
    elim below.looks [
      | inr wrong ↦ absurd (not_exist-not_dir (sym gone ∙ wrong))
      | inl (walked, found) ↦
          lookup-under m clean dir _ parts
            (walk-more m.share.id st.inodes _ none (root_inode m) dir
              (path_segments (parent_path clean)) walked)
            is_dir (IsTidy-no_root _ tidier)
          ∙ ap found_entry (
              find_by-new (is_entry m.share.id (ref_of dir) (base_name clean)) st.inodes
                (new_inode m dir (base_name clean) kind executable link st)
                (find_by-count_zero (is_entry m.share.id (ref_of dir) (base_name clean)) st.inodes
                  (lookup-free m clean dir st below gone))
                (new_inode-is_entry m dir (base_name clean) kind executable link st))
    ]

create_at-found :
    (m : Mount) (p clean : Text) (kind : InodeKind) (executable : Bool) (link : Option ℕ)
    (st after : Store)
    → IsTidy st
    → clean_path p ≡ ok clean
    → create_at m clean kind executable link st ≡ ok after
    → (dir : Inode) × ((require_dir m (parent_path clean) st ≡ ok dir)
        × ((after ≡ add_inode (new_inode m dir (base_name clean) kind executable link st) st)
            × (lookup m clean false after
                ≡ ok (new_inode m dir (base_name clean) kind executable link st))))
create_at-found m p clean kind executable link st after tidy cleaned h =
    elim (Bool-cases (same_text clean (47 ∷ []))) [
      | inl root ↦ absurd (unfold create_at in ground (arith, root, h))
      | inr below ↦
          let (dir, (parent, named)) =
            then-ok (require_dir m (parent_path clean) st)
              (add_below m clean kind executable link st) after
              (sym (create_at-below m clean kind executable link st below) ∙ h) in
          let (u, (valid, rest)) =
            then-ok (check_name (base_name clean))
              (λ _.
                must_be_absent (lookup m clean false st)
                >> ok (add_inode (new_inode m dir (base_name clean) kind executable link st) st))
              after named in
          let (v, (absent, made)) =
            then-ok (must_be_absent (lookup m clean false st))
              (λ _. ok (add_inode (new_inode m dir (base_name clean) kind executable link st) st))
              after rest in
          let same : add_inode (new_inode m dir (base_name clean) kind executable link st) st
              ≡ after =
            ok_injective _ after made in
          (
            dir,
            (
              parent,
              (
                sym same,
                ap (lookup m clean false) (sym same)
                    ∙ added-found m clean dir kind executable link st
                        (clean_path-Parts p clean cleaned below) tidy parent
                        (must_be_absent-not_exist (lookup m clean false st) absent)
                        (subst IsTidy (sym same) (
                          subst Tidies h
                            (create_at-Tidies m p clean kind executable link st tidy cleaned))),
              ),
            ),
          )
    ]

-- A Mkdir that succeeds in a tidy tree makes a directory that its path, looked up without following
-- links, leads to, with the last part of the path as its name and the mount's user as its owner;
-- whatever another path led to, it leads to still, with or without links followed.
pub mkdir-lookup :
    (m : Mount) (p clean : Text) (mode : ℕ) (st after : Store) (q : Text) (follow : Bool)
    (j : Inode)
    → IsTidy st
    → clean_path p ≡ ok clean
    → mkdir m p mode st ≡ ok after
    → lookup m q follow st ≡ ok j
    → (i : Inode) × ((lookup m clean false after ≡ ok i)
        × (((i.kind ≡ InodeKind.dir) × ((i.name ≡ base_name clean) × (i.created_by ≡ m.user_id)))
            × (lookup m q follow after ≡ ok j)))
unfolding mkdir new_inode
mkdir-lookup m p clean mode st after q follow j tidy cleaned h there =
    let (u, (allowed, rest)) =
      then-ok (require_write m)
        (λ _. clean_path p >>= λ c. create_at m c InodeKind.dir (has_exec mode) none st) after h in
    let created : create_at m clean InodeKind.dir (has_exec mode) none st ≡ ok after =
      ap (λ (r : Result Text). r >>= λ c. create_at m c InodeKind.dir (has_exec mode) none st)
        (sym cleaned)
      ∙ rest in
    let (dir, (parent, (is, found))) =
      create_at-found m p clean InodeKind.dir (has_exec mode) none st after tidy cleaned created in
    (
      new_inode m dir (base_name clean) InodeKind.dir (has_exec mode) none st,
      (
        found,
        (
          (refl, (refl, refl)),
          ap (lookup m q follow) is
              ∙ lookup-add_inode m q follow
                  (new_inode m dir (base_name clean) InodeKind.dir (has_exec mode) none st) j st
                  there,
        ),
      ),
    )
