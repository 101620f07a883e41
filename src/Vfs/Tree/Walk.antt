-- ===== src/Vfs/Tree/Walk.antt =====
-- internal/vfs/fs.go: proofs about lookup along a path and its parent.
use zenofs.Common.{
  ok_injective, Result-cases, find_by-there, ℕ, zero, suc, ◌≡◌, refl, sym, ◌∙◌, ap, true, false,
  Option, none, some, List, [], ◌∷◌, ◌++◌, Result, ok, err, not_exist, not_dir, ◌⊎◌, inl, inr,
  Bool-cases, Option-cases, arith, ◌==◌, if◌then◌else◌, find_by, ◌>>=◌,
}
use zenofs.Db.{Inode}
use zenofs.Vfs.Path.{Text, path_segments, parent_path, base_name}
use zenofs.Vfs.Path.Parts.{Parts}
use zenofs.Vfs.Tree.State.{Store, Mount, is_dir_kind}
use zenofs.Vfs.Tree.Lookup.{
  root_inode, is_entry, entry, walk, inode_by_id, max_symlink_depth, follow_links, lookup_entry,
  lookup,
}
use zenofs.Vfs.Tree.Change.{ref_of, require_dir}

-- What a last step of a walk returns.
abbrev pub found_entry : Option Inode → Result Inode
found_entry none = err not_exist
found_entry (some i) = ok i

abbrev next_step : Result Inode → ℕ → Text → List Inode → Result Inode
next_step (err e) share name inodes = err e
next_step (ok i) share name inodes =
    if is_dir_kind i.kind then found_entry (entry share (some i.id) name inodes) else err not_dir

-- A walk over one more name.
walk-append :
    (share : ℕ) (inodes : List Inode) (parent : Option ℕ) (cur : Inode) (seg : Text)
    (segs : List Text) (name : Text)
    → walk share inodes parent cur ((seg ∷ segs) ++ name ∷ [])
      ≡ next_step (walk share inodes parent cur (seg ∷ segs)) share name inodes
unfolding walk
walk-append share inodes parent cur seg [] name =
    elim (Option-cases (entry share parent seg inodes)) [
      | inl gone ↦ ground (arith, gone)
      | inr (i, there) ↦ ground (arith, there)
    ]
walk-append share inodes parent cur seg (next ∷ segs) name =
    elim (Option-cases (entry share parent seg inodes)) [
      | inl gone ↦ ground (arith, gone)
      | inr (i, there) ↦
          ground (arith, there, walk-append share inodes (some i.id) i next segs name)
    ]

follow-dir :
    (fuel : ℕ) (inodes : List Inode) (i : Inode)
    → is_dir_kind i.kind ≡ true
    → follow_links fuel inodes i ≡ ok i
unfolding follow_links
follow-dir zero inodes i h = ground arith
follow-dir (suc fuel) inodes i h = ground arith

-- A walk below the root ends at a live row of the share.
walk-row :
    (share : ℕ) (inodes : List Inode) (parent : Option ℕ) (cur i : Inode) (seg : Text)
    (segs : List Text)
    → walk share inodes parent cur (seg ∷ segs) ≡ ok i
    → (p : Option ℕ) × (name : Text) × (find_by (is_entry share p name) inodes ≡ some i)
unfolding walk entry
walk-row share inodes parent cur i seg [] h = elim (Option-cases (entry share parent seg inodes)) [
  | inl gone ↦ absurd (ground (arith, gone, h))
  | inr (j, there) ↦ (
    parent,
    seg,
    there ∙ ap (λ (k : Inode). some k) (ok_injective j i (ground (arith, there, h))),
  )
]
walk-row share inodes parent cur i seg (next ∷ segs) h =
    elim (Option-cases (entry share parent seg inodes)) [
      | inl gone ↦ absurd (ground (arith, gone, h))
      | inr (j, there) ↦ elim (Bool-cases (is_dir_kind j.kind)) [
        | inl dir ↦ walk-row share inodes (some j.id) j i next segs (ground (arith, there, dir, h))
        | inr other ↦ absurd (ground (arith, there, other, h))
      ]
    ]

walk-there :
    (share : ℕ) (inodes : List Inode) (parent : Option ℕ) (cur i : Inode) (seg : Text)
    (segs : List Text)
    → walk share inodes parent cur (seg ∷ segs) ≡ ok i
    → inode_by_id 0 inodes ≡ none
    → i.id ≡ 0
    → ⊥
walk-there share inodes parent cur i seg segs h z zero_id =
    let (p, name, there) = walk-row share inodes parent cur i seg segs h in
    find_by-there (is_entry share p name) (λ (k : Inode). k.id == 0) inodes i there
      (ground (arith, zero_id)) z

walk-last :
    (share : ℕ) (inodes : List Inode) (cur i : Inode) (segs : List Text) (name : Text)
    → walk share inodes none cur (segs ++ name ∷ []) ≡ ok i
    → (p : Option ℕ) × (n : Text) × (find_by (is_entry share p n) inodes ≡ some i)
walk-last share inodes cur i [] name h = walk-row share inodes none cur i name [] h
walk-last share inodes cur i (seg ∷ segs) name h =
    walk-row share inodes none cur i seg (segs ++ name ∷ []) h

ref_of-known : (i : Inode) → (i.id ≡ 0 → ⊥) → ref_of i ≡ some i.id
unfolding ref_of
ref_of-known i h = ground (arith, h)

walk-one :
    (m : Mount) (name : Text) (inodes : List Inode)
    → walk m.share.id inodes none (root_inode m) (name ∷ [])
      ≡ found_entry (entry m.share.id (ref_of (root_inode m)) name inodes)
unfolding walk ref_of root_inode
walk-one m name inodes = elim (Option-cases (entry m.share.id none name inodes)) [
  | inl gone ↦ ground (arith, gone)
  | inr (i, there) ↦ ground (arith, there)
]

walk-under :
    (m : Mount) (inodes : List Inode) (segs : List Text) (name : Text) (dir : Inode)
    → walk m.share.id inodes none (root_inode m) segs ≡ ok dir
    → is_dir_kind dir.kind ≡ true
    → inode_by_id 0 inodes ≡ none
    → walk m.share.id inodes none (root_inode m) (segs ++ name ∷ [])
      ≡ found_entry (entry m.share.id (ref_of dir) name inodes)
walk-under m inodes [] name dir h k z =
    let root : root_inode m ≡ dir = ok_injective (root_inode m) dir (unfold walk in h) in
    walk-one m name inodes
    ∙ ap (λ (d : Inode). found_entry (entry m.share.id (ref_of d) name inodes)) root
walk-under m inodes (seg ∷ segs) name dir h k z =
    walk-append m.share.id inodes none (root_inode m) seg segs name
    ∙ ap (λ (r : Result Inode). next_step r m.share.id name inodes) h
    ∙ rw k refl
    ∙ ap (λ (r : Option ℕ). found_entry (entry m.share.id r name inodes))
        (sym (ref_of-known dir (walk-there m.share.id inodes none (root_inode m) dir seg segs h z)))

walk-blocked :
    (m : Mount) (inodes : List Inode) (segs : List Text) (name : Text) (cur : Inode)
    → walk m.share.id inodes none (root_inode m) segs ≡ ok cur
    → is_dir_kind cur.kind ≡ false
    → walk m.share.id inodes none (root_inode m) (segs ++ name ∷ []) ≡ err not_dir
walk-blocked m inodes [] name cur h k =
    let root : root_inode m ≡ cur = ok_injective (root_inode m) cur (unfold walk in h) in
    absurd (unfold root_inode in ground (arith, ap (λ (i : Inode). is_dir_kind i.kind) root, k))
walk-blocked m inodes (seg ∷ segs) name cur h k =
    walk-append m.share.id inodes none (root_inode m) seg segs name
    ∙ ap (λ (r : Result Inode). next_step r m.share.id name inodes) h
    ∙ rw k refl

-- A step from a directory that a path leads to, by way of a link at its end perhaps.
below_dir :
    (m : Mount) (st : Store) (segs : List Text) (name : Text) (dir : Inode)
    → (walk m.share.id st.inodes none (root_inode m) segs
        >>= follow_links max_symlink_depth st.inodes)
      ≡ ok dir
    → is_dir_kind dir.kind ≡ true
    → inode_by_id 0 st.inodes ≡ none
    → (walk m.share.id st.inodes none (root_inode m) segs ≡ ok dir)
      ⊎ (walk m.share.id st.inodes none (root_inode m) (segs ++ name ∷ []) ≡ err not_dir)
below_dir m st segs name dir h k z =
    elim (Result-cases (walk m.share.id st.inodes none (root_inode m) segs)) [
      | inr (e, fails) ↦ absurd (ground (arith, fails, h))
      | inl (cur, found) ↦
          let follows : follow_links max_symlink_depth st.inodes cur ≡ ok dir =
            ap (λ (r : Result Inode). r >>= follow_links max_symlink_depth st.inodes) (sym found)
            ∙ h in
          elim (Bool-cases (is_dir_kind cur.kind)) [
            | inr other ↦ inr (walk-blocked m st.inodes segs name cur found other)
            | inl is_dir ↦ inl (
                found
                ∙ ap (λ (i : Inode). ok i)
                    (ok_injective cur dir
                      (sym (follow-dir max_symlink_depth st.inodes cur is_dir) ∙ follows)))
          ]
    ]

-- Below a directory that a lookup accepted, a name that is not found is no entry of it, and one
-- that is found is.
pub record Below (m : Mount) (clean : Text) (dir : Inode) (st : Store) : Type 0 where
  pub looks :
      ((walk m.share.id st.inodes none (root_inode m) (path_segments (parent_path clean)) ≡ ok dir)
        × (lookup m clean false st
            ≡ found_entry (entry m.share.id (ref_of dir) (base_name clean) st.inodes)))
      ⊎ (lookup m clean false st ≡ err not_dir)

pub require_dir-found :
    (m : Mount) (p : Text) (st : Store) (dir : Inode)
    → require_dir m p st ≡ ok dir
    → (lookup m p true st ≡ ok dir) × (is_dir_kind dir.kind ≡ true)
unfolding require_dir
require_dir-found m p st dir h = elim (Result-cases (lookup m p true st)) [
  | inr (e, fails) ↦ absurd (ground (arith, fails, h))
  | inl (i, found) ↦ elim (Bool-cases (is_dir_kind i.kind)) [
    | inr other ↦ absurd (ground (arith, found, other, h))
    | inl is_dir ↦
        let same : i ≡ dir = ok_injective i dir (ground (arith, found, is_dir, h)) in
        (
          found ∙ ap (λ (j : Inode). ok j) same,
          ap (λ (j : Inode). is_dir_kind j.kind) (sym same) ∙ is_dir,
        )
  ]
]

pub bind-ok : (r : Result Inode) → (r >>= λ (i : Inode). ok i) ≡ r
bind-ok (ok i) = refl
bind-ok (err e) = refl

lookup-here :
    (m : Mount) (p : Text) (st : Store)
    → lookup m p false st ≡ walk m.share.id st.inodes none (root_inode m) (path_segments p)
unfolding lookup lookup_entry
lookup-here m p st = bind-ok (walk m.share.id st.inodes none (root_inode m) (path_segments p))

lookup-through :
    (m : Mount) (p : Text) (st : Store)
    → lookup m p true st ≡ (
        walk m.share.id st.inodes none (root_inode m) (path_segments p) >>= λ i.
        follow_links max_symlink_depth st.inodes i)
unfolding lookup lookup_entry
lookup-through m p st = refl

pub lookup-Below :
    (m : Mount) (clean : Text) (dir : Inode) (st : Store)
    → Parts clean
    → require_dir m (parent_path clean) st ≡ ok dir
    → inode_by_id 0 st.inodes ≡ none
    → Below m clean dir st
lookup-Below m clean dir st parts h z =
    let (found, kind) = require_dir-found m (parent_path clean) st dir h in
    let steps : (walk m.share.id st.inodes none (root_inode m) parts.segs >>= λ i.
    follow_links max_symlink_depth st.inodes i)
        ≡ ok dir =
      ap
        (λ (segs : List Text). walk m.share.id st.inodes none (root_inode m) segs >>= λ i.
          follow_links max_symlink_depth st.inodes i)
        (sym parts.parent)
      ∙ sym (lookup-through m (parent_path clean) st)
      ∙ found in
    let last : lookup m clean false st
        ≡ walk m.share.id st.inodes none (root_inode m) (parts.segs ++ parts.name ∷ []) =
      lookup-here m clean st ∙ ap (walk m.share.id st.inodes none (root_inode m)) parts.whole in
    elim (below_dir m st parts.segs parts.name dir steps kind z) [
      | inr fails ↦ record { looks = inr (last ∙ fails) }
      | inl there ↦ record {
        looks = inl (
          ap (walk m.share.id st.inodes none (root_inode m)) parts.parent ∙ there,
          last
              ∙ walk-under m st.inodes parts.segs parts.name dir there kind z
              ∙ ap (λ (n : Text). found_entry (entry m.share.id (ref_of dir) n st.inodes))
                  (sym parts.base),
        );
      }
    ]

-- What a path below the root leads to is a live row of the share.
pub lookup-row :
    (m : Mount) (clean : Text) (i : Inode) (st : Store)
    → Parts clean
    → lookup m clean false st ≡ ok i
    → (p : Option ℕ) × (n : Text) × (find_by (is_entry m.share.id p n) st.inodes ≡ some i)
lookup-row m clean i st parts h =
    walk-last m.share.id st.inodes (root_inode m) i parts.segs parts.name (
      ap (walk m.share.id st.inodes none (root_inode m)) (sym parts.whole)
      ∙ sym (lookup-here m clean st)
      ∙ h)

-- A name in a directory that a path leads to without a link.
pub lookup-under :
    (m : Mount) (clean : Text) (dir : Inode) (st : Store)
    → Parts clean
    → walk m.share.id st.inodes none (root_inode m) (path_segments (parent_path clean)) ≡ ok dir
    → is_dir_kind dir.kind ≡ true
    → inode_by_id 0 st.inodes ≡ none
    → lookup m clean false st
      ≡ found_entry (entry m.share.id (ref_of dir) (base_name clean) st.inodes)
lookup-under m clean dir st parts there kind z =
    lookup-here m clean st
    ∙ ap (walk m.share.id st.inodes none (root_inode m)) parts.whole
    ∙ walk-under m st.inodes parts.segs parts.name dir
        (ap (walk m.share.id st.inodes none (root_inode m)) (sym parts.parent) ∙ there) kind z
    ∙ ap (λ (n : Text). found_entry (entry m.share.id (ref_of dir) n st.inodes)) (sym parts.base)
