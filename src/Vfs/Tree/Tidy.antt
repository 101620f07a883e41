-- ===== src/Vfs/Tree/Tidy.antt =====
-- internal/vfs/fs_write.go: proofs that the changes of the tree keep its names apart.
use zenofs.Common.{
  ℕ, ◌≤◌, ◌<◌, ◌≡◌, refl, sym, ◌∙◌, ap, subst, Bool, true, false, Option, none, some, List, Result,
  Error, is_not_exist, is_not_exist-eq, ok, err, not_exist, not_dir, ok_injective, inl, inr,
  Bool-cases, Option-cases, arith, ◌==◌, ==→eq, ==_self, find_by, count, count-append,
  count-find_by, find_by-count_zero, count-update_le, count-update_same,
}
use zenofs.Db.{Inode, InodeKind, InodeEventType}
use zenofs.Vfs.Path.{Text, base_name}
use zenofs.Vfs.Path.Equal.{same_text_self, same_text→eq}
use zenofs.Vfs.Tree.State.{Store, Mount, same_parent}
use zenofs.Vfs.Tree.Lookup.{is_entry, entry, lookup}
use zenofs.Vfs.Tree.Change.{ref_of, deleted_row, mark_deleted, add_inode, must_be_absent, new_inode}
use zenofs.Vfs.Tree.Walk.{found_entry, Below}

pub same_parent→eq : (a b : Option ℕ) → same_parent a b ≡ true → a ≡ b
same_parent→eq none none h = refl
same_parent→eq none (some b) h = absurd (ground (arith, h))
same_parent→eq (some a) none h = absurd (ground (arith, h))
same_parent→eq (some a) (some b) h = ap some (==→eq a b h)

pub not_exist-not_dir : ◌≡◌ {A = Result Inode} (err not_exist) (err not_dir) → ⊥
not_exist-not_dir h = ground (arith, h)

ok-err : (i : Inode) (e : Error) → ok i ≡ err e → ⊥
ok-err i e h = ground (arith, h)

abbrev pub has_id : ℕ → Inode → Bool
has_id id i = i.id == id

-- No two live entries of a directory have one name, and no two rows one id; ids from the next one on
-- are free, and 0 is nobody's.
pub record IsTidy (st : Store) : Type 0 where
  pub names :
      (share : ℕ) (parent : Option ℕ) (name : Text)
      → count (is_entry share parent name) st.inodes ≤ 1
  pub ids : (id : ℕ) → count (has_id id) st.inodes ≤ 1
  pub fresh : (id : ℕ) → st.next_inode ≤ id → count (has_id id) st.inodes ≡ 0
  pub no_zero : count (has_id 0) st.inodes ≡ 0
  pub next : 0 < st.next_inode

pub IsTidy-no_root : (st : Store) → IsTidy st → find_by (has_id 0) st.inodes ≡ none
IsTidy-no_root st tidy = find_by-count_zero (has_id 0) st.inodes tidy.no_zero

-- A row is an entry of its own place only.
pub is_entry-place :
    (share : ℕ) (parent : Option ℕ) (name : Text) (i : Inode)
    → is_entry share parent name i ≡ true
    → count (is_entry share parent name) ≡ count (is_entry i.share_id i.parent_id i.name)
is_entry-place share parent name i h =
    ap (λ (s : ℕ). count (is_entry s parent name)) {x = share} {y = i.share_id}
      (sym (==→eq i.share_id share (ground (arith, h))))
    ∙ ap (λ (n : Text). count (is_entry i.share_id parent n)) {x = name} {y = i.name}
        (sym (same_text→eq i.name name (ground (arith, h))))
    ∙ ap (λ (p : Option ℕ). count (is_entry i.share_id p i.name)) {x = parent} {y = i.parent_id}
        (sym (same_parent→eq i.parent_id parent (ground (arith, h))))

same_parent_self : (p : Option ℕ) → same_parent p p ≡ true
same_parent_self none = refl
same_parent_self (some p) = ==_self p

-- A new row is an entry of the directory that it was made for.
pub new_inode-is_entry :
    (m : Mount) (dir : Inode) (name : Text) (kind : InodeKind) (executable : Bool) (link : Option ℕ)
    (st : Store)
    → is_entry m.share.id (ref_of dir) name (new_inode m dir name kind executable link st) ≡ true
unfolding new_inode
new_inode-is_entry m dir name kind executable link st =
    rw (==_self m.share.id) (rw (same_text_self name) (rw (same_parent_self (ref_of dir)) refl))

pub IsTidy-add :
    (st : Store) (i : Inode)
    → IsTidy st
    → i.id ≡ st.next_inode
    → count (is_entry i.share_id i.parent_id i.name) st.inodes ≡ 0
    → IsTidy (add_inode i st)
unfolding add_inode
IsTidy-add st i tidy id_is free = record {
  names = λ share parent name. elim (Bool-cases (is_entry share parent name i)) [
    | inl here ↦
        let none_yet : count (is_entry share parent name) st.inodes ≡ 0 =
          ap (λ (c : List Inode → ℕ). c st.inodes) (is_entry-place share parent name i here)
          ∙ free in
        subst (λ (n : ℕ). n ≤ 1) (sym (count-append (is_entry share parent name) st.inodes i))
          (rw here (rw none_yet (omega arith)))
    | inr other ↦
        subst (λ (n : ℕ). n ≤ 1) (sym (count-append (is_entry share parent name) st.inodes i))
          (rw other (omega (arith, tidy.names share parent name)))
  ];
  ids = λ id. elim (Bool-cases (i.id == id)) [
    | inl same ↦
        let above : count (has_id id) st.inodes ≡ 0 =
          tidy.fresh id (omega (arith, ==→eq i.id id same, id_is)) in
        ground (arith, count-append (has_id id) st.inodes i, above)
    | inr other ↦ ground (arith, count-append (has_id id) st.inodes i, other, tidy.ids id)
  ];
  fresh = λ id above. ground (
    arith,
    count-append (has_id id) st.inodes i,
    tidy.fresh id (omega (arith, above)),
    above,
    id_is,
  );
  no_zero = ground (arith, count-append (has_id 0) st.inodes i, tidy.no_zero, id_is, tidy.next);
  next = omega arith;
}

pub mark_deleted-IsTidy :
    (m : Mount) (st : Store) (i : Inode) (event : InodeEventType)
    → IsTidy st
    → IsTidy (mark_deleted m i event st)
unfolding mark_deleted
mark_deleted-IsTidy m st i event tidy = record {
  names = λ share parent name. ground (
    arith,
    tidy.names share parent name,
    count-update_le (is_entry share parent name) (has_id i.id) (deleted_row m st) st.inodes
        (λ x h. absurd (ground (arith, h))),
  );
  ids = λ id. ground (
    arith,
    tidy.ids id,
    count-update_same (has_id id) (has_id i.id) (deleted_row m st) st.inodes (λ x. refl),
  );
  fresh = λ id above.
      count-update_same (has_id id) (has_id i.id) (deleted_row m st) st.inodes (λ x. refl)
      ∙ tidy.fresh id above;
  no_zero =
      count-update_same (has_id 0) (has_id i.id) (deleted_row m st) st.inodes (λ x. refl)
      ∙ tidy.no_zero;
  next = tidy.next;
}

-- A name that a lookup below a directory does not find is free in it.
pub lookup-free :
    (m : Mount) (clean : Text) (dir : Inode) (st : Store)
    → Below m clean dir st
    → lookup m clean false st ≡ err not_exist
    → count (is_entry m.share.id (ref_of dir) (base_name clean)) st.inodes ≡ 0
unfolding entry
lookup-free m clean dir st below h = elim below.looks [
  | inr wrong ↦ absurd (not_exist-not_dir (sym h ∙ wrong))
  | inl (walked, found) ↦
      elim (Option-cases (find_by (is_entry m.share.id (ref_of dir) (base_name clean)) st.inodes)) [
        | inl gone ↦
            count-find_by (is_entry m.share.id (ref_of dir) (base_name clean)) st.inodes gone
        | inr (i, there) ↦ absurd (ok-err i not_exist (sym (ap found_entry there) ∙ sym found ∙ h))
      ]
]

-- The row that it does find there.
pub lookup-entry :
    (m : Mount) (clean : Text) (dir i : Inode) (st : Store)
    → Below m clean dir st
    → lookup m clean false st ≡ ok i
    → find_by (is_entry m.share.id (ref_of dir) (base_name clean)) st.inodes ≡ some i
unfolding entry
lookup-entry m clean dir i st below h = elim below.looks [
  | inr wrong ↦ absurd (ok-err i not_dir (sym h ∙ wrong))
  | inl (walked, found) ↦
      elim (Option-cases (find_by (is_entry m.share.id (ref_of dir) (base_name clean)) st.inodes)) [
        | inl gone ↦ absurd (ok-err i not_exist (sym h ∙ found ∙ ap found_entry gone))
        | inr (j, there) ↦
            there
            ∙ ap (λ (k : Inode). some k)
                (ok_injective j i (sym (ap found_entry there) ∙ sym found ∙ h))
      ]
]

pub must_be_absent-not_exist : (r : Result Inode) → must_be_absent r ≡ ok tt → r ≡ err not_exist
unfolding must_be_absent
must_be_absent-not_exist (ok i) h = absurd (ground (arith, h))
must_be_absent-not_exist (err e) h = elim (Bool-cases (is_not_exist e)) [
  | inl gone ↦ ap (λ (d : Error). err d) (is_not_exist-eq e gone)
  | inr other ↦ absurd (ground (arith, other, h))
]
