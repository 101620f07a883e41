-- ===== src/Vfs/Tree/Restores.antt =====
-- internal/vfs/recycle.go and internal/vfs/history.go: proofs that what is taken back keeps the
-- names apart.
use zenofs.Common.{
  ℕ, ◌+◌, ◌≤◌, ◌≡◌, refl, ◌∙◌, ap, Bool, true, ◌&&◌, Option, some, List, ok, inl, inr, Bool-cases,
  Option-cases, arith, ==→eq, ok_injective, ==_self, find_by, find_by_found, update_where, count,
  count_mono, count_only, count-update_same, count-update_add,
}
use zenofs.Db.{Inode}
use zenofs.Vfs.Path.{Text}
use zenofs.Vfs.Tree.State.{Store, Mount, require_write}
use zenofs.Vfs.Tree.Lookup.{is_entry}
use zenofs.Vfs.Tree.Recycle.{
  is_row_of, inode_in_share, deleted_inode, ensure_no_conflict, restore_parent, restored_row,
  restore_inode, restore, live_file, set_version, versioned_row, restore_version, version_by_id,
}
use zenofs.Vfs.Tree.Tidy.{IsTidy, has_id, is_entry-place}
use zenofs.Vfs.Tree.Keeps.{Tidies, Tidies-then}

-- One row changes: a query for one row at most finds one at most afterwards, if nothing else fits
-- where the changed row does.
count-update_row :
    (W q p : Inode → Bool) (f : Inode → Inode) (rows : List Inode) (i : Inode)
    → count W rows ≤ 1
    → count q rows ≤ 1
    → find_by p rows ≡ some i
    → q i ≡ true
    → (W (f i) ≡ true → count W rows ≡ 0)
    → count W (update_where q f rows) ≤ 1
count-update_row W q p f rows i few one there fits clear =
    let added : count W (update_where q f rows)
        ≤ count W rows + count (λ (j : Inode). q j && W (f j)) rows =
      count-update_add W q f rows in
    elim (Bool-cases (W (f i))) [
      | inl here ↦
          let same : count (λ (j : Inode). q j && W (f j)) rows ≤ count q rows =
            count_mono (λ (j : Inode). q j && W (f j)) q rows (λ j h. ground (arith, h)) in
          omega (arith, added, same, clear here, one)
      | inr elsewhere ↦ omega (
        arith,
        added,
        few,
        count_only p q (λ (j : Inode). W (f j)) rows i one there fits elsewhere,
      )
    ]

-- A query that stays as it is on the changed rows.
restore_inode-IsTidy :
    (m : Mount) (i : Inode) (parent : Option ℕ) (st : Store) (id : ℕ)
    → IsTidy st
    → find_by (is_row_of m id) st.inodes ≡ some i
    → count (is_entry m.share.id parent i.name) st.inodes ≡ 0
    → IsTidy (restore_inode m i parent st)
unfolding restore_inode
restore_inode-IsTidy m i parent st id tidy there free = record {
  names = λ share p name.
      count-update_row (is_entry share p name) (has_id i.id) (is_row_of m id)
        (restored_row m parent st) st.inodes i (tidy.names share p name) (tidy.ids i.id) there
        (==_self i.id)
        (λ fits.
          ap (λ (c : List Inode → ℕ). c st.inodes)
            (is_entry-place share p name (restored_row m parent st i) fits)
          ∙ ap (λ (s : ℕ). count (is_entry s parent i.name) st.inodes) {x = i.share_id}
              {y = m.share.id}
              (==→eq i.share_id m.share.id
                (ground (arith, find_by_found (is_row_of m id) st.inodes i there)))
          ∙ free);
  ids = λ n. omega (
    arith,
    tidy.ids n,
    count-update_same (has_id n) (has_id i.id) (restored_row m parent st) st.inodes (λ x. refl),
  );
  fresh = λ n above.
      count-update_same (has_id n) (has_id i.id) (restored_row m parent st) st.inodes (λ x. refl)
      ∙ tidy.fresh n above;
  no_zero =
      count-update_same (has_id 0) (has_id i.id) (restored_row m parent st) st.inodes (λ x. refl)
      ∙ tidy.no_zero;
  next = tidy.next;
}

set_version-IsTidy :
    (m : Mount) (id version : ℕ) (st : Store) → IsTidy st → IsTidy (set_version m id version st)
unfolding set_version
set_version-IsTidy m id version st tidy = record {
  names = λ share p name. omega (
    arith,
    tidy.names share p name,
    count-update_same (is_entry share p name) (has_id id) (versioned_row m version st) st.inodes
        (λ x. refl),
  );
  ids = λ n. omega (
    arith,
    tidy.ids n,
    count-update_same (has_id n) (has_id id) (versioned_row m version st) st.inodes (λ x. refl),
  );
  fresh = λ n above.
      count-update_same (has_id n) (has_id id) (versioned_row m version st) st.inodes (λ x. refl)
      ∙ tidy.fresh n above;
  no_zero =
      count-update_same (has_id 0) (has_id id) (versioned_row m version st) st.inodes (λ x. refl)
      ∙ tidy.no_zero;
  next = tidy.next;
}

deleted_inode-row :
    (m : Mount) (id : ℕ) (i : Inode) (st : Store)
    → deleted_inode m id st ≡ ok i
    → find_by (is_row_of m id) st.inodes ≡ some i
unfolding deleted_inode
deleted_inode-row m id i st h = elim (Option-cases (find_by (is_row_of m id) st.inodes)) [
  | inl gone ↦ absurd (ground (arith, gone, h))
  | inr (j, there) ↦ elim (Bool-cases j.deleted) [
    | inr live ↦ absurd (ground (arith, there, live, h))
    | inl deleted ↦
        there ∙ ap (λ (k : Inode). some k) (ok_injective j i (ground (arith, there, deleted, h)))
  ]
]

ensure_no_conflict-free :
    (m : Mount) (parent : Option ℕ) (name : Text) (st : Store)
    → ensure_no_conflict m parent name st ≡ ok tt
    → count (is_entry m.share.id parent name) st.inodes ≡ 0
unfolding ensure_no_conflict
ensure_no_conflict-free m parent name st h = ground (arith, h)

pub restore-Tidies : (m : Mount) (id : ℕ) (st : Store) → IsTidy st → Tidies (restore m id st)
unfolding restore
restore-Tidies m id st tidy = Tidies-then (require_write m) _ (λ u allowed.
    Tidies-then (deleted_inode m id st) _ (λ i found.
      Tidies-then (ensure_no_conflict m (restore_parent i st) i.name st) _ (λ v clear.
        restore_inode-IsTidy m i (restore_parent i st) st id tidy
          (deleted_inode-row m id i st found)
          (ensure_no_conflict-free m (restore_parent i st) i.name st clear))))

pub restore_version-Tidies :
    (m : Mount) (id : ℕ) (st : Store) → IsTidy st → Tidies (restore_version m id st)
unfolding restore_version
restore_version-Tidies m id st tidy = Tidies-then (require_write m) _ (λ u allowed.
    Tidies-then (version_by_id id st) _ (λ v known.
      Tidies-then (inode_in_share m v.inode_id st) _ (λ i found.
        Tidies-then (live_file i) _ (λ w live. set_version-IsTidy m i.id v.id st tidy))))
