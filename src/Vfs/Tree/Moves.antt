-- ===== src/Vfs/Tree/Moves.antt =====
-- internal/vfs/fs_write.go: proofs that a rename keeps the names apart.
use zenofs.Common.{
  ℕ, ◌+◌, ◌≤◌, ◌≡◌, refl, sym, ◌∙◌, ap, subst, Bool, false, ◌&&◌, ◌||◌, Option, some, List, [], ◌∷◌,
  Result, Error, ok, err, not_exist, is_not_exist, is_not_exist-eq, ok_injective, Result-cases, ◌⊎◌,
  inl, inr, Bool-cases, arith, ◌==◌, ==→eq, ==_self, find_by, find_by_found, update_where, count,
  count_mono, count_only, count-update_le, count-update_same, count-update_add, count-update_less,
}
use zenofs.Db.{Inode}
use zenofs.Vfs.Path.{Text, same_text, base_name, parent_path, clean_path}
use zenofs.Vfs.Path.Parts.{clean_path-Parts}
use zenofs.Vfs.Path.Equal.{same_text→eq}
use zenofs.Vfs.Tree.State.{Store, Mount, require_write, same_parent}
use zenofs.Vfs.Tree.Lookup.{is_entry, lookup}
use zenofs.Vfs.Tree.Change.{
  ref_of, check_name, require_dir, Destination, free, overwritten, same_entry, destination,
  check_not_below, drop_overwritten, moved_row, move_inode, rename_clean, rename, deleted_row,
}
use zenofs.Vfs.Tree.Walk.{Below, lookup-Below, lookup-row}
use zenofs.Vfs.Tree.Tidy.{IsTidy, IsTidy-no_root, has_id, lookup-free, lookup-entry, same_parent→eq}
use zenofs.Vfs.Tree.Keeps.{Tidies, Tidies-then}

-- The row that moves, in the table that it moves in.
module _ (m : Mount) (st : Store) (src dir : Inode) (name : Text) (rows : List Inode) where
  moved_names :
      (share : ℕ) (parent : Option ℕ) (n : Text)
      → count (is_entry share parent n) rows ≤ 1
      → count (has_id src.id) rows ≤ 1
      → count (is_entry m.share.id (ref_of dir) name) rows ≡ 0
      → ((m.share.id == share) ≡ false
          → count (λ (i : Inode). i.id == src.id && i.share_id == share) rows ≡ 0)
      → count
          (is_entry share parent n)
          (update_where (has_id src.id) (moved_row m (ref_of dir) name st) rows)
        ≤ 1
  moved_names share parent n names one clear apart =
      elim (Bool-cases (same_text name n && same_parent (ref_of dir) parent)) [
        | inr elsewhere ↦
            let kept : count (is_entry share parent n)
                  (update_where (has_id src.id) (moved_row m (ref_of dir) name st) rows)
                ≤ count (is_entry share parent n) rows =
              count-update_le (is_entry share parent n) (has_id src.id)
                (moved_row m (ref_of dir) name st) rows
                (λ i h. absurd (ground (arith, elsewhere, h))) in
            omega (arith, kept, names)
        | inl here ↦
            let added : count (is_entry share parent n)
                  (update_where (has_id src.id) (moved_row m (ref_of dir) name st) rows)
                ≤ count (is_entry share parent n) rows
                  + count
                      (λ (i : Inode).
                        has_id src.id i
                        && is_entry share parent n (moved_row m (ref_of dir) name st i))
                      rows =
              count-update_add (is_entry share parent n) (has_id src.id)
                (moved_row m (ref_of dir) name st) rows in
            elim (Bool-cases (m.share.id == share)) [
              | inr other ↦
                  let few : count
                        (λ (i : Inode).
                          has_id src.id i
                          && is_entry share parent n (moved_row m (ref_of dir) name st i))
                        rows
                      ≤ count (λ (i : Inode). i.id == src.id && i.share_id == share) rows =
                    count_mono _ _ rows (λ i h. ground (arith, h)) in
                  omega (arith, added, few, apart other, names)
              | inl same ↦
                  let few : count
                        (λ (i : Inode).
                          has_id src.id i
                          && is_entry share parent n (moved_row m (ref_of dir) name st i))
                        rows
                      ≤ count (has_id src.id) rows =
                    count_mono _ _ rows (λ i h. ground (arith, h)) in
                  let still : count (is_entry share parent n) rows ≡ 0 =
                    ap (λ (s : ℕ). count (is_entry s parent n) rows) {x = share} {y = m.share.id}
                      (sym (==→eq m.share.id share same))
                    ∙ ap (λ (t : Text). count (is_entry m.share.id parent t) rows) {x = n}
                        {y = name} (sym (same_text→eq name n (ground (arith, here))))
                    ∙ ap (λ (p : Option ℕ). count (is_entry m.share.id p name) rows) {x = parent}
                        {y = ref_of dir}
                        (sym (same_parent→eq (ref_of dir) parent (ground (arith, here))))
                    ∙ clear in
                  omega (arith, added, few, still, one)
            ]
      ]

drop_overwritten_le :
    (m : Mount) (st : Store) (target : Destination) (share : ℕ) (parent : Option ℕ) (n : Text)
    → count (is_entry share parent n) (drop_overwritten m target st st.inodes)
      ≤ count (is_entry share parent n) st.inodes
drop_overwritten_le m st same_entry share parent n = omega arith
drop_overwritten_le m st free share parent n = omega arith
drop_overwritten_le m st (overwritten dst) share parent n =
    count-update_le (is_entry share parent n) (has_id dst.id) (deleted_row m st) st.inodes
      (λ i h. absurd (ground (arith, h)))

-- A query that reads neither the mark nor who changed the row when.
drop_overwritten_same :
    (m : Mount) (st : Store) (target : Destination) (p : Inode → Bool)
    → ((i : Inode) → p (deleted_row m st i) ≡ p i)
    → count p (drop_overwritten m target st st.inodes) ≡ count p st.inodes
drop_overwritten_same m st same_entry p h = refl
drop_overwritten_same m st free p h = refl
drop_overwritten_same m st (overwritten dst) p h =
    count-update_same p (has_id dst.id) (deleted_row m st) st.inodes h

target_of : (a b : Destination) → ok a ≡ ok b → b ≡ a
target_of a b h = sym (ok_injective a b h)

-- What the destination says of the new name.
abbrev Cleared : Mount → Store → Inode → Text → Destination → Type 0
Cleared m st dir name same_entry = Unit
Cleared m st dir name target =
    count (is_entry m.share.id (ref_of dir) name) (drop_overwritten m target st st.inodes) ≡ 0

moved-IsTidy :
    (m : Mount) (src dir : Inode) (name : Text) (target : Destination) (st after : Store)
    → IsTidy st
    → (p : Option ℕ) (n : Text) → find_by (is_entry m.share.id p n) st.inodes ≡ some src
    → count (is_entry m.share.id (ref_of dir) name) (drop_overwritten m target st st.inodes) ≡ 0
    → after.next_inode ≡ st.next_inode
    → after.inodes
      ≡ update_where
          (has_id src.id)
          (moved_row m (ref_of dir) name st)
          (drop_overwritten m target st st.inodes)
    → IsTidy after
moved-IsTidy m src dir name target st after tidy p n there clear next rows =
    let same_ids : (id : ℕ) → count (has_id id) after.inodes ≡ count (has_id id) st.inodes = λ id.
      ap (count (has_id id)) rows
      ∙ count-update_same (has_id id) (has_id src.id) (moved_row m (ref_of dir) name st)
          (drop_overwritten m target st st.inodes) (λ i. refl)
      ∙ drop_overwritten_same m st target (has_id id) (λ i. refl) in
    record {
      names = λ share parent text.
          subst (λ (l : List Inode). count (is_entry share parent text) l ≤ 1) (sym rows)
            (moved_names m st src dir name (drop_overwritten m target st st.inodes) share parent
              text
              (omega (
                arith,
                drop_overwritten_le m st target share parent text,
                tidy.names share parent text,
              ))
              (omega (
                arith,
                drop_overwritten_same m st target (has_id src.id) (λ i. refl),
                tidy.ids src.id,
              ))
              clear
              (λ other.
                drop_overwritten_same m st target
                  (λ (i : Inode). i.id == src.id && i.share_id == share) (λ i. refl)
                ∙ count_only (is_entry m.share.id p n) (has_id src.id)
                    (λ (i : Inode). i.share_id == share) st.inodes src (tidy.ids src.id) there
                    (==_self src.id)
                    (ap (λ (s : ℕ). s == share) {x = src.share_id} {y = m.share.id}
                        (==→eq src.share_id m.share.id (
                          ground
                            (arith, find_by_found (is_entry m.share.id p n) st.inodes src there)))
                      ∙ other)));
      ids = λ id. omega (arith, same_ids id, tidy.ids id);
      fresh = λ id above. same_ids id ∙ tidy.fresh id (omega (arith, above, next));
      no_zero = same_ids 0 ∙ tidy.no_zero;
      next = omega (arith, tidy.next, next);
    }

move_inode-IsTidy :
    (m : Mount) (src dir : Inode) (name : Text) (target : Destination) (st : Store)
    → IsTidy st
    → (p : Option ℕ) (n : Text) → find_by (is_entry m.share.id p n) st.inodes ≡ some src
    → Cleared m st dir name target
    → IsTidy (move_inode m src dir name target st)
unfolding move_inode
move_inode-IsTidy m src dir name same_entry st tidy p n there clear = tidy
move_inode-IsTidy m src dir name free st tidy p n there clear =
    moved-IsTidy m src dir name free st (move_inode m src dir name free st) tidy p n there clear
      refl refl
move_inode-IsTidy m src dir name (overwritten dst) st tidy p n there clear =
    moved-IsTidy m src dir name (overwritten dst) st
      (move_inode m src dir name (overwritten dst) st) tidy p n there clear refl refl

destination-there :
    (src dst : Inode) (target : Destination) (st : Store)
    → destination src (ok dst) st ≡ ok target
    → (target ≡ same_entry) ⊎ (target ≡ overwritten dst)
unfolding destination
destination-there src dst target st h = elim (Bool-cases (dst.id == src.id)) [
  | inl same ↦ inl (target_of same_entry target (ground (arith, h, same)))
  | inr other ↦ inr (target_of (overwritten dst) target (ground (arith, h, other)))
]

destination-gone :
    (src : Inode) (e : Error) (target : Destination) (st : Store)
    → destination src (err e) st ≡ ok target
    → (e ≡ not_exist) × (target ≡ free)
unfolding destination
destination-gone src e target st h = elim (Bool-cases (is_not_exist e)) [
  | inl gone ↦ (is_not_exist-eq e gone, target_of free target (ground (arith, h, gone)))
  | inr other ↦ absurd (ground (arith, h, other))
]

destination-Cleared :
    (m : Mount) (clean : Text) (src dir : Inode) (target : Destination) (st : Store)
    → IsTidy st
    → Below m clean dir st
    → destination src (lookup m clean false st) st ≡ ok target
    → Cleared m st dir (base_name clean) target
destination-Cleared m clean src dir target st tidy below h =
    elim (Result-cases (lookup m clean false st)) [
      | inr (e, gone) ↦
          let (is_gone, is_free) =
            destination-gone src e target st
              (ap (λ (r : Result Inode). destination src r st) (sym gone) ∙ h) in
          subst (Cleared m st dir (base_name clean)) (sym is_free)
            (lookup-free m clean dir st below (gone ∙ ap (λ (x : Error). err x) is_gone))
      | inl (dst, there) ↦
          elim (destination-there src dst target st
            (ap (λ (r : Result Inode). destination src r st) (sym there) ∙ h)) [
              | inl same ↦ subst (Cleared m st dir (base_name clean)) (sym same) tt
              | inr over ↦ subst (Cleared m st dir (base_name clean)) (sym over) (
                  omega (
                    arith,
                    tidy.names m.share.id (ref_of dir) (base_name clean),
                    count-update_less (is_entry m.share.id (ref_of dir) (base_name clean))
                        (has_id dst.id) (deleted_row m st) st.inodes dst
                        (lookup-entry m clean dir dst st below there) (==_self dst.id)
                        (λ i. ground arith),
                  ))
            ]
    ]

pub rename-Tidies :
    (m : Mount) (old_path new_path : Text) (st : Store)
    → IsTidy st
    → Tidies (rename m old_path new_path st)
unfolding rename rename_clean
rename-Tidies m old_path new_path st tidy = Tidies-then (require_write m) _ (λ u allowed.
    Tidies-then (clean_path old_path) _ (λ old old_cleaned.
      Tidies-then (clean_path new_path) _ (λ new new_cleaned.
        elim (Bool-cases (same_text old (47 ∷ []) || same_text new (47 ∷ []))) [
          | inl root ↦ rw root tt
          | inr below ↦ rw below (elim (Bool-cases (same_text old new)) [
            | inl same ↦ rw same tidy
            | inr other ↦ rw other (
                Tidies-then (lookup m old false st) _ (λ src found.
                  Tidies-then (require_dir m (parent_path new) st) _ (λ dir into.
                    Tidies-then (check_name (base_name new)) _ (λ v fits.
                      Tidies-then (check_not_below src dir st) _ (λ w apart.
                        Tidies-then (destination src (lookup m new false st) st) _ (λ target clear.
                          let (p, n, there) =
                            lookup-row m old src st
                              (clean_path-Parts old_path old old_cleaned (ground (arith, below)))
                              found in
                          move_inode-IsTidy m src dir (base_name new) target st tidy p n there (
                            destination-Cleared m new src dir target st tidy
                              (lookup-Below m new dir st
                                (clean_path-Parts new_path new new_cleaned (ground (arith, below)))
                                into (IsTidy-no_root st tidy))
                              clear)))))))
          ])
        ])))
