-- ===== src/Vfs/Tree/Examples.antt =====
-- A share with one directory and a client that may write.
use zenofs.Common.{
  ℕ, ◌≡◌, refl, true, false, none, some, [], ◌∷◌, Result, ok, err, arith, count, find_by,
  update_where,
}
use zenofs.Db.{Inode, InodeKind, InodeEventType, Share, SharePermission}
use zenofs.Vfs.Path.{
  Text, rooted, backwards, clean_segments, split, clean_segment, joined, path_segments, up_to_slash,
  last_segment, clean_path, parent_path, base_name,
}
use zenofs.Vfs.Tree.State.{Store, Mount, require_write}
use zenofs.Vfs.Tree.Lookup.{
  root_inode, walk, entry, lookup_entry, follow_links, is_entry, lookup, inode_by_id,
}
use zenofs.Vfs.Tree.Change.{
  create_at, rename_clean, must_be_absent, add_inode, new_inode, check_not_below, is_descendant,
  is_below, destination, move_inode, parent_of, ref_of, check_name, require_dir, mkdir, rename,
}
use zenofs.Vfs.Tree.Open.{OpenFlags, found_or_new}
use zenofs.Vfs.Tree.Steps.{TreeStep, Reaches}
use zenofs.Vfs.Tree.Tidy.{IsTidy}
use zenofs.Vfs.Tree.Reachable.{Reaches-IsTidy}
use zenofs.Vfs.Tree.Created.{mkdir-lookup}
use zenofs.Vfs.Tree.Dangling.{found_or_new-doubles}

abbrev share : Share
share = record {
  id = 1;
  name = 115 ∷ [];
  pool_id = 1;
  quota = 0;
  codec = record { compression = 0; encryption = 0 };
  key_hash = [];
  created_by = 2;
  created_at = 0;
}

abbrev mount : Mount
mount = record { share = share; user_id = 2; perm = SharePermission.share_write }

abbrev empty_tree : Store
empty_tree = record { inodes = []; versions = []; history = []; next_inode = 1; now = 5 }

empty_tree-IsTidy : IsTidy empty_tree
unfolding count
empty_tree-IsTidy = record {
  names = λ s p n. omega arith;
  ids = λ id. omega arith;
  fresh = λ id above. refl;
  no_zero = refl;
  next = omega arith;
}

abbrev slash_a : Text
slash_a = 47 ∷ 97 ∷ []

abbrev slash_b : Text
slash_b = 47 ∷ 98 ∷ []

abbrev stored : Result Store → Store
stored (ok st) = st
stored (err e) = empty_tree

abbrev dir_row : ℕ → Text → ℕ → Inode
dir_row id name at = record {
  id = id;
  parent_id = none;
  name = name;
  kind = InodeKind.dir;
  share_id = 1;
  version_id = none;
  link_id = none;
  executable = true;
  created_by = 2;
  updated_by = 2;
  updated_at = at;
  deleted = false;
}

abbrev with_a : Store
with_a = record empty_tree { inodes = dir_row 1 (97 ∷ []) 5 ∷ []; next_inode = 2 }

abbrev with_b : Store
with_b = record with_a {
  inodes = dir_row 1 (98 ∷ []) 5 ∷ [];
  history =
      record {
        inode_id = 1;
        event = InodeEventType.inode_renamed;
        old_name = some (97 ∷ []);
        new_name = some (98 ∷ []);
        old_parent_id = none;
        new_parent_id = none;
        created_at = 5;
      }
      ∷ [];
}

made_a : mkdir mount slash_a 493 empty_tree ≡ ok with_a
unfolding mkdir rename require_write create_at rename_clean clean_path rooted backwards
    clean_segments split clean_segment joined require_dir lookup lookup_entry walk entry find_by
    path_segments parent_path up_to_slash base_name last_segment check_name must_be_absent add_inode
    new_inode ref_of root_inode follow_links check_not_below is_descendant is_below destination
    move_inode update_where parent_of
made_a = refl

renamed_b : rename mount slash_a slash_b with_a ≡ ok with_b
unfolding mkdir rename require_write create_at rename_clean clean_path rooted backwards
    clean_segments split clean_segment joined require_dir lookup lookup_entry walk entry find_by
    path_segments parent_path up_to_slash base_name last_segment check_name must_be_absent add_inode
    new_inode ref_of root_inode follow_links check_not_below is_descendant is_below destination
    move_inode update_where parent_of
renamed_b = refl

Reaches-IsTidy_example : IsTidy with_b
Reaches-IsTidy_example =
    Reaches-IsTidy empty_tree with_b
      (Reaches.step (Reaches.step Reaches.start (TreeStep.made mount slash_a 493 made_a))
        (TreeStep.renamed mount slash_a slash_b renamed_b))
      empty_tree-IsTidy

one_row : Inode → Store
one_row i = record empty_tree { inodes = i ∷ []; next_inode = 2 }

one_row-IsTidy : (i : Inode) → i.id ≡ 1 → IsTidy (one_row i)
unfolding count one_row
one_row-IsTidy i one = record {
  names = λ s p n. ground arith;
  ids = λ id. ground arith;
  fresh = λ id above. ground (arith, one, above);
  no_zero = ground (arith, one);
  next = omega arith;
}

abbrev with_both : Store
with_both = record with_a {
  inodes = dir_row 1 (97 ∷ []) 5 ∷ dir_row 2 (98 ∷ []) 5 ∷ [];
  next_inode = 3;
}

with_a-IsTidy : IsTidy with_a
unfolding one_row
with_a-IsTidy = one_row-IsTidy (dir_row 1 (97 ∷ []) 5) refl

made_b : mkdir mount slash_b 493 with_a ≡ ok with_both
unfolding mkdir rename require_write create_at rename_clean clean_path rooted backwards
    clean_segments split clean_segment joined require_dir lookup lookup_entry walk entry find_by
    path_segments parent_path up_to_slash base_name last_segment check_name must_be_absent add_inode
    new_inode ref_of root_inode follow_links check_not_below is_descendant is_below destination
    move_inode update_where parent_of
made_b = refl

found_a : lookup mount slash_a true with_a ≡ ok (dir_row 1 (97 ∷ []) 5)
unfolding mkdir rename require_write create_at rename_clean clean_path rooted backwards
    clean_segments split clean_segment joined require_dir lookup lookup_entry walk entry find_by
    path_segments parent_path up_to_slash base_name last_segment check_name must_be_absent add_inode
    new_inode ref_of root_inode follow_links check_not_below is_descendant is_below destination
    move_inode update_where parent_of
found_a = refl

clean_b : clean_path slash_b ≡ ok slash_b
unfolding mkdir rename require_write create_at rename_clean clean_path rooted backwards
    clean_segments split clean_segment joined require_dir lookup lookup_entry walk entry find_by
    path_segments parent_path up_to_slash base_name last_segment check_name must_be_absent add_inode
    new_inode ref_of root_inode follow_links check_not_below is_descendant is_below destination
    move_inode update_where parent_of
clean_b = refl

mkdir-lookup_example :
    (i : Inode) × ((lookup mount slash_b false with_both ≡ ok i)
      × (((i.kind ≡ InodeKind.dir) × ((i.name ≡ base_name slash_b) × (i.created_by ≡ 2)))
          × (lookup mount slash_a true with_both ≡ ok (dir_row 1 (97 ∷ []) 5))))
mkdir-lookup_example =
    mkdir-lookup mount slash_b slash_b 493 with_a with_both slash_a true (dir_row 1 (97 ∷ []) 5)
      with_a-IsTidy clean_b made_b found_a

abbrev lost_link : Inode
lost_link = record (dir_row 1 (98 ∷ []) 5) { kind = InodeKind.link; link_id = some 7 }

abbrev with_link : Store
with_link = record empty_tree { inodes = lost_link ∷ []; next_inode = 2 }

with_link-IsTidy : IsTidy with_link
unfolding one_row
with_link-IsTidy = one_row-IsTidy lost_link refl

root_there : require_dir mount (parent_path slash_b) with_link ≡ ok (root_inode mount)
unfolding mkdir rename require_write create_at rename_clean clean_path rooted backwards
    clean_segments split clean_segment joined require_dir lookup lookup_entry walk entry find_by
    path_segments parent_path up_to_slash base_name last_segment check_name must_be_absent add_inode
    new_inode ref_of root_inode follow_links check_not_below is_descendant is_below destination
    move_inode update_where parent_of
root_there = refl

link_there : lookup mount slash_b false with_link ≡ ok lost_link
unfolding mkdir rename require_write create_at rename_clean clean_path rooted backwards
    clean_segments split clean_segment joined require_dir lookup lookup_entry walk entry find_by
    path_segments parent_path up_to_slash base_name last_segment check_name must_be_absent add_inode
    new_inode ref_of root_inode follow_links check_not_below is_descendant is_below destination
    move_inode update_where parent_of
link_there = refl

good_name : check_name (base_name slash_b) ≡ ok tt
unfolding mkdir rename require_write create_at rename_clean clean_path rooted backwards
    clean_segments split clean_segment joined require_dir lookup lookup_entry walk entry find_by
    path_segments parent_path up_to_slash base_name last_segment check_name must_be_absent add_inode
    new_inode ref_of root_inode follow_links check_not_below is_descendant is_below destination
    move_inode update_where parent_of
good_name = refl

target_gone : inode_by_id 7 with_link.inodes ≡ none
unfolding mkdir rename require_write create_at rename_clean clean_path rooted backwards
    clean_segments split clean_segment joined require_dir lookup lookup_entry walk entry find_by
    path_segments parent_path up_to_slash base_name last_segment check_name must_be_absent add_inode
    new_inode ref_of root_inode follow_links check_not_below is_descendant is_below destination
    move_inode update_where parent_of
target_gone = refl

abbrev creating : OpenFlags
creating = record {
  reading = true;
  writing = true;
  create = true;
  exclusive = true;
  truncating = false;
  appending = false;
}

found_or_new-doubles_example :
    (i : Inode) × (after : Store) × ((found_or_new mount slash_b creating 420
          (lookup mount slash_b true with_link)
          with_link
        ≡ ok (i, after))
      × (count (is_entry 1 (ref_of (root_inode mount)) (base_name slash_b)) after.inodes ≡ 2))
found_or_new-doubles_example =
    found_or_new-doubles mount slash_b slash_b creating 420 with_link (root_inode mount) lost_link 7
      with_link-IsTidy clean_b refl refl root_there good_name link_there refl refl target_gone
