-- ===== src/Vfs/Tree/Dangling.antt =====
-- internal/vfs/file.go: proofs about an open over a link whose target was purged.
use zenofs.Common.{
  ℕ, ◌≡◌, refl, sym, ◌∙◌, ap, Bool, true, false, Option, none, some, List, [], ◌∷◌, Result, ok, err,
  not_exist, arith, find_by, find_by_found, count, count-append, count-there, ◌>>=◌,
}
use zenofs.Db.{Inode, InodeKind}
use zenofs.Vfs.Path.{Text, same_text, clean_path, parent_path, base_name}
use zenofs.Vfs.Path.Parts.{clean_path-Parts}
use zenofs.Vfs.Tree.State.{Store, Mount}
use zenofs.Vfs.Tree.Lookup.{
  is_entry, inode_by_id, follow_links, max_symlink_depth, lookup_entry, lookup,
}
use zenofs.Vfs.Tree.Change.{ref_of, check_name, require_dir, new_inode, add_inode, has_exec}
use zenofs.Vfs.Tree.Open.{OpenFlags, create_inode, found_or_new}
use zenofs.Vfs.Tree.Walk.{lookup-Below, bind-ok}
use zenofs.Vfs.Tree.Tidy.{IsTidy, IsTidy-no_root, lookup-entry, new_inode-is_entry}

follow_links-dangling :
    (inodes : List Inode) (link : Inode) (t : ℕ)
    → link.kind ≡ InodeKind.link
    → link.link_id ≡ some t
    → inode_by_id t inodes ≡ none
    → follow_links max_symlink_depth inodes link ≡ err not_exist
unfolding follow_links
follow_links-dangling inodes link t kind to gone = rw kind (rw to (rw gone refl))

bind_lookup :
    (m : Mount) (clean : Text) (link : Inode) (st : Store)
    → lookup m clean false st ≡ ok link
    → lookup_entry m clean st ≡ ok link
unfolding lookup
bind_lookup m clean link st h = sym (bind-ok (lookup_entry m clean st)) ∙ h

lookup-dangling :
    (m : Mount) (clean : Text) (link : Inode) (st : Store)
    → lookup m clean false st ≡ ok link
    → follow_links max_symlink_depth st.inodes link ≡ err not_exist
    → lookup m clean true st ≡ err not_exist
unfolding lookup
lookup-dangling m clean link st h gone =
    ap (λ (r : Result Inode). r >>= λ i. follow_links max_symlink_depth st.inodes i)
      (bind_lookup m clean link st h)
    ∙ gone

found_or_new-creates :
    (m : Mount) (clean : Text) (flags : OpenFlags) (mode : ℕ) (dir : Inode) (st : Store)
    → lookup m clean true st ≡ err not_exist
    → flags.create ≡ true
    → require_dir m (parent_path clean) st ≡ ok dir
    → check_name (base_name clean) ≡ ok tt
    → found_or_new m clean flags mode (lookup m clean true st) st
      ≡ ok (
        new_inode m dir (base_name clean) InodeKind.file (has_exec mode) none st,
        add_inode (new_inode m dir (base_name clean) InodeKind.file (has_exec mode) none st) st,
      )
unfolding found_or_new create_inode
found_or_new-creates m clean flags mode dir st gone creates parent named =
    rw gone (rw creates (rw named (rw parent refl)))

add_inode-counts :
    (m : Mount) (dir : Inode) (name : Text) (kind : InodeKind) (executable : Bool) (link : Option ℕ)
    (st : Store)
    → count (is_entry m.share.id (ref_of dir) name) st.inodes ≡ 1
    → count
        (is_entry m.share.id (ref_of dir) name)
        (add_inode (new_inode m dir name kind executable link st) st).inodes
      ≡ 2
unfolding add_inode
add_inode-counts m dir name kind executable link st one =
    count-append (is_entry m.share.id (ref_of dir) name) st.inodes
      (new_inode m dir name kind executable link st)
    ∙ rw (new_inode-is_entry m dir name kind executable link st) (omega (arith, one))

-- In a tidy tree, an open with Create of a path that names a link whose target row is gone succeeds
-- as far as the row of the file, when the parent is a directory and the name may be used: it adds
-- a second live entry of the link's name to the directory.
pub found_or_new-doubles :
    (m : Mount) (p clean : Text) (flags : OpenFlags) (mode : ℕ) (st : Store) (dir link : Inode)
    (t : ℕ)
    → IsTidy st
    → clean_path p ≡ ok clean
    → same_text clean (47 ∷ []) ≡ false
    → flags.create ≡ true
    → require_dir m (parent_path clean) st ≡ ok dir
    → check_name (base_name clean) ≡ ok tt
    → lookup m clean false st ≡ ok link
    → link.kind ≡ InodeKind.link
    → link.link_id ≡ some t
    → inode_by_id t st.inodes ≡ none
    → (i : Inode) × (after : Store) × ((found_or_new m clean flags mode (lookup m clean true st) st
          ≡ ok (i, after))
        × (count (is_entry m.share.id (ref_of dir) (base_name clean)) after.inodes ≡ 2))
found_or_new-doubles m p clean flags mode st dir link t tidy cleaned below creates parent named
      there kind to gone =
    let entry_there : find_by (is_entry m.share.id (ref_of dir) (base_name clean)) st.inodes
        ≡ some link =
      lookup-entry m clean dir link st
        (lookup-Below m clean dir st (clean_path-Parts p clean cleaned below) parent
          (IsTidy-no_root st tidy))
        there in
    (
      new_inode m dir (base_name clean) InodeKind.file (has_exec mode) none st,
      add_inode (new_inode m dir (base_name clean) InodeKind.file (has_exec mode) none st) st,
      (
        found_or_new-creates m clean flags mode dir st
            (lookup-dangling m clean link st there
              (follow_links-dangling st.inodes link t kind to gone))
            creates parent named,
        add_inode-counts m dir (base_name clean) InodeKind.file (has_exec mode) none st (
            omega (
              arith,
              tidy.names m.share.id (ref_of dir) (base_name clean),
              count-there (is_entry m.share.id (ref_of dir) (base_name clean))
                  (is_entry m.share.id (ref_of dir) (base_name clean)) st.inodes link entry_there
                  (find_by_found (is_entry m.share.id (ref_of dir) (base_name clean)) st.inodes link
                    entry_there),
            )),
      ),
    )
