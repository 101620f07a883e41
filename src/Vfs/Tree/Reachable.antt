-- ===== src/Vfs/Tree/Reachable.antt =====
-- internal/vfs: proofs about every state that clients of the tree can reach.
use zenofs.Common.{subst}
use zenofs.Vfs.Tree.State.{Store}
use zenofs.Vfs.Tree.Steps.{TreeStep, Reaches}
use zenofs.Vfs.Tree.Tidy.{IsTidy}
use zenofs.Vfs.Tree.Keeps.{Tidies, mkdir-Tidies, remove-Tidies, symlink-Tidies}
use zenofs.Vfs.Tree.Moves.{rename-Tidies}
use zenofs.Vfs.Tree.Restores.{restore-Tidies, restore_version-Tidies}

TreeStep-IsTidy : (st after : Store) → TreeStep st after → IsTidy st → IsTidy after
TreeStep-IsTidy st after (TreeStep.made m p mode h) tidy =
    subst Tidies h (mkdir-Tidies m p mode st tidy)
TreeStep-IsTidy st after (TreeStep.removed m p h) tidy = subst Tidies h (remove-Tidies m p st tidy)
TreeStep-IsTidy st after (TreeStep.renamed m old new h) tidy =
    subst Tidies h (rename-Tidies m old new st tidy)
TreeStep-IsTidy st after (TreeStep.linked m target p h) tidy =
    subst Tidies h (symlink-Tidies m target p st tidy)
TreeStep-IsTidy st after (TreeStep.restored m id h) tidy =
    subst Tidies h (restore-Tidies m id st tidy)
TreeStep-IsTidy st after (TreeStep.reverted m version h) tidy =
    subst Tidies h (restore_version-Tidies m version st tidy)
TreeStep-IsTidy st after (TreeStep.ticked now) tidy = record {
  names = tidy.names;
  ids = tidy.ids;
  fresh = tidy.fresh;
  no_zero = tidy.no_zero;
  next = tidy.next;
}

-- From a tidy tree, any sequence of calls of any clients, in any order, leads to a tidy tree: no two
-- live entries of a directory have the same name, no two rows have the same id, ids not given out
-- yet are free, and no row has the id 0 of the root. The calls are Mkdir, Remove, Rename, Symlink,
-- Restore and RestoreVersion.
pub Reaches-IsTidy : (st after : Store) → Reaches st after → IsTidy st → IsTidy after
Reaches-IsTidy st after Reaches.start tidy = tidy
Reaches-IsTidy st after (Reaches.step before next) tidy =
    TreeStep-IsTidy _ after next (Reaches-IsTidy st _ before tidy)
