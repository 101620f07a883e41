-- ===== src/Vfs/Tree/Steps.antt =====
-- internal/vfs: what clients do to the tree, one transaction after another, in any order. A client
-- is a mount: its share, its user and what it may do.
use zenofs.Common.{ℕ, ◌≡◌, ok}
use zenofs.Vfs.Path.{Text}
use zenofs.Vfs.Tree.State.{Store, Mount}
use zenofs.Vfs.Tree.Change.{mkdir, remove, rename, symlink}
use zenofs.Vfs.Tree.Recycle.{restore, restore_version}

-- One call of a client, or the clock.
pub data TreeStep : Store → Store → Type 0 where
  made :
      {st after : Store} (m : Mount) (p : Text) (mode : ℕ)
      → mkdir m p mode st ≡ ok after
      → TreeStep st after
  removed : {st after : Store} (m : Mount) (p : Text) → remove m p st ≡ ok after → TreeStep st after
  renamed :
      {st after : Store} (m : Mount) (old_path new_path : Text)
      → rename m old_path new_path st ≡ ok after
      → TreeStep st after
  linked :
      {st after : Store} (m : Mount) (target link_path : Text)
      → symlink m target link_path st ≡ ok after
      → TreeStep st after
  restored :
      {st after : Store} (m : Mount) (id : ℕ) → restore m id st ≡ ok after → TreeStep st after
  reverted :
      {st after : Store} (m : Mount) (version : ℕ)
      → restore_version m version st ≡ ok after
      → TreeStep st after
  ticked : {st : Store} (now : ℕ) → TreeStep st (record st { now = now })

pub data Reaches : Store → Store → Type 0 where
  start : {st : Store} → Reaches st st
  step : {st mid after : Store} → Reaches st mid → TreeStep mid after → Reaches st after
