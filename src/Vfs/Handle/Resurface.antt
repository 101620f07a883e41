-- ===== src/Vfs/Handle/Resurface.antt =====
-- internal/vfs/file_write.go: what a truncation to nothing leaves of the slices found at open.
use zenofs.Common.{ℕ, true}
use zenofs.Vfs.Handle.State.{Backend, State, set_handle}
use zenofs.Vfs.Handle.Reliable.{IsReliable}
use zenofs.Vfs.Handle.Truncate.{drop_tail}

module _ {B : Backend} {slice : ℕ} (L : IsReliable B slice) where
  open B use {Pool}

  abbrev emptied : State Pool → State Pool
  emptied s =
      let t = drop_tail B 0 s in
      set_handle t (record t.handle { new_ver = record s.new_ver { size = 0 }; dirty = true })
