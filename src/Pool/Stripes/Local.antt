-- ===== src/Pool/Stripes/Local.antt =====
-- internal/pool/handler.go: files by disk and path, as a local handler keeps them.
use zenofs.Common.{
  ℕ, ◌≡◌, refl, sym, ap, ◌∙◌, ◌⊎◌, inl, inr, true, false, ◌&&◌, Option, none, some, List, [], ◌∷◌,
  ◌==◌, arith, if◌then◌else◌, Option-cases, Bool-cases, some_injective, find_by, find_by_found,
  ==→eq,
}
use zenofs.Pool.Tables.{Chunk}
use zenofs.Pool.Disks.{
  Disk, DiskBackend, ChunkHandler, read_chunk, write_chunk, handler_for, disk_by_id, same_backend,
}
use zenofs.Pool.Stripes.Rebuild.Whole.{IsFiles}
use zenofs.Vfs.Crypto.{Bytes}
use zenofs.Vfs.Path.{same_text}
use zenofs.Vfs.Path.Equal.{same_text_self}

abbrev pub Files : Type 0
Files = ℕ → List ℕ → Option Bytes

abbrev put_file : Files → ℕ → List ℕ → Bytes → Files
put_file s i p b = λ j q. if i == j && same_text p q then some b else s j q

abbrev pub local_chunk_handler : ChunkHandler Files
local_chunk_handler = record {
  backend = DiskBackend.local_backend;
  write = λ s d p b. some (put_file s d.id p b);
  read = λ s d p. s d.id p;
}

abbrev pub handlers : List (ChunkHandler Files)
handlers = local_chunk_handler ∷ []

handler_for_local :
    (b : DiskBackend)
    → same_backend DiskBackend.local_backend b ≡ true
    → handler_for handlers b ≡ some local_chunk_handler
unfolding handler_for find_by
handler_for_local b h = rw (h) refl

handler_for_other :
    (b : DiskBackend)
    → same_backend DiskBackend.local_backend b ≡ false
    → handler_for handlers b ≡ none
unfolding handler_for find_by
handler_for_other b h = rw (h) refl

read_chunk_found :
    (disks : List Disk) (c : Chunk) (d : Disk)
    → disk_by_id disks c.disk_id ≡ some d
    → same_backend DiskBackend.local_backend d.backend ≡ true
    → (u : Files) → read_chunk handlers disks u c ≡ u c.disk_id c.path
unfolding read_chunk
read_chunk_found disks c d there local u =
    let same : d.id ≡ c.disk_id =
      ==→eq d.id c.disk_id (find_by_found (λ (x : Disk). x.id == c.disk_id) disks d there) in
    let read : read_chunk handlers disks u c ≡ u d.id c.path =
      ground (arith, there, handler_for_local d.backend local) in
    read ∙ ap (λ (i : ℕ). u i c.path) same

-- A chunk whose disk or handler is not there has no file.
read_chunk-cases :
    (disks : List Disk) (c : Chunk)
    → ((u : Files) → read_chunk handlers disks u c ≡ none)
      ⊎ ((u : Files) → read_chunk handlers disks u c ≡ u c.disk_id c.path)
unfolding read_chunk
read_chunk-cases disks c = elim (Option-cases (disk_by_id disks c.disk_id)) [
  | inl gone ↦ inl (λ u. ground (arith, gone))
  | inr (d, there) ↦ elim (Bool-cases (same_backend DiskBackend.local_backend d.backend)) [
    | inl local ↦ inr (read_chunk_found disks c d there local)
    | inr other ↦ inl (λ u. ground (arith, there, handler_for_other d.backend other))
  ]
]

-- Where a write puts its bytes.
write_chunk-put_file :
    (disks : List Disk) (s s' : Files) (c : Chunk) (b : Bytes)
    → write_chunk handlers disks s c b ≡ some s'
    → (s' ≡ put_file s c.disk_id c.path b)
      × ((u : Files) → read_chunk handlers disks u c ≡ u c.disk_id c.path)
unfolding write_chunk read_chunk
write_chunk-put_file disks s s' c b e = elim (Option-cases (disk_by_id disks c.disk_id)) [
  | inl gone ↦ absurd (ground (arith, gone, e))
  | inr (d, there) ↦
      let same : d.id ≡ c.disk_id =
        ==→eq d.id c.disk_id (find_by_found (λ (x : Disk). x.id == c.disk_id) disks d there) in
      elim (Bool-cases (same_backend DiskBackend.local_backend d.backend)) [
        | inl local ↦ (
          some_injective s' (put_file s d.id c.path b)
                (sym e ∙ ground (arith, there, handler_for_local d.backend local))
              ∙ ap (λ (i : ℕ). put_file s i c.path b) same,
          read_chunk_found disks c d there local,
        )
        | inr other ↦ absurd (ground (arith, there, handler_for_other d.backend other, e))
      ]
]

pub local-IsFiles : (disks : List Disk) → IsFiles handlers disks
local-IsFiles disks = record {
  written = λ s s' c b e.
      let w = write_chunk-put_file disks s s' c b e in
      let self : (c.disk_id == c.disk_id && same_text c.path c.path) ≡ true =
        ground (arith, same_text_self c.path) in
      w.1 s' ∙ ap (λ (u : Files). u c.disk_id c.path) w.0 ∙ (rw (self) refl);
  others = λ s s' c d b e apart. elim (read_chunk-cases disks d) [
    | inl gone ↦ gone s' ∙ sym (gone s)
    | inr file ↦
        let w = write_chunk-put_file disks s s' c b e in
        file s' ∙ ap (λ (u : Files). u d.disk_id d.path) w.0 ∙ (rw (apart) refl) ∙ sym (file s)
  ];
}
