-- ===== src/Vfs/Handle/Examples.antt =====
-- Open files with the codec of crypto.go, over a pool that is a list of chunks.
use zenofs.Common.{
  ℕ, ◌<◌, ◌≡◌, refl, sym, ap, some_injective, drop, Error, Bool, true, false, Option, none, some,
  List, [], ◌∷◌, Result, ok, err, not_exist, arith, length, ◌==◌, if◌then◌else◌, find_by,
}
use zenofs.Db.{Codec}
use zenofs.Vfs.Crypto.{
  Bytes, Primitives, require_codec, require_encryption, slice_size, slice_overhead_for, has_key,
  key_bytes,
}
use zenofs.Vfs.Crypto.Examples.{toy, toy-IsSound, zeros}
use zenofs.Vfs.Handle.Coded.{ChunkStore, KeyedMount, coded, IsKeeping, IsWorking, coded-IsReliable}
use zenofs.Vfs.Handle.State.{Backend, State}
use zenofs.Vfs.Handle.Slices.{slice_at}
use zenofs.Vfs.Handle.Reliable.{IsReliable}
use zenofs.Vfs.Handle.View.{IsSound}
use zenofs.Vfs.Handle.TruncateSlices.{Unseen}

-- The newest chunk stands first; its id is the number of chunks before it.
abbrev content : List (List ℕ) → ℕ → Option (List ℕ)
content [] id = none
content (c ∷ cs) id = if id == length cs then some c else content cs id

abbrev found : Option (List ℕ) → Result (List ℕ)
found none = err not_exist
found (some d) = ok d

-- Whether the pool is online, and its chunks.
abbrev pub Shelf : Type 0
Shelf = Bool × List (List ℕ)

abbrev pub shelves : ChunkStore
shelves = record {
  Shelf = Shelf;
  add = λ p d.
      if p.0
      then (ok (record { chunk_id = length p.1; hash = [] }), (p.0, d ∷ p.1))
      else (err (Error.coded 9), p);
  read = λ p id. (if p.0 then found (content p.1 id) else err (Error.coded 9), p);
  rebuild = λ p id. p;
}

-- Every packed slice begins with a byte of its own.
abbrev tools : Primitives
tools = record toy { zstd_encode = λ b. some (40 ∷ b); zstd_decode = λ b. some (drop 1 b) }

abbrev mount : KeyedMount
mount = record { key = zeros 32; unlocked = none; nonce = λ n. zeros 12 }

abbrev pub chunks : Backend
chunks = coded shelves tools mount

abbrev pub OnShelf : Type 0
OnShelf = Shelf × ℕ

content_below : (p : List (List ℕ)) (id : ℕ) (d : List ℕ) → content p id ≡ some d → id < length p
content_below [] id d h = ground arith
content_below (c ∷ cs) id d h = ground (arith, content_below cs id d)

pub content_add :
    (p : List (List ℕ)) (st : List ℕ) (j : ℕ) (d : List ℕ)
    → content p j ≡ some d
    → content (st ∷ p) j ≡ some d
content_add p st j d h = ground (arith, content_below p j d h)

pub content_new : (p : List (List ℕ)) (st : List ℕ) → content (st ∷ p) (length p) ≡ some st
content_new p st = ground arith

abbrev shelves-IsKeeping : IsKeeping shelves 1024
shelves-IsKeeping = record {
  content = λ p. content p.1;
  Online = λ p. p.0 ≡ true;
  read_ok = λ p id d online h. ground (arith, online, h);
  read_keeps = λ p id j online. refl;
  read_online = λ p id online. online;
  add_ok = λ p st online some_bytes within. (
    record { chunk_id = length p.1; hash = [] },
    ground (arith, online),
    ground (arith, online, content_new p.1 st),
  );
  add_keeps =
      λ p st j d online some_bytes within h. ground (arith, online, content_add p.1 st j d h);
  add_online = λ p st online some_bytes within. ground (arith, online);
}

pub tools-IsWorking : IsWorking tools mount
tools-IsWorking = record {
  sound = record {
    zstd_decodes = λ b out h. ap (λ (l : Bytes). some (drop 1 l)) (sym (some_injective _ out h));
    zstd_bound = λ b out h. omega (arith, ap length (some_injective _ out h));
    gcm_opens = toy-IsSound.gcm_opens;
    gcm_length = toy-IsSound.gcm_length;
    blake3_length = toy-IsSound.blake3_length;
  };
  packs = λ b. (40 ∷ b, refl);
  packs_some = λ b out h. omega (arith, ap length (some_injective _ out h));
  drawn = λ n. refl;
}

abbrev pub reliable : IsReliable chunks 4
reliable = coded-IsReliable tools mount tools-IsWorking 1 4 (omega arith) shelves-IsKeeping

abbrev pub plain_codec : Codec
plain_codec = record { compression = 0; encryption = 0 }

abbrev full_codec : Codec
full_codec = record { compression = 1; encryption = 1 }

abbrev pub on_shelf : List (List ℕ) → OnShelf
on_shelf l = ((true, l), 0)

pub plain_usable : (l : List (List ℕ)) → reliable.Ready (on_shelf l) plain_codec
unfolding require_codec require_encryption slice_size slice_overhead_for
plain_usable l = (refl, refl, omega arith)

pub full_usable : (l : List (List ℕ)) → reliable.Ready (on_shelf l) full_codec
unfolding require_codec require_encryption slice_size slice_overhead_for has_key key_bytes
full_usable l = (refl, refl, omega arith)

-- A new file of share 1, opened for reading and writing, with `size` bytes that `active` holds.
abbrev pub new_file : ℕ → Option (ℕ × List ℕ) → State OnShelf
new_file size active = record {
  handle = record {
    inode = 5;
    readable = true;
    writable = true;
    appending = false;
    offset = 0;
    closed = false;
    old_ver = none;
    old_chunks = [];
    new_ver = record {
      id = 7;
      inode_id = 5;
      parent_id = none;
      size = size;
      codec = full_codec;
      created_by = 2;
    };
    new_chunks = [];
    dirty = false;
    active = active;
  };
  world = record {
    pool = on_shelf [];
    versions = [];
    version_chunks = [];
    inodes = [];
    next_version = 8;
    now = 0;
    share = record {
      id = 1;
      name = [];
      pool_id = 1;
      quota = 0;
      codec = full_codec;
      key_hash = [];
      created_by = 2;
      created_at = 0;
    };
    user_id = 2;
    slice_bytes = 4;
  };
}

abbrev pub empty_file : State OnShelf
empty_file = new_file 0 none

abbrev pub three_bytes : State OnShelf
three_bytes = new_file 3 (some (0, 1 ∷ 2 ∷ 3 ∷ []))

pub empty_file-IsSound : IsSound reliable empty_file
unfolding slice_at find_by
empty_file-IsSound = record {
  slice_positive = omega arith;
  slice_known = refl;
  new_holds = λ i vc h. ground arith;
  old_holds = λ i vc h. ground arith;
  active_fits = λ i buf h. ground arith;
  ready = full_usable [];
  synced = λ i. refl;
}

pub new_file-Unseen : (size : ℕ) (a : Option (ℕ × List ℕ)) → Unseen reliable (new_file size a)
unfolding slice_at find_by
new_file-Unseen size a i = refl
