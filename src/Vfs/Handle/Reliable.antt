-- ===== src/Vfs/Handle/Reliable.antt =====
-- What an open file relies on in the storage pool and the codec while their disks and the key are
-- there: a stored chunk reads back, later calls leave it alone, and a slice fits once encoded.
use zenofs.Common.{ℕ, ◌≤◌, ◌<◌, ◌≡◌, ◌∙◌, Option, none, some, List, ok, err, arith, length}
use zenofs.Db.{Codec}
use zenofs.Vfs.Handle.State.{Stored, Backend}

-- `content` is what the pool holds under a chunk id, and `Fits` says which chunks it accepts: no
-- empty one, and none above the chunk size of the pool.
pub record IsReliable (B : Backend) (slice : ℕ) : Type 1 where
  pub content : B.Pool → ℕ → Option (List ℕ)
  pub Fits : List ℕ → Type 0
  -- The pool is online with its disks there, and beside that the codec can be used: known algorithms,
  -- and a key where one is needed.
  pub Healthy : B.Pool → Type 0
  pub Ready : B.Pool → Codec → Type 0
  pub ready_healthy : (p : B.Pool) (c : Codec) → Ready p c → Healthy p
  pub read_ok :
      (p : B.Pool) (id : ℕ) (d : List ℕ)
      → Healthy p
      → content p id ≡ some d
      → (B.read_chunk p id).0 ≡ ok d
  pub read_keeps :
      (p : B.Pool) (id j : ℕ) → Healthy p → content (B.read_chunk p id).1 j ≡ content p j
  pub encode_ok :
      (p : B.Pool) (plain : List ℕ) (c : Codec)
      → Ready p c
      → 0 < length plain
      → length plain ≤ slice
      → (st : List ℕ) × ((B.encode p plain c).0 ≡ ok st)
        × Fits st
        × (B.decode (B.encode p plain c).1 st c ≡ ok plain)
  pub encode_keeps :
      (p : B.Pool) (plain : List ℕ) (c : Codec) (j : ℕ)
      → content (B.encode p plain c).1 j ≡ content p j
  pub encode_decode :
      (p : B.Pool) (plain st : List ℕ) (c d : Codec)
      → B.decode (B.encode p plain c).1 st d ≡ B.decode p st d
  pub read_decode :
      (p : B.Pool) (id : ℕ) (st : List ℕ) (d : Codec)
      → B.decode (B.read_chunk p id).1 st d ≡ B.decode p st d
  pub add_decode :
      (p : B.Pool) (chunk st : List ℕ) (d : Codec)
      → B.decode (B.add_chunk p chunk).1 st d ≡ B.decode p st d
  pub add_ok :
      (p : B.Pool) (st : List ℕ) (c : Codec)
      → Ready p c
      → Fits st
      → (r : Stored) × ((B.add_chunk p st).0 ≡ ok r)
        × (content (B.add_chunk p st).1 r.chunk_id ≡ some st)
  pub read_ready : (p : B.Pool) (id : ℕ) (c : Codec) → Ready p c → Ready (B.read_chunk p id).1 c
  pub encode_ready :
      (p : B.Pool) (plain : List ℕ) (e c : Codec) → Ready p c → Ready (B.encode p plain e).1 c
  pub add_ready :
      (p : B.Pool) (st : List ℕ) (c : Codec) → Ready p c → Fits st → Ready (B.add_chunk p st).1 c
  pub add_keeps :
      (p : B.Pool) (st : List ℕ) (j : ℕ) (d : List ℕ)
      → Healthy p
      → Fits st
      → content p j ≡ some d
      → content (B.add_chunk p st).1 j ≡ some d

module _ (B : Backend) {slice : ℕ} (L : IsReliable B slice) where
  open B use {Pool}

  -- The plain text of a chunk, as a read of it comes back.
  abbrev decoded : Pool → Codec → Option (List ℕ) → Option (List ℕ)
  decoded p c none = none
  decoded p c (some st) = elim (B.decode p st c) [ ok d ↦ some d | err _ ↦ none ]

  pub stored : Pool → Codec → ℕ → Option (List ℕ)
  stored p c id = decoded p c (L.content p id)

  -- Everything readable stays readable, with the same plain text, and what can be used stays usable.
  pub record Extends (p q : Pool) : Type 0 where
    pub kept : (c : Codec) (id : ℕ) (d : List ℕ) → stored p c id ≡ some d → stored q c id ≡ some d
    pub ready : (c : Codec) → L.Ready p c → L.Ready q c

  pub Extends-refl : (p : Pool) → Extends p p
  Extends-refl p = record { kept = λ c id d h. h; ready = λ c h. h }

  pub Extends-trans : {p q r : Pool} → Extends p q → Extends q r → Extends p r
  Extends-trans e f = record {
    kept = λ c id d h. f.kept c id d (e.kept c id d h);
    ready = λ c h. f.ready c (e.ready c h);
  }

  -- What is readable under an id is what the pool holds there, decoded.
  pub stored_cases :
      (p : Pool) (c : Codec) (id : ℕ) (d : List ℕ)
      → stored p c id ≡ some d
      → (st : List ℕ) × (L.content p id ≡ some st) × (B.decode p st c ≡ ok d)
  unfolding stored
  stored_cases p c id d h = ground arith

  pub stored_of :
      (p : Pool) (c : Codec) (id : ℕ) (st d : List ℕ)
      → L.content p id ≡ some st
      → B.decode p st c ≡ ok d
      → stored p c id ≡ some d
  unfolding stored
  stored_of p c id st d h k = ground arith

  pub read-Extends : (p : Pool) (id : ℕ) → L.Healthy p → Extends p (B.read_chunk p id).1
  read-Extends p id well = record {
    kept = λ c j d h.
        let (st, held, plain) = stored_cases p c j d h in
        stored_of _ c j st d (L.read_keeps p id j well ∙ held) (L.read_decode p id st c ∙ plain);
    ready = L.read_ready p id;
  }

  pub encode-Extends : (p : Pool) (plain : List ℕ) (e : Codec) → Extends p (B.encode p plain e).1
  encode-Extends p t e = record {
    kept = λ c j d h.
        let (st, held, plain) = stored_cases p c j d h in
        stored_of _ c j st d (L.encode_keeps p t e j ∙ held) (L.encode_decode p t st e c ∙ plain);
    ready = L.encode_ready p t e;
  }

  pub add-Extends :
      (p : Pool) (chunk : List ℕ) → L.Healthy p → L.Fits chunk → Extends p (B.add_chunk p chunk).1
  add-Extends p k well fits = record {
    kept = λ c j d h.
        let (st, held, plain) = stored_cases p c j d h in
        stored_of _ c j st d (L.add_keeps p k j st well fits held) (L.add_decode p k st c ∙ plain);
    ready = λ c h. L.add_ready p k c h fits;
  }
