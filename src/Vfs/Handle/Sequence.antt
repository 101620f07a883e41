-- ===== src/Vfs/Handle/Sequence.antt =====
-- internal/vfs/file_write.go: sequences of writes and truncations against a plain array of bytes.
use zenofs.Common.{
  ℕ, ◌+◌, ◌-◌, ◌≤◌, ◌<◌, ◌≡◌, Bool, true, false, ◌&&◌, Option, none, some, List, [], ◌∷◌, Result,
  ok, err, Error, length, get_or, max, pos, ltb, ◌==◌, if◌then◌else◌,
}
use zenofs.Vfs.Handle.State.{Backend, State}
use zenofs.Vfs.Handle.Reliable.{IsReliable}
use zenofs.Vfs.Handle.View.{IsSound, byte_at}
use zenofs.Vfs.Handle.Flush.{IsSolid}
use zenofs.Vfs.Handle.Offsets.{inside}
use zenofs.Vfs.Handle.Write.{int64_limit, write_at}
use zenofs.Vfs.Handle.Truncate.{truncate_to}
use zenofs.Vfs.Handle.TruncateSlices.{Unseen}

-- A call of WriteAt or of Truncate.
pub data FileOp : Type 0 where
  put : List ℕ → ℕ → FileOp
  cut : ℕ → FileOp

-- A plain file: its size, and a byte for each offset.
pub record Plain : Type 0 where
  pub size : ℕ
  pub byte : ℕ → ℕ

abbrev pub plain_step : FileOp → Plain → Plain
plain_step (put [] off) f = f
plain_step (put (x ∷ p) off) f = record {
  size = max f.size (off + length (x ∷ p));
  byte = λ k. if inside off (length (x ∷ p)) k then get_or (x ∷ p) (k - off) 0 else f.byte k;
}
plain_step (cut size) f = record { size = size; byte = λ k. if ltb k size then f.byte k else 0 }

abbrev pub plain_run : List FileOp → Plain → Plain
plain_run [] f = f
plain_run (op ∷ ops) f = plain_run ops (plain_step op f)

-- No call reaches 2^63, where the code's offsets wrap.
abbrev pub IsInRange : ℕ → FileOp → Type 0
IsInRange slice (put p off) = off + length p < int64_limit
IsInRange slice (cut size) = size + slice ≤ int64_limit

abbrev pub AreInRange : ℕ → List FileOp → Type 0
AreInRange slice [] = Unit
AreInRange slice (op ∷ ops) = IsInRange slice op × AreInRange slice ops

abbrev succeeded : {A : Type 0} → Result A → Bool
succeeded (ok a) = true
succeeded (err e) = false

abbrev wrote_all : ℕ → ℕ × Option Error → Bool
wrote_all n (m, none) = n == m
wrote_all n (m, some e) = false

module _ (B : Backend) where
  open B use {Pool}

  -- Whether the call did all it was asked to, and the state it leaves.
  unfoldable pub apply_op : FileOp → State Pool → Bool × State Pool
  apply_op (put p off) s = let r = write_at B p (pos off) s in (wrote_all (length p) r.0, r.1)
  apply_op (cut size) s = let r = truncate_to B (pos size) s in (succeeded r.0, r.1)

  unfoldable pub run_ops : List FileOp → State Pool → Bool × State Pool
  run_ops [] s = (true, s)
  run_ops (op ∷ ops) s =
      let r = apply_op op s in let rest = run_ops ops r.1 in (r.0 && rest.0, rest.1)

module _ {B : Backend} {slice : ℕ} (L : IsReliable B slice) where
  open B use {Pool}

  -- A writable file that had no slices when it was opened, on a share without a quota, that reads
  -- as the plain file.
  pub record Refines (s : State Pool) (f : Plain) : Type 0 where
    pub sound : IsSound L s
    pub solid : IsSolid L s
    pub unseen : Unseen L s
    pub allowed : s.writable ≡ true
    pub unlimited : s.share.quota ≡ 0
    pub size : s.new_ver.size ≡ f.size
    pub bytes : (k : ℕ) → byte_at L s k ≡ f.byte k
    pub ends : (k : ℕ) → f.size ≤ k → f.byte k ≡ 0
