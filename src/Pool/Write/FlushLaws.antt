-- ===== src/Pool/Write/FlushLaws.antt =====
-- internal/pool/chunk.go: what is proved of the flush of the queue of writes.
use zenofs.Common.{ℕ, ◌||◌, Bool, true, false, ◌&&◌, List, [], ◌∷◌, ◌==◌}
use zenofs.Pool.Tables.{WriteTask, StripeTask, TaskStatus, is_parity_task}
use zenofs.Pool.Worker.{is_pending}
use zenofs.Pool.Write.Queue.{DoneWrite}

-- A parity task for the stripe, as it waits.
abbrev pub waits_for : ℕ → StripeTask → Bool
waits_for id q = id == q.stripe_id && (is_parity_task q.kind && is_pending q.status)

abbrev is_done_in : ℕ → DoneWrite → Bool
is_done_in id d = id == d.stripe_id

-- The rows and what stands right behind each of them.
abbrev pub neighbours : List WriteTask → List (WriteTask × WriteTask)
neighbours [] = []
neighbours (a ∷ []) = []
neighbours (a ∷ b ∷ rest) = (a, b) ∷ neighbours (b ∷ rest)

abbrev is_outcome : TaskStatus → Bool
is_outcome TaskStatus.pending = false
is_outcome TaskStatus.running = false
is_outcome TaskStatus.success = true
is_outcome TaskStatus.fail = true

abbrev is_intent : TaskStatus → Bool
is_intent TaskStatus.pending = true
is_intent TaskStatus.running = false
is_intent TaskStatus.success = false
is_intent TaskStatus.fail = false

-- An intent to write a chunk, followed by a success or a failure for the same chunk.
abbrev pub is_finished : WriteTask × WriteTask → Bool
is_finished (a, b) = is_intent a.status && (is_outcome b.status && a.chunk_id == b.chunk_id)

abbrev pub is_finished_in : ℕ → WriteTask × WriteTask → Bool
is_finished_in stripe w = stripe == w.1.stripe_id && is_finished w

abbrev pub is_finished_row : ℕ → WriteTask × WriteTask → Bool
is_finished_row id w = is_finished w && (id == w.0.id || id == w.1.id)
