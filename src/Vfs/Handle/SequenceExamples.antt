-- ===== src/Vfs/Handle/SequenceExamples.antt =====
-- A new file written over two slices, cut inside the first, and written past its end.
use zenofs.Common.{List, [], ◌∷◌}
use zenofs.Vfs.Handle.State.{State}
use zenofs.Vfs.Handle.Sequence.{FileOp, put, cut, Plain}

abbrev no_bytes : Plain
no_bytes = record { size = 0; byte = λ k. 0 }

abbrev calls : List FileOp
calls = put (1 ∷ 2 ∷ 0 ∷ 3 ∷ 4 ∷ []) 2 ∷ cut 3 ∷ put (9 ∷ []) 7 ∷ []
