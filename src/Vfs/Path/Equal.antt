-- ===== src/Vfs/Path/Equal.antt =====
-- internal/vfs/path.go: proofs about equal names.
use zenofs.Common.{ℕ, ◌≡◌, refl, ap, ◌∙◌, true, [], ◌∷◌, arith, ==→eq}
use zenofs.Vfs.Path.{Text, same_text}

pub same_text_self : (t : Text) → same_text t t ≡ true
same_text_self [] = refl
same_text_self (c ∷ t) = ground (arith, same_text_self t)

pub same_text→eq : (a b : Text) → same_text a b ≡ true → a ≡ b
same_text→eq [] [] h = refl
same_text→eq [] (y ∷ ys) h = absurd (ground (arith, h))
same_text→eq (x ∷ xs) [] h = absurd (ground (arith, h))
same_text→eq (x ∷ xs) (y ∷ ys) h =
    ap (λ (c : ℕ). c ∷ xs) {x = x} {y = y} (==→eq x y (ground (arith, h)))
    ∙ ap (λ (cs : Text). y ∷ cs) (same_text→eq xs ys (ground (arith, h)))
