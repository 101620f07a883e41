-- ===== src/Common/Counts.antt =====
-- How many rows of a table a query finds, and what an update does to that.
use mathlib.Core.Path.{◌≡◌, refl, ap}
use mathlib.Core.Bool.{Bool, true, false, ◌&&◌}
use mathlib.Core.Option.{none, some}
use mathlib.Core.List.{List, [], ◌∷◌, ◌++◌}
use mathlib.Core.Logic.{inl, inr}
use Prim.Native.Nat.{ℕ, suc, ◌+◌, ◌≤◌, ◌<◌}
use native.Mathlib.Omega.{arith}
use zenofs.Common.Tests.{if◌then◌else◌, Bool-cases, some_injective}
use zenofs.Common.Tables.{find_by, update_where}

module _ {ℓ} {A : Type ℓ} where
  -- COUNT WHERE p.
  unfoldable pub count : (A → Bool) → List A → ℕ
  count p [] = 0
  count p (x ∷ xs) = let rest = count p xs in if p x then suc rest else rest

  pub count-append :
      (p : A → Bool) (xs : List A) (x : A)
      → count p (xs ++ x ∷ []) ≡ count p xs + (if p x then 1 else 0)
  unfolding count
  count-append p [] x = ground arith
  count-append p (y ∷ ys) x = ground (arith, count-append p ys x)

  pub count-find_by : (p : A → Bool) (xs : List A) → find_by p xs ≡ none → count p xs ≡ 0
  unfolding count find_by
  count-find_by p [] h = refl
  count-find_by p (x ∷ xs) h = ground (arith, count-find_by p xs)

  pub find_by-count_zero : (p : A → Bool) (xs : List A) → count p xs ≡ 0 → find_by p xs ≡ none
  unfolding count find_by
  find_by-count_zero p [] h = refl
  find_by-count_zero p (x ∷ xs) h = ground (arith, find_by-count_zero p xs)

  pub count_mono :
      (p q : A → Bool) (xs : List A) → ((x : A) → p x ≡ true → q x ≡ true) → count p xs ≤ count q xs
  unfolding count
  count_mono p q [] h = omega arith
  count_mono p q (x ∷ xs) h = ground (arith, count_mono p q xs h, h x)

  -- A row that a query finds counts for any other that it fits.
  pub count-there :
      (p q : A → Bool) (xs : List A) (x : A) → find_by p xs ≡ some x → q x ≡ true → 0 < count q xs
  unfolding count find_by
  count-there p q [] x h fits = absurd (ground (arith, h))
  count-there p q (y ∷ ys) x h fits = elim (Bool-cases (p y)) [
    | inl here ↦
        let same : y ≡ x = some_injective y x (ground (arith, here, h)) in
        ground (arith, ap q same, fits)
    | inr later ↦ ground (arith, count-there p q ys x (ground (arith, later, h)) fits)
  ]

  -- When one row at most fits, what it does not fit nothing else of them does.
  pub count_only :
      (p q r : A → Bool) (xs : List A) (x : A)
      → count q xs ≤ 1
      → find_by p xs ≡ some x
      → q x ≡ true
      → r x ≡ false
      → count (λ (y : A). q y && r y) xs ≡ 0
  unfolding count find_by
  count_only p q r [] x one h fits out = refl
  count_only p q r (y ∷ ys) x one h fits out = elim (Bool-cases (p y)) [
    | inl here ↦
        let same : y ≡ x = some_injective y x (ground (arith, here, h)) in
        ground (
          arith,
          ap q same,
          ap r same,
          fits,
          out,
          one,
          count_mono (λ (z : A). q z && r z) q ys (λ z w. ground (arith, w)),
        )
    | inr later ↦
        let rest : find_by p ys ≡ some x = ground (arith, later, h) in
        ground (
          arith,
          one,
          count-there p q ys x rest fits,
          λ (less : count q ys ≤ 1). count_only p q r ys x less rest fits out,
        )
  ]

  -- An update whose new rows do not fit where the old did not.
  pub count-update_le :
      (p q : A → Bool) (f : A → A) (xs : List A)
      → ((x : A) → p (f x) ≡ true → p x ≡ true)
      → count p (update_where q f xs) ≤ count p xs
  unfolding count update_where
  count-update_le p q f [] h = omega arith
  count-update_le p q f (x ∷ xs) h = ground (arith, count-update_le p q f xs h, h x)

  -- An update that a query does not look at.
  pub count-update_same :
      (p q : A → Bool) (f : A → A) (xs : List A)
      → ((x : A) → p (f x) ≡ p x)
      → count p (update_where q f xs) ≡ count p xs
  unfolding count update_where
  count-update_same p q f [] h = refl
  count-update_same p q f (x ∷ xs) h = ground (arith, count-update_same p q f xs h, h x)

  pub count-update_add :
      (p q : A → Bool) (f : A → A) (xs : List A)
      → count p (update_where q f xs) ≤ count p xs + count (λ (x : A). q x && p (f x)) xs
  unfolding count update_where
  count-update_add p q f [] = omega arith
  count-update_add p q f (x ∷ xs) = ground (arith, count-update_add p q f xs)

  -- An update that takes the row that was found out of the query.
  pub count-update_less :
      (p q : A → Bool) (f : A → A) (xs : List A) (x : A)
      → find_by p xs ≡ some x
      → q x ≡ true
      → ((y : A) → p (f y) ≡ false)
      → suc (count p (update_where q f xs)) ≤ count p xs
  unfolding count update_where find_by
  count-update_less p q f [] x h fits out = absurd (ground (arith, h))
  count-update_less p q f (y ∷ ys) x h fits out = elim (Bool-cases (p y)) [
    | inl here ↦
        let same : y ≡ x = some_injective y x (ground (arith, here, h)) in
        ground (
          arith,
          ap q same,
          fits,
          here,
          out y,
          count-update_le p q f ys (λ z w. absurd (ground (arith, w, out z))),
        )
    | inr later ↦
        ground
          (arith, later, out y, count-update_less p q f ys x (ground (arith, later, h)) fits out)
  ]
