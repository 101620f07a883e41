-- ===== src/Common/Tables.antt =====
-- Database tables and Go maps as lists of rows: the queries and updates that the program makes.
use mathlib.Core.Path.{◌≡◌, refl}
use mathlib.Core.Bool.{Bool, true, false, not}
use mathlib.Core.Option.{Option, none, some}
use mathlib.Core.List.{List, [], ◌∷◌, ◌++◌}
use native.Mathlib.Omega.{arith}
use mathlib.Core.Logic.{inl, inr}
use mathlib.Core.Path.{ap}
use zenofs.Common.Tests.{if◌then◌else◌, Bool-cases, some_injective}

module _ {ℓ} {A : Type ℓ} where
  -- WHERE p, first row.
  unfoldable pub find_by : (A → Bool) → List A → Option A
  find_by p [] = none
  find_by p (x ∷ xs) = if p x then some x else find_by p xs

  -- WHERE p, every row.
  unfoldable pub select : (A → Bool) → List A → List A
  select p [] = []
  select p (x ∷ xs) = let rest = select p xs in if p x then x ∷ rest else rest

  -- DELETE WHERE p.
  abbrev pub delete_where : (A → Bool) → List A → List A
  delete_where p = select (λ x. not (p x))

  -- UPDATE WHERE p.
  unfoldable pub update_where : (A → Bool) → (A → A) → List A → List A
  update_where p f [] = []
  update_where p f (x ∷ xs) = (if p x then f x else x) ∷ update_where p f xs

  unfoldable pub exists_in : (A → Bool) → List A → Bool
  exists_in p [] = false
  exists_in p (x ∷ xs) = if p x then true else exists_in p xs

  -- A query that a selection does not touch.
  pub find_by-select_keep :
      (p q : A → Bool) (xs : List A)
      → ((x : A) → p x ≡ true → q x ≡ true)
      → find_by p (select q xs) ≡ find_by p xs
  unfolding find_by select
  find_by-select_keep p q [] h = refl
  find_by-select_keep p q (x ∷ xs) h = ground (arith, find_by-select_keep p q xs h, h x)

  -- A query for rows that a selection leaves out.
  pub find_by-select-none :
      (p q : A → Bool) (xs : List A)
      → ((x : A) → p x ≡ true → q x ≡ false)
      → find_by p (select q xs) ≡ none
  unfolding find_by select
  find_by-select-none p q [] h = refl
  find_by-select-none p q (x ∷ xs) h = ground (arith, find_by-select-none p q xs h, h x)

  pub find_by_found : (p : A → Bool) (xs : List A) (x : A) → find_by p xs ≡ some x → p x ≡ true
  unfolding find_by
  find_by_found p [] x e = ground arith
  find_by_found p (y ∷ ys) x e = ground (arith, find_by_found p ys x)

  pub find_by-append :
      (p : A → Bool) (xs ys : List A) → find_by p xs ≡ none → find_by p (xs ++ ys) ≡ find_by p ys
  unfolding find_by
  find_by-append p [] ys h = refl
  find_by-append p (x ∷ xs) ys h = ground (arith, find_by-append p xs ys)

  -- A row that one query finds is there for any other that it fits.
  pub find_by-there :
      (p q : A → Bool) (xs : List A) (x : A)
      → find_by p xs ≡ some x
      → q x ≡ true
      → find_by q xs ≡ none
      → ⊥
  unfolding find_by
  find_by-there p q [] x h fits gone = ground arith
  find_by-there p q (y ∷ ys) x h fits gone = elim (Bool-cases (p y)) [
    | inl here ↦
        let same : y ≡ x = some_injective y x (ground (arith, here, h)) in
        ground (arith, ap q same, fits, gone)
    | inr later ↦ find_by-there p q ys x (ground (arith, later, h)) fits (ground (arith, gone))
  ]
