-- ===== src/Common/Errors.antt =====
-- The errors of internal/vfs and the result of a fallible call.
use Prim.Native.Nat.{ℕ}
use mathlib.Core.Bool.{Bool, true, false}
use mathlib.Core.Path.{◌≡◌, refl, ap}
use native.Mathlib.Omega.{arith}
use mathlib.Core.Logic.{◌⊎◌, inl, inr}

-- The sentinels of internal/vfs/vfs.go, io.EOF, and the coded errors of the storage pool.
pub data Error : Type 0 where
  not_exist exist permission not_empty is_dir not_dir read_only no_space invalid : Error
  not_supported busy name_too_long loop cross_device encrypted eof : Error
  coded : ℕ → Error

pub data Result {ℓ} (A : Type ℓ) : Type ℓ where
  ok : A → Result A
  err : Error → Result A

-- The early return of an error.
infixl 10 ◌>>=◌ ◌>>◌
abbrev pub ◌>>=◌ {ℓ κ} : {A : Type ℓ} {B : Type κ} → Result A → (A → Result B) → Result B
ok a >>= f = f a
err e >>= f = err e

abbrev pub ◌>>◌ {ℓ κ} : {A : Type ℓ} {B : Type κ} → Result A → Result B → Result B
m >> n = m >>= λ _. n

abbrev pub is_not_exist : Error → Bool
is_not_exist Error.not_exist = true
is_not_exist _ = false

abbrev ok_or {ℓ} : {A : Type ℓ} → A → Result A → A
ok_or a (ok b) = b
ok_or a (err e) = a

pub ok_injective {ℓ} : {A : Type ℓ} (a b : A) → ok a ≡ ok b → a ≡ b
ok_injective a b h = ap (ok_or a) h

pub Result-cases {ℓ} :
    {A : Type ℓ} (r : Result A) → ((a : A) × (r ≡ ok a)) ⊎ ((e : Error) × (r ≡ err e))
Result-cases (ok a) = inl (a, refl)
Result-cases (err e) = inr (e, refl)

pub is_not_exist-eq : (e : Error) → is_not_exist e ≡ true → e ≡ Error.not_exist
is_not_exist-eq Error.not_exist h = refl
is_not_exist-eq Error.exist h = ground (arith, h)
is_not_exist-eq Error.permission h = ground (arith, h)
is_not_exist-eq Error.not_empty h = ground (arith, h)
is_not_exist-eq Error.is_dir h = ground (arith, h)
is_not_exist-eq Error.not_dir h = ground (arith, h)
is_not_exist-eq Error.read_only h = ground (arith, h)
is_not_exist-eq Error.no_space h = ground (arith, h)
is_not_exist-eq Error.invalid h = ground (arith, h)
is_not_exist-eq Error.not_supported h = ground (arith, h)
is_not_exist-eq Error.busy h = ground (arith, h)
is_not_exist-eq Error.name_too_long h = ground (arith, h)
is_not_exist-eq Error.loop h = ground (arith, h)
is_not_exist-eq Error.cross_device h = ground (arith, h)
is_not_exist-eq Error.encrypted h = ground (arith, h)
is_not_exist-eq Error.eof h = ground (arith, h)
is_not_exist-eq (Error.coded n) h = ground (arith, h)

-- A chain that succeeds: its first call does, and so does what follows.
pub then-ok {ℓ κ} :
    {A : Type ℓ} {B : Type κ}
    → (r : Result A) (k : A → Result B) (b : B) → r >>= k ≡ ok b
    → (a : A) × ((r ≡ ok a) × (k a ≡ ok b))
then-ok (ok a) k b h = (a, (refl, h))
then-ok (err e) k b h = absurd (ground (arith, h))
