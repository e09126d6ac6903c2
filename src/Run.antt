-- ===== src/Run.antt =====
-- How a C call ends: it returns, it raises an error (lib/sysbvm/errors.c; `sysbvm_error` does not
-- return), or its behaviour is not defined: a null or dangling pointer is followed, memory past
-- the end of an object is written, or an integer is divided by zero.
use sysmel.Prelude.{◌≡◌, refl, ap, arith, Bool, true, false}

-- The messages of lib/sysbvm/errors.c and of the calls of `sysbvm_error`.
pub data Error : Type 0 where
  index_out_of_bounds null_argument argument_count_mismatch : Error
  digit_beyond_radix invalid_integer_literal : Error
  table_out_of_memory missing_key assertion_failure : Error

pub data Run {ℓ} (A : Type ℓ) : Type ℓ where
  ok : A → Run A
  err : Error → Run A
  fault : Run A

infixl 5 ◌>>=◌
abbrev pub ◌>>=◌ {ℓ κ} : {A : Type ℓ} {B : Type κ} → Run A → (A → Run B) → Run B
ok a >>= f = f a
err e >>= f = err e
fault >>= f = fault

abbrev is_ok {ℓ} : {A : Type ℓ} → Run A → Bool
is_ok (ok a) = true
is_ok (err e) = false
is_ok fault = false

abbrev value_or {ℓ} : {A : Type ℓ} → A → Run A → A
value_or a (ok b) = b
value_or a (err e) = a
value_or a fault = a

pub ok_injective {ℓ} : {A : Type ℓ} {a b : A} → ok a ≡ ok b → a ≡ b
ok_injective {a = a} h = ap (value_or a) h

-- A chain that returns has a first part that returns.
pub bind_ok {ℓ κ} :
    {A : Type ℓ} {B : Type κ} (m : Run A) (f : A → Run B) (b : B)
    → (m >>= f) ≡ ok b
    → (a : A) × (m ≡ ok a) × (f a ≡ ok b)
bind_ok (ok a) f b h = (a, refl, h)
bind_ok (err e) f b h = let wrong : false ≡ true = ap is_ok h in absurd (ground arith)
bind_ok fault f b h = let wrong : false ≡ true = ap is_ok h in absurd (ground arith)
