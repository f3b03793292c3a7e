-- ===== src/Common/Errors.antt =====
-- What the code throws (common/errors/app.exception.ts, Prisma's and Zod's errors, other values),
-- and computations that may throw.
pub mod AppException
use backend_task_management.Base.{
  ℕ, String, ◌≡◌, refl, Bool, true, false, List, [], ◌∷◌, ◌==◌, arith, if◌then◌else◌,
}

pub data Thrown : Type 0 where
  app_exception : String → ℕ → String → Thrown  -- code, status, message
  zod_error : String → Thrown  -- message
  prisma_error : String → String → Thrown  -- code, message
  error : String → String → Thrown  -- name, message of any other `Error`
  other : String → Thrown  -- a value that is no `Error`, as `String(value)` prints it

-- `error instanceof Error ? error.message : String(error)`
abbrev pub message_of : Thrown → String
message_of (app_exception code status message) = message
message_of (zod_error message) = message
message_of (prisma_error code message) = message
message_of (error name message) = message
message_of (other text) = text

pub data Result {ℓ} (A : Type ℓ) : Type ℓ where
  ok : A → Result A
  err : Thrown → Result A

module _ {ℓ} {A : Type ℓ} where
  abbrev pub is_ok : Result A → Bool
  is_ok (ok _) = true
  is_ok (err _) = false

  pub ok-injective : (a b : A) → ok a ≡ ok b → a ≡ b
  ok-injective a b h = cc

module _ {ℓ κ} {A : Type ℓ} {B : Type κ} where
  infixl 5 ◌>>=◌
  abbrev pub ◌>>=◌ : Result A → (A → Result B) → Result B
  ok a >>= f = f a
  err e >>= f = err e

  -- A chain that returned: its first part did, and so did the rest from there.
  pub bind-eq-ok :
      (first : Result A) (next : A → Result B) {result : B}
      (returned : (first >>= next) ≡ ok result)
      → (a : A) × (first ≡ ok a) × (next a ≡ ok result)
  bind-eq-ok (err e) next returned = cc
  bind-eq-ok (ok a) next returned = (a, refl, returned)
