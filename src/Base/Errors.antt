-- ===== src/Base/Errors.antt =====
-- What a call of the low-level code comes to: a value, a panic with its error code, undefined
-- behaviour, or a recursion that has used up the rounds it was given.
use mathlib.Core.Path.{◌≡◌}

-- `enum class ErrorCode`
pub data ErrorCode : Type 0 where
  success out_of_memory dangling_pointer_access type_not_registered mailbox_key_not_found
        safepoint_timeout container_contains_other internal_error runtime_error :
      ErrorCode

pub data Outcome {ℓ} (A : Type ℓ) : Type ℓ where
  ok : A → Outcome A
  panic : ErrorCode → Outcome A
  undefined : Outcome A
  out_of_fuel : Outcome A

infixl 5 ◌>>=◌ ◌>>◌
abbrev pub ◌>>=◌ {ℓ κ} : {A : Type ℓ} {B : Type κ} → Outcome A → (A → Outcome B) → Outcome B
ok a >>= f = f a
panic e >>= f = panic e
undefined >>= f = undefined
out_of_fuel >>= f = out_of_fuel

abbrev pub ◌>>◌ {ℓ} : {B : Type ℓ} → Outcome (Unit {0}) → Outcome B → Outcome B
m >> k = m >>= λ _. k

pub eq_of_ok {ℓ} : {A : Type ℓ} (x y : A) → ok x ≡ ok y → x ≡ y
eq_of_ok x y h = cc
