-- ===== src/Base/Bits/Masks.antt =====
-- Masks of low and of high digits as `%` and `-`, and `|` of disjoint fields as a sum.
use Prim.Native.Nat.{
  ℕ, zero, suc, ◌+◌, ◌-◌, ◌*◌, ◌/◌, ◌%◌, ◌^◌, ◌≤◌, ◌<◌, bit_and, bit_or, bit_or-bitwise,
}
use mathlib.Core.Path.{◌≡◌, refl, ap, ◌∙◌}
use native.Mathlib.Omega.{arith}
use native.Mathlib.Nat.{
  pow-suc, one-le-pow, mod-eq_of_lt, mod-le, div-add-mod', mod-lt, mul-add-mod_self_right,
}
use ely_square.Base.Bits.Step.{bit_and_step, bit_or_step}

bit_and-zero_rounds : (n a : ℕ) → a ≤ n → bit_and a 0 ≡ 0
bit_and-zero_rounds n zero h = refl
bit_and-zero_rounds zero (suc a) h = elim h [ ]
bit_and-zero_rounds (suc n) (suc a) h =
    omega (arith, bit_and_step (suc a) 0, bit_and-zero_rounds n (suc a / 2) (omega arith))

pub bit_and-zero : (a : ℕ) → bit_and a 0 ≡ 0
bit_and-zero a = bit_and-zero_rounds a a (omega arith)

bit_or-zero_rounds : (n a : ℕ) → a ≤ n → bit_or a 0 ≡ a
bit_or-zero_rounds n zero h = refl
bit_or-zero_rounds zero (suc a) h = elim h [ ]
bit_or-zero_rounds (suc n) (suc a) h =
    omega (arith, bit_or_step (suc a) 0, bit_or-zero_rounds n (suc a / 2) (omega arith))

pub bit_or-zero : (a : ℕ) → bit_or a 0 ≡ a
bit_or-zero a = bit_or-zero_rounds a a (omega arith)

pub zero-bit_or : (a : ℕ) → bit_or 0 a ≡ a
zero-bit_or a = bit_or-bitwise 0 a

double_field : (q k : ℕ) → q * 2 ^ suc k ≡ q * 2 ^ k * 2
double_field q k = ap (λ n. q * n) (pow-suc 2 k) ∙ omega arith

-- The remainder by 2 ^ (k + 1), by its lowest digit.
pub mod_halves : (k a : ℕ) → a % 2 ^ suc k ≡ a / 2 % 2 ^ k * 2 + a % 2
mod_halves k a =
    ap (λ n. n % 2 ^ suc k) {x = a} {y = a / 2 / 2 ^ k * 2 ^ suc k + low} split
    ∙ mul-add-mod_self_right (a / 2 / 2 ^ k) (2 ^ suc k) low
    ∙ mod-eq_of_lt
        (omega (arith, pow-suc 2 k, mod-lt (a / 2) {m = 2 ^ k} (one-le-pow k 2 (omega arith))))
  where
    low : ℕ
    low = a / 2 % 2 ^ k * 2 + a % 2

    split : a ≡ a / 2 / 2 ^ k * 2 ^ suc k + low
    split = omega (arith, double_field (a / 2 / 2 ^ k) k, div-add-mod' (a / 2) (2 ^ k))

pub bit_and_mask : (k a : ℕ) → bit_and a (2 ^ k - 1) ≡ a % 2 ^ k
bit_and_mask zero a = bit_and-zero a ∙ omega arith
bit_and_mask (suc k) a = ground (
  arith,
  pow-suc 2 k,
  one-le-pow k 2,
  bit_and_step a (2 ^ suc k - 1),
  bit_and_mask k (a / 2),
  mod_halves k a,
)

pub bit_and_high : (w k a : ℕ) → a < 2 ^ w → k ≤ w → bit_and a (2 ^ w - 2 ^ k) ≡ a - a % 2 ^ k
bit_and_high w zero a h le = rw (bit_and_mask w a) (omega (arith, mod-eq_of_lt h))
bit_and_high zero (suc k) a h le = elim le [ ]
bit_and_high (suc w) (suc k) a h le =
    let e : (2 ^ suc w - 2 ^ suc k) / 2 ≡ 2 ^ w - 2 ^ k =
      omega (arith, pow-suc 2 k, pow-suc 2 w, one-le-pow k 2) in
    ground (
      arith,
      pow-suc 2 k,
      pow-suc 2 w,
      one-le-pow k 2,
      bit_and_step a (2 ^ suc w - 2 ^ suc k),
      bit_and_high w k (a / 2),
      mod_halves k a,
      mod-le (a / 2) (2 ^ k),
    )

pub bit_or_add : (k q r : ℕ) → r < 2 ^ k → bit_or r (q * 2 ^ k) ≡ r + q * 2 ^ k
bit_or_add zero q r h = let e : r ≡ 0 = omega arith in rw e (zero-bit_or _ ∙ omega arith)
bit_or_add (suc k) q r h =
    ground
      (arith, pow-suc 2 k, double_field q k, bit_or_step r (q * 2 ^ suc k), bit_or_add k q (r / 2))

pub add-bit_or : (k q r : ℕ) → r < 2 ^ k → bit_or (q * 2 ^ k) r ≡ q * 2 ^ k + r
add-bit_or zero q r h = let e : r ≡ 0 = omega arith in rw e (bit_or-zero _ ∙ omega arith)
add-bit_or (suc k) q r h =
    ground
      (arith, pow-suc 2 k, double_field q k, bit_or_step (q * 2 ^ suc k) r, add-bit_or k q (r / 2))
