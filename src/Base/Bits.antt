-- ===== src/Base/Bits.antt =====
-- Binary digits: what `&`, `|`, `^`, `~` and `1 << k` do to each, for words of any width.
mod Step
mod Masks
pub use Masks.{
  bit_and-zero, bit_or-zero, zero-bit_or, bit_and_mask, bit_and_high, bit_or_add, add-bit_or,
  mod_halves,
}
pub use Step.{bit_and_step, bit_or_step, bit_xor_step}
use Prim.Native.Nat.{
  ℕ, zero, suc, ◌+◌, ◌-◌, ◌*◌, ◌/◌, ◌%◌, ◌^◌, ◌≤◌, ◌<◌, min, max, bit_and, bit_or, bit_xor,
  bit_and-bitwise,
}
use mathlib.Core.Path.{◌≡◌, refl, ap, ◌∙◌, sym}
use mathlib.Core.Logic.{◌≢◌}
use native.Mathlib.Omega.{arith}
use native.Mathlib.Nat.{pow-le-pow_right, pow-suc, pow-succ', div-div-eq-div-mul}

-- The digit of weight 2 ^ i.
unfoldable pub bit : ℕ → ℕ → ℕ
bit zero x = x % 2
bit (suc i) x = bit i (x / 2)

pub bit-lt-two : (i x : ℕ) → bit i x < 2
unfolding bit
bit-lt-two zero x = omega arith
bit-lt-two (suc i) x = bit-lt-two i (x / 2)

pub bit-zero : (i : ℕ) → bit i 0 ≡ 0
unfolding bit
bit-zero zero = refl
bit-zero (suc i) = bit-zero i

pub bit-bit_and : (i a b : ℕ) → bit i (bit_and a b) ≡ min (bit i a) (bit i b)
unfolding bit
bit-bit_and zero a b = omega (arith, bit_and_step a b)
bit-bit_and (suc i) a b =
    ap (bit i) (omega (arith, bit_and_step a b)) ∙ bit-bit_and i (a / 2) (b / 2)

pub bit-bit_or : (i a b : ℕ) → bit i (bit_or a b) ≡ max (bit i a) (bit i b)
unfolding bit
bit-bit_or zero a b = omega (arith, bit_or_step a b)
bit-bit_or (suc i) a b = ap (bit i) (omega (arith, bit_or_step a b)) ∙ bit-bit_or i (a / 2) (b / 2)

pub bit-bit_xor : (i a b : ℕ) → bit i (bit_xor a b) ≡ (bit i a + bit i b) % 2
unfolding bit
bit-bit_xor zero a b = omega (arith, bit_xor_step a b)
bit-bit_xor (suc i) a b =
    ap (bit i) (omega (arith, bit_xor_step a b)) ∙ bit-bit_xor i (a / 2) (b / 2)

-- `x >> k`
pub bit-shift : (k i x : ℕ) → bit i (x / 2 ^ k) ≡ bit (k + i) x
unfolding bit
bit-shift zero i x =
    ap (bit i) {x = x / 2 ^ 0} {y = x} (omega arith)
    ∙ ap (λ n. bit n x) {x = i} {y = 0 + i} (omega arith)
bit-shift (suc k) i x =
    ap (bit i) {x = x / 2 ^ suc k} {y = x / 2 / 2 ^ k}
      (sym (div-div-eq-div-mul x 2 (2 ^ k) ∙ ap (λ n. x / n) (sym (pow-succ' 2 k))))
    ∙ bit-shift k i (x / 2)
    ∙ ap (λ n. bit n x) {x = suc (k + i)} {y = suc k + i} (omega arith)

-- `1 << k`
pub bit-pow_self : (k : ℕ) → bit k (2 ^ k) ≡ 1
unfolding bit
bit-pow_self zero = refl
bit-pow_self (suc k) = ap (bit k) (omega (arith, pow-suc 2 k)) ∙ bit-pow_self k

pub bit-pow_ne : (i k : ℕ) → i ≢ k → bit i (2 ^ k) ≡ 0
unfolding bit
bit-pow_ne zero zero h = absurd (h refl)
bit-pow_ne zero (suc k) h = omega (arith, pow-suc 2 k)
bit-pow_ne (suc i) zero h = bit-zero i
bit-pow_ne (suc i) (suc k) h =
    ap (bit i) (omega (arith, pow-suc 2 k)) ∙ bit-pow_ne i k (λ e. h (ap suc e))

-- A number below 2 ^ w has no digit from the w-th on.
pub bit_high : (w i x : ℕ) → x < 2 ^ w → w ≤ i → bit i x ≡ 0
unfolding bit
bit_high zero i x h le = ap (bit i) (omega arith) ∙ bit-zero i
bit_high (suc w) zero x h le = elim le [ ]
bit_high (suc w) (suc i) x h le = bit_high w i (x / 2) (omega (arith, pow-suc 2 w)) (omega arith)

-- `~x` at width w
pub bit_not : (w i x : ℕ) → x < 2 ^ w → i < w → bit i (2 ^ w - 1 - x) ≡ 1 - bit i x
unfolding bit
bit_not zero i x h lt = elim lt [ ]
bit_not (suc w) zero x h lt = omega (arith, pow-suc 2 w)
bit_not (suc w) (suc i) x h lt =
    ap (bit i) {x = (2 ^ suc w - 1 - x) / 2} {y = 2 ^ w - 1 - x / 2} (omega (arith, pow-suc 2 w))
    ∙ bit_not w i (x / 2) (omega (arith, pow-suc 2 w)) (omega arith)

-- Words with the same digits are equal.
pub bit_ext : (w a b : ℕ) → a < 2 ^ w → b < 2 ^ w → ((i : ℕ) → i < w → bit i a ≡ bit i b) → a ≡ b
unfolding bit
bit_ext zero a b ha hb same = omega arith
bit_ext (suc w) a b ha hb same = omega (
  arith,
  same 0 (omega arith),
  bit_ext w (a / 2) (b / 2) (omega (arith, pow-suc 2 w)) (omega (arith, pow-suc 2 w))
      (λ i lt. same (suc i) (omega arith)),
)

-- The bit operations stay inside the width of their operands.
pub bit_or-lt : (w a b : ℕ) → a < 2 ^ w → b < 2 ^ w → bit_or a b < 2 ^ w
bit_or-lt zero a b ha hb =
    let ea : a ≡ 0 = omega arith in let eb : b ≡ 0 = omega arith in rw (ea, eb) (omega arith)
bit_or-lt (suc w) a b ha hb = omega (
  arith,
  bit_or_step a b,
  pow-suc 2 w,
  bit_or-lt w (a / 2) (b / 2) (omega (arith, pow-suc 2 w)) (omega (arith, pow-suc 2 w)),
)

zero-bit_and : (b : ℕ) → bit_and 0 b ≡ 0
zero-bit_and b = bit_and-bitwise 0 b

pub bit_and-le : (w a b : ℕ) → a < 2 ^ w → bit_and a b ≤ a
bit_and-le zero a b ha = let ea : a ≡ 0 = omega arith in rw (ea, zero-bit_and) (omega arith)
bit_and-le (suc w) a b ha =
    omega (arith, bit_and_step a b, bit_and-le w (a / 2) (b / 2) (omega (arith, pow-suc 2 w)))

-- `1U << i` stays inside 32 bits.
pub pow_word : (i : ℕ) → i < 32 → (2 ^ i % 2 ^ 32 ≡ 2 ^ i) × (2 ^ i < 2 ^ 32)
pow_word i h =
    let top : 2 ^ i ≤ 2 ^ 31 =
      pow-le-pow_right {n = 2} (omega arith) {i = i} {j = 31} (omega arith) in
    (omega arith, omega arith)
