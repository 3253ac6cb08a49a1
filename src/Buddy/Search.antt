-- ===== src/Buddy/Search.antt =====
-- The search of alloc for a bin that is not empty, among those of large enough orders.
use ely_square.Base.{
  ℕ, ◌-◌, ◌*◌, ◌^◌, ◌≤◌, ◌<◌, ◌≡◌, ◌≢◌, ◌⊎◌, inl, inr, ap, ◌∙◌, sym, arith, bit_and, u32,
  ℕ_discrete, dec_lt,
}
use ely_square.Base.Bits.{
  bit, bit-lt-two, bit-zero, bit-bit_and, bit_not, bit_high, bit_ext, bit_and-le, pow_word,
}
use ely_square.PageBitmap.{countr_zero}
use ely_square.PageBitmap.Words.{countr_zero_from-IsCount}
use ely_square.Buddy.Geometry.{pow_pos}

-- `~0U << t`
abbrev pub from_bin : ℕ → ℕ
from_bin t = u32 ((2 ^ 32 - 1) * 2 ^ t)

from_bin-value : (t : ℕ) → t < 32 → from_bin t ≡ 2 ^ 32 - 1 - (2 ^ t - 1)
from_bin-value t h = let (_, below) = pow_word t h in let pos = pow_pos t in omega arith

digits_below : (t i : ℕ) → i < t → bit i (2 ^ t - 1) ≡ 1
digits_below t i h =
    ap (bit i) {x = 2 ^ t - 1} {y = 2 ^ t - 1 - 0} (omega arith)
    ∙ omega (arith, bit_not t i 0 (pow_pos t) h, bit-zero i)

from_bin-digit :
    (t i : ℕ)
    → t < 32
    → i < 32
    → ((i < t) × (bit i (from_bin t) ≡ 0)) ⊎ ((t ≤ i) × (bit i (from_bin t) ≡ 1))
from_bin-digit t i ht hi =
    let (_, below) = pow_word t ht in
    let pos = pow_pos t in
    let digit = bit_not 32 i (2 ^ t - 1) (omega arith) hi in
    let value = ap (bit i) {x = from_bin t} {y = 2 ^ 32 - 1 - (2 ^ t - 1)} (from_bin-value t ht) in
    elim (dec_lt i t) [
      | yes h ↦ inl (h, omega (arith, value, digit, digits_below t i h))
      | no h ↦ inr (
        omega arith,
        omega (arith, value, digit, bit_high t i (2 ^ t - 1) (omega arith) (omega arith)),
      )
    ]

-- The mask of alloc is 0 exactly if no digit from `t` on is set; if it is not, its lowest digit is
-- one that is set.
pub data FoundBin (t bitmap : ℕ) : ℕ → Type 0 where
  no_bin : ((i : ℕ) → t ≤ i → i < 32 → bit i bitmap ≡ 0) → FoundBin t bitmap 0
  some_bin :
      {mask : ℕ}
      → mask ≢ 0
      → t ≤ countr_zero mask
      → countr_zero mask < 32
      → bit (countr_zero mask) bitmap ≡ 1
      → FoundBin t bitmap mask

pub mask-FoundBin :
    (t bitmap : ℕ) → t < 32 → bitmap < 2 ^ 32 → FoundBin t bitmap (bit_and bitmap (from_bin t))
mask-FoundBin t bitmap ht small =
    let m = bit_and bitmap (from_bin t) in
    let c = countr_zero m in
    let digit = bit-bit_and c bitmap (from_bin t) in
    let bound = bit_and-le 32 bitmap (from_bin t) small in
    let count = countr_zero_from-IsCount 64 m in
    elim (ℕ_discrete m 0) [
      | yes none ↦ rw none (
          no_bin λ i hi lt. elim (from_bin-digit t i ht lt) [
            | inl (h, _) ↦ absurd (omega arith)
            | inr (_, d) ↦ omega (
              arith,
              bit-bit_and i bitmap (from_bin t),
              ap (bit i) {x = m} {y = 0} none,
              bit-zero i,
              d,
              bit-lt-two i bitmap,
            )
          ])
      | no held ↦
          let inside : c < 32 = elim (dec_lt c 32) [
            | yes h ↦ h
            | no h ↦ absurd (
                held (
                  bit_ext 32 m 0 (omega arith) (omega arith)
                    (λ i lt. count.zeros i (omega arith) ∙ sym (bit-zero i))))
          ] in
          let set = count.one (omega arith) in
          elim (from_bin-digit t c ht inside) [
            | inl (h, d) ↦ absurd (omega (arith, set, digit, d))
            | inr (h, d) ↦
                some_bin held h inside (omega (arith, set, digit, d, bit-lt-two c bitmap))
          ]
    ]
