-- ===== src/Arena/Align.antt =====
-- Arithmetic of Arena: aligned offsets and whole pages.
use native.Mathlib.Nat.{
  pow-suc, one-le-pow, pow-le-pow_right, mod-lt, add-mod, div-add-mod, mul-mod_right, mul-mod_left,
  mod-le, zero-mod,
}
use ely_square.Base.{
  ℕ, zero, suc, ◌+◌, ◌-◌, ◌*◌, ◌/◌, ◌%◌, ◌^◌, ◌≤◌, ◌<◌, ◌≡◌, ◌∙◌, ap, sym, arith, u64, not64,
  bit_and,
}
use ely_square.Base.Bits.{bit_and_high}
use ely_square.Arena.{align_forward, chunk_pages}

-- Rounding down to a multiple.
multiple_below : (x p : ℕ) → x - x % p ≡ p * (x / p)
multiple_below x p = omega (arith, div-add-mod x p, mod-le x p)

-- With a power of two as alignment and no overflow, the address is rounded up to the least multiple
-- of it from the address on.
pub align_forward_lem :
    (address j : ℕ)
    → j < 64
    → address + 2 ^ j ≤ 2 ^ 64
    → let r = align_forward address (2 ^ j) in
      (r % 2 ^ j ≡ 0) × (address ≤ r) × (r < address + 2 ^ j)
unfolding align_forward
align_forward_lem address j hj fits =
    let pos : 0 < 2 ^ j = one-le-pow j 2 (omega arith) in
    let top : 2 ^ j ≤ 2 ^ 63 =
      pow-le-pow_right {n = 2} (omega arith) {i = j} {j = 63} (omega arith) in
    let v = address + 2 ^ j - 1 in
    let sum : u64 (u64 (address + 2 ^ j) + 2 ^ 64 - 1) ≡ v = omega arith in
    let mask : not64 (u64 (2 ^ j + 2 ^ 64 - 1)) ≡ 2 ^ 64 - 2 ^ j = omega arith in
    let down : bit_and v (2 ^ 64 - 2 ^ j) ≡ v - v % 2 ^ j =
      bit_and_high 64 j v (omega arith) (omega arith) in
    rw (sum, mask, down)
      (
        rw (multiple_below v (2 ^ j)) (mul-mod_right (2 ^ j) (v / 2 ^ j)),
        omega (arith, mod-lt v {m = 2 ^ j} pos),
        omega (arith, mod-lt v {m = 2 ^ j} pos),
      )

-- A chunk that is enough for `bytes` bytes, within size_t.
pub chunk_pages_lem :
    (bytes : ℕ)
    → bytes < 2 ^ 63
    → (bytes ≤ chunk_pages bytes * 4096)
      × (0 < chunk_pages bytes)
      × (chunk_pages bytes * 4096 < 2 ^ 64)
unfolding chunk_pages
chunk_pages_lem bytes h = ground arith

-- A power of two up to the page size divides a page address.
pow-split : (d j : ℕ) → 2 ^ (d + j) ≡ 2 ^ d * 2 ^ j
pow-split zero j = ap (λ n. 2 ^ n) {x = 0 + j} {y = j} (omega arith) ∙ omega arith
pow-split (suc d) j =
    ap (λ n. 2 ^ n) {x = suc d + j} {y = suc (d + j)} (omega arith)
    ∙ pow-suc 2 (d + j)
    ∙ omega (arith, pow-split d j, pow-suc 2 d, ap (λ n. n * 2 ^ j) (pow-suc 2 d))

pub page_aligned : (j address : ℕ) → j ≤ 12 → address % 4096 ≡ 0 → address % 2 ^ j ≡ 0
page_aligned j address h e =
    let page : 2 ^ (12 - j) * 2 ^ j ≡ 4096 =
      sym (pow-split (12 - j) j) ∙ ap (λ n. 2 ^ n) {x = 12 - j + j} {y = 12} (omega arith) in
    let q = address / 4096 in
    let whole : address ≡ q * 2 ^ (12 - j) * 2 ^ j = omega (arith, ap (λ n. q * n) page) in
    rw whole (mul-mod_left (q * 2 ^ (12 - j)) (2 ^ j))

pub both_multiples : (x y p : ℕ) → x % p ≡ 0 → y % p ≡ 0 → (x + y) % p ≡ 0
both_multiples x y p hx hy = add-mod x y p ∙ rw (hx, hy) (zero-mod p)
