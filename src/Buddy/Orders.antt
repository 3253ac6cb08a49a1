-- ===== src/Buddy/Orders.antt =====
-- Offsets of buddies, and the order of a size.
use native.Mathlib.Nat.{pow-suc, pow-le-pow_right}
use ely_square.Base.{
  ◌≤◌, ◌*◌, ◌-◌, ◌⊎◌, inl, inr, Bool-cases, ◌==◌, ==_iff, ==_false, u8, min, leb, leb_false→lt,
  leb→le, dec_lt, ℕ, zero, suc, ◌/◌, ◌^◌, ◌<◌, ◌≡◌, ◌≢◌, refl, ap, ◌∙◌, arith, bit_xor,
}
use ely_square.Base.Bits.{bit, bit_xor_step, bit-bit_xor, bit-pow_self, bit-lt-two, pow_word}
use ely_square.Buddy.{get_buddy_offset, bit_width_from, size_to_order, min_order, max_order}

-- The same number twice cancels out.
pub bit_xor-bit_xor_self : (w a b : ℕ) → a < 2 ^ w → b < 2 ^ w → bit_xor (bit_xor a b) b ≡ a
bit_xor-bit_xor_self zero a b ha hb =
    let ea : a ≡ 0 = omega arith in let eb : b ≡ 0 = omega arith in rw (ea, eb) refl
bit_xor-bit_xor_self (suc w) a b ha hb =
    let x = bit_xor a b in
    let step = bit_xor_step a b in
    let half : x / 2 ≡ bit_xor (a / 2) (b / 2) = omega arith in
    let back : bit_xor (x / 2) (b / 2) ≡ a / 2 =
      ap (λ y. bit_xor y (b / 2)) {x = x / 2} {y = bit_xor (a / 2) (b / 2)} half
      ∙ bit_xor-bit_xor_self w (a / 2) (b / 2) (omega (arith, pow-suc 2 w))
          (omega (arith, pow-suc 2 w)) in
    omega (arith, bit_xor_step x b)

-- The buddy of a block's buddy is the block itself, for each 32-bit offset and order below 32, and
-- no block is its own buddy.
pub get_buddy_offset-get_buddy_offset :
    (offset order : ℕ)
    → offset < 2 ^ 32
    → order < 32
    → (get_buddy_offset (get_buddy_offset offset order) order ≡ offset)
      × (get_buddy_offset offset order ≢ offset)
unfolding get_buddy_offset
get_buddy_offset-get_buddy_offset offset order h ho =
    let (word, below) = pow_word order ho in
    rw word (
      bit_xor-bit_xor_self 32 offset (2 ^ order) h below,
      λ e. omega (
        arith,
        bit-bit_xor order offset (2 ^ order),
        bit-pow_self order,
        bit-lt-two order offset,
        ap (λ y. bit order y) {x = bit_xor offset (2 ^ order)} {y = offset} e,
      ),
    )

-- The width of a number is the least power of two above it.
bit_width_from_lem :
    (n x : ℕ)
    → x < 2 ^ n
    → (bit_width_from n x ≤ n)
      × (x < 2 ^ bit_width_from n x)
      × (((x ≡ 0) × (bit_width_from n x ≡ 0)) ⊎ (2 ^ bit_width_from n x ≤ 2 * x))
unfolding bit_width_from
bit_width_from_lem zero x h = (omega arith, h, inl (omega arith, refl))
bit_width_from_lem (suc n) x h = elim (Bool-cases (x == 0)) [
  | inl e ↦
      let z : x ≡ 0 = (==_iff x 0).0 e in
      rw (bit_width_from, e) (omega arith, omega arith, inl (z, refl))
  | inr e ↦
      let (le, above, least) = bit_width_from_lem n (x / 2) (omega (arith, pow-suc 2 n)) in
      let k = bit_width_from n (x / 2) in
      rw (bit_width_from, e)
        (
          omega arith,
          omega (arith, pow-suc 2 k),
          inr (elim least [
            | inl (z, w) ↦
                omega (arith, pow-suc 2 k, ap (λ y. 2 ^ y) {x = k} {y = 0} w, ==_false x 0 e)
            | inr more ↦ omega (arith, pow-suc 2 k)
          ]),
        )
]

-- A positive size up to the largest block's has the order of the least block of at least 16 bytes
-- that is as large as the size, the header not counted.
pub size_to_order_lem :
    (size : ℕ)
    → 0 < size
    → size ≤ 2 ^ max_order
    → (min_order ≤ size_to_order size)
      × (size_to_order size ≤ max_order)
      × (size ≤ 2 ^ size_to_order size)
      × ((size_to_order size ≡ min_order) ⊎ (2 ^ size_to_order size < 2 * size))
unfolding size_to_order
size_to_order_lem size pos fits = elim (Bool-cases (leb size 16)) [
  | inl e ↦
      let small = leb→le size 16 e in
      rw (size_to_order, e) (omega arith, omega arith, omega arith, inl refl)
  | inr e ↦
      let large = leb_false→lt size 16 e in
      let w = bit_width_from 64 (size - 1) in
      let (le, above, least) = bit_width_from_lem 64 (size - 1) (omega arith) in
      let near : 2 ^ w ≤ 2 * (size - 1) = elim least [
        | inl (z, u) ↦ omega arith
        | inr more ↦ more
      ] in
      let low : 4 ≤ w = elim (dec_lt w 4) [
        | yes h ↦
            absurd
              (omega (arith, pow-le-pow_right {n = 2} (omega arith) {i = w} {j = 4} (omega arith)))
        | no h ↦ omega arith
      ] in
      let high : w ≤ 22 = elim (dec_lt 22 w) [
        | yes h ↦
            absurd
              (omega (arith, pow-le-pow_right {n = 2} (omega arith) {i = 23} {j = w} (omega arith)))
        | no h ↦ omega arith
      ] in
      let order : min (u8 w) max_order ≡ w = omega arith in
      rw (size_to_order, e, order) (low, high, omega arith, inr (omega arith))
]

-- A size above the largest block's has the largest order.
pub size_to_order-large :
    (size : ℕ) → 2 ^ max_order < size → size < 2 ^ 64 → size_to_order size ≡ max_order
unfolding size_to_order
size_to_order-large size large fits = elim (Bool-cases (leb size 16)) [
  | inl e ↦ absurd (omega (arith, leb→le size 16 e))
  | inr e ↦
      let w = bit_width_from 64 (size - 1) in
      let (le, above, least) = bit_width_from_lem 64 (size - 1) (omega arith) in
      let high : 22 ≤ w = elim (dec_lt w 22) [
        | yes h ↦
            absurd
              (omega (arith, pow-le-pow_right {n = 2} (omega arith) {i = w} {j = 22} (omega arith)))
        | no h ↦ omega arith
      ] in
      let order : min (u8 w) max_order ≡ max_order = omega arith in
      rw (size_to_order, e, order) refl
]

-- A power of two has its own exponent as its order.
pub size_to_order-pow : (k : ℕ) → min_order ≤ k → k ≤ max_order → size_to_order (2 ^ k) ≡ k
size_to_order-pow k lo hi =
    let most = pow-le-pow_right {n = 2} (omega arith) {i = k} {j = max_order} hi in
    let pos = pow-le-pow_right {n = 2} (omega arith) {i = 0} {j = k} (omega arith) in
    let t = size_to_order (2 ^ k) in
    let (low, high, fits, tight) = size_to_order_lem (2 ^ k) (omega arith) most in
    elim (dec_lt t k) [
      | yes less ↦ absurd (
          omega (
            arith,
            pow-suc 2 t,
            pow-le-pow_right {n = 2} (omega arith) {i = suc t} {j = k} less,
            pow-le-pow_right {n = 2} (omega arith) {i = 0} {j = t} (omega arith),
          ))
      | no ge ↦ elim tight [
        | inl least ↦ omega arith
        | inr near ↦ elim (dec_lt k t) [
          | yes more ↦ absurd (
              omega (
                arith,
                pow-suc 2 k,
                pow-le-pow_right {n = 2} (omega arith) {i = suc k} {j = t} more,
              ))
          | no le ↦ omega arith
        ]
      ]
    ]
