-- ===== src/Buddy/Geometry.antt =====
-- Where the blocks of an order lie: at the multiples of their size, each next to its buddy.
use native.Mathlib.Nat.{pow-suc, pow-le-pow_right, mul-le-mul_right}
use mathlib.Core.Path.{subst}
use ely_square.Base.{
  ℕ, zero, suc, ◌+◌, ◌-◌, ◌*◌, ◌/◌, ◌%◌, ◌^◌, ◌≤◌, ◌<◌, ◌≡◌, ap, ◌∙◌, sym, arith, bit_xor, dec_lt,
  ℕ_discrete,
}
use ely_square.Base.Bits.{bit_xor_step, pow_word}
use ely_square.Buddy.{get_buddy_offset}

-- An offset is a multiple of the size of an order.
abbrev pub IsAligned : (order offset : ℕ) → Type 0
IsAligned order offset = (q : ℕ) × (offset ≡ q * 2 ^ order)

pub pow_split : (i j : ℕ) → 2 ^ (i + j) ≡ 2 ^ i * 2 ^ j
pow_split zero j = ap (λ n. 2 ^ n) {x = 0 + j} {y = j} (omega arith) ∙ omega arith
pow_split (suc i) j =
    ap (λ n. 2 ^ n) {x = suc i + j} {y = suc (i + j)} (omega arith)
    ∙ rw (pow-suc 2 i) (omega (arith, pow-suc 2 (i + j), pow_split i j))

pub pow_pos : (k : ℕ) → 0 < 2 ^ k
pow_pos k = pow-le-pow_right {n = 2} (omega arith) {i = 0} {j = k} (omega arith)

pub IsAligned-lower : (k j x : ℕ) → k ≤ j → IsAligned j x → IsAligned k x
IsAligned-lower k j x le (q, e) =
    let shift : 2 ^ j ≡ 2 ^ (j - k) * 2 ^ k =
      ap (λ n. 2 ^ n) {x = j} {y = j - k + k} (omega arith) ∙ pow_split (j - k) k in
    (q * 2 ^ (j - k), e ∙ rw shift (omega arith))

pub IsAligned-next : (k x : ℕ) → IsAligned k x → IsAligned k (x + 2 ^ k)
IsAligned-next k x (q, e) = (suc q, omega (arith, e))

-- Between two multiples there is room for a block.
pub IsAligned-gap : (k x y : ℕ) → IsAligned k x → IsAligned k y → x < y → x + 2 ^ k ≤ y
IsAligned-gap k x y (q, e) (r, f) lt = elim (dec_lt q r) [
  | yes h ↦ omega (arith, e, f, mul-le-mul_right (2 ^ k) h)
  | no h ↦ absurd (omega (arith, e, f, mul-le-mul_right {m = r} {n = q} (2 ^ k) (omega arith)))
]

bit_xor-zero : (n a : ℕ) → a ≤ n → bit_xor a 0 ≡ a
bit_xor-zero zero a h = let e : a ≡ 0 = omega arith in rw e (omega (arith, bit_xor_step 0 0))
bit_xor-zero (suc n) a h = omega (arith, bit_xor_step a 0, bit_xor-zero n (a / 2) (omega arith))

bit_xor-scaled : (k q : ℕ) → bit_xor (q * 2 ^ k) (2 ^ k) ≡ bit_xor q 1 * 2 ^ k
bit_xor-scaled zero q = ap (λ n. bit_xor n 1) {x = q * 2 ^ 0} {y = q} (omega arith) ∙ omega arith
bit_xor-scaled (suc k) q =
    let half : q * 2 ^ suc k / 2 ≡ q * 2 ^ k = rw (pow-suc 2 k) (omega arith) in
    let half' : 2 ^ suc k / 2 ≡ 2 ^ k = omega (arith, pow-suc 2 k) in
    let step : bit_xor (q * 2 ^ suc k) (2 ^ suc k)
        ≡ bit_xor (q * 2 ^ k) (2 ^ k) * 2 + (q * 2 ^ suc k % 2 + 2 ^ suc k % 2) % 2 =
      subst
        (λ n.
          bit_xor (q * 2 ^ suc k) (2 ^ suc k)
          ≡ bit_xor n (2 ^ k) * 2 + (q * 2 ^ suc k % 2 + 2 ^ suc k % 2) % 2)
        half
        (subst
          (λ n.
            bit_xor (q * 2 ^ suc k) (2 ^ suc k)
            ≡ bit_xor (q * 2 ^ suc k / 2) n * 2 + (q * 2 ^ suc k % 2 + 2 ^ suc k % 2) % 2)
          half' (bit_xor_step (q * 2 ^ suc k) (2 ^ suc k))) in
    let even : q * 2 ^ suc k % 2 ≡ 0 = rw (pow-suc 2 k) (omega arith) in
    let even' : 2 ^ suc k % 2 ≡ 0 = rw (pow-suc 2 k) (omega arith) in
    let twice : bit_xor q 1 * 2 ^ suc k ≡ bit_xor q 1 * 2 ^ k * 2 =
      rw (pow-suc 2 k) (omega arith) in
    omega (arith, step, even, even', twice, bit_xor-scaled k q)

-- The two halves of a block of the next order: `x` is the lower one, or `y` is.
pub data IsBuddy (k x y : ℕ) : Type 0 where
  lower_half : IsAligned (suc k) x → y ≡ x + 2 ^ k → IsBuddy k x y
  upper_half : IsAligned (suc k) y → x ≡ y + 2 ^ k → IsBuddy k x y

pub IsBuddy-IsAligned : (k x y : ℕ) → IsBuddy k x y → IsAligned k y
IsBuddy-IsAligned k x y (lower_half a e) =
    subst (IsAligned k) (sym e) (IsAligned-next k x (IsAligned-lower k (suc k) x (omega arith) a))
IsBuddy-IsAligned k x y (upper_half a e) = IsAligned-lower k (suc k) y (omega arith) a

-- A larger block around one half is around the other.
pub IsBuddy-around :
    (k x y z j : ℕ)
    → IsBuddy k x y
    → k < j
    → IsAligned j z
    → z ≤ y
    → y < z + 2 ^ j
    → (z ≤ x) × (x < z + 2 ^ j)
IsBuddy-around k x y z j (lower_half a e) lt b lo hi = elim (dec_lt x z) [
  | yes h ↦ absurd (
      omega (
        arith,
        e,
        pow-suc 2 k,
        pow_pos k,
        IsAligned-gap (suc k) x z a (IsAligned-lower (suc k) j z lt b) h,
      ))
  | no h ↦ (omega arith, omega (arith, e))
]
IsBuddy-around k x y z j (upper_half a e) lt b lo hi = (
  omega (arith, e),
  omega (
    arith,
    e,
    pow-suc 2 k,
    pow_pos k,
    IsAligned-gap (suc k) y (z + 2 ^ j) a
        (IsAligned-lower (suc k) j (z + 2 ^ j) lt (IsAligned-next j z b)) hi,
  ),
)

-- The buddy of a block is the other half of the block around it.
pub get_buddy_offset-IsBuddy :
    (k x : ℕ) → k < 32 → IsAligned k x → IsBuddy k x (get_buddy_offset x k)
unfolding get_buddy_offset
get_buddy_offset-IsBuddy k x h (q, e) =
    let (word, below) = pow_word k h in
    let back = bit_xor-zero (q / 2) (q / 2) (omega arith) in
    let flip : bit_xor x (2 ^ k) ≡ (q / 2 * 2 + (q % 2 + 1) % 2) * 2 ^ k =
      ap (λ n. bit_xor n (2 ^ k)) {x = x} {y = q * 2 ^ k} e
      ∙ bit_xor-scaled k q
      ∙ ap (λ n. n * 2 ^ k) {x = bit_xor q 1} {y = q / 2 * 2 + (q % 2 + 1) % 2}
          (omega (arith, bit_xor_step q 1, back)) in
    rw word (elim (ℕ_discrete (q % 2) 0) [
      | yes even ↦
          lower_half
            (
              q / 2,
              rw (pow-suc 2 k)
                  (omega (arith, e, ap (λ n. n * 2 ^ k) {x = q} {y = q / 2 * 2} (omega arith))),
            )
            (omega (
              arith,
              flip,
              e,
              ap (λ n. n * 2 ^ k) {x = q} {y = q / 2 * 2} (omega arith),
              ap (λ n. n * 2 ^ k) {x = q / 2 * 2 + (q % 2 + 1) % 2} {y = q / 2 * 2 + 1}
                  (omega arith),
            ))
      | no odd ↦
          upper_half
            (
              q / 2,
              rw (pow-suc 2 k) (
                  omega (
                    arith,
                    flip,
                    ap (λ n. n * 2 ^ k) {x = q / 2 * 2 + (q % 2 + 1) % 2} {y = q / 2 * 2}
                        (omega arith),
                  )),
            )
            (omega (
              arith,
              flip,
              e,
              ap (λ n. n * 2 ^ k) {x = q} {y = q / 2 * 2 + 1} (omega arith),
              ap (λ n. n * 2 ^ k) {x = q / 2 * 2 + (q % 2 + 1) % 2} {y = q / 2 * 2} (omega arith),
            ))
    ])
