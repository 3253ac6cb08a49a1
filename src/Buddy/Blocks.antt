-- ===== src/Buddy/Blocks.antt =====
-- What the headers of the chunk stand for: at each offset a block starts or none does. The blocks
-- partition the chunk.
use native.Mathlib.Nat.{pow-suc, pow-le-pow_right}
use ely_square.Base.{
  ℕ, suc, ◌+◌, ◌^◌, ◌≤◌, ◌<◌, ◌≡◌, ◌≢◌, ◌⊎◌, inl, inr, refl, ap, ◌∙◌, sym, arith, Bool, ◌==◌,
  if◌then◌else◌, ==_refl, ==_ne, dec_lt, ℕ_discrete,
}
use ely_square.Buddy.Headers.{Spaced}
use ely_square.Buddy.Geometry.{
  IsAligned, IsAligned-lower, IsAligned-gap, pow_pos, IsBuddy, IsBuddy-IsAligned, IsBuddy-around,
  lower_half, upper_half,
}

-- What stands at an offset: the start of a block, with its order and whether it is free, or no start.
pub data Cell : Type 0 where
  inside : Cell
  block : (order : ℕ) (is_free : Bool) → Cell

abbrev pub Blocks : Type 0
Blocks = ℕ → Cell

abbrev pub write_cell : Blocks → ℕ → Cell → Blocks
write_cell cells x c = λ a. if a == x then c else cells a

pub write_cell_self : (cells : Blocks) (x : ℕ) (c : Cell) → write_cell cells x c x ≡ c
write_cell_self cells x c = rw (==_refl x) refl

pub write_cell_ne : (cells : Blocks) (x y : ℕ) (c : Cell) → y ≢ x → write_cell cells x c y ≡ cells y
write_cell_ne cells x y c ne = rw (==_ne y x ne) refl

pub eq_of_block : {k j : ℕ} {f g : Bool} → block k f ≡ block j g → (k ≡ j) × (f ≡ g)
eq_of_block h = (cc, cc)

pub write_cell-cases :
    (cells : Blocks) (x y : ℕ) (c d : Cell)
    → write_cell cells x c y ≡ d
    → ((y ≡ x) × (c ≡ d)) ⊎ ((y ≢ x) × (cells y ≡ d))
write_cell-cases cells x y c d h = elim (ℕ_discrete y x) [
  | yes e ↦ inl (e, sym (write_cell_self cells x c) ∙ ap (write_cell cells x c) (sym e) ∙ h)
  | no ne ↦ inr (ne, sym (write_cell_ne cells x y c ne) ∙ h)
]

-- The blocks of a chunk of 2 ^ `top` bytes lie at multiples of their sizes, have at least 32 bytes, do
-- not overlap, and leave no gap.
pub record IsPartition (top : ℕ) (cells : Blocks) : Type 0 where
  pub aligned : (x k : ℕ) (f : Bool) → cells x ≡ block k f → IsAligned k x
  pub inside_chunk : (x k : ℕ) (f : Bool) → cells x ≡ block k f → x + 2 ^ k ≤ 2 ^ top
  pub has_bin : (x k : ℕ) (f : Bool) → cells x ≡ block k f → (5 ≤ k) × (k ≤ top)
  pub apart :
      (x k : ℕ) (f : Bool) (y : ℕ) → cells x ≡ block k f → x < y → y < x + 2 ^ k → cells y ≡ inside
  pub covered :
      (z : ℕ)
      → z < 2 ^ top
      → (x : ℕ) × (k : ℕ) × (f : Bool) × (cells x ≡ block k f) × (x ≤ z) × (z < x + 2 ^ k)

module _ {top : ℕ} {cells : Blocks} (p : IsPartition top cells) where
  -- Two blocks do not share a byte.
  pub IsPartition-disjoint :
      (x y k j : ℕ) (f g : Bool) → cells x ≡ block k f → cells y ≡ block j g → x < y → x + 2 ^ k ≤ y
  IsPartition-disjoint x y k j f g ex ey lt = elim (dec_lt y (x + 2 ^ k)) [
    | yes h ↦ absurd (cc (p.apart x k f y ex lt h, ey))
    | no h ↦ omega arith
  ]

  -- Their headers do not share a byte either.
  pub IsPartition-Spaced :
      (x y k j : ℕ) (f g : Bool) → cells x ≡ block k f → cells y ≡ block j g → x ≢ y → Spaced x y
  IsPartition-Spaced x y k j f g ex ey ne =
      let size : (z i : ℕ) (h : Bool) → cells z ≡ block i h → 32 ≤ 2 ^ i =
        λ z i h e. pow-le-pow_right {n = 2} (omega arith) {i = 5} {j = i} (p.has_bin z i h e).0 in
      elim (dec_lt x y) [
        | yes lt ↦ inl (omega (arith, IsPartition-disjoint x y k j f g ex ey lt, size x k f ex))
        | no ge ↦ inr (
            omega
              (arith, IsPartition-disjoint y x j k g f ey ex (omega (arith, ne)), size y j g ey))
      ]

  buddy_inside :
      (x y k : ℕ) (f : Bool) → cells x ≡ block k f → k < top → IsBuddy k x y → y < 2 ^ top
  buddy_inside x y k f ex lt (lower_half a e) =
      let within = p.inside_chunk x k f ex in
      let pos = pow_pos k in
      let room =
        IsAligned-gap (suc k) x (2 ^ top) a
          (IsAligned-lower (suc k) top (2 ^ top) lt (1, omega arith)) (omega arith) in
      omega (arith, e, pow-suc 2 k)
  buddy_inside x y k f ex lt (upper_half a e) = omega (arith, e, p.inside_chunk x k f ex, pow_pos k)

  not_within :
      (x z k j : ℕ) (f g : Bool)
      → cells x ≡ block k f
      → cells z ≡ block j g
      → k < j
      → z ≤ x
      → x < z + 2 ^ j
      → ⊥
  not_within x z k j f g ex ez lt le more = elim (ℕ_discrete z x) [
    | yes e ↦ absurd (omega (arith, (eq_of_block (sym ez ∙ ap cells e ∙ ex)).0))
    | no ne ↦ absurd (cc (p.apart z j g x ez (omega arith) more, ex))
  ]

  -- Where the buddy of a block would start, a block starts that is no larger.
  pub IsPartition-buddy :
      (x y k : ℕ) (f : Bool)
      → cells x ≡ block k f
      → k < top
      → IsBuddy k x y
      → (j : ℕ) × (g : Bool) × (cells y ≡ block j g) × (j ≤ k)
  IsPartition-buddy x y k f ex lt buddy =
      let (z, j, g, ez, lo, hi) = p.covered y (buddy_inside x y k f ex lt buddy) in
      let base = p.aligned z j g ez in
      elim (dec_lt k j) [
        | no h ↦ elim (dec_lt z y) [
          | yes before ↦ absurd (
              omega (
                arith,
                IsAligned-gap j z y base
                    (IsAligned-lower j k y (omega arith) (IsBuddy-IsAligned k x y buddy)) before,
              ))
          | no same ↦ (j, g, ap cells {x = y} {y = z} (omega arith) ∙ ez, omega arith)
        ]
        | yes h ↦
            let (low, high) = IsBuddy-around k x y z j buddy h base lo hi in
            absurd (not_within x z k j f g ex ez h low high)
      ]
