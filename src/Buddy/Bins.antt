-- ===== src/Buddy/Bins.antt =====
-- The bitmap of the bins that hold free blocks.
use native.Mathlib.Nat.{pow-le-pow_right}
use ely_square.Base.{
  ℕ, ◌+◌, ◌-◌, ◌^◌, ◌≤◌, ◌<◌, ◌≡◌, ◌≢◌, inl, inr, refl, sym, ◌∙◌, arith, bit_and, bit_or, List,
  ◌==◌, if◌then◌else◌, u32, not32, get_or, set, length, get_or-set_self, get_or-set_ne, length-set,
  ==_ne, ℕ_discrete, Bool-cases,
}
use ely_square.Base.Bits.{
  bit, bit-lt-two, bit-bit_or, bit-bit_and, bit-pow_self, bit-pow_ne, bit_not, bit_or-lt,
  bit_and-le, pow_word,
}
use ely_square.Buddy.{
  BuddyAllocator, null_offset, bin_count, min_order, push_free_block, unlink_front, unlink_rear,
  remove_free_block,
}

-- A digit of the bitmap is set exactly for a bin that is not empty.
pub record IsIndexed (bins : List ℕ) (bitmap : ℕ) : Type 0 where
  pub count : length bins ≡ bin_count
  pub small : bitmap < 2 ^ bin_count
  pub digit :
      (i : ℕ)
      → i < bin_count
      → bit i bitmap ≡ (if get_or bins i null_offset == null_offset then 0 else 1)

-- One bin and its digit change together.
record IsUpdate (i d : ℕ) (before after : ℕ) : Type 0 where
  fits : after < 2 ^ bin_count
  here : bit i after ≡ d
  elsewhere : (j : ℕ) → j < 32 → j ≢ i → bit j after ≡ bit j before

bin_digit : (i : ℕ) → i < bin_count → 2 ^ i < 2 ^ bin_count
bin_digit i h =
    let most = pow-le-pow_right {n = 2} (omega arith) {i = i} {j = 18} (omega arith) in omega arith

digit_on :
    (i bitmap : ℕ)
    → i < bin_count
    → bitmap < 2 ^ bin_count
    → IsUpdate i 1 bitmap (bit_or bitmap (u32 (2 ^ i)))
digit_on i bitmap h small =
    let (word, below) = pow_word i (omega arith) in
    rw word (record {
      fits = bit_or-lt bin_count bitmap (2 ^ i) small (bin_digit i h);
      here = omega (arith, bit-bit_or i bitmap (2 ^ i), bit-pow_self i, bit-lt-two i bitmap);
      elsewhere = λ j hj ne. omega (arith, bit-bit_or j bitmap (2 ^ i), bit-pow_ne j i ne);
    })

digit_off :
    (i bitmap : ℕ)
    → i < bin_count
    → bitmap < 2 ^ bin_count
    → IsUpdate i 0 bitmap (bit_and bitmap (not32 (u32 (2 ^ i))))
digit_off i bitmap h small =
    let (word, below) = pow_word i (omega arith) in
    rw word (record {
      fits = omega (arith, bit_and-le bin_count bitmap (not32 (2 ^ i)) small);
      here = omega (
        arith,
        bit-bit_and i bitmap (not32 (2 ^ i)),
        bit_not 32 i (2 ^ i) below (omega arith),
        bit-pow_self i,
      );
      elsewhere = λ j hj ne. omega (
        arith,
        bit-bit_and j bitmap (not32 (2 ^ i)),
        bit_not 32 j (2 ^ i) below hj,
        bit-pow_ne j i ne,
        bit-lt-two j bitmap,
      );
    })

IsIndexed-set :
    {bins : List ℕ} {bitmap bitmap' : ℕ} (i v : ℕ)
    → IsIndexed bins bitmap
    → i < bin_count
    → IsUpdate i (if v == null_offset then 0 else 1) bitmap bitmap'
    → IsIndexed (set bins i v) bitmap'
IsIndexed-set {bins} i v x h u = record {
  count = length-set bins i v ∙ x.count;
  small = u.fits;
  digit = λ j hj. elim (ℕ_discrete j i) [
    | yes e ↦ rw (e, get_or-set_self bins i v null_offset (omega (arith, x.count))) u.here
    | no ne ↦
        rw (get_or-set_ne bins i j v null_offset (λ e. ne (sym e)))
          (u.elsewhere j (omega arith) ne ∙ x.digit j hj)
  ];
}

push_free_block-bins :
    (offset order : ℕ) (b : BuddyAllocator)
    → ((push_free_block offset order b).bins ≡ set b.bins (order - min_order) offset)
      × ((push_free_block offset order b).active_bins_bitmap
          ≡ bit_or b.active_bins_bitmap (u32 (2 ^ (order - min_order))))
unfolding push_free_block
push_free_block-bins offset order b =
    elim (Bool-cases (get_or b.bins (order - min_order) null_offset == null_offset)) [
      | inl e ↦ (rw (push_free_block, e) refl, rw (push_free_block, e) refl)
      | inr e ↦ (rw (push_free_block, e) refl, rw (push_free_block, e) refl)
    ]

-- Pushing a block of an order that has a bin, at an offset that is not the null offset, keeps the
-- bitmap in step with the bins, and puts the block at the head of its bin.
pub push_free_block-IsIndexed :
    (offset order : ℕ) (b : BuddyAllocator)
    → IsIndexed b.bins b.active_bins_bitmap
    → min_order ≤ order
    → order < min_order + bin_count
    → offset ≢ null_offset
    → IsIndexed
        (push_free_block offset order b).bins
        (push_free_block offset order b).active_bins_bitmap
      × (get_or (push_free_block offset order b).bins (order - min_order) null_offset ≡ offset)
push_free_block-IsIndexed offset order b x lo hi ne =
    let i = order - min_order in
    let inside : i < bin_count = omega arith in
    let (bins, bitmap) = push_free_block-bins offset order b in
    rw (bins, bitmap)
      (
        IsIndexed-set i offset x inside
            (rw (==_ne offset null_offset ne) (digit_on i b.active_bins_bitmap inside x.small)),
        get_or-set_self b.bins i offset null_offset (omega (arith, x.count)),
      )

unlink_rear-bins :
    (offset : ℕ) (b : BuddyAllocator)
    → ((unlink_rear offset b).bins ≡ b.bins)
      × ((unlink_rear offset b).active_bins_bitmap ≡ b.active_bins_bitmap)
unfolding unlink_rear
unlink_rear-bins offset b = elim (Bool-cases ((b.headers offset).next_offset == null_offset)) [
  | inl e ↦ (rw (unlink_rear, e) refl, rw (unlink_rear, e) refl)
  | inr e ↦ (rw (unlink_rear, e) refl, rw (unlink_rear, e) refl)
]

-- The bitmap and the bins after the first half of a removal.
unlink_front-IsIndexed :
    (offset order : ℕ) (b : BuddyAllocator)
    → IsIndexed b.bins b.active_bins_bitmap
    → min_order ≤ order
    → order < min_order + bin_count
    → get_or b.bins (order - min_order) null_offset ≢ null_offset
    → IsIndexed (unlink_front offset order b).bins (unlink_front offset order b).active_bins_bitmap
unfolding unlink_front
unlink_front-IsIndexed offset order b x lo hi held =
    let i = order - min_order in
    let next = (b.headers offset).next_offset in
    let inside : i < bin_count = omega arith in
    elim (Bool-cases ((b.headers offset).prev_offset == null_offset)) [
      | inr e ↦ rw (unlink_front, e) x
      | inl e ↦ elim (Bool-cases (next == null_offset)) [
        | inl last ↦
            rw (unlink_front, e, last)
              (IsIndexed-set i next x inside
                (rw last (digit_off i b.active_bins_bitmap inside x.small)))
        | inr more ↦
            rw (unlink_front, e, more)
              (IsIndexed-set i next x inside (
                rw more (record {
                  fits = x.small;
                  here =
                      x.digit i inside
                      ∙ rw (==_ne (get_or b.bins i null_offset) null_offset held) refl;
                  elsewhere = λ j hj ne. refl;
                })))
      ]
    ]

-- Removing a block from a bin that holds one keeps the bitmap in step with the bins, whether the
-- block is the head of the bin or not, and whether it is the last of it or not.
pub remove_free_block-IsIndexed :
    (offset order : ℕ) (b : BuddyAllocator)
    → IsIndexed b.bins b.active_bins_bitmap
    → min_order ≤ order
    → order < min_order + bin_count
    → get_or b.bins (order - min_order) null_offset ≢ null_offset
    → IsIndexed
        (remove_free_block offset order b).bins
        (remove_free_block offset order b).active_bins_bitmap
unfolding remove_free_block
remove_free_block-IsIndexed offset order b x lo hi held =
    let (bins, bitmap) = unlink_rear-bins offset (unlink_front offset order b) in
    rw (bins, bitmap) (unlink_front-IsIndexed offset order b x lo hi held)
