-- ===== src/PageBitmap/Marks.antt =====
-- The loops that set and clear the digits of a chunk of pages.
use native.Mathlib.Nat.{pow-le-pow_right}
use ely_square.Base.{
  ℕ, zero, suc, ◌+◌, ◌*◌, ◌/◌, ◌%◌, ◌^◌, ◌≤◌, ◌<◌, ◌≡◌, refl, ◌∙◌, arith, not64, ◌==◌, inl,
  if◌then◌else◌, bit_and, bit_or, List, length, get_or, set, lt→ltb, ◌≢◌, ℕ_discrete, ok, ◌⊎◌,
  length-set, get_or-set_self, get_or-set_ne, dec_lt, undefined, le→ltb_false,
}
use ely_square.Base.Bits.{
  bit, bit_not, bit-bit_or, bit-bit_and, bit-pow_self, bit-pow_ne, bit-lt-two, bit_or-lt,
  bit_and-le,
}
use ely_square.PageBitmap.{mark_pages, clear_pages}
use ely_square.PageBitmap.Search.{page_bit}

abbrev pub IsSmall : List ℕ → Type 0
IsSmall bitmap = (j : ℕ) → get_or bitmap j 0 < 2 ^ 64

-- `after` is `before` with the digits of the pages from `lo` up to `hi` made `d`.
pub record IsFilled (d lo hi : ℕ) (before after : List ℕ) : Type 0 where
  pub same_length : length after ≡ length before
  pub small : IsSmall after
  pub inside : (p : ℕ) → lo ≤ p → p < hi → page_bit after p ≡ d
  pub outside : (p : ℕ) → (p < lo) ⊎ (hi ≤ p) → page_bit after p ≡ page_bit before p

power-lt : (k : ℕ) → 2 ^ (k % 64) < 2 ^ 64
power-lt k =
    omega (arith, pow-le-pow_right {n = 2} (omega arith) {i = k % 64} {j = 63} (omega arith))

-- `word` is the word of page `idx` with the digit of that page made `d`.
record IsUpdated (bitmap : List ℕ) (idx d word : ℕ) : Type 0 where
  fits : word < 2 ^ 64
  hit : bit (idx % 64) word ≡ d
  miss : (k : ℕ) → k ≢ idx % 64 → k < 64 → bit k word ≡ bit k (get_or bitmap (idx / 64) 0)

module _ {bitmap : List ℕ} {idx d word : ℕ} (u : IsUpdated bitmap idx d word) where
  page_bit-set :
      idx / 64 < length bitmap
      → (p : ℕ)
      → page_bit (set bitmap (idx / 64) word) p ≡ (if p == idx then d else page_bit bitmap p)
  unfolding page_bit
  page_bit-set h p = elim (ℕ_discrete (idx / 64) (p / 64)) [
    | yes same ↦
        rw (← same, get_or-set_self bitmap (idx / 64) word 0 h)
          (elim (ℕ_discrete (p % 64) (idx % 64)) [
            | yes e ↦ rw e (ground (arith, u.hit))
            | no ne ↦ ground (arith, u.miss (p % 64) ne)
          ])
    | no other ↦ rw (get_or-set_ne bitmap (idx / 64) (p / 64) word 0 other) (ground arith)
  ]

  IsSmall-set : IsSmall bitmap → idx / 64 < length bitmap → IsSmall (set bitmap (idx / 64) word)
  IsSmall-set small h j = elim (ℕ_discrete (idx / 64) j) [
    | yes e ↦ rw (← e, get_or-set_self bitmap (idx / 64) word 0 h) u.fits
    | no ne ↦ rw (get_or-set_ne bitmap (idx / 64) j word 0 ne) (small j)
  ]

  -- One more page in front of those that are filled.
  IsFilled-cons :
      {hi hi' : ℕ} {after : List ℕ}
      → idx / 64 < length bitmap
      → hi ≡ hi'
      → idx < hi
      → IsFilled d (suc idx) hi (set bitmap (idx / 64) word) after
      → IsFilled d idx hi' bitmap after
  IsFilled-cons h e lt f = record {
    same_length = f.same_length ∙ length-set bitmap (idx / 64) word;
    small = f.small;
    inside = λ p lo hi. elim (ℕ_discrete p idx) [
      | yes first ↦ f.outside p (inl (omega arith)) ∙ page_bit-set h p ∙ ground arith
      | no later ↦ f.inside p (omega arith) (omega arith)
    ];
    outside = λ p out. f.outside p (omega arith) ∙ page_bit-set h p ∙ ground arith;
  }

IsFilled-nil :
    (d idx : ℕ) (bitmap : List ℕ) → IsSmall bitmap → IsFilled d idx (idx + 0) bitmap bitmap
IsFilled-nil d idx bitmap small = record {
  same_length = refl;
  small = small;
  inside = λ p lo hi. absurd (omega arith);
  outside = λ p out. refl;
}

set_digit :
    (bitmap : List ℕ) (idx : ℕ)
    → IsSmall bitmap
    → IsUpdated bitmap idx 1 (bit_or (get_or bitmap (idx / 64) 0) (2 ^ (idx % 64)))
set_digit bitmap idx small =
    let w = get_or bitmap (idx / 64) 0 in
    record {
      fits = bit_or-lt 64 w (2 ^ (idx % 64)) (small (idx / 64)) (power-lt idx);
      hit = omega (
        arith,
        bit-bit_or (idx % 64) w (2 ^ (idx % 64)),
        bit-pow_self (idx % 64),
        bit-lt-two (idx % 64) w,
      );
      miss = λ k ne lt. omega (arith, bit-bit_or k w (2 ^ (idx % 64)), bit-pow_ne k (idx % 64) ne);
    }

clear_digit :
    (bitmap : List ℕ) (idx : ℕ)
    → IsSmall bitmap
    → IsUpdated bitmap idx 0 (bit_and (get_or bitmap (idx / 64) 0) (not64 (2 ^ (idx % 64))))
clear_digit bitmap idx small =
    let w = get_or bitmap (idx / 64) 0 in
    let m = 2 ^ (idx % 64) in
    record {
      fits = omega (arith, bit_and-le 64 w (not64 m) (small (idx / 64)), small (idx / 64));
      hit = omega (
        arith,
        bit-bit_and (idx % 64) w (not64 m),
        bit_not 64 (idx % 64) m (power-lt idx) (omega arith),
        bit-pow_self (idx % 64),
      );
      miss = λ k ne lt. omega (
        arith,
        bit-bit_and k w (not64 m),
        bit_not 64 k m (power-lt idx) lt,
        bit-pow_ne k (idx % 64) ne,
        bit-lt-two k w,
      );
    }

-- In a bitmap of 64-bit words, setting the digits of a chunk that lies inside the bitmap stays
-- inside the array, sets just these and changes no other.
pub mark_pages-IsFilled :
    (bitmap : List ℕ) (idx count : ℕ)
    → IsSmall bitmap
    → idx + count ≤ length bitmap * 64
    → (after : List ℕ) × (mark_pages bitmap idx count ≡ ok after)
      × IsFilled 1 idx (idx + count) bitmap after
unfolding mark_pages
mark_pages-IsFilled bitmap idx zero small fits = (bitmap, refl, IsFilled-nil 1 idx bitmap small)
mark_pages-IsFilled bitmap idx (suc count) small fits =
    let u = set_digit bitmap idx small in
    let word = bit_or (get_or bitmap (idx / 64) 0) (2 ^ (idx % 64)) in
    let inside : idx / 64 < length bitmap = omega arith in
    let rest =
      mark_pages-IsFilled (set bitmap (idx / 64) word) (suc idx) count (IsSmall-set u small inside)
        (rw (length-set bitmap (idx / 64) word) (omega arith)) in
    (
      rest.0,
      rw (lt→ltb _ _ inside) rest.1,
      IsFilled-cons u inside (omega arith) (omega arith) rest.2,
    )

-- In a bitmap of 64-bit words, clearing the digits of a chunk that lies inside the bitmap stays
-- inside the array, clears just these and changes no other.
pub clear_pages-IsFilled :
    (bitmap : List ℕ) (idx count : ℕ)
    → IsSmall bitmap
    → idx + count ≤ length bitmap * 64
    → (after : List ℕ) × (clear_pages bitmap idx count ≡ ok after)
      × IsFilled 0 idx (idx + count) bitmap after
unfolding clear_pages
clear_pages-IsFilled bitmap idx zero small fits = (bitmap, refl, IsFilled-nil 0 idx bitmap small)
clear_pages-IsFilled bitmap idx (suc count) small fits =
    let u = clear_digit bitmap idx small in
    let word = bit_and (get_or bitmap (idx / 64) 0) (not64 (2 ^ (idx % 64))) in
    let inside : idx / 64 < length bitmap = omega arith in
    let rest =
      clear_pages-IsFilled (set bitmap (idx / 64) word) (suc idx) count (IsSmall-set u small inside)
        (rw (length-set bitmap (idx / 64) word) (omega arith)) in
    (
      rest.0,
      rw (lt→ltb _ _ inside) rest.1,
      IsFilled-cons u inside (omega arith) (omega arith) rest.2,
    )

-- A chunk of at least one page that reaches past the bitmap makes the clearing loop run past the array.
clear_pages-undefined :
    (bitmap : List ℕ) (idx count : ℕ)
    → length bitmap * 64 < idx + count
    → 0 < count
    → clear_pages bitmap idx count ≡ undefined
unfolding clear_pages
clear_pages-undefined bitmap idx zero far pos = elim pos [ ]
clear_pages-undefined bitmap idx (suc count) far pos = elim (dec_lt (idx / 64) (length bitmap)) [
  | no h ↦ rw (le→ltb_false (idx / 64) (length bitmap) (omega arith))
  | yes h ↦
      let word = bit_and (get_or bitmap (idx / 64) 0) (not64 (2 ^ (idx % 64))) in
      rw (lt→ltb _ _ h) (
        clear_pages-undefined (set bitmap (idx / 64) word) (suc idx) count
          (rw (length-set bitmap (idx / 64) word) (omega arith)) (omega arith))
]
