-- ===== src/PageBitmap/Words.antt =====
-- What countr_zero says of the digits of a word.
use native.Mathlib.Nat.{div-le_self, lt_of_le_of_lt}
use ely_square.Base.{
  ℕ, zero, suc, ◌+◌, ◌/◌, ◌%◌, ◌^◌, ◌≤◌, ◌<◌, ◌≡◌, ◌∙◌, arith, not64, ◌==◌, Bool-cases, inl, inr,
  sym, ◌≢◌, dec_lt, true, false, ==_iff, bit_and, ap,
}
use ely_square.Base.Bits.{bit, bit-lt-two, bit-shift, bit_not, bit_and_mask}
use ely_square.PageBitmap.{countr_zero_from, countr_zero, clip}

-- Below the result the digits are 0; at the result, if it is within the rounds, there is a 1.
pub record IsCount (rounds x n : ℕ) : Type 0 where
  pub bounded : n ≤ rounds
  pub zeros : (j : ℕ) → j < n → bit j x ≡ 0
  pub one : n < rounds → bit n x ≡ 1

IsCount-suc :
    {rounds x n : ℕ}
    → (x % 2 == 1) ≡ false
    → IsCount rounds (x / 2) n
    → IsCount (suc rounds) x (suc n)
unfolding bit
IsCount-suc {x} {n} even c = record {
  bounded = omega (arith, c.bounded);
  zeros = λ j h. digit j h;
  one = λ h. c.one (omega arith);
}
  where
    digit : (j : ℕ) → j < suc n → bit j x ≡ 0
    digit zero h = ground arith
    digit (suc j) h = c.zeros j (omega arith)

pub countr_zero_from-IsCount : (rounds x : ℕ) → IsCount rounds x (countr_zero_from rounds x)
unfolding countr_zero_from bit
countr_zero_from-IsCount zero x = record {
  bounded = omega arith;
  zeros = λ j h. elim h [ ];
  one = λ h. elim h [ ];
}
countr_zero_from-IsCount (suc rounds) x = elim (Bool-cases (x % 2 == 1)) [
  | inl odd ↦
      rw odd
        (record { bounded = omega arith; zeros = λ j h. elim h [ ]; one = λ h. (==_iff _ _).0 odd })
  | inr even ↦ rw even (IsCount-suc even (countr_zero_from-IsCount rounds (x / 2)))
]

-- A run of `n` equal digits `d` of a word, from digit `b` on: not empty, and inside the word.
pub record IsRun (word b d n : ℕ) : Type 0 where
  pub positive : 0 < n
  pub inside : b + n ≤ 64
  pub digits : (j : ℕ) → j < n → bit (b + j) word ≡ d

lowest : (x : ℕ) → bit_and x 1 ≡ bit 0 x
unfolding bit
lowest x = bit_and_mask 1 x

IsRun-of_count :
    (t word b d n : ℕ)
    → b < 64
    → IsCount 64 t n
    → bit 0 t ≡ 0
    → ((j : ℕ) → j < n → b + j < 64 → bit (b + j) word ≡ d)
    → IsRun word b d (clip n b)
IsRun-of_count t word b d n hb c even same = record {
  positive = elim (dec_lt 0 n) [
    | yes p ↦ ground arith
    | no p ↦
        let none : n ≡ 0 = omega arith in
        let first : bit n t ≡ bit 0 t = ap (λ i. bit i t) none in
        absurd (omega (arith, c.one (omega arith), first, even))
  ];
  inside = ground arith;
  digits = λ j h. same j (ground arith) (ground arith);
}

odd_ne : (t : ℕ) → (bit_and t 1 == 0) ≡ false → bit_and t 1 ≢ 0
odd_ne t h = ground arith

module _ (word b : ℕ) (hb : b < 64) where
  -- The run of free pages that the inner loop takes at a clear digit.
  pub zeros-IsRun :
      (bit_and (word / 2 ^ b) 1 == 0) ≡ true → IsRun word b 0 (clip (countr_zero (word / 2 ^ b)) b)
  zeros-IsRun even =
      let c = countr_zero_from-IsCount 64 (word / 2 ^ b) in
      IsRun-of_count (word / 2 ^ b) word b 0 (countr_zero (word / 2 ^ b)) hb c
        (sym (lowest (word / 2 ^ b)) ∙ (==_iff _ _).0 even)
        λ j h lt. sym (bit-shift b j word) ∙ c.zeros j h

  -- The run of used pages that it takes at a set digit.
  pub ones-IsRun :
      word < 2 ^ 64
      → (bit_and (word / 2 ^ b) 1 == 0) ≡ false
      → IsRun word b 1 (clip (countr_zero (not64 (word / 2 ^ b))) b)
  ones-IsRun hw odd =
      let t = word / 2 ^ b in
      let small : t < 2 ^ 64 = lt_of_le_of_lt (div-le_self word (2 ^ b)) hw in
      let c = countr_zero_from-IsCount 64 (not64 t) in
      let one : bit 0 t ≡ 1 = omega (arith, bit-lt-two 0 t, lowest t, odd_ne t odd) in
      IsRun-of_count (not64 t) word b 1 (countr_zero (not64 t)) hb c
        (omega (arith, bit_not 64 0 t small (omega arith)))
        λ j h lt.
          sym (bit-shift b j word)
          ∙ omega (arith, c.zeros j h, bit_not 64 j t small (omega arith), bit-lt-two j t)
