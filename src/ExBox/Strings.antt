-- ===== src/ExBox/Strings.antt =====
-- boxSSO and unboxSSOString: a string of at most seven bytes in one word.
use native.Mathlib.Numerals.{towards_suc}
use native.Mathlib.Nat.{
  pow-le-pow_right, one-le-pow, add-mul-div_right, div-eq_of_lt, mod-eq_of_lt, mul-le-mul_right,
}
use mathlib.Core.Path.{ap₂}
use ely_square.Base.{
  ℕ, zero, suc, ◌+◌, ◌*◌, ◌/◌, ◌%◌, ◌^◌, ◌<◌, ◌≤◌, min, bit_and, bit_or, ◌≡◌, refl, ◌∙◌, sym, arith,
  Bool, true, false, ap, List, [], ◌∷◌, ◌++◌, length, take, ok, some, u64, ltb, le→ltb_false,
  if◌then◌else◌,
}
use ely_square.Base.Bits.{bit_and_mask, bit_or_add}
use ely_square.ExBox.{
  sso_str, extract_tag, box_sso, unbox_sso_string, copy_in, or_in, copy_out, chars_out, set_byte,
  unbox_sso_char, tag_sso_str, to_type_tag, tag_mask,
}
use ely_square.ExBox.Words.{shifted, low_tag}

abbrev pub IsBytes : List ℕ → Type 0
IsBytes [] = Unit {0}
IsBytes (b ∷ bs) = (b < 256) × IsBytes bs

-- The number whose base-256 digits are the bytes, lowest first.
pub packed : List ℕ → ℕ
packed [] = 0
packed (b ∷ bs) = b + packed bs * 256

byte_weight : (i : ℕ) → 2 ^ (8 * suc i) ≡ 2 ^ (8 * i) * 256
byte_weight i = let e : 8 * suc i ≡ 8 * i + 8 = omega arith in rw e (simp towards_suc (omega arith))

weight_pos : (i : ℕ) → 0 < 2 ^ (8 * i)
weight_pos i = one-le-pow (8 * i) 2 (omega arith)

le_255 : (b : ℕ) → b < 256 → b ≤ 255
le_255 b h = omega arith

field-lt : (p q b w : ℕ) → w < p → b < 256 → q ≡ p * 256 → w + b * p < q
field-lt p q b w hw hb e = omega (arith, mul-le-mul_right p (le_255 b hb))

-- One more byte above the digits that are in place.
set_byte_lem : (word i b : ℕ) → word < 2 ^ (8 * i) → set_byte word i b ≡ word + b * 2 ^ (8 * i)
set_byte_lem word i b h =
    rw
      (
        mod-eq_of_lt h,
        div-eq_of_lt {n = word} {m = 2 ^ (8 * suc i)} (omega (arith, byte_weight i, weight_pos i)),
      )
      (omega arith)

-- The next byte is taken into the lower part.
next_field : (p q w b t : ℕ) → q ≡ p * 256 → w + b * p + t * q ≡ w + (b + t * 256) * p
next_field p q w b t e = omega (arith, ap (λ n. t * n) e)

copy_in-packed :
    (word i : ℕ) (bs : List ℕ)
    → word < 2 ^ (8 * i)
    → IsBytes bs
    → copy_in word i bs ≡ word + packed bs * 2 ^ (8 * i)
unfolding copy_in packed
copy_in-packed word i [] h all = omega arith
copy_in-packed word i (b ∷ bs) h all = rw (set_byte_lem word i b h) (
    copy_in-packed (word + b * 2 ^ (8 * i)) (suc i) bs
      (field-lt (2 ^ (8 * i)) (2 ^ (8 * suc i)) b word h all.0 (byte_weight i)) all.1
    ∙ next_field (2 ^ (8 * i)) (2 ^ (8 * suc i)) word b (packed bs) (byte_weight i))

-- The loop's `|=` puts the byte above the digits that are in place, and the shift loses nothing.
or_in_byte :
    (word i b : ℕ)
    → word < 2 ^ (8 * suc i)
    → b < 256
    → i ≤ 6
    → bit_or word (u64 (b * 2 ^ (8 + i * 8))) ≡ word + b * 2 ^ (8 * suc i)
or_in_byte word i b h hb hi =
    let e : 8 + i * 8 ≡ 8 * suc i = omega arith in
    let top : 2 ^ (8 * suc (suc i)) ≤ 2 ^ 64 =
      pow-le-pow_right {n = 2} (omega arith) {i = 8 * suc (suc i)} {j = 64} (omega arith) in
    let small : b * 2 ^ (8 * suc i) < 2 ^ 64 = omega (
      arith,
      top,
      field-lt (2 ^ (8 * suc i)) (2 ^ (8 * suc (suc i))) b 0 (weight_pos (suc i)) hb
          (byte_weight (suc i)),
    ) in
    rw (e, mod-eq_of_lt small) (bit_or_add (8 * suc i) b word h)

or_in-packed :
    (word i : ℕ) (bs : List ℕ)
    → word < 2 ^ (8 * suc i)
    → IsBytes bs
    → i + length bs ≤ 7
    → or_in word i bs ≡ word + packed bs * 2 ^ (8 * suc i)
unfolding or_in packed
or_in-packed word i [] h all fits = omega arith
or_in-packed word i (b ∷ bs) h all fits = rw (or_in_byte word i b h all.0 (omega arith)) (
    or_in-packed (word + b * 2 ^ (8 * suc i)) (suc i) bs
      (field-lt (2 ^ (8 * suc i)) (2 ^ (8 * suc (suc i))) b word h all.0 (byte_weight (suc i)))
      all.1 (omega arith)
    ∙ next_field (2 ^ (8 * suc i)) (2 ^ (8 * suc (suc i))) word b (packed bs) (byte_weight (suc i)))

copy_out-packed :
    (word i : ℕ) (bs : List ℕ)
    → word < 2 ^ (8 * i)
    → IsBytes bs
    → copy_out (word + packed bs * 2 ^ (8 * i)) i (length bs) ≡ bs
unfolding copy_out packed
copy_out-packed word i [] h all = refl
copy_out-packed word i (b ∷ bs) h all = ap₂ ◌∷◌ this (
    ap (λ n. copy_out n (suc i) (length bs)) rest
    ∙ copy_out-packed (word + b * 2 ^ (8 * i)) (suc i) bs
        (field-lt (2 ^ (8 * i)) (2 ^ (8 * suc i)) b word h all.0 (byte_weight i)) all.1)
  where
    rest :
        word + (b + packed bs * 256) * 2 ^ (8 * i)
        ≡ word + b * 2 ^ (8 * i) + packed bs * 2 ^ (8 * suc i)
    rest = sym (next_field (2 ^ (8 * i)) (2 ^ (8 * suc i)) word b (packed bs) (byte_weight i))

    this : (word + (b + packed bs * 256) * 2 ^ (8 * i)) / 2 ^ (8 * i) % 256 ≡ b
    this =
        omega (
          arith,
          add-mul-div_right word (b + packed bs * 256) (weight_pos i),
          div-eq_of_lt h,
          all.0,
        )

chars_out-copy_out : (raw i n : ℕ) → chars_out raw i n ≡ copy_out raw (suc i) n
unfolding chars_out copy_out unbox_sso_char
chars_out-copy_out raw i zero = refl
chars_out-copy_out raw i (suc n) =
    ap₂ ◌∷◌ (bit_and_mask 8 (raw / 2 ^ (8 + i * 8)) ∙ same) (chars_out-copy_out raw (suc i) n)
  where
    same : raw / 2 ^ (8 + i * 8) % 2 ^ 8 ≡ raw / 2 ^ (8 * suc i) % 256
    same = let e : 8 + i * 8 ≡ 8 * suc i = omega arith in rw e

length-take_le : (n : ℕ) (xs : List ℕ) → n ≤ length xs → length (take n xs) ≡ n
length-take_le zero xs h = refl
length-take_le (suc n) [] h = elim h [ ]
length-take_le (suc n) (x ∷ xs) h = ap suc (length-take_le n xs (omega arith))

take-IsBytes : (n : ℕ) (xs : List ℕ) → IsBytes xs → IsBytes (take n xs)
take-IsBytes zero xs h = tt
take-IsBytes (suc n) [] h = tt
take-IsBytes (suc n) (x ∷ xs) h = (h.0, take-IsBytes n xs h.1)

-- The word that holds `n` bytes: tag, length, then the bytes.
pub sso_word : ℕ → List ℕ → ℕ
sso_word n bs = (n * 8 + 4) + packed bs * 256

sso_header : (n : ℕ) → n ≤ 7 → bit_or (n * 2 ^ 3 % 2 ^ 64) tag_sso_str ≡ n * 8 + 4
sso_header n small = rw (shifted n 4 (omega arith)) (omega arith)

module _ (n : ℕ) (bs : List ℕ) (small : n ≤ 7) where
  sso_length : bit_and (sso_word n bs / 2 ^ 3) 0x1f ≡ n
  unfolding sso_word
  sso_length = rw (bit_and_mask 5 (sso_word n bs / 2 ^ 3)) (omega arith)

  tag-sso_word : extract_tag (sso_word n bs) ≡ sso_str
  unfolding extract_tag sso_word
  tag-sso_word =
      ap to_type_tag {x = bit_and (sso_word n bs) tag_mask} {y = 4}
        (low_tag (sso_word n bs) ∙ omega arith)

  module _ (all : IsBytes bs) (len : length bs ≡ n) where
    copied_in : copy_in (n * 8 + 4) 1 bs ≡ sso_word n bs
    unfolding sso_word
    copied_in = copy_in-packed (n * 8 + 4) 1 bs (omega arith) all

    ored_in : or_in (n * 8 + 4) 0 bs ≡ sso_word n bs
    unfolding sso_word
    ored_in = or_in-packed (n * 8 + 4) 0 bs (omega arith) all (omega arith)

    copied_out : copy_out (sso_word n bs) 1 n ≡ bs
    unfolding sso_word
    copied_out =
        ap (copy_out (sso_word n bs) 1) (sym len)
        ∙ copy_out-packed (n * 8 + 4) 1 bs (omega arith) all

    unboxed : (little : Bool) → unbox_sso_string little (sso_word n bs) ≡ ok (bs ++ (0 ∷ []))
    unfolding unbox_sso_string
    unboxed true = rw (sso_length, le→ltb_false 7 n small, copied_out)
    unboxed false =
        rw (sso_length, le→ltb_false 7 n small, chars_out-copy_out (sso_word n bs) 0 n, copied_out)

clipped : (len : ℕ) → (if ltb 7 len then 7 else len) ≡ min len 7
clipped len = ground arith

-- A string of bytes boxed with a length that it has, below 256, keeps its first seven bytes at most: both the
-- little-endian and the other branch of boxSSO build the same word, it carries the string tag, and
-- both branches of unboxSSOString give back exactly those bytes and a final 0.
pub unbox_sso_string-box_sso :
    (string : List ℕ) (len : ℕ)
    → IsBytes string
    → len ≤ length string
    → len < 256
    → let kept = take (min len 7) string in
      (v : ℕ) × (box_sso true (some string) len ≡ ok v)
      × (box_sso false (some string) len ≡ ok v)
      × (extract_tag v ≡ sso_str)
      × (unbox_sso_string true v ≡ ok (kept ++ (0 ∷ [])))
      × (unbox_sso_string false v ≡ ok (kept ++ (0 ∷ [])))
unfolding box_sso
unbox_sso_string-box_sso string len all h narrow =
    let byte : len % 2 ^ 8 ≡ len = omega (arith, narrow) in
    let n = min len 7 in
    let bs = take n string in
    let small : n ≤ 7 = omega arith in
    let bytes : IsBytes bs = take-IsBytes n string all in
    let size : length bs ≡ n = length-take_le n string (omega arith) in
    let inside : ltb (length string) n ≡ false = le→ltb_false (length string) n (omega arith) in
    (
      sso_word n bs,
      rw (byte, clipped len, inside, sso_header n small) (ap ok (copied_in n bs small bytes size)),
      rw (byte, clipped len, inside, sso_header n small) (ap ok (ored_in n bs small bytes size)),
      tag-sso_word n bs small,
      unboxed n bs small bytes size true,
      unboxed n bs small bytes size false,
    )
