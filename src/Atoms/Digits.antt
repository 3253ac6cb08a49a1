-- ===== src/Atoms/Digits.antt =====
-- The six digits of a star atom.
use native.Mathlib.Nat.{pow-suc}
use ely_square.Base.{
  ℕ, zero, suc, ◌+◌, ◌-◌, ◌*◌, ◌/◌, ◌%◌, ◌^◌, ◌<◌, ◌≤◌, ◌≡◌, ◌≢◌, refl, sym, ap, ◌∙◌, arith, bit_or,
  bit_and, Bool-cases, inl, inr, List, ◌∷◌, ◌==◌, ==_iff, u16, ok, some, ltb, length, drop, ==_ne,
  ltb→lt, ltb_false→le, le→ltb_false,
}
use ely_square.Base.Bits.{add-bit_or, bit_and_mask, bit_and_high}
use ely_square.Atoms.{
  char_of_digit, pad, write_digits, add_char, star_value, char_to_atom, num_to_star_id,
  star_id_to_num, starid_star_mask, starid_index_mask, broken_atom, atom_to_buffer_char,
}

-- All digits, zeros in front included.
full : (idx n : ℕ) → List ℕ → List ℕ
full zero n acc = acc
full (suc idx) n acc = full idx (n / 36) (char_of_digit (n % 36) ∷ acc)

pad-full : (idx : ℕ) (acc : List ℕ) → pad idx acc ≡ full idx 0 acc
unfolding pad full
pad-full zero acc = refl
pad-full (suc idx) acc = pad-full idx (48 ∷ acc)

write_digits-full : (idx n : ℕ) (acc : List ℕ) → write_digits idx n acc ≡ full idx n acc
unfolding write_digits full
write_digits-full zero n acc = refl
write_digits-full (suc idx) n acc = elim (Bool-cases (n / 36 == 0)) [
  | inl e ↦
      let z : n / 36 ≡ 0 = (==_iff (n / 36) 0).0 e in
      rw e (pad-full idx (char_of_digit (n % 36) ∷ acc))
      ∙ ap (λ q. full idx q (char_of_digit (n % 36) ∷ acc)) (sym z)
  | inr e ↦ rw e (write_digits-full idx (n / 36) (char_of_digit (n % 36) ∷ acc))
]

char_of_digit-ne-zero : (d : ℕ) → char_of_digit d ≢ 0
char_of_digit-ne-zero d = ground arith

add_char-digit : (v d : ℕ) → d < 36 → add_char v (char_of_digit d) ≡ u16 (v + d)
add_char-digit v d h = elim (Bool-cases (ltb d 10)) [
  | inl e ↦ rw e (small (ltb→lt d 10 e))
  | inr e ↦ rw e (large (ltb_false→le d 10 e))
]
  where
    small : d < 10 → add_char v (48 + d) ≡ u16 (v + d)
    small k = ground arith

    large : 10 ≤ d → add_char v (87 + d) ≡ u16 (v + d)
    large k = ground arith

star_value-digit :
    (d w : ℕ) (acc : List ℕ)
    → d < 36
    → star_value (char_of_digit d ∷ acc) w ≡ star_value acc (u16 (u16 (w * 36) + d))
unfolding star_value
star_value-digit d w acc h =
    rw (==_ne (char_of_digit d) 0 (char_of_digit-ne-zero d))
      (ap (star_value acc) (add_char-digit (u16 (w * 36)) d h))

star_value-full :
    (idx n : ℕ) (acc : List ℕ)
    → n < 36 ^ idx
    → star_value (full idx n acc) 0 ≡ star_value acc (u16 n)
unfolding full
star_value-full zero n acc h = ap (λ m. star_value acc m) {x = 0} {y = u16 n} (omega arith)
star_value-full (suc idx) n acc h =
    star_value-full idx (n / 36) (char_of_digit (n % 36) ∷ acc) (omega (arith, pow-suc 36 idx))
    ∙ star_value-digit (n % 36) (u16 (n / 36)) acc (omega arith)
    ∙ ap (λ m. star_value acc m) {x = u16 (u16 (u16 (n / 36) * 36) + n % 36)} {y = u16 n}
        (omega arith)

star_value-end : (w : ℕ) (more : List ℕ) → star_value (0 ∷ more) w ≡ ok w
unfolding star_value
star_value-end w more = refl

pub star_value-write_digits :
    (n : ℕ) (more : List ℕ) → n < 2 ^ 16 → star_value (write_digits 6 n (0 ∷ more)) 0 ≡ ok n
star_value-write_digits n more h =
    ap (λ cs. star_value cs 0) (write_digits-full 6 n (0 ∷ more))
    ∙ star_value-full 6 n (0 ∷ more) (omega arith)
    ∙ star_value-end (u16 n) more
    ∙ ap ok {x = u16 n} {y = n} (omega arith)

pub star_bits : (n : ℕ) → n < 2 ^ 16 → bit_or starid_star_mask n ≡ 2 ^ 31 + n
star_bits n h = add-bit_or 31 1 n (omega arith)

index_bits : (n : ℕ) → bit_and n starid_index_mask ≡ n % 2 ^ 16
index_bits n = bit_and_mask 16 n

-- If the byte of the stack behind the buffer's seven is 0, every 16-bit number comes back from its
-- star atom, which is the number with bit 31 set.
pub star_id_to_num-num_to_star_id :
    (num : ℕ) (more : List ℕ)
    → num < 2 ^ 16
    → (num_to_star_id (0 ∷ more) num ≡ ok (2 ^ 31 + num)) × (star_id_to_num (2 ^ 31 + num) ≡ num)
unfolding num_to_star_id star_id_to_num
star_id_to_num-num_to_star_id num more h =
    (rw (star_value-write_digits num more h) (ap ok (star_bits num h)), rw index_bits (omega arith))

-- If the byte of the stack behind the buffer's seven is a digit and the next one 0, the star atom of a
-- 16-bit number is that of the number times 36 with the digit added, modulo 2 ^ 16.
num_to_star_id-digit :
    (num d : ℕ) (more : List ℕ)
    → num < 2 ^ 16
    → d < 36
    → num_to_star_id (char_of_digit d ∷ 0 ∷ more) num ≡ ok (2 ^ 31 + (num * 36 + d) % 2 ^ 16)
unfolding num_to_star_id
num_to_star_id-digit num d more h hd =
    let value : star_value (write_digits 6 num (char_of_digit d ∷ 0 ∷ more)) 0
        ≡ ok ((num * 36 + d) % 2 ^ 16) =
      ap (λ cs. star_value cs 0) (write_digits-full 6 num (char_of_digit d ∷ 0 ∷ more))
      ∙ star_value-full 6 num (char_of_digit d ∷ 0 ∷ more) (omega arith)
      ∙ star_value-digit d (u16 num) (0 ∷ more) hd
      ∙ star_value-end (u16 (u16 (u16 num * 36) + d)) more
      ∙ ap ok {x = u16 (u16 (u16 num * 36) + d)} {y = (num * 36 + d) % 2 ^ 16} (omega arith) in
    rw value (ap ok (star_bits ((num * 36 + d) % 2 ^ 16) (omega arith)))

-- The star branch of atomToBufferChar and charToAtom: an atom with bit 31 set, other than the broken
-- atom, is written into a buffer of at least eight bytes, and what is read back is the atom without
-- its bits 16 to 30.
pub char_to_atom-atom_to_buffer_char :
    (atom size : ℕ) (out : List ℕ)
    → 2 ^ 31 ≤ atom
    → atom < 2 ^ 32 - 1
    → 8 ≤ length out
    → (buffer : List ℕ) × (atom_to_buffer_char atom out size ≡ ok buffer)
      × (char_to_atom (some buffer) ≡ ok (2 ^ 31 + atom % 2 ^ 16))
unfolding atom_to_buffer_char char_to_atom
char_to_atom-atom_to_buffer_char atom size out star whole room =
    let num = atom % 2 ^ 16 in
    (
      42 ∷ write_digits 6 num (0 ∷ drop 8 out),
      rw
          (
            ==_ne atom broken_atom (λ e. omega (arith, e)),
            ==_ne (bit_and atom starid_star_mask) 0 (has_star atom star whole),
            le→ltb_false (length out) 8 room,
            index_bits atom,
          )
          refl,
      rw (star_value-write_digits num (drop 8 out) (omega arith))
          (ap ok (star_bits num (omega arith))),
    )
  where
    has_star : (a : ℕ) → 2 ^ 31 ≤ a → a < 2 ^ 32 - 1 → bit_and a starid_star_mask ≢ 0
    has_star a lo hi e = omega (arith, e, bit_and_high 32 31 a (omega arith) (omega arith))
