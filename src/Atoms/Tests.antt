-- ===== src/Atoms/Tests.antt =====
-- Concrete instances of the theorems, with star atom 7, and runs on short names.
use ely_square.Base.{ℕ, ◌+◌, ◌%◌, ◌^◌, ◌≡◌, refl, arith, List, [], ◌∷◌, some, ok, replicate}
use ely_square.Atoms.{
  num_to_star_id, star_id_to_num, char_to_atom, atom_to_buffer_char, strlen, from_bytes,
}
use ely_square.Atoms.Digits.{star_id_to_num-num_to_star_id, char_to_atom-atom_to_buffer_char}

star_id_to_num-num_to_star_id_example :
    (num_to_star_id (0 ∷ []) 7 ≡ ok (2 ^ 31 + 7)) × (star_id_to_num (2 ^ 31 + 7) ≡ 7)
star_id_to_num-num_to_star_id_example = star_id_to_num-num_to_star_id 7 [] (omega arith)

char_to_atom-atom_to_buffer_char_example :
    (buffer : List ℕ) × (atom_to_buffer_char 0x8001_0007 (replicate 8 0) 8 ≡ ok buffer)
    × (char_to_atom (some buffer) ≡ ok (2 ^ 31 + 0x8001_0007 % 2 ^ 16))
char_to_atom-atom_to_buffer_char_example =
    char_to_atom-atom_to_buffer_char 0x8001_0007 8 (replicate 8 0) (omega arith) (omega arith)
      (omega arith)

-- "if" keeps its bytes, "while" only the first four.
char_to_atom_short : char_to_atom (some (105 ∷ 102 ∷ 0 ∷ [])) ≡ ok 26217
unfolding char_to_atom strlen from_bytes
char_to_atom_short = refl

char_to_atom_long : char_to_atom (some (119 ∷ 104 ∷ 105 ∷ 108 ∷ 101 ∷ 0 ∷ [])) ≡ ok 1818847351
unfolding char_to_atom strlen from_bytes
char_to_atom_long = refl
