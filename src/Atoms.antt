-- ===== src/Atoms.antt =====
-- lowcode/include/meta/starid.h and the conversions of lowcode/source/meta/starid.cpp: atoms, which
-- name strings in 32 bits. A text is the list of the bytes that can be read from its start on; a
-- loop that reads past them is undefined. Bytes are numbers below 256.
pub mod Digits
pub mod Table
mod Tests
use ely_square.Base.{
  ℕ, zero, suc, ◌+◌, ◌-◌, ◌*◌, ◌/◌, ◌%◌, ◌^◌, min, bit_and, bit_or, bit_xor, Bool, true, false,
  Option, none, some, List, [], ◌∷◌, ◌++◌, ltb, leb, not, ◌&&◌, ◌==◌, if◌then◌else◌, u16, u64,
  not32, length, get_or, set, take, drop, Outcome, ok, undefined, ◌>>=◌,
}

-- brokenAtom
abbrev pub broken_atom : ℕ
broken_atom = 0xffff_ffff

-- STARID_STAR_MASK
abbrev pub starid_star_mask : ℕ
starid_star_mask = 0x8000_0000

-- STARID_INDEX_MASK
abbrev pub starid_index_mask : ℕ
starid_index_mask = 0xffff

-- starIDCharset
abbrev pub char_of_digit : ℕ → ℕ
char_of_digit d = if ltb d 10 then 48 + d else 87 + d

-- `static_cast<uint64_t>(str[i])` of a signed char
abbrev pub sign_extended : ℕ → ℕ
sign_extended c = if ltb c 128 then c else c + 2 ^ 64 - 256

unfoldable pub hash_from : ℕ → List ℕ → ℕ
hash_from hash [] = hash
hash_from hash (c ∷ cs) = hash_from (u64 (bit_xor hash (sign_extended c) * 1099511628211)) cs

-- hashString of the first `len` bytes
unfoldable pub hash_string : List ℕ → (len : ℕ) → ℕ
unfolding hash_from
hash_string str len = hash_from 14695981039346656037 (take len str)

pub is_sso : ℕ → Bool
is_sso len = ltb len 8

-- The loop that fills the buffer with '0' from index `idx` down to 1, in front of what is there.
pub pad : ℕ → List ℕ → List ℕ
pad zero acc = acc
pad (suc idx) acc = pad idx (48 ∷ acc)

-- The loop that writes the digits of `n` from index `idx` down, with the padding behind it.
pub write_digits : (idx n : ℕ) → List ℕ → List ℕ
unfolding pad
write_digits zero n acc = acc
write_digits (suc idx) n acc =
    let more = write_digits idx (n / 36) (char_of_digit (n % 36) ∷ acc) in
    if n / 36 == 0 then pad idx (char_of_digit (n % 36) ∷ acc) else more

-- `num += value` of one character; others add nothing.
abbrev pub add_char : (num c : ℕ) → ℕ
add_char num c =
    if leb 48 c && leb c 57
    then u16 (num + (c - 48))
    else if leb 97 c && leb c 122
    then u16 (num + (c - 97 + 10))
    else if leb 65 c && leb c 90
    then u16 (num + (c - 65 + 10))
    else num

-- The loop of charToAtom behind the star.
pub star_value : List ℕ → (num : ℕ) → Outcome ℕ
star_value [] num = undefined
star_value (c ∷ cs) num =
    let more = star_value cs (add_char (u16 (num * 36)) c) in if c == 0 then ok num else more

pub strlen : List ℕ → Outcome ℕ
strlen [] = undefined
strlen (c ∷ cs) = let rest = strlen cs in if c == 0 then ok 0 else (rest >>= λ n. ok (suc n))

-- The number with the bytes, the lowest first.
pub from_bytes : List ℕ → ℕ
from_bytes [] = 0
from_bytes (b ∷ bs) = b + 256 * from_bytes bs

-- charToAtom, on a little-endian machine
pub char_to_atom : Option (List ℕ) → Outcome ℕ
unfolding star_value strlen from_bytes
char_to_atom none = ok 0
char_to_atom (some []) = undefined
char_to_atom (some (c ∷ cs)) =
    let star = star_value cs 0 >>= λ num. ok (bit_or starid_star_mask num) in
    let name = strlen (c ∷ cs) >>= λ len.
    ok (bit_and (from_bytes (take (min 4 len) (c ∷ cs))) (not32 starid_star_mask)) in
    if c == 42 then star else name

abbrev pub bytes_of_atom : ℕ → List ℕ
bytes_of_atom a = a % 256 ∷ a / 256 % 256 ∷ a / 65536 % 256 ∷ a / 16777216 % 256 ∷ []

-- atomToBufferChar on the bytes of the buffer; it writes the same bytes of a star atom whatever
-- size it is told.
pub atom_to_buffer_char : (atom : ℕ) → List ℕ → (buffer_size : ℕ) → Outcome (List ℕ)
unfolding write_digits
atom_to_buffer_char atom out buffer_size =
    let count = min 4 (u64 (buffer_size + 2 ^ 64 - 1)) in
    let star = 42 ∷ write_digits 6 (bit_and atom starid_index_mask) (0 ∷ drop 8 out) in
    let name = set (take count (bytes_of_atom atom) ++ drop count out) 4 0 in
    if atom == broken_atom
    then ok out
    else if bit_and atom starid_star_mask == 0
    then if ltb (length out) 5 then undefined else ok name
    else if ltb (length out) 8
    then undefined
    else ok star

-- atomToChar: the first byte of a buffer of eight, which is uninitialised at first.
pub atom_to_char : List ℕ → (atom : ℕ) → Outcome ℕ
unfolding atom_to_buffer_char
atom_to_char out atom = atom_to_buffer_char atom out 8 >>= λ buffer. ok (get_or buffer 0 0)

-- numToStarId. It does not write the last byte of its buffer: `rest` is what the stack holds from
-- that byte on.
pub num_to_star_id : List ℕ → (num : ℕ) → Outcome ℕ
unfolding write_digits char_to_atom
num_to_star_id rest num = char_to_atom (some (42 ∷ write_digits 6 num rest))

pub star_id_to_num : ℕ → ℕ
star_id_to_num star_id = u16 (bit_and star_id starid_index_mask)
