-- ===== src/ExBox.antt =====
-- lowcode/include/meta/exbox_core.h: 64-bit tagged values, the tag in the lowest three bits.
-- A double and an int64_t are their bit patterns (what std::bit_cast and the conversions between
-- signed and unsigned give), a pointer is its address, and `char*` is the bytes it points at.
pub mod Words
pub mod Strings
mod Tests
use ely_square.Base.{
  ℕ, zero, suc, ◌+◌, ◌*◌, ◌/◌, ◌%◌, ◌^◌, ◌-◌, bit_and, bit_or, Bool, true, false, Option, none,
  some, List, [], ◌∷◌, ◌++◌, ltb, leb, ◌==◌, if◌then◌else◌, u8, u32, u64, ◌>>>◌, Outcome, ok,
  undefined, ◌>>=◌, length, take,
}

abbrev pub tag_mask : ℕ
tag_mask = 0x7

-- `~0x7ULL`
abbrev pub ptr_mask : ℕ
ptr_mask = 0xffff_ffff_ffff_fff8

abbrev pub tag_gc_ptr : ℕ
tag_gc_ptr = 0

abbrev pub tag_fixnum : ℕ
tag_fixnum = 1

abbrev pub tag_fltnum : ℕ
tag_fltnum = 2

abbrev pub tag_bool_scalar : ℕ
tag_bool_scalar = 3

abbrev pub tag_sso_str : ℕ
tag_sso_str = 4

abbrev pub tag_symbol : ℕ
tag_symbol = 5

abbrev pub tag_raw_ffi : ℕ
tag_raw_ffi = 6

abbrev pub tag_nothing : ℕ
tag_nothing = 7

pub data TypeTag : Type 0 where
  gc_ptr fix_num flt_num bool_or_scalar sso_str symbol raw_or_ffi nothing : TypeTag

-- `static_cast<TypeTag>` of a number from 0 to 7
abbrev pub to_type_tag : ℕ → TypeTag
to_type_tag n =
    if n == 0
    then gc_ptr
    else if n == 1
    then fix_num
    else if n == 2
    then flt_num
    else if n == 3
    then bool_or_scalar
    else if n == 4
    then sso_str
    else if n == 5
    then symbol
    else if n == 6
    then raw_or_ffi
    else nothing

pub get_type_tag_by_tag : ℕ → TypeTag
get_type_tag_by_tag tag = to_type_tag (bit_and tag tag_mask)

pub extract_tag : ℕ → TypeTag
extract_tag raw = to_type_tag (bit_and raw tag_mask)

pub is_gc_pointer : ℕ → Bool
is_gc_pointer raw = bit_and raw tag_mask == tag_gc_ptr

pub extract_gc_pointer : ℕ → ℕ
extract_gc_pointer raw = bit_and raw ptr_mask

pub box_gc_pointer : ℕ → ℕ
box_gc_pointer addr = bit_or (bit_and addr ptr_mask) tag_gc_ptr

pub box_float : ℕ → ℕ
box_float bits = bit_or (bit_and bits ptr_mask) tag_fltnum

pub unbox_flt : ℕ → ℕ
unbox_flt raw = bit_and raw ptr_mask

pub box_atom : ℕ → ℕ
box_atom hash = bit_or (u64 (hash * 2 ^ 3)) tag_symbol

pub unbox_atom : ℕ → ℕ
unbox_atom raw = u32 (raw >>> 3)

pub box_foreign : ℕ → ℕ
box_foreign addr = bit_or (bit_and addr ptr_mask) tag_raw_ffi

pub unbox_foreign : ℕ → ℕ
unbox_foreign raw = bit_and raw ptr_mask

-- `enum SentinelState` of typing.hpp, with the values 0 and 1
pub data SentinelState : Type 0 where
  null_state undefined_state : SentinelState

abbrev pub sentinel_number : SentinelState → ℕ
sentinel_number null_state = 0
sentinel_number undefined_state = 1

pub make_sentinel : SentinelState → ℕ
make_sentinel s = bit_or (u64 (sentinel_number s * 2 ^ 3)) tag_nothing

-- The argument is the bit pattern of an int64_t.
pub box_fixnum : ℕ → ℕ
box_fixnum value = bit_or (u64 (value * 2 ^ 3)) tag_fixnum

-- `static_cast<int64_t>(raw) >> 3` copies the sign into the three top bits.
pub unbox_fixnum : ℕ → ℕ
unbox_fixnum raw = if ltb raw (2 ^ 63) then raw >>> 3 else (raw >>> 3) + 7 * 2 ^ 61

abbrev pub bool_number : Bool → ℕ
bool_number true = 1
bool_number false = 0

pub box_bool : Bool → ℕ
box_bool value = bit_or (u64 (bool_number value * 2 ^ 3)) tag_bool_scalar

pub unbox_bool : ℕ → Bool
unbox_bool raw = if bit_and (raw >>> 3) 1 == 0 then false else true

pub is_undefined : ℕ → Bool
unfolding make_sentinel
is_undefined raw = raw == make_sentinel undefined_state

pub is_null : ℕ → Bool
unfolding make_sentinel
is_null raw = raw == make_sentinel null_state

-- Byte `i` of a 64-bit word in memory, lowest first, replaced by `b`.
abbrev pub set_byte : ℕ → ℕ → ℕ → ℕ
set_byte word i b = word % 2 ^ (8 * i) + b * 2 ^ (8 * i) + word / 2 ^ (8 * suc i) * 2 ^ (8 * suc i)

-- `memcpy` of bytes into the word from byte `i` on, on a little-endian machine
pub copy_in : ℕ → ℕ → List ℕ → ℕ
copy_in word i [] = word
copy_in word i (b ∷ bs) = copy_in (set_byte word i b) (suc i) bs

-- the loop of the other branch, at index `i`
pub or_in : ℕ → ℕ → List ℕ → ℕ
or_in word i [] = word
or_in word i (b ∷ bs) = or_in (bit_or word (u64 (b * 2 ^ (8 + i * 8)))) (suc i) bs

-- The first flag says that the machine is little-endian. Reading past the end of the string is
-- undefined behaviour.
pub box_sso : Bool → Option (List ℕ) → ℕ → Outcome ℕ
unfolding copy_in or_in
box_sso little none length_arg = ok tag_sso_str
box_sso little (some string) length_arg =
    let len = u8 length_arg in
    let n = if ltb 7 len then 7 else len in
    let header = bit_or (u64 (n * 2 ^ 3)) tag_sso_str in
    if ltb (length string) n
    then undefined
    else if little
    then ok (copy_in header 1 (take n string))
    else ok (or_in header 0 (take n string))

-- A shift by 64 or more is undefined; the callers below keep the index under 7.
pub unbox_sso_char : ℕ → ℕ → ℕ
unbox_sso_char raw index = bit_and (raw >>> (8 + index * 8)) 0xff

-- `memcpy` of `n` bytes out of the word from byte `i` on
pub copy_out : ℕ → ℕ → ℕ → List ℕ
copy_out raw i zero = []
copy_out raw i (suc n) = raw / 2 ^ (8 * i) % 256 ∷ copy_out raw (suc i) n

-- the loop of the other branch, at index `i` with `n` rounds left
pub chars_out : ℕ → ℕ → ℕ → List ℕ
unfolding unbox_sso_char
chars_out raw i zero = []
chars_out raw i (suc n) = unbox_sso_char raw i ∷ chars_out raw (suc i) n

-- What is written to the buffer, its final 0 included. A stored length above 7 makes both branches
-- read past the word.
pub unbox_sso_string : Bool → ℕ → Outcome (List ℕ)
unfolding copy_out chars_out
unbox_sso_string little raw =
    let n = bit_and (raw >>> 3) 0x1f in
    if ltb 7 n
    then undefined
    else if little
    then ok (copy_out raw 1 n ++ (0 ∷ []))
    else ok (chars_out raw 0 n ++ (0 ∷ []))
