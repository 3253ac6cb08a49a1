-- ===== src/ExBox/Words.antt =====
-- Tags and payloads of the values that fit one word: pointers, numbers, atoms, booleans, sentinels.
use ely_square.Base.{
  ℕ, ◌+◌, ◌*◌, ◌/◌, ◌%◌, ◌^◌, ◌-◌, ◌<◌, ◌≤◌, bit_and, bit_or, ◌≡◌, refl, ◌∙◌, ◌↔◌, ◌⊎◌, arith, Bool,
  true, false, ap,
}
use ely_square.Base.Bits.{bit_and_mask, bit_and_high, add-bit_or}
use ely_square.ExBox.{
  gc_ptr, fix_num, flt_num, bool_or_scalar, symbol, raw_or_ffi, nothing, to_type_tag, extract_tag,
  box_gc_pointer, extract_gc_pointer, is_gc_pointer, box_float, unbox_flt, box_atom, unbox_atom,
  box_foreign, unbox_foreign, make_sentinel, box_fixnum, unbox_fixnum, box_bool, unbox_bool,
  is_undefined, is_null, SentinelState, sentinel_number, bool_number, tag_mask, ptr_mask,
}

-- `x & 7`
pub low_tag : (x : ℕ) → bit_and x tag_mask ≡ x % 8
low_tag x = bit_and_mask 3 x

-- `x & ~7`
pub without_tag : (x : ℕ) → x < 2 ^ 64 → bit_and x ptr_mask ≡ x - x % 8
without_tag x h = bit_and_high 64 3 x h (omega arith)

tag_of : (q t : ℕ) → t < 8 → (q * 8 + t) % 8 ≡ t
tag_of q t h = omega arith

-- `payload << 3 | tag`
pub tagged : (q t : ℕ) → t < 8 → bit_or (q * 8) t ≡ q * 8 + t
tagged q t h = add-bit_or 3 q t h

-- `(x & ~7) | tag`
pub retagged : (x t : ℕ) → x < 2 ^ 64 → t < 8 → bit_or (bit_and x ptr_mask) t ≡ x - x % 8 + t
retagged x t hx ht =
    ap (λ n. bit_or n t) {x = bit_and x ptr_mask} {y = x / 8 * 8} (without_tag x hx ∙ omega arith)
    ∙ tagged (x / 8) t ht
    ∙ omega arith

-- `(x << 3) | tag` of a 64-bit x
pub shifted : (x t : ℕ) → t < 8 → bit_or (x * 2 ^ 3 % 2 ^ 64) t ≡ x % 2 ^ 61 * 8 + t
shifted x t ht =
    ap (λ n. bit_or n t) {x = x * 2 ^ 3 % 2 ^ 64} {y = x % 2 ^ 61 * 8} (omega arith)
    ∙ tagged (x % 2 ^ 61) t ht

tag-retagged :
    (x t : ℕ)
    → x < 2 ^ 64
    → t < 8
    → to_type_tag (bit_and (bit_or (bit_and x ptr_mask) t) tag_mask) ≡ to_type_tag t
tag-retagged x t hx ht =
    ap to_type_tag {x = bit_and (bit_or (bit_and x ptr_mask) t) tag_mask} {y = t}
      (rw (retagged x t hx ht, low_tag) (omega arith))

tag-shifted :
    (x t : ℕ)
    → t < 8
    → to_type_tag (bit_and (bit_or (x * 2 ^ 3 % 2 ^ 64) t) tag_mask) ≡ to_type_tag t
tag-shifted x t ht =
    ap to_type_tag {x = bit_and (bit_or (x * 2 ^ 3 % 2 ^ 64) t) tag_mask} {y = t}
      (rw (shifted x t ht, low_tag) (omega arith))

-- Each boxing function puts its own tag on the word, whatever the 64-bit payload.
extract_tag-box :
    (x y : ℕ) (b : Bool) (s : SentinelState)
    → x < 2 ^ 64
    → (extract_tag (box_gc_pointer x) ≡ gc_ptr)
      × (extract_tag (box_fixnum x) ≡ fix_num)
      × (extract_tag (box_float x) ≡ flt_num)
      × (extract_tag (box_bool b) ≡ bool_or_scalar)
      × (extract_tag (box_atom y) ≡ symbol)
      × (extract_tag (box_foreign x) ≡ raw_or_ffi)
      × (extract_tag (make_sentinel s) ≡ nothing)
unfolding extract_tag box_gc_pointer box_fixnum box_float box_bool box_atom box_foreign
    make_sentinel
extract_tag-box x y b s h = (
  tag-retagged x 0 h (omega arith),
  tag-shifted x 1 (omega arith),
  tag-retagged x 2 h (omega arith),
  tag-shifted (bool_number b) 3 (omega arith),
  tag-shifted y 5 (omega arith),
  tag-retagged x 6 h (omega arith),
  tag-shifted (sentinel_number s) 7 (omega arith),
)

-- A 64-bit foreign pointer comes back exactly if it is aligned to 8 bytes.
unbox_foreign-box_foreign_iff :
    (addr : ℕ) → addr < 2 ^ 64 → (unbox_foreign (box_foreign addr) ≡ addr) ↔ (addr % 8 ≡ 0)
unfolding unbox_foreign box_foreign
unbox_foreign-box_foreign_iff addr h =
    rw (retagged addr 6 h (omega arith), without_tag (addr - addr % 8 + 6) (omega arith))
      (omega arith)

-- A pointer into the collected heap comes back exactly if it is aligned to 8 bytes, and its word is
-- recognised as a pointer in either case.
pub extract_gc_pointer-box_gc_pointer_iff :
    (addr : ℕ)
    → addr < 2 ^ 64
    → ((extract_gc_pointer (box_gc_pointer addr) ≡ addr) ↔ (addr % 8 ≡ 0))
      × (is_gc_pointer (box_gc_pointer addr) ≡ true)
unfolding extract_gc_pointer box_gc_pointer is_gc_pointer
extract_gc_pointer-box_gc_pointer_iff addr h = rw (retagged addr 0 h (omega arith)) (
  rw (without_tag (addr - addr % 8 + 0) (omega arith)) (omega arith),
  rw (low_tag (addr - addr % 8 + 0)) (ground arith),
)

-- Boxing a double clears the three lowest digits of its 64-bit pattern and changes no other:
-- 49 of the 52 mantissa bits survive, and boxing once more loses nothing further.
unbox_flt-box_float :
    (bits : ℕ)
    → bits < 2 ^ 64
    → (unbox_flt (box_float bits) ≡ bits - bits % 8)
      × (box_float (unbox_flt (box_float bits)) ≡ box_float bits)
unfolding unbox_flt box_float
unbox_flt-box_float bits h =
    let e : bit_and (bit_or (bit_and bits ptr_mask) 2) ptr_mask ≡ bits - bits % 8 =
      rw (retagged bits 2 h (omega arith))
        (without_tag (bits - bits % 8 + 2) (omega arith) ∙ omega arith) in
    (
      e,
      rw
          (
            e,
            retagged (bits - bits % 8) 2 (omega arith) (omega arith),
            retagged bits 2 h (omega arith),
          )
          (omega arith),
    )

-- An int64_t comes back from its box exactly if it fits 61 bits, that is, lies from -2^60 up to
-- 2^60 - 1; the bit patterns of these are the numbers below 2^60 and those from 2^64 - 2^60 on.
pub unbox_fixnum-box_fixnum_iff :
    (value : ℕ)
    → value < 2 ^ 64
    → (unbox_fixnum (box_fixnum value) ≡ value) ↔ ((value < 2 ^ 60) ⊎ (2 ^ 64 - 2 ^ 60 ≤ value))
unfolding unbox_fixnum box_fixnum
unbox_fixnum-box_fixnum_iff value h = rw (shifted value 1 (omega arith)) (ground arith)

-- A 32-bit atom comes back from its box.
unbox_atom-box_atom : (hash : ℕ) → hash < 2 ^ 32 → unbox_atom (box_atom hash) ≡ hash
unfolding unbox_atom box_atom
unbox_atom-box_atom hash h = rw (shifted hash 5 (omega arith)) (omega arith)

-- A boolean comes back from its box.
pub unbox_bool-box_bool : (b : Bool) → unbox_bool (box_bool b) ≡ b
unfolding unbox_bool box_bool
unbox_bool-box_bool true = refl
unbox_bool-box_bool false = refl

-- Of all words, the tests for undefined and for null accept one each, and these are different.
pub sentinel_tests :
    (raw : ℕ) → ((is_undefined raw ≡ true) ↔ (raw ≡ 15)) × ((is_null raw ≡ true) ↔ (raw ≡ 7))
unfolding is_undefined is_null
sentinel_tests raw = (ground arith, ground arith)
