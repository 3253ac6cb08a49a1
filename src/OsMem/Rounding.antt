-- ===== src/OsMem/Rounding.antt =====
-- The sizes that reach the kernel.
use ely_square.Base.{ℕ, ◌+◌, ◌-◌, ◌%◌, ◌^◌, ◌<◌, ◌≡◌, arith, u64, if◌then◌else◌, ltb, ◌/◌, ◌*◌}
use ely_square.Base.Bits.{bit_and_high}
use ely_square.OsMem.{get_closest_to4}

rounded : (count : ℕ) → get_closest_to4 count ≡ u64 (count + 4095) - u64 (count + 4095) % 4096
unfolding get_closest_to4
rounded count = bit_and_high 64 12 (u64 (count + 4095)) (omega arith) (omega arith)

-- A 64-bit size is rounded up to the next multiple of 4096, unless it is within 4095 of the end of
-- size_t: there the sum wraps and the rounded size is 0.
pub get_closest_to4_lem :
    (count : ℕ)
    → count < 2 ^ 64
    → get_closest_to4 count
      ≡ (if ltb (2 ^ 64 - 4096) count then 0 else (count + 4095) / 4096 * 4096)
get_closest_to4_lem count h = rw (rounded count) (ground arith)
