-- ===== src/MetaArena/Sizes.antt =====
-- The size classes of MetaArena.
use ely_square.Base.{
  ℕ, suc, ◌+◌, ◌-◌, ◌*◌, ◌%◌, ◌^◌, ◌≤◌, ◌<◌, ◌≡◌, ◌⊎◌, arith, ltb, bit_and, if◌then◌else◌, u64,
}
use ely_square.Base.Bits.{bit_and_high}
use ely_square.MetaArena.{align_size, get_bucket_index}

-- A size up to the largest that does not overflow is rounded up to the least multiple of 16 that is
-- at least 16, and its bucket is the number of those multiples before it.
pub align_size_lem :
    (size : ℕ)
    → size + 15 < 2 ^ 64
    → (align_size size % 16 ≡ 0)
      × (size ≤ align_size size)
      × (16 ≤ align_size size)
      × ((align_size size < size + 16) ⊎ (align_size size ≡ 16))
      × (16 * suc (get_bucket_index (align_size size)) ≡ align_size size)
unfolding align_size get_bucket_index
align_size_lem size fits =
    let actual = if ltb size 16 then 16 else size in
    let fits' : actual + 15 < 2 ^ 64 = ground arith in
    let down : bit_and (u64 (actual + 15)) (2 ^ 64 - 16)
        ≡ u64 (actual + 15) - u64 (actual + 15) % 16 =
      bit_and_high 64 4 (u64 (actual + 15)) (omega arith) (omega arith) in
    rw down (ground arith)
