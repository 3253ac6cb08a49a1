-- ===== src/Buddy/Overlap.antt =====
-- What becomes of the header behind a block of 16 bytes, the least that sizeToOrder gives.
use ely_square.Base.{
  ℕ, suc, ◌+◌, ◌-◌, ◌^◌, ◌<◌, ◌≡◌, refl, arith, true, false, some, u32, get_or, ◌==◌, ==_refl,
  ==_ne,
}
use ely_square.Buddy.{
  BuddyAllocator, null_offset, get_buddy_offset, buddy_is_free, push_free_block, merge_levels,
  merge_block, free,
}

-- Where the buddy is not free, a merge puts the block into its bin.
merge_levels-stops :
    (levels x k : ℕ) (b : BuddyAllocator)
    → buddy_is_free (get_buddy_offset x k) k b ≡ false
    → merge_levels (suc levels) x k b ≡ push_free_block x k b
unfolding merge_levels
merge_levels-stops levels x k b e = rw (merge_levels, e) refl

pushed_over :
    (x : ℕ) (b : BuddyAllocator)
    → get_or b.bins 0 null_offset ≡ null_offset
    → (((push_free_block x 4 b).headers (x + 16)).order ≡ 127)
      × (((push_free_block x 4 b).headers (x + 16)).is_free ≡ true)
unfolding push_free_block
pushed_over x b empty =
    let away : (x + 16 == x) ≡ false = ==_ne (x + 16) x (λ e. omega (arith, e)) in
    rw (empty, away, ==_refl (x + 16)) (refl, refl)

-- Freeing a block of 16 bytes at an offset of 32 bits, whose buddy is not free, into an empty bin
-- overwrites the header 16 bytes behind its start, whatever block that is of: it then says that the block is free and of order 127.
pub free-overlap :
    (x : ℕ) (b : BuddyAllocator)
    → x < 2 ^ 32
    → (b.headers x).order ≡ 4
    → buddy_is_free (get_buddy_offset x 4) 4 b ≡ false
    → get_or b.bins 0 null_offset ≡ null_offset
    → let after = free (some (b.base + x + 16)) b in
      ((after.headers (x + 16)).order ≡ 127) × ((after.headers (x + 16)).is_free ≡ true)
unfolding free merge_block
free-overlap x b small order held empty =
    let offset : u32 (b.base + x + 16 + 2 ^ 64 - 16 + 2 ^ 64 - b.base) ≡ x = omega arith in
    rw (free, offset, order, merge_levels-stops 17 x 4 b held) (pushed_over x b empty)
