-- ===== src/Buddy/Merges.antt =====
-- mergeBlock joins the block in hand with its buddy for as long as that is free, and frees the rest.
use ely_square.Base.{ℕ, zero, suc, ◌+◌, ◌-◌, ◌<◌, ◌≡◌, refl, arith, Bool, true, false, min}
use ely_square.Buddy.{
  BuddyAllocator, max_order, get_buddy_offset, remove_free_block, buddy_is_free, merge_levels,
  merge_block,
}
use ely_square.Buddy.Blocks.{Blocks, block}
use ely_square.Buddy.Heap.{Chunk, IsHeap, IsHeap-bounds}
use ely_square.Buddy.Joining.{
  IsMerged, push-IsMerged, BuddyTest, mergeable, unmergeable, buddy_is_free-BuddyTest,
  joined-IsMerged, heap_joined, joined_hand,
}

-- The loop, from the order of the block in hand to the largest.
merge_levels-IsMerged :
    {ch : Chunk} (levels x k : ℕ) {cells : Blocks} {b : BuddyAllocator}
    → IsHeap ch x cells b
    → cells x ≡ block k false
    → levels + k ≡ max_order
    → IsMerged ch x cells (merge_levels levels x k b)
unfolding merge_levels
merge_levels-IsMerged {ch} zero x k h ex full =
    push-IsMerged x k h ex (λ lt. absurd (omega (arith, full, ch.small)))
merge_levels-IsMerged {ch} (suc levels) x k {cells} {b} h ex full =
    by_test (buddy_is_free (get_buddy_offset x k) k b) refl
      (buddy_is_free-BuddyTest x k h ex (omega (arith, full)))
      (λ ey lt. joined-IsMerged x k h ex ey lt (
        merge_levels-IsMerged levels (min x (get_buddy_offset x k)) (suc k)
          (heap_joined x k h ex ey lt) (joined_hand x k h ex ey lt) (omega (arith, full))))
  where
    by_test :
        (t : Bool)
        → buddy_is_free (get_buddy_offset x k) k b ≡ t
        → BuddyTest x k h ex t
        → (cells (get_buddy_offset x k) ≡ block k true
            → k < ch.top
            → IsMerged ch x cells (
                merge_levels levels
                  (min x (get_buddy_offset x k))
                  (suc k)
                  (remove_free_block (get_buddy_offset x k) k b)))
        → IsMerged ch x cells (merge_levels (suc levels) x k b)
    by_test true e (mergeable ey lt) merged = rw (merge_levels, e) (merged ey lt)
    by_test false e (unmergeable apart) merged = rw (merge_levels, e) (push-IsMerged x k h ex apart)

-- Freeing the block in hand.
pub merge_block-IsMerged :
    {ch : Chunk} (x k : ℕ) {cells : Blocks} {b : BuddyAllocator}
    → IsHeap ch x cells b
    → cells x ≡ block k false
    → IsMerged ch x cells (merge_block x k b)
unfolding merge_block
merge_block-IsMerged x k h ex =
    merge_levels-IsMerged (max_order - k) x k h ex (omega (arith, IsHeap-bounds h x k false ex))
