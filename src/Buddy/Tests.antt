-- ===== src/Buddy/Tests.antt =====
-- Concrete instances of the theorems: a chunk of one page, of which two blocks are taken.
use ely_square.Base.{
  assign, ◌+◌, ◌*◌, ◌≤◌, ◌<◌, ◌^◌, ◌⊎◌, inl, inr, ℕ, ◌≡◌, refl, arith, true, false, none, some, ok,
  u64, ◌==◌, Bool-cases, get_or,
}
use ely_square.PageBitmap.{countr_zero_from}
use ely_square.PageSource.Counter.{counter}
use ely_square.Buddy.{
  BuddyAllocator, Headers, size_to_order, push_free_block, remove_free_block, alloc, free,
  buddy_allocator, get_buddy_offset, buddy_is_free, null_offset,
}
use ely_square.Buddy.Orders.{size_to_order_lem}
use ely_square.Buddy.Geometry.{IsAligned}
use ely_square.Buddy.Partition.{mark_block}
use ely_square.Buddy.Heap.{Chunk, remove_free_block-IsHeap}
use ely_square.Buddy.Joining.{IsMerged}
use ely_square.Buddy.Serves.{IsServed, alloc-IsServed}
use ely_square.Buddy.Returns.{free-IsMerged, whole_again}
use ely_square.Buddy.Start.{IsFresh, unused, begun-IsFresh, chunk_pages, buddy_allocator-IsFresh}
use ely_square.Buddy.History.{Used, History, begin, allocated, freed}
use ely_square.Buddy.Overlap.{free-overlap}
use ely_square.Buddy.InUse.{used-Apart, used-in_chunk, all_freed-alloc}

size_to_order_lem_example :
    (4 ≤ size_to_order 40)
    × (size_to_order 40 ≤ 22)
    × (40 ≤ 2 ^ size_to_order 40)
    × ((size_to_order 40 ≡ 4) ⊎ (2 ^ size_to_order 40 < 80))
size_to_order_lem_example = size_to_order_lem 40 (omega arith) (omega arith)

abbrev page : Chunk
page = record {
  top = 12;
  base = 0x10000;
  pages = 1;
  small = omega arith;
  fits = omega arith;
  whole = λ _. refl;
}

abbrev garbage : Headers
garbage = λ a. record { order = 77; is_free = true; next_offset = a; prev_offset = 3 }

abbrev fresh : BuddyAllocator
fresh = push_free_block 0 12 (unused 0x10000 1 true garbage)

fresh-IsFresh : IsFresh page fresh
fresh-IsFresh = begun-IsFresh page true garbage (omega arith)

abbrev after_one : BuddyAllocator
after_one = (alloc 40 fresh).1

abbrev after_two : BuddyAllocator
after_two = (alloc 100 after_one).1

one_alloc : alloc 40 fresh ≡ (some 0x10010, after_one)
unfolding alloc push_free_block countr_zero_from
one_alloc = refl

two_allocs : alloc 100 after_one ≡ (some 0x10090, after_two)
unfolding alloc push_free_block countr_zero_from
two_allocs = refl

abbrev two_used : Used
two_used = assign (assign (λ _. none) 0x10010 (some 6)) 0x10090 (some 7)

history : History fresh after_two two_used
unfolding size_to_order
history =
    allocated 100 0x10090 (allocated 40 0x10010 begin (omega arith) (omega arith) one_alloc)
      (omega arith) (omega arith) two_allocs

used-Apart_example : (0x10010 + 2 ^ 6 ≤ 0x10090) ⊎ (0x10090 + 2 ^ 7 ≤ 0x10010)
used-Apart_example =
    used-Apart page fresh fresh-IsFresh 0x10010 0x10090 6 7 history refl refl
      (λ e. omega (arith, e))

used-in_chunk_example :
    (x : ℕ) × (0x10090 ≡ 0x10000 + x + 16) × IsAligned 7 x × (x + 2 ^ 7 ≤ 1 * 4096)
used-in_chunk_example = used-in_chunk page fresh fresh-IsFresh 0x10090 7 history refl

abbrev after_all : BuddyAllocator
after_all = free (some 0x10010) (free (some 0x10090) after_two)

all_freed : History fresh after_all (assign (assign two_used 0x10090 none) 0x10010 none)
all_freed = freed 0x10010 6 (freed 0x10090 7 history refl) refl

nothing_used : (p : ℕ) → assign (assign two_used 0x10090 none) 0x10010 none p ≡ none
nothing_used p = elim (Bool-cases (p == 0x10010)) [
  | inl e ↦ rw e refl
  | inr e ↦ elim (Bool-cases (p == 0x10090)) [ inl e' ↦ rw (e, e') refl | inr e' ↦ rw (e, e') refl ]
]

all_freed-alloc_example : (p : ℕ) × (b' : BuddyAllocator) × (alloc 4000 after_all ≡ (some p, b'))
unfolding size_to_order
all_freed-alloc_example =
    all_freed-alloc page fresh fresh-IsFresh 4000 all_freed nothing_used (omega arith) (omega arith)
      (omega arith)

alloc-IsServed_example : IsServed page fresh-IsFresh.cells fresh 40 (alloc 40 fresh)
alloc-IsServed_example = alloc-IsServed fresh-IsFresh.heap 40 (inr (omega arith)) (omega arith)

free-IsMerged_example :
    IsMerged page 0
      (mark_block fresh-IsFresh.cells 0 12 false)
      (free (some (0x10000 + 0 + 16)) (remove_free_block 0 12 fresh))
free-IsMerged_example =
    free-IsMerged page (mark_block fresh-IsFresh.cells 0 12 false) (remove_free_block 0 12 fresh) 0
      12
      (remove_free_block-IsHeap fresh-IsFresh.heap 0 12
        (whole_again fresh-IsFresh.heap fresh-IsFresh.idle))
      refl

buddy_allocator-IsFresh_example :
    (ch : Chunk) × (b : BuddyAllocator) × (buddy_allocator counter 5000 true garbage 0x10000
      ≡ ok (b, 0x12000))
    × IsFresh ch b
    × (ch.base ≡ 0x10000)
    × (ch.top ≡ size_to_order (u64 (chunk_pages 5000 * 4096)))
buddy_allocator-IsFresh_example =
    buddy_allocator-IsFresh counter 5000 0x10000 true garbage 0x10000 0x12000 refl
      (inl (1, omega arith, refl))

-- Two blocks of 16 bytes in use.
abbrev two_small : BuddyAllocator
two_small = (alloc 10 (alloc 10 fresh).1).1

first_small : (two_small.headers 0).order ≡ 4
unfolding alloc push_free_block countr_zero_from
first_small = refl

second_small : buddy_is_free (get_buddy_offset 0 4) 4 two_small ≡ false
unfolding alloc push_free_block countr_zero_from get_buddy_offset buddy_is_free
second_small = refl

no_small_left : get_or two_small.bins 0 null_offset ≡ null_offset
unfolding alloc push_free_block countr_zero_from
no_small_left = refl

free-overlap_example :
    let after = free (some (two_small.base + 0 + 16)) two_small in
    ((after.headers (0 + 16)).order ≡ 127) × ((after.headers (0 + 16)).is_free ≡ true)
free-overlap_example = free-overlap 0 two_small (omega arith) first_small second_small no_small_left
