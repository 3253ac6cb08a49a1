-- ===== src/Buddy.antt =====
-- lowcode/include/allocators/buddy.h and lowcode/source/allocators/buddy.cpp: blocks of powers of two
-- in one chunk of pages, with a chain of free blocks for each order. A pointer into the chunk is its
-- offset from `base`; the headers are what the memory holds at each offset, which are multiples of
-- 16. Headers 16 bytes apart share a byte, and a write to it changes both.
pub mod Orders
pub mod Bins
pub mod Geometry
pub mod Headers
pub mod Blocks
pub mod Partition
pub mod Halves
pub mod Joins
pub mod Unlinked
pub mod Pushed
pub mod Chains
pub mod Removal
pub mod Pushing
pub mod Heap
pub mod Splits
pub mod Joining
pub mod Merges
pub mod Search
pub mod Serves
pub mod Returns
pub mod Start
pub mod History
pub mod InUse
pub mod Overlap
mod Tests
use ely_square.Base.{
  ℕ, zero, suc, ◌+◌, ◌-◌, ◌*◌, ◌/◌, ◌%◌, ◌^◌, min, bit_and, bit_or, bit_xor, Bool, true, false,
  Option, none, some, List, ltb, leb, not, ◌&&◌, ◌||◌, ◌==◌, if◌then◌else◌, u8, u32, u64, not32,
  get_or, set, replicate, Outcome, ok, panic, ◌>>=◌, out_of_memory,
}
use ely_square.PageBitmap.{countr_zero}
use ely_square.PageSource.{PageSource}

abbrev pub min_order : ℕ
min_order = 4

abbrev pub max_order : ℕ
max_order = 22

abbrev pub bin_count : ℕ
bin_count = 19

abbrev pub null_offset : ℕ
null_offset = 0xffff_ffff

-- FreeBlockHeader with the fields of BlockHeader, of which `order` has 7 bits
pub record FreeBlockHeader : Type 0 where
  pub order : ℕ
  pub is_free : Bool
  pub next_offset : ℕ
  pub prev_offset : ℕ

abbrev pub Headers : Type 0
Headers = ℕ → FreeBlockHeader

-- The first byte of a header.
pub tag_byte : (order : ℕ) → (is_free : Bool) → ℕ
tag_byte order is_free = (if is_free then 128 else 0) + order % 128

-- The order and the flag of the header at an offset are written. They are its first byte, which is
-- also the lowest byte of the `next_offset` of a header 16 bytes before it.
abbrev pub write_tag : Headers → (offset order : ℕ) → Bool → Headers
write_tag headers offset order is_free = λ a.
    if a == offset
    then record (headers a) { order = order; is_free = is_free }
    else if a + 16 == offset
    then record (headers a) {
      next_offset = (headers a).next_offset / 256 * 256 + tag_byte order is_free;
    }
    else headers a

-- `next_offset` lies 16 bytes behind the start of a header, where the first byte of the next header
-- is if the block has 16 bytes.
abbrev pub write_next_offset : Headers → (offset next : ℕ) → Headers
write_next_offset headers offset next = λ a.
    if a == offset
    then record (headers a) { next_offset = next }
    else if a == offset + 16
    then record (headers a) { order = next % 128; is_free = next / 128 % 2 == 1 }
    else headers a

-- `prev_offset` lies 20 bytes behind the start of a header, where no other header has a field.
abbrev pub write_prev_offset : Headers → (offset prev : ℕ) → Headers
write_prev_offset headers offset prev =
    λ a. if a == offset then record (headers a) { prev_offset = prev } else headers a

pub record BuddyAllocator : Type 0 where
  pub base : ℕ
  pub pages : ℕ
  pub bins : List ℕ
  pub active_bins_bitmap : ℕ
  pub has_gc_scan_access : Bool
  pub headers : Headers

-- `is_free = false` in the header at an offset
abbrev pub clear_flag : BuddyAllocator → ℕ → BuddyAllocator
clear_flag b offset = record b {
  headers = write_tag b.headers offset (b.headers offset).order false;
}

pub get_buddy_offset : (offset order : ℕ) → ℕ
get_buddy_offset offset order = bit_xor offset (u32 (2 ^ order))

-- std::bit_width of a size_t, with the digits still to look at
pub bit_width_from : ℕ → ℕ → ℕ
bit_width_from zero x = 0
bit_width_from (suc n) x = elim (x == 0) [ true ↦ 0 | false ↦ suc (bit_width_from n (x / 2)) ]

pub size_to_order : ℕ → ℕ
unfolding bit_width_from
size_to_order size =
    if leb size 16 then min_order else min (u8 (bit_width_from 64 (size - 1))) max_order

abbrev pub get_index_by_order : ℕ → ℕ
get_index_by_order order = order - min_order

pub push_free_block : (offset order : ℕ) → BuddyAllocator → BuddyAllocator
push_free_block offset order b =
    let i = get_index_by_order order in
    let old_head = get_or b.bins i null_offset in
    let pushed = record b {
      headers =
          write_prev_offset
            (write_next_offset (write_tag b.headers offset (order % 128) true) offset old_head)
            offset null_offset;
      bins = set b.bins i offset;
      active_bins_bitmap = bit_or b.active_bins_bitmap (u32 (2 ^ i));
    } in
    if old_head == null_offset
    then pushed
    else record pushed { headers = write_prev_offset pushed.headers old_head offset }

-- The block before `offset` in its bin, or the bin itself, goes on to the block behind it.
pub unlink_front : (offset order : ℕ) → BuddyAllocator → BuddyAllocator
unlink_front offset order b =
    let block = b.headers offset in
    let i = get_index_by_order order in
    let bitmap =
      if block.next_offset == null_offset
      then bit_and b.active_bins_bitmap (not32 (u32 (2 ^ i)))
      else b.active_bins_bitmap in
    if block.prev_offset == null_offset
    then record b { bins = set b.bins i block.next_offset; active_bins_bitmap = bitmap }
    else record b { headers = write_next_offset b.headers block.prev_offset block.next_offset }

-- The block behind `offset` goes back to the one before it.
pub unlink_rear : (offset : ℕ) → BuddyAllocator → BuddyAllocator
unlink_rear offset b =
    let block = b.headers offset in
    if block.next_offset == null_offset
    then b
    else record b { headers = write_prev_offset b.headers block.next_offset block.prev_offset }

pub remove_free_block : (offset order : ℕ) → BuddyAllocator → BuddyAllocator
unfolding unlink_front unlink_rear
remove_free_block offset order b =
    clear_flag (unlink_rear offset (unlink_front offset order b)) offset

-- The loop of splitBlock, with `count` orders from `order` down to the target.
pub split_loop : (count offset order : ℕ) → BuddyAllocator → BuddyAllocator
unfolding get_buddy_offset push_free_block
split_loop zero offset order b = b
split_loop (suc count) offset order b = split_loop count offset (order - 1) (
    push_free_block (get_buddy_offset offset order) order
      (record b { headers = write_tag b.headers offset (order % 128) (b.headers offset).is_free }))

pub split_block : (offset initial_order target_order : ℕ) → BuddyAllocator → BuddyAllocator
unfolding split_loop
split_block offset initial_order target_order b =
    split_loop (initial_order - target_order) offset (initial_order - 1) b

-- The buddy can be merged with: it lies in the chunk, is free and has the same order.
pub buddy_is_free : (buddy_offset order : ℕ) → BuddyAllocator → Bool
buddy_is_free buddy_offset order b =
    ltb buddy_offset (u64 (b.pages * 4096))
    && ((b.headers buddy_offset).is_free && ((b.headers buddy_offset).order == order))

-- mergeBlock, with the number of orders below the largest, which is where it stops.
pub merge_levels : (levels offset order : ℕ) → BuddyAllocator → BuddyAllocator
unfolding get_buddy_offset push_free_block remove_free_block buddy_is_free
merge_levels zero offset order b = push_free_block offset order b
merge_levels (suc levels) offset order b =
    let buddy_offset = get_buddy_offset offset order in
    let merged =
      merge_levels levels (min offset buddy_offset) (suc order)
        (remove_free_block buddy_offset order b) in
    if buddy_is_free buddy_offset order b then merged else push_free_block offset order b

pub merge_block : (offset order : ℕ) → BuddyAllocator → BuddyAllocator
unfolding merge_levels
merge_block offset order b = merge_levels (max_order - order) offset order b

-- The block of a found bin, split down to the target order, and the pointer behind its header.
pub take_block : (found_idx target_order : ℕ) → BuddyAllocator → ℕ × BuddyAllocator
unfolding remove_free_block split_block
take_block found_idx target_order b =
    let found_order = found_idx + min_order in
    let offset = get_or b.bins found_idx null_offset in
    let removed = remove_free_block offset found_order b in
    let parted =
      if ltb target_order found_order
      then split_block offset found_order target_order removed
      else removed in
    (b.base + offset + 16, clear_flag parted offset)

pub alloc : ℕ → BuddyAllocator → Option ℕ × BuddyAllocator
unfolding size_to_order take_block
alloc size b =
    let target_order = size_to_order size in
    let target_idx = get_index_by_order target_order in
    let mask = bit_and b.active_bins_bitmap (u32 ((2 ^ 32 - 1) * 2 ^ target_idx)) in
    if (size == 0) || (ltb (2 ^ 22) (u64 (size + 16)) || (mask == 0))
    then (none, b)
    else let (p, b') = take_block (countr_zero mask) target_order b in (some p, b')

pub free : Option ℕ → BuddyAllocator → BuddyAllocator
unfolding merge_block
free none b = b
free (some p) b =
    let offset = u32 (p + 2 ^ 64 - 16 + 2 ^ 64 - b.base) in
    merge_block offset (b.headers offset).order b

module _ (ps : PageSource) where
  open ps use {Store, request, release}

  -- The constructor, on memory that holds `headers`.
  pub buddy_allocator : (size : ℕ) → Bool → Headers → Store → Outcome (BuddyAllocator × Store)
  unfolding size_to_order push_free_block
  buddy_allocator size gc headers s =
      let whole = u64 (size + 4095) / 4096 in
      let pages = if whole == 0 then 1 else whole in
      request s pages >>= λ (start, s'). elim start [
        | none ↦ panic out_of_memory
        | some base ↦ ok (
          push_free_block 0 (size_to_order (u64 (pages * 4096))) (record {
            base = base;
            pages = pages;
            bins = replicate bin_count null_offset;
            active_bins_bitmap = 0;
            has_gc_scan_access = gc;
            headers = headers;
          }),
          s',
        )
      ]

  -- ~BuddyAllocator
  pub destroy : BuddyAllocator → Store → Outcome Store
  destroy b s = release s b.base b.pages
