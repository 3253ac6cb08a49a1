-- ===== src/Block.antt =====
-- lowcode/include/allocators/block.h and lowcode/source/allocators/block.cpp: a pool of blocks of one
-- size in one chunk of pages, with the free ones in a chain.
pub mod Pool
pub mod History
mod Tests
use ely_square.Base.{
  ℕ, zero, suc, ◌+◌, ◌-◌, ◌*◌, ◌/◌, ◌%◌, ◌^◌, bit_and, Bool, true, false, Option, none, some, ltb,
  ◌==◌, if◌then◌else◌, u64, not64, Outcome, ok, panic, ◌>>=◌, out_of_memory,
}
use ely_square.FreeList.{Links, write_next}
use ely_square.PageSource.{PageSource}

-- The allocator with the `next` pointers of its memory. `has_gc_scan_access` is `none` where the
-- constructor leaves it uninitialised.
pub record BlockAllocator : Type 0 where
  pub chunk : ℕ
  pub chunk_size : ℕ
  pub block_size : ℕ
  pub pages_count : ℕ
  pub free_list : Option ℕ
  pub has_gc_scan_access : Option Bool
  pub links : Links

-- The size of a block: the element's, aligned, and a pointer's (8 bytes) at least.
unfoldable pub block_size_of : (elem_size align : ℕ) → ℕ
block_size_of elem_size align =
    let aligned_size =
      bit_and (u64 (u64 (elem_size + align) + 2 ^ 64 - 1)) (not64 (u64 (align + 2 ^ 64 - 1))) in
    if ltb aligned_size 8 then 8 else aligned_size

-- The loop that links the blocks, at index `i` with `count` blocks to come, and the null pointer it
-- writes into the last.
pub link_blocks : (chunk block_size i count current : ℕ) → Links → Links
link_blocks chunk block_size i zero current links = write_next links current none
link_blocks chunk block_size i (suc count) current links =
    let next = chunk + i * block_size in
    link_blocks chunk block_size (suc i) count next (write_next links current (some next))

-- uncheckedAlloc
unfoldable pub unchecked_alloc : BlockAllocator → Option ℕ × BlockAllocator
unchecked_alloc b = elim b.free_list [
  | none ↦ (none, b)
  | some p ↦ (some p, record b { free_list = b.links p })
]

unfoldable pub alloc : ℕ → BlockAllocator → Option ℕ × BlockAllocator
unfolding unchecked_alloc
alloc size b = if ltb b.block_size size then (none, b) else unchecked_alloc b

pub free : Option ℕ → BlockAllocator → BlockAllocator
free none b = b
free (some p) b = record b { links = write_next b.links p b.free_list; free_list = some p }

module _ (ps : PageSource) where
  open ps use {Store, request, release}

  -- The constructor, on memory whose first bytes are `links`.
  pub block_allocator :
      (elem_size blocks_count align : ℕ) → Bool → Links → Store → Outcome (BlockAllocator × Store)
  unfolding block_size_of link_blocks
  block_allocator elem_size blocks_count align gc links s =
      let block_size = block_size_of elem_size align in
      let total_size = u64 (block_size * blocks_count) in
      let pages = u64 (total_size + 4095) / 4096 in
      request s pages >>= λ (start, s'). elim start [
        | none ↦ panic out_of_memory
        | some chunk ↦
            let b : BlockAllocator = record {
              chunk = chunk;
              chunk_size = u64 (pages * 4096);
              block_size = block_size;
              pages_count = pages;
              free_list = none;
              has_gc_scan_access = none;
              links = links;
            } in
            if blocks_count == 0
            then ok (b, s')
            else ok (
              record b {
                free_list = some chunk;
                links = link_blocks chunk block_size 1 (blocks_count - 1) chunk links;
                has_gc_scan_access = some gc;
              },
              s',
            )
      ]

  -- ~BlockAllocator
  pub destroy : BlockAllocator → Store → Outcome Store
  destroy b s = release s b.chunk b.pages_count
