-- ===== src/Buddy/InUse.antt =====
-- What holds of the blocks in use, for a client of Buddy.History: it asks for more than 16 bytes, and
-- writes to its block only between the header and the block's end, which are 2 ^ order - 16 bytes and
-- may be fewer than it asked for.
use ely_square.Base.{
  ℕ, ◌+◌, ◌*◌, ◌^◌, ◌≤◌, ◌<◌, ◌≡◌, ◌≢◌, ◌⊎◌, inl, inr, ◌∙◌, sym, arith, false, none, some, dec_lt,
}
use ely_square.Buddy.{BuddyAllocator, max_order, size_to_order, alloc}
use ely_square.Buddy.Geometry.{IsAligned}
use ely_square.Buddy.Blocks.{IsPartition-disjoint}
use ely_square.Buddy.Heap.{Chunk}
use ely_square.Buddy.Returns.{alloc-fits}
use ely_square.Buddy.Start.{IsFresh}
use ely_square.Buddy.History.{Used, History, History-IsHeld}

module _ (ch : Chunk) (b₀ : BuddyAllocator) (fresh : IsFresh ch b₀) where
  -- For a client that asks for more than 16 bytes at a time, and writes only to the 2 ^ order - 16 bytes
  -- from the pointer of a block in use on, which may be fewer than it asked for: from an allocator with
  -- no block in use, in whatever order it allocates, frees and writes, the bytes of two blocks in use
  -- with different pointers do not overlap, their headers included. A block is counted with the
  -- 2 ^ order bytes from 16 below its pointer on.
  pub used-Apart :
      {b : BuddyAllocator} {used : Used} (p q j k : ℕ)
      → History b₀ b used
      → used p ≡ some j
      → used q ≡ some k
      → p ≢ q
      → (p + 2 ^ j ≤ q) ⊎ (q + 2 ^ k ≤ p)
  used-Apart p q j k before ep eq ne =
      let h = History-IsHeld ch b₀ fresh before in
      let (x, here, ex) = h.found p j ep in
      let (y, there, ey) = h.found q k eq in
      elim (dec_lt x y) [
        | yes lt ↦ inl (
            omega (
              arith,
              here,
              there,
              IsPartition-disjoint h.heap.partition x y j k false false ex ey lt,
            ))
        | no ge ↦ inr (
            omega (
              arith,
              here,
              there,
              IsPartition-disjoint h.heap.partition y x k j false false ey ex
                  (omega (arith, here, there, ne)),
            ))
      ]

  -- For a client that asks for more than 16 bytes at a time, and writes only to the 2 ^ order - 16 bytes
  -- from the pointer of a block in use on, which may be fewer than it asked for: from an allocator with
  -- no block in use, in whatever order it allocates, frees and writes, each block in use
  -- starts at a multiple of its size from the chunk's base, 16 bytes below its pointer, and ends inside
  -- the chunk.
  pub used-in_chunk :
      {b : BuddyAllocator} {used : Used} (p k : ℕ)
      → History b₀ b used
      → used p ≡ some k
      → (x : ℕ) × (p ≡ ch.base + x + 16) × IsAligned k x × (x + 2 ^ k ≤ ch.pages * 4096)
  used-in_chunk p k before e =
      let h = History-IsHeld ch b₀ fresh before in
      let (x, here, ex) = h.found p k e in
      (
        x,
        here,
        h.heap.partition.aligned x k false ex,
        omega (arith, h.heap.partition.inside_chunk x k false ex, ch.fits),
      )

  -- For a client that asks for more than 16 bytes at a time, and writes only to the 2 ^ order - 16 bytes
  -- from the pointer of a block in use on, which may be fewer than it asked for: from an allocator with
  -- no block in use, in whatever order it allocates, frees and writes, once no block is in
  -- use again, a request of more than 16 bytes, of at most the largest block's size with the header,
  -- whose order is no larger than the chunk's, is served. So freed blocks, in whatever order, are merged
  -- into the whole chunk again.
  pub all_freed-alloc :
      {b : BuddyAllocator} {used : Used} (size : ℕ)
      → History b₀ b used
      → ((p : ℕ) → used p ≡ none)
      → 16 < size
      → size + 16 ≤ 2 ^ max_order
      → size_to_order size ≤ ch.top
      → (p : ℕ) × (b' : BuddyAllocator) × (alloc size b ≡ (some p, b'))
  all_freed-alloc size before idle pos small fits =
      let h = History-IsHeld ch b₀ fresh before in
      alloc-fits h.heap (λ y j e. absurd (cc (sym (h.listed y j e) ∙ idle (ch.base + y + 16)))) size
        pos small fits
