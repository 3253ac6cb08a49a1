-- ===== src/Block/Pool.antt =====
-- BlockAllocator as a stack of free blocks.
use ely_square.Base.{
  ℕ, zero, suc, ◌+◌, ◌-◌, ◌*◌, ◌/◌, ◌%◌, ◌^◌, ◌≤◌, ◌<◌, ◌≡◌, ◌⊎◌, inl, inr, dec_le, refl, ◌∙◌,
  arith, Bool, Option, none, some, List, [], ◌∷◌, u64, ok, ==_refl, ==_ne, lt→ltb, le→ltb_false,
}
use ely_square.FreeList.{Links, write_next, IsChain, nil, cons, IsFresh, IsChain-push}
use ely_square.PageSource.{PageSource}
use ely_square.Block.{
  BlockAllocator, block_size_of, link_blocks, unchecked_alloc, alloc, free, block_allocator,
}

-- The addresses of the blocks from index `i` on.
abbrev pub blocks_from : (chunk block_size i count : ℕ) → List ℕ
blocks_from chunk block_size i zero = []
blocks_from chunk block_size i (suc count) =
    (chunk + i * block_size) ∷ blocks_from chunk block_size (suc i) count

module _ (chunk block_size : ℕ) (pos : 0 < block_size) where
  -- The loop does not write below the block it is at.
  link_blocks-below :
      (i count current a : ℕ) (links : Links)
      → current < chunk + i * block_size
      → a < current
      → link_blocks chunk block_size i count current links a ≡ links a
  unfolding link_blocks
  link_blocks-below i zero current a links h below = rw (==_ne a current λ e. omega (arith, e)) refl
  link_blocks-below i (suc count) current a links h below =
      link_blocks-below (suc i) count (chunk + i * block_size) a
        (write_next links current (some (chunk + i * block_size))) (omega arith) (omega arith)
      ∙ rw (==_ne a current λ e. omega (arith, e)) refl

  -- The loop leaves the blocks in the order of their addresses.
  link_blocks-IsChain :
      (i count current : ℕ) (links : Links)
      → current < chunk + i * block_size
      → IsChain
          (link_blocks chunk block_size i count current links)
          (some current)
          (current ∷ blocks_from chunk block_size i count)
  unfolding link_blocks
  link_blocks-IsChain i zero current links h = cons (rw (==_refl current) nil)
  link_blocks-IsChain i (suc count) current links h =
      let next = chunk + i * block_size in
      let kept : link_blocks chunk block_size (suc i) count next
            (write_next links current (some next)) current
          ≡ some next =
        link_blocks-below (suc i) count next current (write_next links current (some next))
          (omega arith) h
        ∙ rw (==_refl current) refl in
      cons (
        rw kept (
          link_blocks-IsChain (suc i) count next (write_next links current (some next))
            (omega arith)))

  blocks_from-IsFresh :
      (i count a : ℕ)
      → a < chunk + i * block_size
      → IsFresh a (blocks_from chunk block_size i count)
  blocks_from-IsFresh i zero a h = tt
  blocks_from-IsFresh i (suc count) a h =
      (λ e. omega (arith, e), blocks_from-IsFresh (suc i) count a (omega arith))

-- No block occurs twice.
abbrev pub AllFresh : List ℕ → Type 0
AllFresh [] = Unit {0}
AllFresh (p ∷ ps) = IsFresh p ps × AllFresh ps

blocks_from-AllFresh :
    (chunk block_size i count : ℕ)
    → 0 < block_size
    → AllFresh (blocks_from chunk block_size i count)
blocks_from-AllFresh chunk block_size i zero pos = tt
blocks_from-AllFresh chunk block_size i (suc count) pos = (
  blocks_from-IsFresh chunk block_size pos (suc i) count (chunk + i * block_size) (omega arith),
  blocks_from-AllFresh chunk block_size (suc i) count pos,
)

-- The allocator has exactly these free blocks, in the order in which it hands them out.
pub record Serves (b : BlockAllocator) (ps : List ℕ) : Type 0 where
  pub chain : IsChain b.links b.free_list ps
  pub distinct : AllFresh ps

-- An element fits in a block, and a block holds a pointer.
block_size_lem : (elem_size align : ℕ) → 8 ≤ block_size_of elem_size align
unfolding block_size_of
block_size_lem elem_size align = ground arith

-- The stack that an allocation leaves, and what it hands out.
abbrev pub popped : List ℕ → Option ℕ × List ℕ
popped [] = (none, [])
popped (p ∷ ps) = (some p, ps)

unchecked_alloc-Serves :
    (b : BlockAllocator) {head : Option ℕ} {ps : List ℕ}
    → IsChain b.links head ps
    → b.free_list ≡ head
    → AllFresh ps
    → ((unchecked_alloc b).0 ≡ (popped ps).0) × Serves ((unchecked_alloc b).1) ((popped ps).1)
unfolding unchecked_alloc
unchecked_alloc-Serves b nil e fresh =
    rw (e, unchecked_alloc) (refl, record { chain = rw e nil; distinct = tt })
unchecked_alloc-Serves b (cons rest) e (first, fresh) =
    rw (e, unchecked_alloc) (refl, record { chain = rest; distinct = fresh })

-- An allocator that serves a stack of blocks: an allocation of at most a block's size pops the
-- stack (a null pointer where it is empty), and a larger one gives a null pointer and changes
-- nothing.
pub alloc-Serves :
    (b : BlockAllocator) (size : ℕ) (ps : List ℕ)
    → Serves b ps
    → ((b.block_size < size) × (alloc size b ≡ (none, b)))
      ⊎ ((size ≤ b.block_size)
          × ((alloc size b).0 ≡ (popped ps).0)
          × Serves ((alloc size b).1) ((popped ps).1))
unfolding alloc
alloc-Serves b size ps v = elim (dec_le size b.block_size) [
  | yes fits ↦
      let (top, rest) = unchecked_alloc-Serves b v.chain refl v.distinct in
      rw (le→ltb_false b.block_size size fits) (inr (fits, top, rest))
  | no large ↦ inl (omega arith, rw (lt→ltb b.block_size size (omega arith)) refl)
]

-- Freeing a block that is not among the free ones puts it on top of the stack.
pub free-Serves :
    (b : BlockAllocator) (p : ℕ) (ps : List ℕ)
    → Serves b ps
    → IsFresh p ps
    → Serves (free (some p) b) (p ∷ ps)
unfolding free
free-Serves b p ps v fresh = record {
  chain = IsChain-push p v.chain fresh;
  distinct = (fresh, v.distinct);
}

mul_pos : (a n : ℕ) → 0 < n → a ≤ a * n
mul_pos a zero pos = elim pos [ ]
mul_pos a (suc n) pos = omega arith

-- What the constructor builds on a chunk.
abbrev pub built : (chunk block_size pages n : ℕ) → Bool → Links → BlockAllocator
built chunk block_size pages n gc links = record {
  chunk = chunk;
  chunk_size = u64 (pages * 4096);
  block_size = block_size;
  pages_count = pages;
  free_list = some chunk;
  has_gc_scan_access = some gc;
  links = link_blocks chunk block_size 1 (n - 1) chunk links;
}

block_allocator-built :
    (ps : PageSource) (elem_size n align pages chunk : ℕ) (gc : Bool) (links : Links)
    (s s' : ps.Store)
    → 0 < n
    → u64 (u64 (block_size_of elem_size align * n) + 4095) / 4096 ≡ pages
    → ps.request s pages ≡ ok (some chunk, s')
    → block_allocator ps elem_size n align gc links s
      ≡ ok (built chunk (block_size_of elem_size align) pages n gc links, s')
unfolding block_allocator
block_allocator-built ps elem_size n align pages chunk gc links s s' pos e granted =
    rw (e, granted, ==_ne n 0 (λ z. omega (arith, z)), e) refl

built-Serves :
    (chunk block_size pages n : ℕ) (gc : Bool) (links : Links)
    → 0 < n
    → 0 < block_size
    → Serves (built chunk block_size pages n gc links) (blocks_from chunk block_size 0 n)
built-Serves chunk block_size pages zero gc links pos word = elim pos [ ]
built-Serves chunk block_size pages (suc n) gc links pos word =
    let first : chunk + 0 * block_size ≡ chunk = omega arith in
    let last : suc n - 1 ≡ n = omega arith in
    record {
      chain =
          rw (first, last)
            (link_blocks-IsChain chunk block_size word 1 n chunk links (omega arith));
      distinct = blocks_from-AllFresh chunk block_size 0 (suc n) word;
    }

-- The constructor, for a positive number of blocks that size_t can hold, on a page source that
-- grants that much: it returns an allocator whose free blocks are all its blocks in the order of
-- their addresses, from the start of its page-aligned chunk, and which together fit in the chunk.
pub block_allocator-Serves :
    (ps : PageSource) (elem_size n align : ℕ) (gc : Bool) (links : Links) (s : ps.Store)
    → ps.IsReady s
    → 0 < n
    → block_size_of elem_size align * n < 2 ^ 63
    → (block_size_of elem_size align * n + 4095) / 4096 ≤ ps.limit
    → (b : BlockAllocator) × (s' : ps.Store) × (block_allocator ps elem_size n align gc links s
        ≡ ok (b, s'))
      × (b.block_size ≡ block_size_of elem_size align)
      × (b.block_size * n ≤ b.chunk_size)
      × (b.chunk % 4096 ≡ 0)
      × Serves b (blocks_from b.chunk b.block_size 0 n)
block_allocator-Serves ps elem_size n align gc links s ready pos small fits =
    let size = block_size_of elem_size align in
    let word = block_size_lem elem_size align in
    let some_pages : size ≤ size * n = mul_pos size n pos in
    let pages = (size * n + 4095) / 4096 in
    let (chunk, s', granted, at_page, ready') =
      ps.request_grants s pages ready (omega arith) fits in
    (
      built chunk size pages n gc links,
      s',
      block_allocator-built ps elem_size n align pages chunk gc links s s' pos (omega arith)
          granted,
      refl,
      omega arith,
      at_page,
      built-Serves chunk size pages n gc links pos (omega arith),
    )
