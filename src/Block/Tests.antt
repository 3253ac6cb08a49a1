-- ===== src/Block/Tests.antt =====
-- Concrete instances of the theorems: a pool of three blocks of 24 bytes.
use ely_square.Base.{
  ◌++◌, List, ℕ, ◌*◌, ◌%◌, ◌<◌, ◌≤◌, ◌≡◌, ◌⊎◌, refl, arith, [], ◌∷◌, none, some, true, ok,
  if◌then◌else◌, ◌==◌,
}
use ely_square.PageSource.Counter.{counter}
use ely_square.FreeList.{Links, cons, nil}
use ely_square.Block.{BlockAllocator, block_size_of, alloc, unchecked_alloc, free, block_allocator}
use mathlib.Core.List.{Perm}
use ely_square.Block.History.{History, begin, allocated, freed, AllApart, History-blocks}
use ely_square.Block.Pool.{Serves, blocks_from, alloc-Serves, free-Serves, block_allocator-Serves}

abbrev links : Links
links = λ a. none

-- The second block is in use.
abbrev pool : BlockAllocator
pool = record {
  chunk = 0x10000;
  chunk_size = 4096;
  block_size = 24;
  pages_count = 1;
  free_list = some 0x10000;
  has_gc_scan_access = some true;
  links = λ a. if a == 0x10000 then some 0x10030 else none;
}

pool-Serves : Serves pool (0x10000 ∷ 0x10030 ∷ [])
pool-Serves = record { chain = cons (cons nil); distinct = ((λ e. omega (arith, e), tt), (tt, tt)) }

block_allocator-Serves_example :
    (b : BlockAllocator) × (s' : ℕ) × (block_allocator counter 24 3 8 true links 0x10000
      ≡ ok (b, s'))
    × (b.block_size ≡ block_size_of 24 8)
    × (b.block_size * 3 ≤ b.chunk_size)
    × (b.chunk % 4096 ≡ 0)
    × Serves b (blocks_from b.chunk b.block_size 0 3)
unfolding block_size_of
block_allocator-Serves_example =
    block_allocator-Serves counter 24 3 8 true links 0x10000 refl (omega arith) (omega arith)
      (omega arith)

alloc-Serves_example :
    ((24 < 20) × (alloc 20 pool ≡ (none, pool)))
    ⊎ ((20 ≤ 24) × ((alloc 20 pool).0 ≡ some 0x10000) × Serves ((alloc 20 pool).1) (0x10030 ∷ []))
alloc-Serves_example = alloc-Serves pool 20 (0x10000 ∷ 0x10030 ∷ []) pool-Serves

free-Serves_example : Serves (free (some 0x10018) pool) (0x10018 ∷ 0x10000 ∷ 0x10030 ∷ [])
free-Serves_example =
    free-Serves pool 0x10018 (0x10000 ∷ 0x10030 ∷ []) pool-Serves
      (λ e. omega (arith, e), (λ e. omega (arith, e), tt))

-- A pool with its three blocks free, and the same after two allocations.
abbrev whole : BlockAllocator
whole = record pool {
  links = λ a. if a == 0x10000 then some 0x10018 else if a == 0x10018 then some 0x10030 else none;
}

whole-Serves : Serves whole (blocks_from 0x10000 24 0 3)
whole-Serves = record {
  chain = cons (cons (cons nil));
  distinct = (
    (λ e. omega (arith, e), (λ e. omega (arith, e), tt)),
    ((λ e. omega (arith, e), tt), (tt, tt)),
  );
}

abbrev one_left : BlockAllocator
one_left = record whole { free_list = some 0x10030 }

two_taken : History whole one_left (0x10018 ∷ 0x10000 ∷ [])
unfolding alloc unchecked_alloc
two_taken = allocated 24 0x10018 (allocated 20 0x10000 begin refl) refl

History-blocks_example :
    (unused : List ℕ) × Serves (free (some 0x10000) one_left) unused
    × Perm (unused ++ (0x10018 ∷ [])) (blocks_from 0x10000 24 0 3)
    × AllApart 24 (unused ++ (0x10018 ∷ []))
History-blocks_example =
    History-blocks whole (free (some 0x10000) one_left) 0x10000 3 (0x10018 ∷ []) (omega arith)
      whole-Serves (freed (0x10018 ∷ []) 0x10000 [] two_taken)
