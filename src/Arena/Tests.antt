-- ===== src/Arena/Tests.antt =====
-- Concrete instances of the theorems: an arena with one chunk of a page, of which 5 bytes are used.
use ely_square.Base.{ℕ, ◌%◌, ◌≡◌, refl, arith, List, [], ◌∷◌, some, false, ok, ◌>>=◌}
use ely_square.PageSource.Counter.{counter}
use ely_square.Arena.{
  Chunk, Arena, align_forward, alloc, take_bytes, new_chunk, chunk_pages, all_chunks, get_marker,
  pop_to_marker, delete_chunks,
}
use ely_square.Arena.Alloc.{IsArena, Placed, alloc-Placed}
use ely_square.Arena.Marks.{SameChunk, start, next, pop_to_marker-get_marker}

abbrev arena : Arena
arena = record {
  before = [];
  current = record { base = some 0x10000; capacity = 4096; offset = 5; pages = 1 };
  after = [];
  default_size = 4096;
  has_gc_scan_access = false;
}

arena-IsArena : IsArena arena
arena-IsArena = record {
  last = refl;
  now = record {
    address = 0x10000;
    has_base = refl;
    aligned = refl;
    size = refl;
    small = omega arith;
    used = omega arith;
  };
}

-- The arena after an allocation that needs a chunk of two pages.
abbrev grown : Arena
grown = record arena {
  before = arena.current ∷ [];
  current = record { base = some 0x20000; capacity = 8192; offset = 5000; pages = 2 };
}

allocates : alloc counter 5000 8 arena 0x20000 ≡ ok (0x20000, grown, 0x22000)
unfolding alloc align_forward new_chunk chunk_pages take_bytes
allocates = refl

alloc-Placed_example :
    (p : ℕ) × (a' : Arena) × (s' : ℕ) × (alloc counter 10 8 arena 0x20000 ≡ ok (p, a', s'))
    × Placed counter 10 8 p arena a'
    × (s' % 4096 ≡ 0)
unfolding chunk_pages
alloc-Placed_example =
    alloc-Placed counter 10 3 arena 0x20000 arena-IsArena refl (omega arith) (omega arith)
      (omega arith) (omega arith) (omega arith)

pop_to_marker-get_marker_example :
    (kept : Chunk) × (since : List Chunk) × (all_chunks grown ≡ kept ∷ since)
    × SameChunk arena.current kept
    × (pop_to_marker counter (get_marker arena) grown 0x22000
        ≡ (delete_chunks counter since 0x22000 >>= λ u. ok (arena, u)))
pop_to_marker-get_marker_example =
    pop_to_marker-get_marker counter arena grown 0x20000 0x22000 refl (next 5000 8 start allocates)
