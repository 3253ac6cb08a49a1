-- ===== src/MetaArena/Samples.antt =====
-- Meta arenas for tests: over an arena with one chunk of a page.
use ely_square.Base.{ℕ, refl, arith, Option, some, List, [], false}
use ely_square.FreeList.{Links}
use ely_square.MetaArena.{MetaArena}
use ely_square.MetaArena.Serves.{IsMeta}

abbrev pub sample : (last : Option ℕ) (heads : List (Option ℕ)) → Links → MetaArena
sample last heads links = record {
  arena = record {
    before = [];
    current = record { base = some 0x10000; capacity = 4096; offset = 1048; pages = 1 };
    after = [];
    default_size = 4096;
    has_gc_scan_access = false;
  };
  last_allocated_shape = last;
  free_list_head = heads;
  links = links;
}

pub sample-IsMeta :
    (last : Option ℕ) (heads : List (Option ℕ)) (links : Links) → IsMeta (sample last heads links)
sample-IsMeta last heads links = record {
  arena = record {
    last = refl;
    now = record {
      address = 0x10000;
      has_base = refl;
      aligned = refl;
      size = refl;
      small = omega arith;
      used = omega arith;
    };
  };
  default_size = omega arith;
  capacity = omega arith;
}
