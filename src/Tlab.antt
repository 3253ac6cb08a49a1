-- ===== src/Tlab.antt =====
-- lowcode/include/allocators/tlab.h and lowcode/source/allocators/tlab.cpp: a thread's allocator, a
-- buddy allocator with constructors and destructors of objects on top.
use ely_square.Base.{ℕ, true, Option, none, some, Outcome, ok, undefined, ◌>>=◌}
use ely_square.PageSource.{PageSource}
use ely_square.Buddy.{BuddyAllocator, Headers, buddy_allocator}
use ely_square.Buddy

pub record Tlab : Type 0 where
  pub allocator : BuddyAllocator

pub alloc : ℕ → Tlab → Option ℕ × Tlab
alloc size t = let (p, b) = Buddy.alloc size t.allocator in (p, record { allocator = b })

pub free : Option ℕ → Tlab → Tlab
free p t = record { allocator = Buddy.free p t.allocator }

-- The construction of an object of `size` bytes. Where there is no memory the source warns and
-- constructs it at the null pointer all the same.
pub create : (size : ℕ) → Tlab → Outcome (ℕ × Tlab)
unfolding alloc
create size t = let (p, t') = alloc size t in elim p [ none ↦ undefined | some a ↦ ok (a, t') ]

-- The object's own destructor is left out.
pub destroy_object : Option ℕ → Tlab → Tlab
unfolding free
destroy_object none t = t
destroy_object (some p) t = free (some p) t

module _ (ps : PageSource) where
  open ps use {Store}

  pub tlab : (capacity_bytes : ℕ) → Headers → Store → Outcome (Tlab × Store)
  tlab capacity_bytes headers s = buddy_allocator ps capacity_bytes true headers s >>= λ (b, s').
      ok (record { allocator = b }, s')

  -- ~TLAB: it calls the allocator's destructor, and the compiler calls it once more for the member.
  pub destroy_tlab : Tlab → Store → Outcome Store
  destroy_tlab t s = Buddy.destroy ps t.allocator s >>= λ s'. Buddy.destroy ps t.allocator s'
