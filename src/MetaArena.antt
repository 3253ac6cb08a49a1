-- ===== src/MetaArena.antt =====
-- lowcode/include/meta/meta_arena.h and lowcode/source/meta/meta_arena.cpp: an arena with a chain of
-- recycled blocks for each size class. The build is the one without DEBUG.
pub mod Sizes
pub mod Recycling
pub mod Serves
pub mod Samples
mod Tests
use ely_square.Base.{
  ℕ, zero, suc, ◌+◌, ◌-◌, ◌*◌, ◌/◌, ◌%◌, ◌^◌, bit_and, Bool, true, false, Option, none, some, List,
  ltb, if◌then◌else◌, u64, not64, get_or, set, replicate, Outcome, ok, ◌>>=◌,
}
use ely_square.FreeList.{Links, write_next}
use ely_square.PageSource.{PageSource}
use ely_square.Arena.{Arena, make_arena, alloc, destroy}

abbrev pub num_buckets : ℕ
num_buckets = 128

-- alignSize
unfoldable pub align_size : ℕ → ℕ
align_size size =
    let actual = if ltb size 16 then 16 else size in bit_and (u64 (actual + 15)) (not64 15)

-- getBucketIndex
unfoldable pub get_bucket_index : ℕ → ℕ
get_bucket_index aligned_size = u64 (aligned_size / 16 + 2 ^ 64 - 1)

-- The meta arena with the `next` pointers of its memory. A shape is known by its address.
pub record MetaArena : Type 0 where
  pub arena : Arena
  pub last_allocated_shape : Option ℕ
  pub free_list_head : List (Option ℕ)
  pub links : Links

pub set_last_allocated_shape : Option ℕ → MetaArena → MetaArena
set_last_allocated_shape last m = record m { last_allocated_shape = last }

pub metarecycle : Option ℕ → (size : ℕ) → MetaArena → MetaArena
unfolding align_size get_bucket_index
metarecycle none size m = m
metarecycle (some p) size m =
    let i = get_bucket_index (align_size size) in
    if ltb i num_buckets
    then record m {
      links = write_next m.links p (get_or m.free_list_head i none);
      free_list_head = set m.free_list_head i (some p);
    }
    else m

module _ (ps : PageSource) where
  open ps use {Store}

  pub meta_arena : (size : ℕ) → Bool → Links → Store → Outcome (MetaArena × Store)
  unfolding make_arena
  meta_arena size gc links s = do
    (arena, s') ← make_arena ps size gc s
    ok (
      record {
        arena = arena;
        last_allocated_shape = none;
        free_list_head = replicate num_buckets none;
        links = links;
      },
      s',
    )

  -- A fresh block of the arena.
  abbrev pub from_arena : (size alignment : ℕ) → MetaArena → Store → Outcome (ℕ × MetaArena × Store)
  from_arena size alignment m s = do
    (p, arena, s') ← alloc ps size alignment m.arena s
    ok (p, record m { arena = arena }, s')

  unfoldable pub metalloc :
      (size alignment : ℕ) → MetaArena → Store → Outcome (ℕ × MetaArena × Store)
  unfolding align_size get_bucket_index
  metalloc size alignment m s =
      let actual_size = align_size size in
      let i = get_bucket_index actual_size in
      if ltb i num_buckets
      then elim (get_or m.free_list_head i none) [
        | some p ↦ ok (p, record m { free_list_head = set m.free_list_head i (m.links p) }, s)
        | none ↦ from_arena actual_size alignment m s
      ]
      else from_arena actual_size alignment m s

  -- ~MetaArena
  pub destroy_meta : MetaArena → Store → Outcome Store
  unfolding destroy
  destroy_meta m s = destroy ps m.arena s
