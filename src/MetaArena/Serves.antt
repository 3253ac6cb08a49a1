-- ===== src/MetaArena/Serves.antt =====
-- A meta arena serves every allocation: from a chain of recycled blocks, or from the arena below.
use ely_square.FreeList.{Links}
use ely_square.Base.{
  [], Bool, replicate, ℕ, ◌+◌, ◌^◌, ◌<◌, ◌≤◌, ◌≡◌, refl, arith, Bool-cases, inl, inr, Option,
  Option-cases, none, some, ltb, ok, get_or, set,
}
use ely_square.PageSource.{PageSource}
use ely_square.Arena.{make_arena, Arena, chunk_pages}
use ely_square.Arena.Alloc.{
  IsArena, Placed, in_current, in_new, next_size, alloc-Placed, new_chunk_lem,
}
use ely_square.MetaArena.{
  meta_arena, MetaArena, align_size, get_bucket_index, num_buckets, metalloc, metarecycle,
  set_last_allocated_shape, from_arena,
}
use ely_square.MetaArena.Sizes.{align_size_lem}

-- What the sizes of an arena are kept below.
abbrev pub max_size : ℕ
max_size = 2 ^ 32

-- The arena below is well formed, with chunks of a size that no sum of sizes wraps.
pub record IsMeta (m : MetaArena) : Type 0 where
  pub arena : IsArena m.arena
  pub default_size : m.arena.default_size ≤ max_size
  pub capacity : m.arena.current.capacity < 2 ^ 63

pages_bound : (bytes : ℕ) → bytes ≤ 2 ^ 32 + 16 → chunk_pages bytes ≤ 2 ^ 21
unfolding chunk_pages
pages_bound bytes h = ground arith

chunk_pages_small : (bytes : ℕ) → bytes < 2 ^ 33 → chunk_pages bytes < 2 ^ 22
unfolding chunk_pages
chunk_pages_small bytes h = ground arith

module _ (ps : PageSource) (roomy : 2 ^ 21 ≤ ps.limit) where
  open ps use {Store, IsReady}

  module _ (size j : ℕ) (m : MetaArena) (s : Store) (v : IsMeta m) (ready : IsReady s) (hj : j ≤ 12)
      (small : size ≤ max_size) where
    -- What an allocation comes to: an address, and a well-formed arena and a ready store again.
    abbrev pub Served : Type 0
    Served =
        (p : ℕ) × (m' : MetaArena) × (s' : Store) × (metalloc ps size (2 ^ j) m s ≡ ok (p, m', s'))
        × IsMeta m'
        × (m'.last_allocated_shape ≡ m.last_allocated_shape)
        × IsReady s'

    IsMeta-Placed :
        (bytes p : ℕ) (a' : Arena)
        → bytes ≤ 2 ^ 32 + 16
        → Placed ps bytes (2 ^ j) p m.arena a'
        → (a'.default_size ≤ max_size) × (a'.current.capacity < 2 ^ 63) × IsArena a'
    IsMeta-Placed bytes p a' h (in_current taken before base size default) =
        (omega (arith, default, v.default_size), omega (arith, size, v.capacity), taken.arena)
    IsMeta-Placed bytes p a' h (in_new taken before size default) = (
      omega (arith, default, v.default_size),
      omega (
        arith,
        size,
        chunk_pages_small (next_size ps m.arena bytes) (ground (arith, v.default_size)),
      ),
      taken.arena,
    )

    fresh_block :
        (p : ℕ) × (m' : MetaArena) × (s' : Store) × (from_arena ps (align_size size) (2 ^ j) m s
          ≡ ok (p, m', s'))
        × IsMeta m'
        × (m'.last_allocated_shape ≡ m.last_allocated_shape)
        × IsReady s'
    fresh_block =
        let (whole, at_least, block, least, bucket) = align_size_lem size (omega arith) in
        let bound : align_size size ≤ 2 ^ 32 + 16 = omega (arith, least) in
        let next : next_size ps m.arena (align_size size) ≤ 2 ^ 32 + 16 =
          ground (arith, bound, v.default_size) in
        let (p, a', s', runs, placed, ready') =
          alloc-Placed ps (align_size size) j m.arena s v.arena ready hj (omega (arith, bound))
            (omega (arith, v.default_size)) v.capacity
            (omega (arith, pages_bound (next_size ps m.arena (align_size size)) next, roomy)) in
        let (default, capacity, whole') = IsMeta-Placed (align_size size) p a' bound placed in
        (
          p,
          record m { arena = a' },
          s',
          rw runs refl,
          record { arena = whole'; default_size = default; capacity = capacity },
          refl,
          ready',
        )

    -- With a source that grants 2097152 pages, a well-formed meta arena serves any size up to
    -- 2 ^ 32 with an alignment of a power of two up to the page size, and stays well formed.
    pub metalloc-Served : Served
    unfolding metalloc
    metalloc-Served = elim (Bool-cases (ltb (get_bucket_index (align_size size)) num_buckets)) [
      | inr large ↦ rw large fresh_block
      | inl bucket ↦
          elim (Option-cases (get_or m.free_list_head (get_bucket_index (align_size size)) none)) [
            | inl empty ↦ rw (bucket, empty) fresh_block
            | inr (p, e) ↦ (
              p,
              record m {
                free_list_head =
                    set m.free_list_head (get_bucket_index (align_size size)) (m.links p);
              },
              s,
              rw (bucket, e) refl,
              record { arena = v.arena; default_size = v.default_size; capacity = v.capacity },
              refl,
              ready,
            )
          ]
    ]

-- Recycling a block leaves the arena below as it is.
pub IsMeta-metarecycle :
    (p : Option ℕ) (size : ℕ) (m : MetaArena)
    → IsMeta m
    → IsMeta (metarecycle p size m)
      × ((metarecycle p size m).last_allocated_shape ≡ m.last_allocated_shape)
unfolding metarecycle
IsMeta-metarecycle none size m v = (v, refl)
IsMeta-metarecycle (some p) size m v =
    elim (Bool-cases (ltb (get_bucket_index (align_size size)) num_buckets)) [
      | inl e ↦
          rw e
            (record { arena = v.arena; default_size = v.default_size; capacity = v.capacity }, refl)
      | inr e ↦ rw e (v, refl)
    ]

pub IsMeta-set_last_allocated_shape :
    (p : ℕ) (m : MetaArena)
    → IsMeta m
    → IsMeta (set_last_allocated_shape (some p) m)
      × ((set_last_allocated_shape (some p) m).last_allocated_shape ≡ some p)
unfolding set_last_allocated_shape
IsMeta-set_last_allocated_shape p m v =
    (record { arena = v.arena; default_size = v.default_size; capacity = v.capacity }, refl)

-- A new meta arena with chunks of up to 2 ^ 32 bytes is well formed.
pub meta_arena-IsMeta :
    (ps : PageSource) (size : ℕ) (gc : Bool) (links : Links) (s : ps.Store)
    → 2 ^ 21 ≤ ps.limit
    → ps.IsReady s
    → size ≤ max_size
    → (m : MetaArena) × (s' : ps.Store) × (meta_arena ps size gc links s ≡ ok (m, s'))
      × IsMeta m
      × ps.IsReady s'
unfolding meta_arena make_arena
meta_arena-IsMeta ps size gc links s roomy ready small =
    let (c, s', made, chunk, empty, enough, whole, ready') =
      new_chunk_lem ps size s ready (omega (arith, small))
        (omega (arith, pages_bound size (omega (arith, small)), roomy)) in
    (
      record {
        arena = record {
          before = [];
          current = c;
          after = [];
          default_size = size;
          has_gc_scan_access = gc;
        };
        last_allocated_shape = none;
        free_list_head = replicate num_buckets none;
        links = links;
      },
      s',
      rw made refl,
      record {
        arena = record { last = refl; now = chunk };
        default_size = small;
        capacity = omega (arith, whole, chunk_pages_small size (omega (arith, small)));
      },
      ready',
    )

-- The last shape after recycling a block, and after it was set.
pub last-metarecycle :
    (p : Option ℕ) (size : ℕ) (m : MetaArena)
    → (metarecycle p size m).last_allocated_shape ≡ m.last_allocated_shape
unfolding metarecycle
last-metarecycle none size m = refl
last-metarecycle (some p) size m =
    elim (Bool-cases (ltb (get_bucket_index (align_size size)) num_buckets)) [
      | inl e ↦ rw e refl
      | inr e ↦ rw e refl
    ]

pub last-set_last_allocated_shape :
    (p : ℕ) (m : MetaArena) → (set_last_allocated_shape (some p) m).last_allocated_shape ≡ some p
unfolding set_last_allocated_shape
last-set_last_allocated_shape p m = refl
