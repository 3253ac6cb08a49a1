-- ===== src/Atoms/Table/Creation.antt =====
-- The constructor of ALAR: the table is whole and empty.
use ely_square.Base.{
  ℕ, ◌*◌, ◌^◌, ◌<◌, ◌≤◌, ◌≡◌, refl, arith, false, replicate, ok, length-replicate, get_or-replicate,
}
use ely_square.PageSource.{PageSource}
use ely_square.FreeList.{Links}
use ely_square.MetaArena.{MetaArena}
use ely_square.MetaArena.Serves.{IsMeta, metalloc-Served, meta_arena-IsMeta}
use ely_square.Atoms.Table.{Alar, no_place, is_used, alar}
use ely_square.Atoms.Table.Lookup.{IsAlar}

-- A table in which nothing has been entered.
abbrev new_table : (max_count : ℕ) → MetaArena → Alar
new_table max_count arena = record {
  arena = arena;
  placelist = replicate max_count no_place;
  hash_cache = replicate max_count 0;
  star_id_max_count = max_count;
  idmap = replicate max_count 0;
  created_places_count = 0;
}

new_table-unused :
    (max_count i : ℕ) (arena : MetaArena) → is_used (new_table max_count arena) i ≡ false
new_table-unused max_count i arena = rw (get_or-replicate {A = ℕ} max_count i 0) refl

new_table-IsAlar :
    (max_count : ℕ) (arena : MetaArena) → max_count < 2 ^ 16 → IsAlar (new_table max_count arena)
new_table-IsAlar max_count arena small = record {
  places = length-replicate max_count no_place;
  hashes = length-replicate max_count 0;
  slots = length-replicate max_count 0;
  ushort_max = small;
  created = omega arith;
  entry = λ i used. cc (used, new_table-unused max_count i arena);
  distinct = λ i j used. cc (used, new_table-unused max_count i arena);
}

-- Over a source that grants 2097152 pages, the constructor of ALAR, in a well-formed arena and for less
-- than 65536 places, returns a whole table of that many places: its count of created places is 0, its
-- places are null, its hashes and its map are 0, and its arena is well formed.
pub alar-IsAlar :
    (ps : PageSource) (max_count : ℕ) (links : Links) (outer : MetaArena) (s : ps.Store)
    → 2 ^ 21 ≤ ps.limit
    → max_count < 2 ^ 16
    → IsMeta outer
    → ps.IsReady s
    → (a : Alar) × (outer' : MetaArena) × (s' : ps.Store) × (alar ps max_count links outer s
        ≡ ok (a, outer', s'))
      × IsAlar a
      × (a.star_id_max_count ≡ max_count)
      × (a.created_places_count ≡ 0)
      × (a.placelist ≡ replicate max_count no_place)
      × (a.hash_cache ≡ replicate max_count 0)
      × (a.idmap ≡ replicate max_count 0)
      × IsMeta a.arena
      × IsMeta outer'
      × ps.IsReady s'
unfolding alar
alar-IsAlar ps max_count links outer s roomy small served ready =
    let (at, outer', s₁, at_block, outer_served, outer_last, ready₁) =
      metalloc-Served ps roomy 1040 3 outer s served ready (omega arith) (omega arith) in
    let (m, s₂, made, served₂, ready₂) =
      meta_arena-IsMeta ps (16 * max_count * 4) false links s₁ roomy ready₁
        (omega (arith, small)) in
    let (places, m₃, s₃, place_block, served₃, last₃, ready₃) =
      metalloc-Served ps roomy (16 * max_count) 3 m s₂ served₂ ready₂ (omega arith)
        (omega (arith, small)) in
    let (hashes, m₄, s₄, hash_block, served₄, last₄, ready₄) =
      metalloc-Served ps roomy (8 * max_count) 3 m₃ s₃ served₃ ready₃ (omega arith)
        (omega (arith, small)) in
    let (map, m₅, s₅, map_block, served₅, last₅, ready₅) =
      metalloc-Served ps roomy max_count 0 m₄ s₄ served₄ ready₄ (omega arith)
        (omega (arith, small)) in
    (
      new_table max_count m₅,
      outer',
      s₅,
      rw (at_block, made, place_block, hash_block, map_block) refl,
      new_table-IsAlar max_count m₅ small,
      refl,
      refl,
      refl,
      refl,
      refl,
      served₅,
      outer_served,
      ready₅,
    )
