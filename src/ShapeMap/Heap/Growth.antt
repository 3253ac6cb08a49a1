-- ===== src/ShapeMap/Heap/Growth.antt =====
-- createTransition of lowcode/source/meta/shape_map.cpp: the growth of the transition table.
use mathlib.Core.Path.{subst}
use ely_square.Base.{
  ℕ_discrete, ℕ, ◌+◌, ◌*◌, ◌%◌, ◌^◌, ◌<◌, ◌≤◌, ◌≡◌, ◌≢◌, ◌⊎◌, inl, inr, refl, sym, ◌∙◌, arith, true,
  Bool-cases, some, List, [], ◌∷◌, ltb, ◌==◌, u16, length, ok, panic, out_of_memory, ==_ne, ==_iff,
  ==_refl, le→ltb_false, ltb_false→le, ltb→lt,
}
use ely_square.PageSource.{PageSource}
use ely_square.MetaArena.{metarecycle}
use ely_square.MetaArena.Serves.{IsMeta, metalloc-Served, IsMeta-metarecycle}
use ely_square.ShapeMap.{TransitionEntry, Shape, Shapes, get_next_transition_capacity}
use ely_square.ShapeMap.Queries.{entries, transition_count}
use ely_square.ShapeMap.Heap.{ShapeHeap, update, grow_table}

-- The capacities that a transition table can have.
pub data IsCapacity : ℕ → Type 0 where
  no_table : IsCapacity 0
  next :
      {capacity : ℕ}
      → IsCapacity capacity
      → get_next_transition_capacity capacity ≤ 65535
      → IsCapacity (get_next_transition_capacity capacity)

-- They are 0, 2 and multiples of 4.
pub IsCapacity-cases :
    (capacity : ℕ)
    → IsCapacity capacity
    → (capacity ≤ 65532) × ((capacity ≡ 0) ⊎ ((capacity ≡ 2) ⊎ (capacity % 4 ≡ 0)))
unfolding get_next_transition_capacity
IsCapacity-cases capacity no_table = (omega arith, inl refl)
IsCapacity-cases capacity (next {capacity = c} v fits) =
    let (bound, shape) = IsCapacity-cases c v in ground (arith, bound, shape, fits)

-- The entries of a table have room in it.
pub record IsTable (shape : Shape) : Type 0 where
  pub fits : transition_count shape ≤ shape.transition_capacity
  pub capacity : IsCapacity shape.transition_capacity

-- What the growth of a table keeps of a shape.
pub record Kept (q q' : Shape) : Type 0 where
  pub parent : q'.parent_shape ≡ q.parent_shape
  pub flags : q'.shape_flags ≡ q.shape_flags
  pub properties : q'.prop_array ≡ q.prop_array
  pub transitions : entries q' ≡ entries q

pub Kept-refl : (q : Shape) → Kept q q
Kept-refl q = record { parent = refl; flags = refl; properties = refl; transitions = refl }

-- What an update leaves at its own address, and elsewhere.
pub update_here : (p : ℕ) (f : Shape → Shape) (shapes : Shapes) → update p f shapes p ≡ f (shapes p)
update_here p f shapes = rw (==_refl p) refl

pub update_elsewhere :
    (p : ℕ) (f : Shape → Shape) (shapes : Shapes) (q : ℕ) → q ≢ p → update p f shapes q ≡ shapes q
update_elsewhere p f shapes q ne = rw (==_ne q p ne) refl

-- An update keeps of all shapes what it keeps of its own.
pub Kept-update :
    (p : ℕ) (f : Shape → Shape) (shapes : Shapes)
    → Kept (shapes p) (f (shapes p))
    → (q : ℕ) → Kept (shapes q) (update p f shapes q)
Kept-update p f shapes k q = elim (Bool-cases (q == p)) [
  | inl e ↦ rw (e, (==_iff q p).0 e) k
  | inr e ↦ rw e (Kept-refl (shapes q))
]

-- The writes to the shape whose table grows.
abbrev with_first : (address : ℕ) → Shape → Shape
with_first address q = record q {
  transition_table = some [];
  table_address = some address;
  transition_capacity = 2;
}

abbrev with_more : (address capacity : ℕ) → Shape → Shape
with_more address capacity q = record q {
  table_address = some address;
  transition_capacity = u16 capacity;
}

no_entries : (ts : List TransitionEntry) → length ts ≡ 0 → ts ≡ []
no_entries [] e = refl
no_entries (t ∷ ts) e = absurd (omega (arith, e))

-- The capacity after one that holds some entries, and fewer than the largest.
next_capacity :
    (capacity : ℕ)
    → IsCapacity capacity
    → capacity ≢ 0
    → capacity < 65532
    → (get_next_transition_capacity capacity ≤ 65535)
      × (capacity < get_next_transition_capacity capacity)
unfolding get_next_transition_capacity
next_capacity capacity v pos few =
    let (bound, shape) = IsCapacity-cases capacity v in ground (arith, bound, shape)

module _ (ps : PageSource) (roomy : 2 ^ 21 ≤ ps.limit) (current : ℕ) (h : ShapeHeap) (s : ps.Store)
    (v : IsMeta h.meta) (ready : ps.IsReady s) (t : IsTable (h.shapes current)) where
  -- What the growth of a table comes to.
  abbrev pub Grown : Type 0
  Grown =
      (h' : ShapeHeap) × (s' : ps.Store) × (grow_table ps current h s ≡ ok (h', s'))
      × ((q : ℕ) → Kept (h.shapes q) (h'.shapes q))
      × (transition_count (h'.shapes current) < (h'.shapes current).transition_capacity)
      × IsTable (h'.shapes current)
      × IsMeta h'.meta
      × (h'.meta.last_allocated_shape ≡ h.meta.last_allocated_shape)
      × ps.IsReady s'

  abbrev count : ℕ
  count = transition_count (h.shapes current)

  abbrev capacity : ℕ
  capacity = (h.shapes current).transition_capacity

  full_capacity : ltb capacity (count + 1) ≡ true → capacity ≡ count
  full_capacity e = omega (arith, t.fits, ltb→lt capacity (count + 1) e)

  first_table : (address : ℕ) → count ≡ 0 → IsTable (with_first address (h.shapes current))
  unfolding get_next_transition_capacity
  first_table address none_yet = record {
    fits = omega arith;
    capacity = next no_table (omega arith);
  }

  grow_first : count ≡ 0 → ltb capacity (count + 1) ≡ true → Grown
  unfolding grow_table
  grow_first none_yet e =
      let (p, meta, s', runs, v', last, ready') =
        metalloc-Served ps roomy 32 3 h.meta s v ready (omega arith) (omega arith) in
      let here = update_here current (with_first p) h.shapes in
      (
        record { shapes = update current (with_first p) h.shapes; meta = meta },
        s',
        rw (e, (==_iff count 0).1 none_yet, runs) refl,
        Kept-update current (with_first p) h.shapes (record {
          parent = refl;
          flags = refl;
          properties = refl;
          transitions = sym (no_entries (entries (h.shapes current)) none_yet);
        }),
        rw here (omega arith),
        rw here (first_table p none_yet),
        v',
        last,
        ready',
      )

  grow_more : count ≢ 0 → count < 65532 → ltb capacity (count + 1) ≡ true → Grown
  unfolding grow_table
  grow_more some_yet few e =
      let same = full_capacity e in
      let (bound, larger) =
        next_capacity capacity t.capacity (λ z. omega (arith, z, same, some_yet))
          (omega (arith, same)) in
      let new_capacity = get_next_transition_capacity capacity in
      let (p, meta, s', runs, v', last, ready') =
        metalloc-Served ps roomy (16 * new_capacity) 3 h.meta s v ready (omega arith)
          (omega (arith, bound)) in
      let (v'', last') =
        IsMeta-metarecycle (h.shapes current).table_address (16 * capacity) meta v' in
      let f = with_more p new_capacity in
      let here = update_here current f h.shapes in
      let whole : u16 new_capacity ≡ new_capacity = omega (arith, bound) in
      (
        record {
          shapes = update current f h.shapes;
          meta = metarecycle (h.shapes current).table_address (16 * capacity) meta;
        },
        s',
        rw
            (
              e,
              ==_ne count 0 some_yet,
              le→ltb_false 65535 new_capacity bound,
              runs,
              ==_ne count 65535 (λ z. omega (arith, z, few)),
            )
            refl,
        Kept-update current f h.shapes
            (record { parent = refl; flags = refl; properties = refl; transitions = refl }),
        rw here (omega (arith, whole, larger, same)),
        rw here (record {
          fits = omega (arith, whole, larger, same);
          capacity = subst IsCapacity (sym whole) (next t.capacity bound);
        }),
        v'',
        last' ∙ last,
        ready',
      )

  -- A table of fewer than 65532 entries has room for one more after the growth, and shapes keep what
  -- they are.
  pub grow_table-Grown : transition_count (h.shapes current) < 65532 → Grown
  unfolding grow_table
  grow_table-Grown few = elim (Bool-cases (ltb capacity (count + 1))) [
    | inr room ↦ (
      h,
      s,
      rw room refl,
      λ q. Kept-refl (h.shapes q),
      omega (arith, ltb_false→le capacity (count + 1) room),
      t,
      v,
      refl,
      ready,
    )
    | inl e ↦ elim (ℕ_discrete count 0) [
      | yes none_yet ↦ grow_first none_yet e
      | no some_yet ↦ grow_more some_yet few e
    ]
  ]

  -- A table of 65532 entries cannot grow: the source panics.
  pub grow_table-panic :
      transition_count (h.shapes current) ≡ 65532 → grow_table ps current h s ≡ panic out_of_memory
  unfolding grow_table get_next_transition_capacity
  grow_table-panic many =
      let capacity : (h.shapes current).transition_capacity ≡ 65532 =
        omega
          (arith, t.fits, (IsCapacity-cases (h.shapes current).transition_capacity t.capacity).0) in
      rw (capacity, many) refl
