-- ===== src/ShapeMap/Heap/Sweep.antt =====
-- lowcode/source/meta/shape_map.cpp: forgetShape, killShape and the sweep. What lies where a shape was
-- killed is unknown.
pub mod Entries
pub mod Steps
pub mod Fields
pub mod Marked
pub mod Killed
pub mod Orphans
pub mod Survivors
pub mod Relinked
pub mod ShapeList
mod Tests
use ely_square.Base.{
  ℕ, zero, suc, ◌+◌, ◌-◌, ◌*◌, bit_and, Bool, true, false, Option, none, some, List, [], ◌∷◌, ◌++◌,
  ltb, leb, not, ◌&&◌, ◌||◌, ◌==◌, if◌then◌else◌, u16, not16, length, get_or, set, take, Outcome,
  ok, panic, undefined, out_of_fuel, ◌>>=◌, out_of_memory, internal_error,
}
use ely_square.Base.Loops.{first_index}
use ely_square.PageSource.{PageSource}
use ely_square.MetaArena.{MetaArena, metalloc, metarecycle, set_last_allocated_shape}
use ely_square.ShapeMap.{
  PropertyDescriptor, TransitionEntry, Shape, Shapes, is_marked_alive, is_shape_alive,
  get_shape_flags, get_next_transition_capacity, make_property_in_shape, attributes_of,
  find_transition,
}
use ely_square.ShapeMap.Heap.{ShapeHeap, update}
use ely_square.ShapeMap.Queries.{entries, transition_count}

-- `entry.targetShape == shape`
abbrev pub entry_leads_to : ℕ → TransitionEntry → Bool
entry_leads_to shape entry = elim entry.target_shape [
  | none ↦ false
  | some target ↦ target == shape
]

abbrev pub no_entry : TransitionEntry
no_entry = record { target_shape = none; property_atom = 0 }

-- The loop of forgetShape over the parent's table: the entry is replaced by the last one.
pub remove_entry : ℕ → List TransitionEntry → Outcome (List TransitionEntry)
unfolding first_index
remove_entry shape table =
    elim (first_index (λ i. entry_leads_to shape (get_or table i no_entry)) (length table) 0) [
      | none ↦ panic internal_error
      | some i ↦
          ok (take (length table - 1) (set table i (get_or table (length table - 1) no_entry)))
    ]

-- The arena links of forgetShape.
abbrev pub unlink : (shape prev : ℕ) → ShapeHeap → ShapeHeap
unlink shape prev h =
    let next = (h.shapes shape).next_shape_in_arena in
    let shapes = elim next as (λ o. Shapes) [
      | none ↦ h.shapes
      | some n ↦ update n (λ q. record q { prev_shape_in_arena = some prev }) h.shapes
    ] in
    record {
      shapes =
          update prev (λ q. record q { next_shape_in_arena = (shapes shape).next_shape_in_arena })
            shapes;
      meta = elim h.meta.last_allocated_shape [
        | none ↦ h.meta
        | some last ↦ if shape == last then set_last_allocated_shape (some prev) h.meta else h.meta
      ];
    }

-- forgetShape of a shape that is not null
pub forget_shape : ℕ → ShapeHeap → Outcome ShapeHeap
unfolding remove_entry
forget_shape shape h = elim (h.shapes shape).prev_shape_in_arena [
  | none ↦ elim (h.shapes shape).parent_shape [ none ↦ ok h | some parent ↦ panic internal_error ]
  | some prev ↦
      let unlinked = unlink shape prev h in
      elim (unlinked.shapes shape).parent_shape [
        | none ↦ undefined
        | some parent ↦ (do
          table ← remove_entry shape (entries (unlinked.shapes parent))
          ok (record unlinked {
            shapes =
                update parent (λ q. record q { transition_table = some table }) unlinked.shapes;
          }))
      ]
]

module _ (junk : ℕ → Shape) where
  -- killShape of a shape that is not null; `junk` is what lies at the killed shape's address after.
  pub kill_shape : ℕ → ShapeHeap → ShapeHeap
  kill_shape shape h =
      let dead = h.shapes shape in
      let m =
        if length dead.prop_array == 0
        then h.meta
        else metarecycle dead.prop_address (8 * length dead.prop_array) h.meta in
      let m' =
        if dead.transition_capacity == 0
        then m
        else metarecycle dead.table_address (16 * dead.transition_capacity) m in
      record {
        shapes = update shape (λ q. junk shape) h.shapes;
        meta = metarecycle (some shape) 64 m';
      }

  -- One round of sweepOrphanedShapes, with what it adds to the count.
  pub sweep_shape : ℕ → ShapeHeap → Outcome (ℕ × ShapeHeap)
  unfolding is_shape_alive forget_shape kill_shape
  sweep_shape current h =
      if is_shape_alive (h.shapes current)
      then ok (
        0,
        record h {
          shapes =
              update current
                (λ q. record q { shape_flags = bit_and q.shape_flags (not16 is_marked_alive) })
                h.shapes;
        },
      )
      else (forget_shape current h >>= λ h'. ok (1, kill_shape current h'))

  -- The loop of sweepOrphanedShapes, on fuel: `out_of_fuel` where it ends before the list.
  pub sweep_shapes : (fuel current : ℕ) → ShapeHeap → Outcome (ℕ × ShapeHeap)
  unfolding sweep_shape
  sweep_shapes zero current h = out_of_fuel
  sweep_shapes (suc fuel) current h = elim (h.shapes current).prev_shape_in_arena [
    | none ↦ ok (0, h)
    | some prev ↦ (do
      (killed, h') ← sweep_shape current h
      (more, h'') ← sweep_shapes fuel prev h'
      ok (killed + more, h''))
  ]

  pub sweep_orphaned_shapes : (fuel : ℕ) → ShapeHeap → Outcome (ℕ × ShapeHeap)
  unfolding sweep_shapes
  sweep_orphaned_shapes fuel h = elim h.meta.last_allocated_shape [
    | none ↦ ok (0, h)
    | some last ↦ sweep_shapes fuel last h
  ]
