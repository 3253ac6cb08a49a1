-- ===== src/ShapeMap/Heap.antt =====
-- lowcode/source/meta/shape_map.cpp: the shapes of one meta arena, and how they are made. Shapes lie
-- at addresses of the arena; a write through a pointer to a shape is an update of the heap at its
-- address.
pub mod Growth
pub mod Transitions
pub mod Creation
pub mod Repeats
pub mod Sweep
mod Tests
use ely_square.Base.{
  ℕ, zero, suc, ◌+◌, ◌-◌, ◌*◌, bit_and, Bool, true, false, Option, none, some, List, [], ◌∷◌, ◌++◌,
  ltb, leb, not, ◌&&◌, ◌||◌, ◌==◌, if◌then◌else◌, u16, not16, length, get_or, set, take, Outcome,
  ok, panic, undefined, ◌>>=◌, out_of_memory, internal_error,
}
use ely_square.Base.Loops.{first_index}
use ely_square.PageSource.{PageSource}
use ely_square.MetaArena.{MetaArena, metalloc, metarecycle, set_last_allocated_shape}
use ely_square.ShapeMap.{
  PropertyDescriptor, TransitionEntry, Shape, Shapes, is_marked_alive, is_shape_alive,
  get_shape_flags, get_next_transition_capacity, make_property_in_shape, attributes_of,
  find_transition,
}
use ely_square.ShapeMap.Queries.{entries, transition_count}

pub record ShapeHeap : Type 0 where
  pub shapes : Shapes
  pub meta : MetaArena

-- A write to the shape at an address.
abbrev pub update : ℕ → (Shape → Shape) → Shapes → Shapes
update p f shapes = λ q. if q == p then f (shapes q) else shapes q

abbrev pub zero_property : PropertyDescriptor
zero_property = record { name_atom = 0; offset_index = 0; attributes = 0 }

-- transiteTo
abbrev pub transite_to : (shape_to property_atom : ℕ) → TransitionEntry
transite_to shape_to property_atom = record {
  target_shape = some shape_to;
  property_atom = property_atom;
}

-- `Shape()` with the pointer to its parent.
abbrev pub new_shape : (parent_shape : Option ℕ) → Shape
new_shape parent_shape = record {
  parent_shape = parent_shape;
  next_shape_in_arena = none;
  prev_shape_in_arena = none;
  shape_flags = 0;
  prop_address = none;
  prop_array = [];
  transition_capacity = 0;
  table_address = none;
  transition_table = none;
}

-- The fields that makeShape gives a child after it linked it, but for its properties.
abbrev pub linked_child : (last flags : ℕ) → Shape → Shape
linked_child last flags shape = record shape {
  prev_shape_in_arena = some last;
  shape_flags = flags;
  transition_capacity = 0;
  table_address = none;
  transition_table = none;
}

abbrev pub with_next : (child : ℕ) → Shape → Shape
with_next child q = record q { next_shape_in_arena = some child }

-- The child's array: the properties of the parent and one that is still zero.
abbrev pub inherited_by : (address : ℕ) → List PropertyDescriptor → Shape → Shape
inherited_by address properties q = record q {
  prop_address = some address;
  prop_array = properties ++ zero_property ∷ [];
}

-- `child->propArray[child->propertyCount - 1] = property`
abbrev pub describe : PropertyDescriptor → Shape → Shape
describe property q = record q { prop_array = set q.prop_array (length q.prop_array - 1) property }

-- `currentShape->transitionTable[transitionIdx] = transition; currentShape->transitionCount++`
abbrev pub add_entry : TransitionEntry → Shape → Shape
add_entry entry q = record q { transition_table = some (entries q ++ entry ∷ []) }

-- The shapes when makeShape has made the child and put it behind the last one.
abbrev pub link_last : (child parent last : ℕ) → Shapes → Shapes
link_last child parent last shapes =
    update last (with_next child) (update child (λ q. new_shape (some parent)) shapes)

-- The shapes when makeShape has linked the child both ways.
abbrev pub link_child : (child parent last atom_flags : ℕ) → Shapes → Shapes
link_child child parent last atom_flags shapes =
    let linked = link_last child parent last shapes in
    update child (linked_child last (get_shape_flags (linked parent) atom_flags)) linked

-- The last part of createTransition: the property of the child and the entry that leads to it.
abbrev pub enter : (current child property_atom : ℕ) → PropertyDescriptor → Shapes → Shapes
enter current child property_atom property shapes =
    update current (add_entry (transite_to child property_atom))
      (update child (describe property) shapes)

module _ (ps : PageSource) where
  open ps use {Store}

  -- createRootShape in an arena that is not null
  pub create_root_shape : ShapeHeap → Store → Outcome (ℕ × ShapeHeap × Store)
  create_root_shape h s = do
    (shape, meta, s') ← metalloc ps 64 8 h.meta s
    ok (
      shape,
      record {
        shapes = update shape (λ q. record (new_shape none) { shape_flags = 1 }) h.shapes;
        meta = set_last_allocated_shape (some shape) meta;
      },
      s',
    )

  -- makeShape. The count of properties wraps at 65536, and the copy then leaves the array.
  pub make_shape : (parent atom_flags : ℕ) → ShapeHeap → Store → Outcome (ℕ × ShapeHeap × Store)
  make_shape parent atom_flags h s = do
    (child, meta, s') ← metalloc ps 64 8 h.meta s
    elim meta.last_allocated_shape [
      | none ↦ panic internal_error
      | some last ↦
          let shapes = link_child child parent last atom_flags h.shapes in
          let properties = (shapes parent).prop_array in
          if leb 65535 (length properties) then undefined else (do
            (p, meta', s'') ← metalloc ps (8 * (length properties + 1)) 4 meta s'
            ok (
              child,
              record {
                shapes = update child (inherited_by p properties) shapes;
                meta = set_last_allocated_shape (some child) meta';
              },
              s'',
            ))
    ]

  -- The first part of createTransition: room for one more entry.
  pub grow_table : (current : ℕ) → ShapeHeap → Store → Outcome (ShapeHeap × Store)
  unfolding get_next_transition_capacity
  grow_table current h s =
      let shape = h.shapes current in
      let capacity = shape.transition_capacity in
      let new_capacity = get_next_transition_capacity capacity in
      if ltb capacity (transition_count shape + 1)
      then if transition_count shape == 0
        then (do
          (p, meta, s') ← metalloc ps 32 8 h.meta s
          ok (
            record {
              shapes =
                  update current
                    (λ q. record q {
                      transition_table = some [];
                      table_address = some p;
                      transition_capacity = 2;
                    })
                    h.shapes;
              meta = meta;
            },
            s',
          ))
        else if ltb 65535 new_capacity
        then panic out_of_memory
        else (do
          (p, meta, s') ← metalloc ps (16 * new_capacity) 8 h.meta s
          (if transition_count shape == 65535
              then panic out_of_memory
              else ok (
                record {
                  shapes =
                      update current
                        (λ q. record q {
                          table_address = some p;
                          transition_capacity = u16 new_capacity;
                        })
                        h.shapes;
                  meta = metarecycle shape.table_address (16 * capacity) meta;
                },
                s',
              )))
      else ok (h, s)

  -- createTransition of a shape that is not null
  pub create_transition :
      (current property_atom offset : ℕ) (is_readonly is_hidden getter setter : Bool)
      → ShapeHeap
      → Store
      → Outcome (ℕ × ShapeHeap × Store)
  unfolding grow_table make_shape make_property_in_shape
  create_transition current property_atom offset is_readonly is_hidden getter setter h s = do
    (grown, s') ← grow_table current h s
    let property = make_property_in_shape property_atom offset is_readonly is_hidden getter setter
    (if length (grown.shapes current).prop_array == 65535 then panic out_of_memory else (do
      (child, h', s'') ← make_shape current property.attributes grown s'
      ok (child, record h' { shapes = enter current child property_atom property h'.shapes }, s'')))

  -- transitionShape of a shape that is not null
  pub transition_shape :
      (current property_atom offset : ℕ) (is_readonly is_hidden getter setter : Bool)
      → ShapeHeap
      → Store
      → Outcome (Option ℕ × ShapeHeap × Store)
  unfolding create_transition find_transition
  transition_shape current property_atom offset is_readonly is_hidden getter setter h s =
      let attributes = attributes_of is_readonly is_hidden getter setter in
      elim (find_transition h.shapes (h.shapes current) property_atom attributes) [
        | some entry ↦ ok (entry.target_shape, h, s)
        | none ↦ (do
          (child, h', s') ←
              create_transition current property_atom offset is_readonly is_hidden getter setter h s
          ok (some child, h', s'))
      ]
