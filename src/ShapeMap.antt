-- ===== src/ShapeMap.antt =====
-- lowcode/include/meta/shape_map.h: the inline functions on shapes, their properties, transitions and
-- flags, and makePropertyInShape of lowcode/source/meta/shape_map.cpp. A pointer to a shape is its
-- address in a heap of shapes. The arrays of a shape are lists, as long as the counts say.
pub mod Lookup
pub mod Flags
pub mod Queries
pub mod Heap
mod Tests
use ely_square.Base.{
  ℕ, zero, suc, ◌+◌, ◌-◌, ◌*◌, ◌/◌, ◌^◌, bit_and, bit_or, Bool, true, false, Option, none, some,
  List, [], ◌∷◌, ltb, not, ◌&&◌, ◌||◌, ◌==◌, if◌then◌else◌, u16, not16, length, get_elem?,
}

abbrev pub readonly : ℕ
readonly = 1

abbrev pub hidden : ℕ
hidden = 2

abbrev pub is_getter : ℕ
is_getter = 4

abbrev pub is_setter : ℕ
is_setter = 8

abbrev pub is_marked_alive : ℕ
is_marked_alive = 1

abbrev pub has_accessors : ℕ
has_accessors = 2

abbrev pub is_frozen : ℕ
is_frozen = 4

abbrev pub is_hash_table_mode : ℕ
is_hash_table_mode = 8

pub get_next_transition_capacity : ℕ → ℕ
get_next_transition_capacity capacity =
    if capacity == 0 then 2 else if ltb capacity 32 then capacity * 2 else capacity + 4

pub record PropertyDescriptor : Type 0 where
  pub name_atom : ℕ
  pub offset_index : ℕ
  pub attributes : ℕ

pub record TransitionEntry : Type 0 where
  pub target_shape : Option ℕ
  pub property_atom : ℕ

-- `transition_table` is `none` for a null pointer, and the addresses are where the arrays lie. The
-- arena of a shape is left out: all shapes that are linked with each other are of one arena.
pub record Shape : Type 0 where
  pub parent_shape : Option ℕ
  pub next_shape_in_arena : Option ℕ
  pub prev_shape_in_arena : Option ℕ
  pub shape_flags : ℕ
  pub prop_address : Option ℕ
  pub prop_array : List PropertyDescriptor
  pub transition_capacity : ℕ
  pub table_address : Option ℕ
  pub transition_table : Option (List TransitionEntry)

abbrev pub Shapes : Type 0
Shapes = ℕ → Shape

-- `(x & mask) != 0`
abbrev pub has_flag : (mask x : ℕ) → Bool
has_flag mask x = not (bit_and x mask == 0)

-- `if (on) x |= mask`
abbrev pub with_flag : Bool → (mask x : ℕ) → ℕ
with_flag on mask x = if on then bit_or x mask else x

pub get_shape_flags : (parent : Shape) → (atom_flags : ℕ) → ℕ
get_shape_flags parent atom_flags =
    if has_flag is_getter atom_flags
      || (has_flag is_setter atom_flags || has_flag has_accessors parent.shape_flags)
    then has_accessors
    else 0

-- The attributes that createTransition, transitionShape and makePropertyInShape build from flags.
pub attributes_of : (is_readonly is_hidden getter setter : Bool) → ℕ
attributes_of is_readonly is_hidden getter setter =
    with_flag setter is_setter
      (with_flag getter is_getter (with_flag is_hidden hidden (with_flag is_readonly readonly 0)))

pub make_property_in_shape :
    (name_atom offset : ℕ) → (is_readonly is_hidden getter setter : Bool) → PropertyDescriptor
unfolding attributes_of
make_property_in_shape name_atom offset is_readonly is_hidden getter setter =
    if name_atom == 0 then record { name_atom = 0; offset_index = 0; attributes = 0 } else record {
      name_atom = name_atom;
      offset_index = offset;
      attributes = attributes_of is_readonly is_hidden getter setter;
    }

-- The loop of getProperty.
pub find_property : List PropertyDescriptor → ℕ → Option PropertyDescriptor
find_property [] property_atom = none
find_property (p ∷ ps) property_atom =
    let rest = find_property ps property_atom in
    if p.name_atom == property_atom then some p else rest

-- getProperty of a shape that is not null
pub get_property : Shape → ℕ → Option PropertyDescriptor
unfolding find_property
get_property shape property_atom = find_property shape.prop_array property_atom

pub has_property : Shape → ℕ → Bool
unfolding get_property
has_property shape property_atom = elim (get_property shape property_atom) [
  | none ↦ false
  | some p ↦ true
]

-- `invalidIndex` is the second argument.
pub find_property_offset : Shape → (invalid_index property_atom : ℕ) → ℕ
unfolding get_property
find_property_offset shape invalid_index property_atom = elim (get_property shape property_atom) [
  | none ↦ invalid_index
  | some p ↦ p.offset_index
]

pub get_property_at : Shape → ℕ → Option PropertyDescriptor
get_property_at shape index = get_elem? shape.prop_array index

pub get_last_property : Shape → Option PropertyDescriptor
unfolding get_property_at
get_last_property shape =
    if length shape.prop_array == 0
    then none
    else get_property_at shape (length shape.prop_array - 1)

-- The body of findTransition's loop: the target is not null, and the atom and the attributes agree.
pub transition_matches : Shapes → TransitionEntry → (property_atom attributes : ℕ) → Bool
unfolding get_last_property
transition_matches shapes entry property_atom attributes = elim entry.target_shape [
  | none ↦ false
  | some target ↦
      (entry.property_atom == property_atom) && elim (get_last_property (shapes target)) [
        | none ↦ false
        | some last ↦ last.attributes == attributes
      ]
]

pub find_in_table :
    Shapes → List TransitionEntry → (property_atom attributes : ℕ) → Option TransitionEntry
unfolding transition_matches
find_in_table shapes [] property_atom attributes = none
find_in_table shapes (t ∷ ts) property_atom attributes =
    let rest = find_in_table shapes ts property_atom attributes in
    if transition_matches shapes t property_atom attributes then some t else rest

pub find_transition : Shapes → Shape → (property_atom attributes : ℕ) → Option TransitionEntry
unfolding find_in_table
find_transition shapes shape property_atom attributes = elim shape.transition_table [
  | none ↦ none
  | some table ↦ find_in_table shapes table property_atom attributes
]

pub mark_shape_alive : Shape → Shape
mark_shape_alive shape = record shape { shape_flags = bit_or shape.shape_flags is_marked_alive }

pub is_shape_alive : Shape → Bool
is_shape_alive shape = has_flag is_marked_alive shape.shape_flags

pub is_shape_frozen : Shape → Bool
is_shape_frozen shape = has_flag is_frozen shape.shape_flags

pub set_shape_frozen : Bool → Shape → Shape
set_shape_frozen on shape =
    let flags = shape.shape_flags in
    record shape {
      shape_flags = if on then bit_or flags is_frozen else bit_and flags (not16 is_frozen);
    }

pub is_shape_hash_table_mode : Shape → Bool
is_shape_hash_table_mode shape = has_flag is_hash_table_mode shape.shape_flags

pub set_shape_hash_table_mode : Bool → Shape → Shape
set_shape_hash_table_mode on shape =
    let flags = shape.shape_flags in
    record shape {
      shape_flags =
          if on then bit_or flags is_hash_table_mode else bit_and flags (not16 is_hash_table_mode);
    }

abbrev pub shape_epoch_raw_mask : ℕ
shape_epoch_raw_mask = 0x4095

pub get_shape_epoche : Shape → ℕ
get_shape_epoche shape = shape.shape_flags / 2 ^ 4

-- The shifted value is computed and dropped, as in the source.
pub set_shape_epoche : ℕ → Shape → Shape
set_shape_epoche epoche shape = record shape {
  shape_flags = bit_or shape.shape_flags (bit_and epoche shape_epoch_raw_mask);
}
