-- ===== src/ShapeMap/Queries.antt =====
-- lowcode/include/meta/shape_map.h: the questions about one shape, property or transition, and the
-- depth of a shape.
use ely_square.Base.{
  ℕ, zero, suc, ◌+◌, Bool, true, false, Option, none, some, List, [], ◌∷◌, ◌==◌, if◌then◌else◌, u16,
  length, get_elem?, Outcome, ok, out_of_fuel,
}
use ely_square.ShapeMap.{
  readonly, hidden, is_getter, is_setter, has_accessors, has_flag, PropertyDescriptor,
  TransitionEntry, Shape, Shapes,
}

-- isRootShape of a shape that is not null
pub is_root_shape : Shape → Bool
is_root_shape shape = elim shape.parent_shape [ none ↦ true | some parent ↦ false ]

pub has_shape_accessors : Shape → Bool
has_shape_accessors shape = has_flag has_accessors shape.shape_flags

pub is_property_readonly : PropertyDescriptor → Bool
is_property_readonly prop = has_flag readonly prop.attributes

pub is_property_hidden : PropertyDescriptor → Bool
is_property_hidden prop = has_flag hidden prop.attributes

pub is_property_getter : PropertyDescriptor → Bool
is_property_getter prop = has_flag is_getter prop.attributes

pub is_property_setter : PropertyDescriptor → Bool
is_property_setter prop = has_flag is_setter prop.attributes

-- The entries of the transition table; a null table has none.
abbrev pub entries : Shape → List TransitionEntry
entries shape = elim shape.transition_table [ none ↦ [] | some table ↦ table ]

-- `shape->transitionCount`
abbrev pub transition_count : Shape → ℕ
transition_count shape = length (entries shape)

pub get_transition_at : Shape → ℕ → Option TransitionEntry
get_transition_at shape index = get_elem? (entries shape) index

-- The loop of hasTransitionOn.
pub has_entry_on : List TransitionEntry → ℕ → Bool
has_entry_on [] property_atom = false
has_entry_on (t ∷ ts) property_atom =
    let rest = has_entry_on ts property_atom in
    if t.property_atom == property_atom then true else rest

pub has_transition_on : Shape → ℕ → Bool
unfolding has_entry_on
has_transition_on shape property_atom = has_entry_on (entries shape) property_atom

-- The loop of getShapeChainDepth, on fuel: `out_of_fuel` where it ends before the root.
pub depth_from : Shapes → (fuel : ℕ) → Option ℕ → (depth : ℕ) → Outcome ℕ
depth_from shapes zero shape depth = out_of_fuel
depth_from shapes (suc fuel) none depth = ok depth
depth_from shapes (suc fuel) (some p) depth = elim (shapes p).parent_shape [
  | none ↦ ok depth
  | some parent ↦ depth_from shapes fuel (some parent) (u16 (depth + 1))
]

pub get_shape_chain_depth : Shapes → (fuel : ℕ) → Option ℕ → Outcome ℕ
unfolding depth_from
get_shape_chain_depth shapes fuel shape = depth_from shapes fuel shape 0
