-- ===== src/ShapeMap/Tests.antt =====
-- Concrete instances of the theorems: a shape with two properties, and a transition to itself.
use ely_square.Base.{refl, none, some, List, [], ◌∷◌}
use ely_square.ShapeMap.{TransitionEntry, Shape, Shapes, find_transition}
use ely_square.ShapeMap.Lookup.{FirstLeads, find_transition-FirstLeads}

abbrev table : List TransitionEntry
table =
    record { target_shape = none; property_atom = 8 }
    ∷ record { target_shape = some 0x1000; property_atom = 8 }
    ∷ []

abbrev shape : Shape
shape = record {
  parent_shape = none;
  next_shape_in_arena = none;
  prev_shape_in_arena = none;
  shape_flags = 0x51;
  prop_address = none;
  prop_array =
      record { name_atom = 7; offset_index = 0; attributes = 0 }
      ∷ record { name_atom = 8; offset_index = 1; attributes = 1 }
      ∷ [];
  table_address = none;
  transition_capacity = 2;
  transition_table = some table;
}

abbrev shapes : Shapes
shapes = λ a. shape

find_transition-FirstLeads_example : FirstLeads shapes 8 1 table (find_transition shapes shape 8 1)
find_transition-FirstLeads_example = find_transition-FirstLeads shapes shape table 8 1 refl

abbrev entry : TransitionEntry
entry = record { target_shape = some 0x1000; property_atom = 8 }
