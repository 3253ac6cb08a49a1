-- ===== src/ShapeMap/Flags.antt =====
-- Attributes, flags and epochs.
use ely_square.Base.{
  ℕ, ◌+◌, ◌*◌, ◌/◌, ◌<◌, ◌≤◌, ◌≡◌, ◌≢◌, refl, ap, ◌∙◌, arith, Bool, true, false, bit_and, bit_or,
  ==_ne,
}
use ely_square.Base.Bits.{bit_or_step, bit_or-zero, bit_and-le}
use ely_square.ShapeMap.{
  Shape, readonly, hidden, is_getter, is_setter, has_flag, attributes_of, make_property_in_shape,
  get_next_transition_capacity, get_shape_epoche, set_shape_epoche, shape_epoch_raw_mask,
}

attributes_of_lem :
    (is_readonly is_hidden getter setter : Bool)
    → let a = attributes_of is_readonly is_hidden getter setter in
      (has_flag readonly a ≡ is_readonly)
      × (has_flag hidden a ≡ is_hidden)
      × (has_flag is_getter a ≡ getter)
      × (has_flag is_setter a ≡ setter)
unfolding attributes_of
attributes_of_lem true true true true = (refl, refl, refl, refl)
attributes_of_lem true true true false = (refl, refl, refl, refl)
attributes_of_lem true true false true = (refl, refl, refl, refl)
attributes_of_lem true true false false = (refl, refl, refl, refl)
attributes_of_lem true false true true = (refl, refl, refl, refl)
attributes_of_lem true false true false = (refl, refl, refl, refl)
attributes_of_lem true false false true = (refl, refl, refl, refl)
attributes_of_lem true false false false = (refl, refl, refl, refl)
attributes_of_lem false true true true = (refl, refl, refl, refl)
attributes_of_lem false true true false = (refl, refl, refl, refl)
attributes_of_lem false true false true = (refl, refl, refl, refl)
attributes_of_lem false true false false = (refl, refl, refl, refl)
attributes_of_lem false false true true = (refl, refl, refl, refl)
attributes_of_lem false false true false = (refl, refl, refl, refl)
attributes_of_lem false false false true = (refl, refl, refl, refl)
attributes_of_lem false false false false = (refl, refl, refl, refl)

-- For an atom other than 0, the property that makePropertyInShape makes has the atom and the offset
-- given, and each of the four attributes exactly if its flag was given.
make_property_in_shape_lem :
    (name offset : ℕ) (r h g s : Bool)
    → name ≢ 0
    → let p = make_property_in_shape name offset r h g s in
      (p.name_atom ≡ name)
      × (p.offset_index ≡ offset)
      × (has_flag readonly p.attributes ≡ r)
      × (has_flag hidden p.attributes ≡ h)
      × (has_flag is_getter p.attributes ≡ g)
      × (has_flag is_setter p.attributes ≡ s)
unfolding make_property_in_shape
make_property_in_shape_lem name offset r h g s ne =
    let (x, y, z, w) = attributes_of_lem r h g s in rw (==_ne name 0 ne) (refl, refl, x, y, z, w)

-- The capacity of a transition table grows at each step, to at most twice what it was or to 2.
get_next_transition_capacity_lem :
    (capacity : ℕ)
    → (capacity < get_next_transition_capacity capacity)
      × (get_next_transition_capacity capacity ≤ 2 * capacity + 2)
unfolding get_next_transition_capacity
get_next_transition_capacity_lem capacity = ground arith

bit_or-half : (a x : ℕ) → bit_or a x / 2 ≡ bit_or (a / 2) (x / 2)
bit_or-half a x = omega (arith, bit_or_step a x)

-- A number below 16 changes nothing from the fifth digit on.
bit_or-low : (a x : ℕ) → x < 16 → bit_or a x / 16 ≡ a / 16
bit_or-low a x h =
    let last : bit_or (a / 2 / 2 / 2 / 2) (x / 2 / 2 / 2 / 2) ≡ a / 2 / 2 / 2 / 2 =
      ap (λ y. bit_or (a / 2 / 2 / 2 / 2) y) {x = x / 2 / 2 / 2 / 2} {y = 0} (omega arith)
      ∙ bit_or-zero (a / 2 / 2 / 2 / 2) in
    omega (
      arith,
      bit_or-half a x,
      bit_or-half (a / 2) (x / 2),
      bit_or-half (a / 2 / 2) (x / 2 / 2),
      bit_or-half (a / 2 / 2 / 2) (x / 2 / 2 / 2),
      last,
    )

-- Setting an epoch below 16 leaves the epoch of a shape as it was, whatever it was.
get_shape_epoche-set_shape_epoche :
    (epoche : ℕ) (shape : Shape)
    → epoche < 16
    → get_shape_epoche (set_shape_epoche epoche shape) ≡ get_shape_epoche shape
unfolding get_shape_epoche set_shape_epoche
get_shape_epoche-set_shape_epoche epoche shape h =
    bit_or-low shape.shape_flags (bit_and epoche shape_epoch_raw_mask)
      (omega (arith, bit_and-le 4 epoche shape_epoch_raw_mask h))
