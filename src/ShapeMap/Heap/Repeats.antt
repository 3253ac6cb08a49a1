-- ===== src/ShapeMap/Heap/Repeats.antt =====
-- transitionShape of lowcode/source/meta/shape_map.cpp: the same transition leads to the same shape.
use mathlib.Core.Path.{subst}
use ely_square.Base.{
  ℕ, ◌^◌, ◌≤◌, ◌≡◌, ◌≢◌, inl, inr, refl, sym, ap, ◌∙◌, Bool, true, false, Bool-cases, Option, none,
  some, List, [], ◌∷◌, ◌++◌, Outcome, ok, ==_ne, ℕ_discrete, Option-cases,
}
use ely_square.PageSource.{PageSource}
use ely_square.ShapeMap.{
  PropertyDescriptor, TransitionEntry, Shape, Shapes, make_property_in_shape, attributes_of,
  find_transition, find_in_table, transition_matches, get_last_property, get_property_at,
}
use ely_square.ShapeMap.Lookup.{leads_to, transition_matches-Leads_iff}
use ely_square.ShapeMap.Queries.{entries}
use ely_square.ShapeMap.Heap.{ShapeHeap, transite_to, transition_shape}
use ely_square.ShapeMap.Heap.Transitions.{Child}
use ely_square.ShapeMap.Heap.Creation.{NotTarget, CanGrow, property, create_transition-Created}

last_agree :
    (q q' : Shape) → q'.prop_array ≡ q.prop_array → get_last_property q' ≡ get_last_property q
unfolding get_last_property get_property_at
last_agree q q' e = rw e refl

-- The test of findTransition depends on the properties of the target.
matches_agree :
    (shapes shapes' : Shapes) (t : TransitionEntry) (property_atom attributes : ℕ)
    → ((p : ℕ) → t.target_shape ≡ some p → (shapes' p).prop_array ≡ (shapes p).prop_array)
    → transition_matches shapes' t property_atom attributes
      ≡ transition_matches shapes t property_atom attributes
unfolding transition_matches
matches_agree shapes shapes' t property_atom attributes same = elim (Option-cases t.target_shape) [
  | inl e ↦ rw (e, transition_matches) refl
  | inr (p, e) ↦ rw (e, last_agree (shapes p) (shapes' p) (same p e), transition_matches) refl
]

find_hit :
    (shapes : Shapes) (t : TransitionEntry) (ts : List TransitionEntry)
    (property_atom attributes : ℕ)
    → transition_matches shapes t property_atom attributes ≡ true
    → find_in_table shapes (t ∷ ts) property_atom attributes ≡ some t
unfolding find_in_table
find_hit shapes t ts property_atom attributes e = rw e refl

find_miss :
    (shapes : Shapes) (t : TransitionEntry) (ts : List TransitionEntry)
    (property_atom attributes : ℕ)
    → transition_matches shapes t property_atom attributes ≡ false
    → find_in_table shapes (t ∷ ts) property_atom attributes
      ≡ find_in_table shapes ts property_atom attributes
unfolding find_in_table
find_miss shapes t ts property_atom attributes e = rw e refl

module _ (shapes shapes' : Shapes) (child property_atom attributes : ℕ) (new : TransitionEntry)
    (hit : transition_matches shapes' new property_atom attributes ≡ true)
    (same : (p : ℕ) → p ≢ child → (shapes' p).prop_array ≡ (shapes p).prop_array) where
  -- A new entry behind entries that do not match is found.
  found_behind :
      (ts : List TransitionEntry)
      → NotTarget child ts
      → find_in_table shapes ts property_atom attributes ≡ none
      → find_in_table shapes' (ts ++ new ∷ []) property_atom attributes ≡ some new
  found_behind [] untargeted e = find_hit shapes' new [] property_atom attributes hit
  found_behind (t ∷ ts) (ne, untargeted) e =
      elim (Bool-cases (transition_matches shapes t property_atom attributes)) [
        | inl h ↦ cc (e, find_hit shapes t ts property_atom attributes h)
        | inr h ↦
            find_miss shapes' t (ts ++ new ∷ []) property_atom attributes (
              matches_agree shapes shapes' t property_atom attributes
                (λ p to. same p (λ q. ne (to ∙ ap some q)))
              ∙ h)
            ∙ found_behind ts untargeted
                (sym (find_miss shapes t ts property_atom attributes h) ∙ e)
      ]

table_of_entries :
    (shapes : Shapes) (shape : Shape) (property_atom attributes : ℕ)
    → find_transition shapes shape property_atom attributes ≡ none
    → find_in_table shapes (entries shape) property_atom attributes ≡ none
unfolding find_transition find_in_table
table_of_entries shapes shape property_atom attributes e =
    elim (Option-cases shape.transition_table) [
      | inl null ↦ rw null refl
      | inr (table, there) ↦ rw there (rw there at e)
    ]

attributes_made :
    (name offset : ℕ) (r h g s : Bool)
    → name ≢ 0
    → (make_property_in_shape name offset r h g s).attributes ≡ attributes_of r h g s
unfolding make_property_in_shape
attributes_made name offset r h g s ne = rw (==_ne name 0 ne) refl

module _ (current child property_atom : ℕ) (made : PropertyDescriptor) (before after : Shapes)
    (c : Child before after current child property_atom made) where
  -- Shapes but the child have the properties they had.
  same_properties : (p : ℕ) → p ≢ child → (after p).prop_array ≡ (before p).prop_array
  same_properties p ne = elim (ℕ_discrete p current) [
    | yes e ↦
        ap (λ q. (after q).prop_array) e ∙ c.inherited ∙ ap (λ q. (before q).prop_array) (sym e)
    | no ne' ↦ (c.others p ne ne').properties
  ]

  child_found :
      NotTarget child (entries (before current))
      → find_transition before (before current) property_atom made.attributes ≡ none
      → find_transition after (after current) property_atom made.attributes
        ≡ some (transite_to child property_atom)
  unfolding find_transition
  child_found untargeted e = rw c.table (
      found_behind before after child property_atom made.attributes
        (transite_to child property_atom)
        ((transition_matches-Leads_iff after property_atom made.attributes
            (transite_to child property_atom)).1
          (leads_to child (before current).prop_array made refl refl c.properties refl))
        same_properties (entries (before current)) untargeted
        (table_of_entries before (before current) property_atom made.attributes e))

module _ (ps : PageSource) (roomy : 2 ^ 21 ≤ ps.limit) (current property_atom offset : ℕ)
    (is_readonly is_hidden getter setter : Bool) (h : ShapeHeap) (s : ps.Store)
    (v : CanGrow ps current h s) where
  -- The transition with these flags, in a heap.
  abbrev transits : ShapeHeap → ps.Store → Outcome (Option ℕ × ShapeHeap × ps.Store)
  transits g t =
      transition_shape ps current property_atom offset is_readonly is_hidden getter setter g t

  found_again :
      (g : ShapeHeap) (t : ps.Store) (entry : TransitionEntry)
      → find_transition g.shapes
          (g.shapes current)
          property_atom
          (attributes_of is_readonly is_hidden getter setter)
        ≡ some entry
      → transits g t ≡ ok (entry.target_shape, g, t)
  unfolding transition_shape
  found_again g t entry e = rw (transition_shape, e) refl

  -- With a source that grants 2097152 pages, in a heap in which the shape can get one more child: a
  -- transition by an atom other than 0 with attributes for which the shape has none yet leads to a new
  -- child, and the same transition then leads to that child again and changes nothing.
  pub transition_shape-transition_shape :
      property_atom ≢ 0
      → find_transition h.shapes
          (h.shapes current)
          property_atom
          (attributes_of is_readonly is_hidden getter setter)
        ≡ none
      → (child : ℕ) × (h' : ShapeHeap) × (s' : ps.Store) × (transition_shape ps current
            property_atom offset is_readonly is_hidden getter setter h s
          ≡ ok (some child, h', s'))
        × (child ≢ current)
        × ((t : ps.Store)
            → transition_shape ps current property_atom offset is_readonly is_hidden getter setter
                h' t
              ≡ ok (some child, h', t))
  unfolding transition_shape
  transition_shape-transition_shape atom absent =
      let (child, h', s', runs, c, ne, untargeted, v', last, ready') =
        create_transition-Created ps roomy current property_atom offset is_readonly is_hidden getter
          setter h s v in
      let flags = attributes_made property_atom offset is_readonly is_hidden getter setter atom in
      let made =
        property ps roomy current property_atom offset is_readonly is_hidden getter setter h s v in
      let found : find_transition h'.shapes (h'.shapes current) property_atom
            (attributes_of is_readonly is_hidden getter setter)
          ≡ some (transite_to child property_atom) =
        subst
          (λ a.
            find_transition h'.shapes (h'.shapes current) property_atom a
            ≡ some (transite_to child property_atom))
          flags
          (child_found current child property_atom made h.shapes h'.shapes c untargeted (
            subst (λ a. find_transition h.shapes (h.shapes current) property_atom a ≡ none)
              (sym flags) absent)) in
      (
        child,
        h',
        s',
        rw (transition_shape, absent, runs) refl,
        ne,
        λ t. found_again h' t (transite_to child property_atom) found,
      )
