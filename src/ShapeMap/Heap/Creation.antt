-- ===== src/ShapeMap/Heap/Creation.antt =====
-- createTransition of lowcode/source/meta/shape_map.cpp: it always makes a child.
use ely_square.Base.{
  ℕ, ◌+◌, ◌*◌, ◌^◌, ◌<◌, ◌≤◌, ◌≡◌, ◌≢◌, refl, sym, ap, ◌∙◌, arith, Bool, false, some, List, [], ◌∷◌,
  ◌++◌, leb, length, ok, ==_ne,
}
use ely_square.PageSource.{PageSource}
use ely_square.MetaArena.{MetaArena, metalloc, set_last_allocated_shape}
use ely_square.ShapeMap.{PropertyDescriptor, TransitionEntry, Shapes, make_property_in_shape}
use ely_square.ShapeMap.Queries.{entries, transition_count}
use ely_square.ShapeMap.Heap.{ShapeHeap, transite_to, make_shape, grow_table, create_transition}
use ely_square.ShapeMap.Heap.Growth.{Kept, IsTable, grow_table-Grown}
use ely_square.ShapeMap.Heap.Transitions.{
  Kept-trans, flags_of_parent, Child, entered, made_shapes, entered-Child, linked_to-Kept,
}
use ely_square.MetaArena.Serves.{IsMeta, metalloc-Served, IsMeta-set_last_allocated_shape}

-- A child in shapes that are kept is one in the shapes themselves.
Child-Kept :
    {before grown after : Shapes} {current child property_atom : ℕ} {property : PropertyDescriptor}
    → ((q : ℕ) → Kept (before q) (grown q))
    → Child grown after current child property_atom property
    → Child before after current child property_atom property
Child-Kept {before} {grown} {after} {current} {child} {property_atom} {property} kept c = record {
  parent = c.parent;
  properties = c.properties ∙ ap (λ ps. ps ++ property ∷ []) (kept current).properties;
  flags =
      c.flags
      ∙ flags_of_parent (before current) (grown current) property.attributes (kept current).flags;
  leaf = c.leaf;
  table =
      c.table
      ∙ ap (λ ts. some (ts ++ transite_to child property_atom ∷ [])) (kept current).transitions;
  inherited = c.inherited ∙ (kept current).properties;
  others = λ q ne ne'. Kept-trans (kept q) (c.others q ne ne');
}

module _ (ps : PageSource) (current child last property_atom address : ℕ)
    (property : PropertyDescriptor) (h : ShapeHeap) (s s' s'' : ps.Store) (meta meta' : MetaArena)
    (fresh : child ≢ current) (few : length (h.shapes current).prop_array < 65535)
    (known : meta.last_allocated_shape ≡ some last)
    (block : metalloc ps 64 8 h.meta s ≡ ok (child, meta, s'))
    (array : metalloc ps (8 * (length (h.shapes current).prop_array + 1)) 4 meta s'
      ≡ ok (address, meta', s'')) where
  make_shape-made :
      make_shape ps current property.attributes h s
      ≡ ok (
        child,
        record {
          shapes = made_shapes current child last property_atom address property h.shapes fresh;
          meta = set_last_allocated_shape (some child) meta';
        },
        s'',
      )
  unfolding make_shape
  make_shape-made =
      let same =
        (linked_to-Kept current child last property_atom address property h.shapes fresh current
          (λ e. fresh (sym e))).properties in
      rw (block, known, make_shape, same, leb_false, array) refl
    where
      leb_false : leb 65535 (length (h.shapes current).prop_array) ≡ false
      leb_false = ground arith

-- No entry of a table leads to the address.
abbrev pub NotTarget : ℕ → List TransitionEntry → Type 0
NotTarget p [] = Unit {0}
NotTarget p (t ∷ ts) = (t.target_shape ≢ some p) × NotTarget p ts

-- The block that the arena gives for the child of a shape is neither that shape nor one of its
-- children.
abbrev pub IsNew : (ps : PageSource) (current : ℕ) → ShapeHeap → ps.Store → Type 0
IsNew ps current h s =
    (grown : ShapeHeap) (s' : ps.Store)
    → grow_table ps current h s ≡ ok (grown, s')
    → (child : ℕ) (meta : MetaArena) (s'' : ps.Store)
    → metalloc ps 64 8 grown.meta s' ≡ ok (child, meta, s'')
    → (child ≢ current) × NotTarget child (entries (h.shapes current))

-- A heap in which a shape can get one more child.
pub record CanGrow (ps : PageSource) (current : ℕ) (h : ShapeHeap) (s : ps.Store) : Type 0 where
  pub meta : IsMeta h.meta
  pub ready : ps.IsReady s
  pub table : IsTable (h.shapes current)
  pub transitions : transition_count (h.shapes current) < 65532
  pub properties : length (h.shapes current).prop_array < 65535
  pub last : ℕ
  pub has_last : h.meta.last_allocated_shape ≡ some last
  pub fresh : IsNew ps current h s

module _ (ps : PageSource) (roomy : 2 ^ 21 ≤ ps.limit) (current property_atom offset : ℕ)
    (is_readonly is_hidden getter setter : Bool) (h : ShapeHeap) (s : ps.Store)
    (v : CanGrow ps current h s) where
  abbrev pub property : PropertyDescriptor
  property = make_property_in_shape property_atom offset is_readonly is_hidden getter setter

  -- What the creation of a transition comes to.
  abbrev pub Created : Type 0
  Created =
      (child : ℕ) × (h' : ShapeHeap) × (s' : ps.Store) × (create_transition ps current property_atom
          offset is_readonly is_hidden getter setter h s
        ≡ ok (child, h', s'))
      × Child h.shapes h'.shapes current child property_atom property
      × (child ≢ current)
      × NotTarget child (entries (h.shapes current))
      × IsMeta h'.meta
      × (h'.meta.last_allocated_shape ≡ some child)
      × ps.IsReady s'

  pub create_transition-Created : Created
  unfolding create_transition
  create_transition-Created =
      let (grown, s1, grows, kept, room, t', v1, last1, ready1) =
        grow_table-Grown ps roomy current h s v.meta v.ready v.table v.transitions in
      let (child, meta, s2, block, v2, last2, ready2) =
        metalloc-Served ps roomy 64 3 grown.meta s1 v1 ready1 (omega arith) (omega arith) in
      let same : length (grown.shapes current).prop_array ≡ length (h.shapes current).prop_array =
        ap length (kept current).properties in
      let few : length (grown.shapes current).prop_array < 65535 =
        omega (arith, same, v.properties) in
      let (address, meta', s3, array, v3, last3, ready3) =
        metalloc-Served ps roomy (8 * (length (grown.shapes current).prop_array + 1)) 2 meta s2 v2
          ready2 (omega arith) (omega (arith, few)) in
      let (ne, untargeted) = v.fresh grown s1 grows child meta s2 block in
      (
        child,
        record {
          shapes = entered current child v.last property_atom address property grown.shapes ne;
          meta = set_last_allocated_shape (some child) meta';
        },
        s3,
        rw
            (
              grows,
              ==_ne (length (grown.shapes current).prop_array) 65535 (λ e. omega (arith, e, few)),
              make_shape-made ps current child v.last property_atom address property grown s1 s2 s3
                  meta meta' ne few (last2 ∙ last1 ∙ v.has_last) block array,
            )
            refl,
        Child-Kept kept
            (entered-Child current child v.last property_atom address property grown.shapes ne),
        ne,
        untargeted,
        (IsMeta-set_last_allocated_shape child meta' v3).0,
        (IsMeta-set_last_allocated_shape child meta' v3).1,
        ready3,
      )
