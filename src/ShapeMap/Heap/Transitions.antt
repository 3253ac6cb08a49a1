-- ===== src/ShapeMap/Heap/Transitions.antt =====
-- createTransition and transitionShape of lowcode/source/meta/shape_map.cpp: the child that they make.
use mathlib.Core.Path.{subst}
use ely_square.Base.{
  ℕ, ◌-◌, ◌≡◌, ◌≢◌, refl, sym, ap, ◌∙◌, arith, none, some, List, [], ◌∷◌, ◌++◌, length, set,
  length-append,
}
use ely_square.ShapeMap.{PropertyDescriptor, Shape, Shapes, get_shape_flags}
use ely_square.ShapeMap.Queries.{entries}
use ely_square.ShapeMap.Heap.{
  update, zero_property, new_shape, linked_child, link_child, link_last, with_next, inherited_by,
  describe, add_entry, transite_to, enter,
}
use ely_square.ShapeMap.Heap.Growth.{Kept, Kept-update, update_here, update_elsewhere}

-- What an update of two fields that name neighbours keeps.
pub Kept-trans : {p q r : Shape} → Kept p q → Kept q r → Kept p r
Kept-trans k l = record {
  parent = l.parent ∙ k.parent;
  flags = l.flags ∙ k.flags;
  properties = l.properties ∙ k.properties;
  transitions = l.transitions ∙ k.transitions;
}

pub flags_of_parent :
    (q q' : Shape) (attributes : ℕ)
    → q'.shape_flags ≡ q.shape_flags
    → get_shape_flags q' attributes ≡ get_shape_flags q attributes
unfolding get_shape_flags
flags_of_parent q q' attributes e = rw e refl

set_last :
    (front : List PropertyDescriptor) (last new : PropertyDescriptor)
    → set (front ++ last ∷ []) (length front) new ≡ front ++ new ∷ []
set_last [] last new = refl
set_last (p ∷ front) last new = ap (λ ps. p ∷ ps) (set_last front last new)

-- The child of a shape in the shapes after, and what the shapes before are after.
pub record Child (before after : Shapes) (current child property_atom : ℕ)
    (property : PropertyDescriptor) : Type 0 where
  pub parent : (after child).parent_shape ≡ some current
  pub properties : (after child).prop_array ≡ (before current).prop_array ++ property ∷ []
  pub flags : (after child).shape_flags ≡ get_shape_flags (before current) property.attributes
  pub leaf : (after child).transition_table ≡ none
  pub table :
      (after current).transition_table
      ≡ some (entries (before current) ++ transite_to child property_atom ∷ [])
  pub inherited : (after current).prop_array ≡ (before current).prop_array
  pub others : (q : ℕ) → q ≢ child → q ≢ current → Kept (before q) (after q)

module _ (current child last property_atom address : ℕ) (property : PropertyDescriptor)
    (shapes : Shapes) (fresh : child ≢ current) where
  abbrev made : Shapes
  made = update child (λ q. new_shape (some current)) shapes

  abbrev linked_last : Shapes
  linked_last = link_last child current last shapes

  abbrev flags : ℕ
  flags = get_shape_flags (linked_last current) property.attributes

  abbrev linked_to : Shapes
  linked_to = link_child child current last property.attributes shapes

  abbrev properties : List PropertyDescriptor
  properties = (linked_to current).prop_array

  -- The shapes that make_shape leaves.
  abbrev pub made_shapes : Shapes
  made_shapes = update child (inherited_by address properties) linked_to

  linked_last-Kept : (q : ℕ) → Kept (made q) (linked_last q)
  linked_last-Kept =
      Kept-update last (with_next child) made
        (record { parent = refl; flags = refl; properties = refl; transitions = refl })

  -- Shapes but the child keep what they are.
  pub linked_to-Kept : (q : ℕ) → q ≢ child → Kept (shapes q) (linked_to q)
  linked_to-Kept q ne =
      subst (Kept (shapes q))
        (sym (update_elsewhere child (linked_child last flags) linked_last q ne))
        (subst (λ r. Kept r (linked_last q))
          (update_elsewhere child (λ q. new_shape (some current)) shapes q ne) (linked_last-Kept q))

  abbrev described : Shapes
  described = update child (describe property) made_shapes

  described_elsewhere : (q : ℕ) → q ≢ child → described q ≡ linked_to q
  described_elsewhere q ne =
      update_elsewhere child (describe property) made_shapes q ne
      ∙ update_elsewhere child (inherited_by address properties) linked_to q ne

  abbrev pub entered : Shapes
  entered = enter current child property_atom property made_shapes

  entered_child :
      entered child
      ≡ describe property
          (inherited_by address properties (linked_child last flags (linked_last child)))
  entered_child =
      update_elsewhere current (add_entry (transite_to child property_atom)) described child fresh
      ∙ update_here child (describe property) made_shapes
      ∙ ap (describe property) (update_here child (inherited_by address properties) linked_to)
      ∙ ap (λ q. describe property (inherited_by address properties q))
          (update_here child (linked_child last flags) linked_last)

  entered_current :
      entered current ≡ add_entry (transite_to child property_atom) (linked_to current)
  entered_current =
      update_here current (add_entry (transite_to child property_atom)) described
      ∙ ap (add_entry (transite_to child property_atom))
          (described_elsewhere current (λ e. fresh (sym e)))

  last_index : length (properties ++ zero_property ∷ []) - 1 ≡ length properties
  last_index = omega (arith, length-append properties (zero_property ∷ []))

  pub entered-Child : Child shapes entered current child property_atom property
  entered-Child =
      let kept = linked_to-Kept current (λ e. fresh (sym e)) in
      record {
        parent =
            ap (λ q. q.parent_shape) entered_child
            ∙ (linked_last-Kept child).parent
            ∙ ap (λ q. q.parent_shape) (update_here child (λ q. new_shape (some current)) shapes);
        properties =
            ap (λ q. q.prop_array) entered_child
            ∙ ap (λ i. set (properties ++ zero_property ∷ []) i property) last_index
            ∙ set_last properties zero_property property
            ∙ ap (λ ps. ps ++ property ∷ []) kept.properties;
        flags =
            ap (λ q. q.shape_flags) entered_child
            ∙ flags_of_parent (shapes current) (linked_last current) property.attributes (
                (linked_last-Kept current).flags
                ∙ ap (λ q. q.shape_flags)
                    (update_elsewhere child (λ q. new_shape (some current)) shapes current
                      (λ e. fresh (sym e))));
        leaf = ap (λ q. q.transition_table) entered_child;
        table =
            ap (λ q. q.transition_table) entered_current
            ∙ ap (λ ts. some (ts ++ transite_to child property_atom ∷ [])) kept.transitions;
        inherited = ap (λ q. q.prop_array) entered_current ∙ kept.properties;
        others = λ q ne ne'.
            subst (Kept (shapes q))
              (sym (
                update_elsewhere current (add_entry (transite_to child property_atom)) described q
                  ne'
                ∙ described_elsewhere q ne))
              (linked_to-Kept q ne);
      }
