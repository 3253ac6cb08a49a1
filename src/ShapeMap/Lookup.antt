-- ===== src/ShapeMap/Lookup.antt =====
-- The searches for a property and for a transition.
use ely_square.Base.{
  ◌+◌, ◌-◌, ◌⊎◌, ◌↔◌, arith, get_elem?, length, length-append, ==_ne, ==_iff, ==_refl, Option-cases,
  ℕ, ◌≡◌, refl, ap, Bool, true, false, Bool-cases, inl, inr, Option, none, some, List, [], ◌∷◌,
  ◌++◌, ◌==◌,
}
use ely_square.ShapeMap.{
  get_last_property, get_property_at, PropertyDescriptor, TransitionEntry, Shape, Shapes,
  find_property, get_property, transition_matches, find_in_table, find_transition,
}

module _ {A : Type 0} (matches : A → Bool) where
  abbrev pub NoMatch : List A → Type 0
  NoMatch [] = Unit {0}
  NoMatch (x ∷ xs) = (matches x ≡ false) × NoMatch xs

  -- The first element that matches, or that there is none.
  pub data First (xs : List A) : Option A → Type 0 where
    hit :
        (before : List A) (x : A) (after : List A)
        → xs ≡ before ++ (x ∷ after)
        → NoMatch before
        → matches x ≡ true
        → First xs (some x)
    miss : NoMatch xs → First xs none

  pub First-cons :
      (x : A) {xs : List A} {o : Option A} → matches x ≡ false → First xs o → First (x ∷ xs) o
  First-cons x e (hit before y after split earlier matched) =
      hit (x ∷ before) y after (ap (λ ys. x ∷ ys) split) (e, earlier) matched
  First-cons x e (miss all) = miss (e, all)

abbrev pub has_name : ℕ → PropertyDescriptor → Bool
has_name property_atom p = p.name_atom == property_atom

find_property-First :
    (ps : List PropertyDescriptor) (property_atom : ℕ)
    → First (has_name property_atom) ps (find_property ps property_atom)
unfolding find_property
find_property-First [] property_atom = miss tt
find_property-First (p ∷ ps) property_atom = elim (Bool-cases (p.name_atom == property_atom)) [
  | inl e ↦ rw e (hit [] p ps refl tt e)
  | inr e ↦ rw e (First-cons (has_name property_atom) p e (find_property-First ps property_atom))
]

-- getProperty returns the first property with the atom, or a null pointer if no property has it.
get_property-First :
    (shape : Shape) (property_atom : ℕ)
    → First (has_name property_atom) shape.prop_array (get_property shape property_atom)
unfolding get_property
get_property-First shape property_atom = find_property-First shape.prop_array property_atom

abbrev pub leads : Shapes → (property_atom attributes : ℕ) → TransitionEntry → Bool
leads shapes property_atom attributes t = transition_matches shapes t property_atom attributes

find_in_table-First :
    (shapes : Shapes) (ts : List TransitionEntry) (property_atom attributes : ℕ)
    → First
        (leads shapes property_atom attributes)
        ts
        (find_in_table shapes ts property_atom attributes)
unfolding find_in_table
find_in_table-First shapes [] property_atom attributes = miss tt
find_in_table-First shapes (t ∷ ts) property_atom attributes =
    elim (Bool-cases (transition_matches shapes t property_atom attributes)) [
      | inl e ↦ rw e (hit [] t ts refl tt e)
      | inr e ↦ rw e (
          First-cons (leads shapes property_atom attributes) t e
            (find_in_table-First shapes ts property_atom attributes))
    ]

-- The entry leads by the atom to a shape whose last property has the attributes.
pub data Leads (shapes : Shapes) (property_atom attributes : ℕ) (t : TransitionEntry) : Type 0 where
  leads_to :
      (target : ℕ) (front : List PropertyDescriptor) (last : PropertyDescriptor)
      → t.target_shape ≡ some target
      → t.property_atom ≡ property_atom
      → (shapes target).prop_array ≡ front ++ (last ∷ [])
      → last.attributes ≡ attributes
      → Leads shapes property_atom attributes t

get_elem?-last :
    (front : List PropertyDescriptor) (last : PropertyDescriptor)
    → get_elem? (front ++ (last ∷ [])) (length front) ≡ some last
get_elem?-last [] last = refl
get_elem?-last (p ∷ front) last = get_elem?-last front last

last_cases :
    (ps : List PropertyDescriptor)
    → (ps ≡ [])
      ⊎ ((front : List PropertyDescriptor) × (last : PropertyDescriptor) × (ps
            ≡ front ++ (last ∷ [])))
last_cases [] = inl refl
last_cases (p ∷ ps) = inr (elim (last_cases ps) [
  | inl e ↦ ([], p, ap (λ qs. p ∷ qs) e)
  | inr (front, last, e) ↦ (p ∷ front, last, ap (λ qs. p ∷ qs) e)
])

get_last_property-some :
    (shape : Shape) (front : List PropertyDescriptor) (last : PropertyDescriptor)
    → shape.prop_array ≡ front ++ (last ∷ [])
    → get_last_property shape ≡ some last
unfolding get_last_property get_property_at
get_last_property-some shape front last e =
    let size : length (front ++ (last ∷ [])) ≡ length front + 1 = length-append front (last ∷ []) in
    let index : length front + 1 - 1 ≡ length front = omega arith in
    rw (e, size, ==_ne (length front + 1) 0 (λ z. omega (arith, z)), index)
      (get_elem?-last front last)

get_last_property-none : (shape : Shape) → shape.prop_array ≡ [] → get_last_property shape ≡ none
unfolding get_last_property
get_last_property-none shape e = rw e refl

module _ (shapes : Shapes) (property_atom attributes : ℕ) (t : TransitionEntry) where
  matches-Leads :
      Leads shapes property_atom attributes t
      → transition_matches shapes t property_atom attributes ≡ true
  unfolding transition_matches
  matches-Leads (leads_to target front last to name array same) =
      rw
        (
          to,
          transition_matches,
          name,
          ==_refl property_atom,
          get_last_property-some (shapes target) front last array,
          same,
          ==_refl attributes,
        )
        refl

  by_target :
      (target : ℕ)
      → t.target_shape ≡ some target
      → transition_matches shapes t property_atom attributes ≡ true
      → Leads shapes property_atom attributes t
  unfolding transition_matches
  by_target target to e = elim (Bool-cases (t.property_atom == property_atom)) [
    | inr other ↦ absurd (cc (rw (to, transition_matches, other) at e))
    | inl name ↦ elim (last_cases (shapes target).prop_array) [
      | inl empty ↦ absurd (
          cc (rw (to, transition_matches, name, get_last_property-none (shapes target) empty) at e))
      | inr (front, last, array) ↦
          leads_to target front last to ((==_iff t.property_atom property_atom).0 name) array (
            (==_iff last.attributes attributes).0 (
              rw
                (
                  to,
                  transition_matches,
                  name,
                  get_last_property-some (shapes target) front last array,
                )
                at e))
    ]
  ]

  no_target :
      t.target_shape ≡ none → transition_matches shapes t property_atom attributes ≡ true → ⊥
  unfolding transition_matches
  no_target gone e = cc (rw (gone, transition_matches) at e)

-- findTransition accepts an entry exactly if it leads by the atom to a shape whose last property has
-- the attributes.
pub transition_matches-Leads_iff :
    (shapes : Shapes) (property_atom attributes : ℕ) (t : TransitionEntry)
    → (transition_matches shapes t property_atom attributes ≡ true)
      ↔ Leads shapes property_atom attributes t
transition_matches-Leads_iff shapes property_atom attributes t = (
  λ e. elim (Option-cases t.target_shape) [
    | inl gone ↦ absurd (no_target shapes property_atom attributes t gone e)
    | inr (target, to) ↦ by_target shapes property_atom attributes t target to e
  ],
  matches-Leads shapes property_atom attributes t,
)

module _ (shapes : Shapes) (property_atom attributes : ℕ) where
  pub NoneLeads : List TransitionEntry → Type 0
  NoneLeads [] = Unit {0}
  NoneLeads (t ∷ ts) = (¬ (Leads shapes property_atom attributes t)) × NoneLeads ts

  -- The first entry that leads, or that there is none.
  pub data FirstLeads (ts : List TransitionEntry) : Option TransitionEntry → Type 0 where
    leads_first :
        (before : List TransitionEntry) (t : TransitionEntry) (after : List TransitionEntry)
        → ts ≡ before ++ (t ∷ after)
        → NoneLeads before
        → Leads shapes property_atom attributes t
        → FirstLeads ts (some t)
    none_leads : NoneLeads ts → FirstLeads ts none

  NoMatch-NoneLeads :
      (ts : List TransitionEntry)
      → NoMatch (leads shapes property_atom attributes) ts
      → NoneLeads ts
  unfolding NoneLeads
  NoMatch-NoneLeads [] h = tt
  NoMatch-NoneLeads (t ∷ ts) (e, h) = (
    λ l. cc (e, (transition_matches-Leads_iff shapes property_atom attributes t).1 l),
    NoMatch-NoneLeads ts h,
  )

  First-FirstLeads :
      {ts : List TransitionEntry} {o : Option TransitionEntry}
      → First (leads shapes property_atom attributes) ts o
      → FirstLeads ts o
  First-FirstLeads (hit before t after split earlier matched) =
      leads_first before t after split (NoMatch-NoneLeads before earlier)
        ((transition_matches-Leads_iff shapes property_atom attributes t).0 matched)
  First-FirstLeads {ts} (miss all) = none_leads (NoMatch-NoneLeads ts all)

-- With a transition table, findTransition returns the first entry that has the atom and a target
-- shape whose last property has the attributes, or a null pointer if there is no such entry.
pub find_transition-FirstLeads :
    (shapes : Shapes) (shape : Shape) (table : List TransitionEntry) (property_atom attributes : ℕ)
    → shape.transition_table ≡ some table
    → FirstLeads shapes property_atom attributes table
        (find_transition shapes shape property_atom attributes)
unfolding find_transition
find_transition-FirstLeads shapes shape table property_atom attributes e =
    rw (e, find_transition)
      (First-FirstLeads shapes property_atom attributes
        (find_in_table-First shapes table property_atom attributes))
