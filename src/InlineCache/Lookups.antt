-- ===== src/InlineCache/Lookups.antt =====
-- The caches of fields and methods: they give what the lookup would.
use ely_square.Base.{
  ℕ, ◌<◌, ◌^◌, ◌%◌, ◌≡◌, refl, sym, ap, ◌∙◌, arith, Bool, true, Bool-cases, inl, inr, Option, none,
  some, List, [], ◌∷◌, ◌==◌, ◌&&◌, if◌then◌else◌, ==_iff, &&-eq-true,
}
use ely_square.ShapeMap.{Shapes}
use ely_square.InlineCache.{same_pointer, shape_epoche, Pic, dict_get_field, call_method}

same_pointer-eq : (p q : Option ℕ) → same_pointer p q ≡ true → p ≡ q
unfolding same_pointer
same_pointer-eq none none e = refl
same_pointer-eq none (some q) e = cc e
same_pointer-eq (some p) none e = cc e
same_pointer-eq (some p) (some q) e = ap some ((==_iff p q).0 e)

-- A static variable as it is at first.
abbrev pub first_pic : {V : Type 0} → V → Pic V
first_pic v = record { cached_shape = none; expected_version = 0; found = v }

module _ (Object : Type 0) (shape_of : Object → Option ℕ) {V : Type 0}
    (look_up : Shapes → Object → V) where
  -- A later access to an object with this shape, when the shape has the same version, has the same
  -- result.
  abbrev pub AgreesWith : Shapes → Object → List (Shapes × Object) → Type 0
  AgreesWith shapes obj [] = Unit {0}
  AgreesWith shapes obj ((shapes', obj') ∷ more) =
      (shape_of obj ≡ shape_of obj'
        → shape_epoche shapes (shape_of obj) ≡ shape_epoche shapes' (shape_of obj')
        → look_up shapes obj ≡ look_up shapes' obj')
      × AgreesWith shapes obj more

  -- Any two accesses of the trace that find the same shape with the same version have the same result.
  abbrev pub IsVersioned : List (Shapes × Object) → Type 0
  IsVersioned [] = Unit {0}
  IsVersioned ((shapes, obj) ∷ more) = AgreesWith shapes obj more × IsVersioned more

  abbrev hits : Shapes → Object → Pic V → Bool
  hits shapes obj pic =
      same_pointer (shape_of obj) pic.cached_shape
      && (shape_epoche shapes (shape_of obj) == pic.expected_version)

  -- Where the cache is hit, it holds what the lookup gives.
  abbrev IsRight : Pic V → List (Shapes × Object) → Type 0
  IsRight pic [] = Unit {0}
  IsRight pic ((shapes, obj) ∷ more) =
      (hits shapes obj pic ≡ true → pic.found ≡ look_up shapes obj) × IsRight pic more

  -- The cache as it is at first is never hit: an object with no shape has another version.
  first-IsRight : (v : V) (trace : List (Shapes × Object)) → IsRight (first_pic v) trace
  unfolding shape_epoche
  first-IsRight v [] = tt
  first-IsRight v ((shapes, obj) ∷ more) = (
    λ e.
        let (shape, version) = &&-eq-true (same_pointer (shape_of obj) none) _ e in
        let at_null : shape_epoche shapes (shape_of obj) ≡ 4095 =
          ap (shape_epoche shapes) (same_pointer-eq (shape_of obj) none shape) in
        absurd (omega (arith, (==_iff (shape_epoche shapes (shape_of obj)) 0).0 version, at_null)),
    first-IsRight v more,
  )

  -- The results of looking up the objects one after the other, with and without a cache.
  pub cached_run : (Shapes → Object → Pic V → V × Pic V) → List (Shapes × Object) → Pic V → List V
  cached_run access [] pic = []
  cached_run access ((shapes, obj) ∷ more) pic =
      let (value, pic') = access shapes obj pic in value ∷ cached_run access more pic'

  pub looked_up : List (Shapes × Object) → List V
  looked_up [] = []
  looked_up ((shapes, obj) ∷ more) = look_up shapes obj ∷ looked_up more

  -- The cache after a lookup.
  abbrev filled_pic : Shapes → Object → Pic V
  filled_pic shapes obj = record {
    cached_shape = shape_of obj;
    expected_version = shape_epoche shapes (shape_of obj);
    found = look_up shapes obj;
  }

  filled-IsRight :
      (shapes : Shapes) (obj : Object) (trace : List (Shapes × Object))
      → AgreesWith shapes obj trace
      → IsRight (filled_pic shapes obj) trace
  filled-IsRight shapes obj [] agrees = tt
  filled-IsRight shapes obj ((shapes', obj') ∷ more) (agrees, later) = (
    λ e.
        let (shape, version) = &&-eq-true (same_pointer (shape_of obj') (shape_of obj)) _ e in
        agrees (sym (same_pointer-eq (shape_of obj') (shape_of obj) shape)) (
          sym (
            (==_iff (shape_epoche shapes' (shape_of obj')) (shape_epoche shapes (shape_of obj))).0
              version)),
    filled-IsRight shapes obj more later,
  )

  -- An access takes what is cached on a hit, and looks up and keeps on a miss.
  abbrev pub IsAccess : (Shapes → Object → Pic V → V × Pic V) → List (Shapes × Object) → Type 0
  IsAccess access [] = Unit {0}
  IsAccess access ((shapes, obj) ∷ more) =
      ((pic : Pic V)
        → access shapes obj pic ≡ (
            if hits shapes obj pic
            then (pic.found, pic)
            else (look_up shapes obj, filled_pic shapes obj)))
      × IsAccess access more

  run-looked_up :
      (access : Shapes → Object → Pic V → V × Pic V) (trace : List (Shapes × Object)) (pic : Pic V)
      → IsVersioned trace
      → IsAccess access trace
      → IsRight pic trace
      → cached_run access trace pic ≡ looked_up trace
  unfolding cached_run looked_up
  run-looked_up access [] pic versioned acts right = refl
  run-looked_up access ((shapes, obj) ∷ more) pic (agrees, versioned) (acts, later) (right, rest) =
      elim (Bool-cases (hits shapes obj pic)) [
        | inl e ↦
            let taken : access shapes obj pic ≡ (pic.found, pic) = acts pic ∙ rw e refl in
            ap (λ r. (r).0 ∷ cached_run access more (r).1) taken
            ∙ ap (λ x. x ∷ cached_run access more pic) (right e)
            ∙ ap (λ xs. look_up shapes obj ∷ xs)
                (run-looked_up access more pic versioned later rest)
        | inr e ↦
            let kept : access shapes obj pic ≡ (look_up shapes obj, filled_pic shapes obj) =
              acts pic ∙ rw e refl in
            ap (λ r. (r).0 ∷ cached_run access more (r).1) kept
            ∙ ap (λ xs. look_up shapes obj ∷ xs)
                (run-looked_up access more (filled_pic shapes obj) versioned later
                  (filled-IsRight shapes obj more agrees))
      ]

module _ (Object : Type 0) (shape_of : Object → Option ℕ) where
  -- The offsets of the trace fit in 32 bits.
  abbrev pub AllShort : (Shapes → Object → ℕ) → List (Shapes × Object) → Type 0
  AllShort get_offset_of [] = Unit {0}
  AllShort get_offset_of ((shapes, obj) ∷ more) =
      (get_offset_of shapes obj < 2 ^ 32) × AllShort get_offset_of more

  short-IsAccess :
      (get_offset_of : Shapes → Object → ℕ) (trace : List (Shapes × Object))
      → AllShort get_offset_of trace
      → IsAccess Object shape_of get_offset_of (dict_get_field Object shape_of get_offset_of) trace
  unfolding dict_get_field
  short-IsAccess get_offset_of [] all = tt
  short-IsAccess get_offset_of ((shapes, obj) ∷ more) (short, all) = (
    λ pic.
        let whole : get_offset_of shapes obj % 2 ^ 32 ≡ get_offset_of shapes obj =
          omega (arith, short) in
        rw whole refl,
    short-IsAccess get_offset_of more all,
  )

  -- Any sequence of accesses to a field through its cache, over whatever objects and heaps of shapes,
  -- gives the offsets that the lookup gives, if these fit in 32 bits and any two accesses of the
  -- sequence that find the same shape pointer with the same version would look up the same offset: a
  -- shape that is killed and whose block becomes another shape with the version of the first is
  -- excluded.
  pub dict_get_field-looked_up :
      (get_offset_of : Shapes → Object → ℕ) (trace : List (Shapes × Object))
      → IsVersioned Object shape_of get_offset_of trace
      → AllShort get_offset_of trace
      → cached_run Object shape_of get_offset_of
          (dict_get_field Object shape_of get_offset_of)
          trace
          (first_pic 0)
        ≡ looked_up Object shape_of get_offset_of trace
  dict_get_field-looked_up get_offset_of trace versioned short =
      run-looked_up Object shape_of get_offset_of (dict_get_field Object shape_of get_offset_of)
        trace (first_pic 0) versioned (short-IsAccess get_offset_of trace short)
        (first-IsRight Object shape_of get_offset_of 0 trace)

  methods-IsAccess :
      (get_method_pointer_of : Shapes → Object → Option ℕ) (trace : List (Shapes × Object))
      → IsAccess Object shape_of get_method_pointer_of
          (call_method Object shape_of get_method_pointer_of)
          trace
  unfolding call_method
  methods-IsAccess get_method_pointer_of [] = tt
  methods-IsAccess get_method_pointer_of ((shapes, obj) ∷ more) =
      (λ pic. ground arith, methods-IsAccess get_method_pointer_of more)

  -- Any sequence of calls of a method through its cache calls the functions that the lookup gives,
  -- under the same condition on the sequence.
  call_method-looked_up :
      (get_method_pointer_of : Shapes → Object → Option ℕ) (trace : List (Shapes × Object))
      → IsVersioned Object shape_of get_method_pointer_of trace
      → cached_run Object shape_of get_method_pointer_of
          (call_method Object shape_of get_method_pointer_of)
          trace
          (first_pic none)
        ≡ looked_up Object shape_of get_method_pointer_of trace
  call_method-looked_up get_method_pointer_of trace versioned =
      run-looked_up Object shape_of get_method_pointer_of
        (call_method Object shape_of get_method_pointer_of) trace (first_pic none) versioned
        (methods-IsAccess get_method_pointer_of trace)
        (first-IsRight Object shape_of get_method_pointer_of none trace)
