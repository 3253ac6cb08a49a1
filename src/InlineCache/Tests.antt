-- ===== src/InlineCache/Tests.antt =====
-- Concrete instances of the theorems: objects that are the pointers to their shapes, and a table of one
-- text.
use ely_square.Base.{ℕ, ◌%◌, ◌≡◌, ap, arith, Option, none, some, List, [], ◌∷◌}
use ely_square.ShapeMap.{Shapes}
use ely_square.ShapeMap.Heap.{new_shape}
use ely_square.InlineCache.{dict_get_field}
use ely_square.InlineCache.Lookups.{first_pic, cached_run, looked_up, dict_get_field-looked_up}

abbrev shapes : Shapes
shapes = λ p. new_shape none

abbrev shape_of : Option ℕ → Option ℕ
shape_of obj = obj

abbrev offset_of : Shapes → Option ℕ → ℕ
offset_of s none = 0
offset_of s (some p) = p % 16

-- Two accesses with one shape, and one with another.
abbrev trace : List (Shapes × Option ℕ)
trace = (shapes, some 21) ∷ (shapes, some 21) ∷ (shapes, some 38) ∷ []

dict_get_field-looked_up_example :
    cached_run
      (Option ℕ)
      shape_of
      offset_of
      (dict_get_field (Option ℕ) shape_of offset_of)
      trace
      (first_pic 0)
    ≡ looked_up (Option ℕ) shape_of offset_of trace
dict_get_field-looked_up_example =
    dict_get_field-looked_up (Option ℕ) shape_of offset_of trace
      (
        (λ e e'. ap (offset_of shapes) e, (λ e e'. ap (offset_of shapes) e, tt)),
        ((λ e e'. ap (offset_of shapes) e, tt), (tt, tt)),
      )
      (omega arith, (omega arith, (omega arith, tt)))
