-- ===== src/InlineCache.antt =====
-- lowcode/include/meta/inline_cache_gc.h: the caches of a place in compiled code. A macro with a
-- static variable is a function that takes the variable's value and returns what it is after. Objects,
-- their lookups and the resolution of globals are not in this repository: they are parameters.
pub mod Lookups
pub mod Staridize
mod Tests
use ely_square.Base.{
  ℕ, ◌^◌, ◌%◌, Bool, true, false, Option, none, some, List, ◌==◌, not, ◌&&◌, ◌||◌, if◌then◌else◌,
  Outcome, ok, ◌>>=◌,
}
use ely_square.PageSource.{PageSource}
use ely_square.ShapeMap.{Shapes, get_shape_epoche}
use ely_square.Atoms.{broken_atom}
use ely_square.Atoms.Table.{Alar, staridize}

-- `==` of two pointers
pub same_pointer : Option ℕ → Option ℕ → Bool
same_pointer none none = true
same_pointer none (some q) = false
same_pointer (some p) none = false
same_pointer (some p) (some q) = p == q

-- getShapeEpoche, of a null pointer too
pub shape_epoche : Shapes → Option ℕ → ℕ
shape_epoche shapes none = 4095
shape_epoche shapes (some p) = get_shape_epoche (shapes p)

-- FieldPIC and MethodPIC: `found` is the offset of the field or the pointer to the method.
pub record Pic (V : Type 0) : Type 0 where
  pub cached_shape : Option ℕ
  pub expected_version : ℕ
  pub found : V

module _ (Object : Type 0) (shape_of : Object → Option ℕ) where
  -- __ELY_DICT_GET_FIELD with the field's name fixed: the index into the object's data.
  pub dict_get_field : (get_offset_of : Shapes → Object → ℕ) → Shapes → Object → Pic ℕ → ℕ × Pic ℕ
  unfolding same_pointer shape_epoche
  dict_get_field get_offset_of shapes obj pic =
      let current_version = shape_epoche shapes (shape_of obj) in
      let offset = get_offset_of shapes obj % 2 ^ 32 in
      if same_pointer (shape_of obj) pic.cached_shape && (current_version == pic.expected_version)
      then (pic.found, pic)
      else (
        offset,
        record { cached_shape = shape_of obj; expected_version = current_version; found = offset },
      )

  -- __ELY_CALL_METHOD with the method's name fixed: the function that is called.
  pub call_method :
      (get_method_pointer_of : Shapes → Object → Option ℕ)
      → Shapes
      → Object
      → Pic (Option ℕ)
      → Option ℕ × Pic (Option ℕ)
  unfolding same_pointer shape_epoche
  call_method get_method_pointer_of shapes obj pic =
      let current_version = shape_epoche shapes (shape_of obj) in
      let pic' =
        if not (same_pointer (shape_of obj) pic.cached_shape)
          || not (current_version == pic.expected_version)
        then record {
          cached_shape = shape_of obj;
          expected_version = current_version;
          found = get_method_pointer_of shapes obj;
        }
        else pic in
      (pic'.found, pic')

-- __ELY_GET_GLOBAL: the address that is read; `resolved` is what resolveGlobalAddress would return.
pub get_global : (resolved cached_global_addr : Option ℕ) → Option ℕ × Option ℕ
get_global resolved none = (resolved, resolved)
get_global resolved (some p) = (some p, some p)

-- The static variables of ELY_FAST_STARIDIZE.
pub record StaridCache : Type 0 where
  pub last_ptr : Option ℕ
  pub cached_atom : ℕ

-- ELY_FAST_STARIDIZE: `text` is what lies at the pointer now.
pub fast_staridize :
    (ps : PageSource) (rest : List ℕ) (text_ptr : Option ℕ) (text : Option (List ℕ)) (length : ℕ)
    → Alar
    → StaridCache
    → ps.Store
    → Outcome (ℕ × Alar × StaridCache × ps.Store)
unfolding same_pointer
fast_staridize ps rest text_ptr text n a cache s =
    if same_pointer text_ptr cache.last_ptr && not (cache.cached_atom == broken_atom)
    then ok (cache.cached_atom, a, cache, s)
    else (staridize ps rest a text n s >>= λ r.
        ok ((r).0, (r).1, record { last_ptr = text_ptr; cached_atom = (r).0 }, (r).2))
