-- ===== src/ShapeMap/Heap/Tests.antt =====
-- Concrete instances of the theorems: a root shape whose table has room for two transitions.
use ely_square.Base.{
  ℕ, ◌≡◌, ◌≢◌, refl, sym, ap, ◌∙◌, arith, [], ◌∷◌, none, some, ok, replicate, false, true, eq_of_ok,
}
use ely_square.PageSource.Counter.{counter}
use ely_square.MetaArena.Samples.{sample, sample-IsMeta}
use ely_square.MetaArena.{MetaArena, metalloc, align_size, get_bucket_index}
use ely_square.ShapeMap.{Shape, find_transition, get_next_transition_capacity}
use ely_square.ShapeMap.Heap.{ShapeHeap, grow_table, transition_shape, new_shape}
use ely_square.ShapeMap.Heap.Growth.{IsTable, no_table, next}
use ely_square.ShapeMap.Heap.Creation.{CanGrow, IsNew}
use ely_square.ShapeMap.Heap.Repeats.{transition_shape-transition_shape}

-- An arena with a recycled block for a shape.
abbrev meta : MetaArena
meta = sample (some 0x10000) (none ∷ none ∷ none ∷ some 0x10100 ∷ replicate 124 none) (λ a. none)

abbrev emptied : MetaArena
emptied = record meta { free_list_head = replicate 128 none }

abbrev root_shape : Shape
root_shape = record (new_shape none) {
  shape_flags = 1;
  transition_capacity = 2;
  table_address = some 0x10200;
  transition_table = some [];
}

abbrev heap : ShapeHeap
heap = record { shapes = λ p. root_shape; meta = meta }

root_shape-IsTable : IsTable root_shape
unfolding get_next_transition_capacity
root_shape-IsTable = record { fits = omega arith; capacity = next no_table (omega arith) }

grow_runs : grow_table counter 0x10000 heap 0x20000 ≡ ok (heap, 0x20000)
unfolding grow_table
grow_runs = refl

block_runs : metalloc counter 64 8 meta 0x20000 ≡ ok (0x10100, emptied, 0x20000)
unfolding metalloc align_size get_bucket_index
block_runs = refl

heap-IsNew : IsNew counter 0x10000 heap 0x20000
heap-IsNew grown s' grows child m s'' block =
    let same : (heap, 0x20000) ≡ (grown, s') =
      eq_of_ok (heap, 0x20000) (grown, s') (sym grow_runs ∙ grows) in
    let there : 0x10100 ≡ child =
      ap (λ t. (t).0)
        (eq_of_ok (0x10100, emptied, 0x20000) (child, m, s'')
          (sym block_runs ∙ ap (λ g. metalloc counter 64 8 ((g).0).meta (g).1) same ∙ block)) in
    (λ e. omega (arith, there, e), tt)

heap-CanGrow : CanGrow counter 0x10000 heap 0x20000
heap-CanGrow = record {
  meta =
      sample-IsMeta (some 0x10000) (none ∷ none ∷ none ∷ some 0x10100 ∷ replicate 124 none)
        (λ a. none);
  ready = refl;
  table = root_shape-IsTable;
  transitions = omega arith;
  properties = omega arith;
  last = 0x10000;
  has_last = refl;
  fresh = heap-IsNew;
}

transition_shape-transition_shape_example :
    (child : ℕ) × (h' : ShapeHeap) × (s' : ℕ) × (transition_shape counter 0x10000 7 0 true false
        false false heap 0x20000
      ≡ ok (some child, h', s'))
    × (child ≢ 0x10000)
    × ((t : ℕ)
        → transition_shape counter 0x10000 7 0 true false false false h' t ≡ ok (some child, h', t))
unfolding find_transition
transition_shape-transition_shape_example =
    transition_shape-transition_shape counter (omega arith) 0x10000 7 0 true false false false heap
      0x20000 heap-CanGrow (λ e. omega (arith, e)) refl
