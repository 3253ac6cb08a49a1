-- ===== src/ShapeMap/Heap/Sweep/Tests.antt =====
-- Concrete instances of the theorems: a root shape and its only child, which has no mark.
use mathlib.Core.List.{Memᴰ}
use mathlib.Core.List.Memᴰ.{head, tail}
use ely_square.Base.{
  sym, ℕ, ◌≡◌, refl, arith, [], ◌∷◌, none, some, ok, replicate, ◌==◌, if◌then◌else◌,
}
use ely_square.MetaArena.Samples.{sample}
use ely_square.MetaArena.{MetaArena}
use ely_square.ShapeMap.{Shapes}
use ely_square.ShapeMap.Heap.{ShapeHeap, new_shape, transite_to}
use ely_square.ShapeMap.Heap.Sweep.{sweep_orphaned_shapes}
use ely_square.ShapeMap.Heap.Sweep.Entries.{HasTarget}
use ely_square.ShapeMap.Heap.Sweep.Steps.{Linked, root, step}
use ely_square.ShapeMap.Heap.Sweep.Fields.{same_of_some}
use ely_square.ShapeMap.Heap.Sweep.Survivors.{top_survivor, survivors, ParentsLive}
use ely_square.ShapeMap.Heap.Sweep.ShapeList.{IsShapeList, sweep_orphaned_shapes-IsShapeList}
use ely_square.ShapeMap.Heap.Sweep.Orphans.{orphans, Swept, sweep_orphaned_shapes-Swept}

abbrev meta : MetaArena
meta = sample (some 2) (replicate 128 none) (λ a. none)

abbrev shapes : Shapes
shapes = λ p.
    if p == 1
    then record (new_shape none) {
      next_shape_in_arena = some 2;
      shape_flags = 1;
      transition_capacity = 2;
      table_address = some 0x10200;
      transition_table = some (transite_to 2 7 ∷ []);
    }
    else record (new_shape (some 1)) { prev_shape_in_arena = some 1 }

abbrev heap : ShapeHeap
heap = record { shapes = shapes; meta = meta }

target : HasTarget 2 (transite_to 2 7 ∷ [])
target = record { index = 0; inside = omega arith; leads = refl }

heap-Linked : Linked shapes 2 (1 ∷ [])
heap-Linked = step refl refl refl (head refl) target (λ m. not_one m) (root refl)
  where
    not_one : Memᴰ {A = ℕ} 2 (1 ∷ []) → ⊥
    not_one (head e) = omega (arith, e)
    not_one (tail m) = elim m [ ]

sweep_orphaned_shapes-Swept_example :
    (h' : ShapeHeap) × (sweep_orphaned_shapes (λ p. new_shape none) 2 heap
      ≡ ok (orphans shapes 2 (1 ∷ []), h'))
    × Swept shapes h'.shapes 2 (1 ∷ [])
sweep_orphaned_shapes-Swept_example =
    sweep_orphaned_shapes-Swept (λ p. new_shape none) 2 2 (1 ∷ []) heap refl heap-Linked
      (λ n e. cc e) (omega arith)

heap-IsShapeList : IsShapeList heap 2 (1 ∷ [])
heap-IsShapeList = record { known = refl; ends = refl; linked = heap-Linked }

heap-ParentsLive : ParentsLive shapes 2 (1 ∷ [])
unfolding ParentsLive top_survivor
heap-ParentsLive = (λ alive r up. head (same_of_some r 1 (sym up)), tt)

sweep_orphaned_shapes-IsShapeList_example :
    (killed : ℕ) × (h' : ShapeHeap) × (sweep_orphaned_shapes (λ p. new_shape none) 2 heap
      ≡ ok (killed, h'))
    × IsShapeList h' (top_survivor shapes 2 (1 ∷ [])) (survivors shapes 2 (1 ∷ []))
sweep_orphaned_shapes-IsShapeList_example =
    sweep_orphaned_shapes-IsShapeList (λ p. new_shape none) 2 2 (1 ∷ []) heap heap-IsShapeList
      heap-ParentsLive (omega arith)
