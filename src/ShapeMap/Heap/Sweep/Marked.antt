-- ===== src/ShapeMap/Heap/Sweep/Marked.antt =====
-- One round of sweepOrphanedShapes of lowcode/source/meta/shape_map.cpp: a shape that is marked stays.
use mathlib.Core.Path.{subst}
use mathlib.Core.List.{Memᴰ}
use mathlib.Core.List.Memᴰ.{head, tail}
use ely_square.Base.{ℕ, ◌≡◌, ◌≢◌, refl, sym, ap, ◌∙◌, true, false, some, List, ◌∷◌, ok}
use ely_square.ShapeMap.{Shape, is_shape_alive}
use ely_square.ShapeMap.Queries.{entries}
use ely_square.ShapeMap.Heap.{ShapeHeap, update}
use ely_square.ShapeMap.Heap.Growth.{update_here, update_elsewhere}
use ely_square.ShapeMap.Heap.Sweep.{sweep_shape}
use ely_square.ShapeMap.Heap.Sweep.Entries.{HasTarget}
use ely_square.ShapeMap.Heap.Sweep.Steps.{TopOf, Framed, mem_ne}
use ely_square.ShapeMap.Heap.Sweep.Fields.{same_of_some, unmark, unmark-dead}

module _ (h : ShapeHeap) (p q r : ℕ) (qs : List ℕ)
    (back : (h.shapes p).prev_shape_in_arena ≡ some q)
    (forth : (h.shapes q).next_shape_in_arena ≡ some p) (up : (h.shapes p).parent_shape ≡ some r)
    (below : Memᴰ r (q ∷ qs)) (target : HasTarget p (entries (h.shapes r)))
    (self : ¬ Memᴰ p (q ∷ qs)) (top : TopOf h.shapes p (q ∷ qs)) (junk : ℕ → Shape) where
  elsewhere : (x : ℕ) → Memᴰ x (q ∷ qs) → update p unmark h.shapes x ≡ h.shapes x
  elsewhere x m = update_elsewhere p unmark h.shapes x (mem_ne m self)

  -- A shape that is marked loses its mark.
  pub marked_round :
      is_shape_alive (h.shapes p) ≡ true
      → (h' : ShapeHeap) × (sweep_shape junk p h ≡ ok (0, h'))
        × Framed h.shapes h'.shapes p q qs
        × (is_shape_alive (h'.shapes p) ≡ false)
        × (h'.shapes p ≡ unmark (h.shapes p))
        × ((x : ℕ) → x ≢ p → h'.shapes x ≡ h.shapes x)
        × (h'.meta ≡ h.meta)
  unfolding sweep_shape
  marked_round alive = (
    record h { shapes = update p unmark h.shapes },
    rw alive refl,
    record {
      prev = λ x m. ap (λ s. s.prev_shape_in_arena) (elsewhere x m);
      parent = λ x m. ap (λ s. s.parent_shape) (elsewhere x m);
      next = λ x m ne. ap (λ s. s.next_shape_in_arena) (elsewhere x (tail m));
      targets = λ x t m ne has. subst (λ s. HasTarget t (entries s)) (sym (elsewhere x m)) has;
      flags = λ x ne. ap (λ s. s.shape_flags) (update_elsewhere p unmark h.shapes x ne);
      top = λ n e m. self (
          subst (λ x. Memᴰ x (q ∷ qs))
            (same_of_some n p
              (sym e ∙ ap (λ s. s.next_shape_in_arena) (elsewhere q (head refl)) ∙ forth))
            m);
      parent_beyond = λ x ne. ap (λ s. s.parent_shape) (update_elsewhere p unmark h.shapes x ne);
      next_beyond =
          λ x ne ne'. ap (λ s. s.next_shape_in_arena) (update_elsewhere p unmark h.shapes x ne);
      prev_beyond =
          λ x ne away. ap (λ s. s.prev_shape_in_arena) (update_elsewhere p unmark h.shapes x ne);
      entries_beyond = λ x ne away. ap entries (update_elsewhere p unmark h.shapes x ne);
    },
    ap is_shape_alive (update_here p unmark h.shapes) ∙ unmark-dead (h.shapes p),
    update_here p unmark h.shapes,
    update_elsewhere p unmark h.shapes,
    refl,
  )
