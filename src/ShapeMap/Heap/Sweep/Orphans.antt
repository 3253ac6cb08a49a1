-- ===== src/ShapeMap/Heap/Sweep/Orphans.antt =====
-- sweepOrphanedShapes of lowcode/source/meta/shape_map.cpp: what the whole loop does.
use mathlib.Core.List.{Memᴰ}
use mathlib.Core.List.Memᴰ.{head, tail}
use ely_square.Base.{
  ℕ, zero, suc, ◌+◌, ◌<◌, ◌≡◌, ◌≢◌, refl, sym, ap, ◌∙◌, arith, true, false, Bool-cases, inl, inr,
  none, some, List, [], ◌∷◌, if◌then◌else◌, length, ok,
}
use ely_square.ShapeMap.{Shape, Shapes, is_shape_alive}
use ely_square.ShapeMap.Heap.{ShapeHeap}
use ely_square.ShapeMap.Heap.Sweep.{sweep_shape, sweep_shapes, sweep_orphaned_shapes}
use ely_square.ShapeMap.Heap.Sweep.Steps.{Linked, root, step, TopOf, Framed, Linked-Framed, mem_ne}
use ely_square.ShapeMap.Heap.Sweep.Marked.{marked_round}
use ely_square.ShapeMap.Heap.Sweep.Killed.{dead_round}

-- How many shapes from `p` down have no mark, the root left out.
pub orphans : Shapes → ℕ → List ℕ → ℕ
orphans shapes p [] = 0
orphans shapes p (q ∷ qs) = (if is_shape_alive (shapes p) then 0 else 1) + orphans shapes q qs

pub alive_agree :
    (s s' : Shape) → s'.shape_flags ≡ s.shape_flags → is_shape_alive s' ≡ is_shape_alive s
unfolding is_shape_alive
alive_agree s s' e = rw e refl

orphans-agree :
    (shapes shapes' : Shapes) (p : ℕ) (qs : List ℕ)
    → ((r : ℕ) → Memᴰ r (p ∷ qs) → (shapes' r).shape_flags ≡ (shapes r).shape_flags)
    → orphans shapes' p qs ≡ orphans shapes p qs
unfolding orphans
orphans-agree shapes shapes' p [] same = refl
orphans-agree shapes shapes' p (q ∷ qs) same =
    rw
      (
        alive_agree (shapes p) (shapes' p) (same p (head refl)),
        orphans-agree shapes shapes' q qs (λ r m. same r (tail m)),
      )
      refl

-- What a sweep of the shapes from `p` down does: it keeps the flags of other shapes, and takes the
-- marks off those it finds marked, the root left out.
pub record Swept (before after : Shapes) (p : ℕ) (qs : List ℕ) : Type 0 where
  pub elsewhere : (r : ℕ) → ¬ Memᴰ r (p ∷ qs) → (after r).shape_flags ≡ (before r).shape_flags
  pub survivors :
      (r : ℕ)
      → Memᴰ r (p ∷ qs)
      → (before r).prev_shape_in_arena ≢ none
      → is_shape_alive (before r) ≡ true
      → is_shape_alive (after r) ≡ false

module _ (junk : ℕ → Shape) where
  -- What a sweep comes to.
  abbrev Sweeps : (fuel p : ℕ) → List ℕ → ShapeHeap → Type 0
  Sweeps fuel p qs h =
      (h' : ShapeHeap) × (sweep_shapes junk fuel p h ≡ ok (orphans h.shapes p qs, h'))
      × Swept h.shapes h'.shapes p qs

  -- A round, and the sweep of the shapes below.
  and_below :
      (fuel p q : ℕ) (qs : List ℕ) (h h₁ : ShapeHeap) (killed : ℕ)
      → (h.shapes p).prev_shape_in_arena ≡ some q
      → ¬ Memᴰ p (q ∷ qs)
      → sweep_shape junk p h ≡ ok (killed, h₁)
      → killed ≡ (if is_shape_alive (h.shapes p) then 0 else 1)
      → Framed h.shapes h₁.shapes p q qs
      → (is_shape_alive (h.shapes p) ≡ true → is_shape_alive (h₁.shapes p) ≡ false)
      → Sweeps fuel q qs h₁
      → Sweeps (suc fuel) p (q ∷ qs) h
  unfolding sweep_shapes orphans
  and_below fuel p q qs h h₁ killed back self runs count f cleared (h₂, more, t) = (
    h₂,
    rw
        (
          sweep_shapes,
          back,
          runs,
          more,
          count,
          orphans-agree h.shapes h₁.shapes q qs (λ r m. f.flags r (mem_ne m self)),
        )
        refl,
    record {
      elsewhere = λ r away. t.elsewhere r (λ m. away (tail m)) ∙ f.flags r (λ e. away (head e));
      survivors = survive;
    },
  )
    where
      survive :
          (r : ℕ)
          → Memᴰ r (p ∷ q ∷ qs)
          → (h.shapes r).prev_shape_in_arena ≢ none
          → is_shape_alive (h.shapes r) ≡ true
          → is_shape_alive (h₂.shapes r) ≡ false
      survive r (head e) linked alive =
          alive_agree (h₁.shapes r) (h₂.shapes r) (t.elsewhere r (λ m. mem_ne m self e))
          ∙ ap (λ x. is_shape_alive (h₁.shapes x)) e
          ∙ cleared (ap (λ x. is_shape_alive (h.shapes x)) (sym e) ∙ alive)
      survive r (tail m) linked alive =
          t.survivors r m (λ e. linked (sym (f.prev r m) ∙ e))
            (alive_agree (h.shapes r) (h₁.shapes r) (f.flags r (mem_ne m self)) ∙ alive)

  at_root :
      (p : ℕ) (h : ShapeHeap)
      → (h.shapes p).prev_shape_in_arena ≡ none
      → (r : ℕ) → Memᴰ r (p ∷ [])
      → (h.shapes r).prev_shape_in_arena ≡ none
  at_root p h e r (head same) = ap (λ x. (h.shapes x).prev_shape_in_arena) same ∙ e
  at_root p h e r (tail m) = elim m [ ]

  sweep_shapes-Swept :
      (fuel p : ℕ) (qs : List ℕ) (h : ShapeHeap)
      → Linked h.shapes p qs
      → TopOf h.shapes p qs
      → length qs < fuel
      → Sweeps fuel p qs h
  unfolding sweep_shapes orphans
  sweep_shapes-Swept zero p qs h l top enough = absurd (omega arith)
  sweep_shapes-Swept (suc fuel) p [] h (root e) top enough = (
    h,
    rw (sweep_shapes, e) refl,
    record {
      elsewhere = λ r away. refl;
      survivors = λ r m linked alive. absurd (linked (at_root p h e r m));
    },
  )
  sweep_shapes-Swept (suc fuel) p (q ∷ qs) h (step {r} back forth up below target self rest) top
        enough =
      elim (Bool-cases (is_shape_alive (h.shapes p))) [
        | inl alive ↦
            let (h₁, runs, f, cleared, same, others, kept) =
              marked_round h p q r qs back forth up below target self top junk alive in
            and_below fuel p q qs h h₁ 0 back self runs (rw alive refl) f (λ a. cleared)
              (sweep_shapes-Swept fuel q qs h₁ (Linked-Framed self f rest) f.top (omega arith))
        | inr dead ↦
            let (h₁, runs, f, next_q, prev_n, last_q, last_l) =
              dead_round h p q r qs back forth up below target self top junk dead in
            and_below fuel p q qs h h₁ 1 back self runs (rw dead refl) f (λ a. cc (a, dead))
              (sweep_shapes-Swept fuel q qs h₁ (Linked-Framed self f rest) f.top (omega arith))
      ]

  pub from_last :
      (fuel last : ℕ) (h : ShapeHeap)
      → h.meta.last_allocated_shape ≡ some last
      → sweep_orphaned_shapes junk fuel h ≡ sweep_shapes junk fuel last h
  unfolding sweep_orphaned_shapes
  from_last fuel last h known = rw known refl

  -- On a list of shapes that is linked both ways from the last one back to the root, with each parent
  -- below its child and an entry in its table that leads there, a sweep ends, on fuel for each shape,
  -- without a panic. It counts as killed the shapes without a mark, the root left out, takes the mark
  -- off each of the others but the root, and keeps the flags of shapes that are not in the list.
  pub sweep_orphaned_shapes-Swept :
      (fuel last : ℕ) (qs : List ℕ) (h : ShapeHeap)
      → h.meta.last_allocated_shape ≡ some last
      → Linked h.shapes last qs
      → TopOf h.shapes last qs
      → length qs < fuel
      → (h' : ShapeHeap) × (sweep_orphaned_shapes junk fuel h ≡ ok (orphans h.shapes last qs, h'))
        × Swept h.shapes h'.shapes last qs
  sweep_orphaned_shapes-Swept fuel last qs h known l top enough =
      let (h', runs, t) = sweep_shapes-Swept fuel last qs h l top enough in
      (h', from_last fuel last h known ∙ runs, t)
