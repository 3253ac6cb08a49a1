-- ===== src/ShapeMap/Heap/Sweep/ShapeList.antt =====
-- sweepOrphanedShapes of lowcode/source/meta/shape_map.cpp: the list of shapes stays well formed.
use mathlib.Core.Path.{subst}
use mathlib.Core.List.Memᴰ.{head}
use ely_square.Base.{
  ℕ, zero, suc, ◌+◌, ◌<◌, ◌≡◌, refl, sym, ap, ◌∙◌, arith, Bool-cases, inl, inr, none, some, List,
  [], ◌∷◌, length, ok,
}
use ely_square.ShapeMap.{Shape, is_shape_alive}
use ely_square.ShapeMap.Heap.{ShapeHeap}
use ely_square.ShapeMap.Heap.Sweep.{sweep_shape, sweep_shapes, sweep_orphaned_shapes}
use ely_square.ShapeMap.Heap.Sweep.Steps.{Linked, root, step, TopOf, Linked-Framed, mem_ne}
use ely_square.ShapeMap.Heap.Sweep.Marked.{marked_round}
use ely_square.ShapeMap.Heap.Sweep.Killed.{dead_round}
use ely_square.ShapeMap.Heap.Sweep.Fields.{same_of_some}
use ely_square.ShapeMap.Heap.Sweep.Orphans.{from_last}
use ely_square.ShapeMap.Heap.Sweep.Survivors.{
  top_survivor, survivors, living, living-alive, living-dead, living-agree, living-within,
  ParentsLive, ParentsLive-agree,
}
use ely_square.ShapeMap.Heap.Sweep.Relinked.{BackFrom, Relinked, after_dead, after_marked}

hd : List ℕ → ℕ
hd [] = 0
hd (x ∷ xs) = x

tl : List ℕ → List ℕ
tl [] = []
tl (x ∷ xs) = xs

-- The same, with the survivors as one list.
abbrev Relinks : (before after : ShapeHeap) → ℕ → List ℕ → List ℕ → Type 0
Relinks before after p qs xs = Relinked before after p qs (hd xs) (tl xs)

root-Relinked :
    (h : ShapeHeap) (p : ℕ)
    → (h.shapes p).prev_shape_in_arena ≡ none
    → BackFrom h.shapes p
    → Relinked h h p [] p []
root-Relinked h p e back = record {
  linked = root e;
  next_top = refl;
  prev_above = back;
  prev = λ x away ne. refl;
  next = λ x away. refl;
  parent = λ x away. refl;
  own_entries = λ x away. refl;
  targets = λ r x m away has. has;
  last_moved = λ known. known;
  last_kept = λ l away known. known;
}

module _ (junk : ℕ → Shape) where
  -- A sweep of the shapes from `p` down, whose survivors are linked.
  abbrev Relinking : (fuel p : ℕ) → List ℕ → ShapeHeap → Type 0
  Relinking fuel p qs h =
      (killed : ℕ) × (h' : ShapeHeap) × (sweep_shapes junk fuel p h ≡ ok (killed, h'))
      × Relinks h h' p qs (living h.shapes p qs)

  runs_on :
      (fuel p q killed more : ℕ) (h h₁ h₂ : ShapeHeap)
      → (h.shapes p).prev_shape_in_arena ≡ some q
      → sweep_shape junk p h ≡ ok (killed, h₁)
      → sweep_shapes junk fuel q h₁ ≡ ok (more, h₂)
      → sweep_shapes junk (suc fuel) p h ≡ ok (killed + more, h₂)
  unfolding sweep_shapes
  runs_on fuel p q killed more h h₁ h₂ back first rest = rw (sweep_shapes, back, first, rest) refl

  sweep_shapes-Relinked :
      (fuel p : ℕ) (qs : List ℕ) (h : ShapeHeap)
      → Linked h.shapes p qs
      → TopOf h.shapes p qs
      → BackFrom h.shapes p
      → ParentsLive h.shapes p qs
      → length qs < fuel
      → Relinking fuel p qs h
  unfolding sweep_shapes ParentsLive top_survivor survivors hd tl
  sweep_shapes-Relinked zero p qs h l top above lives enough = absurd (omega arith)
  sweep_shapes-Relinked (suc fuel) p [] h (root e) top above lives enough =
      (0, h, rw (sweep_shapes, e) refl, root-Relinked h p e above)
  sweep_shapes-Relinked (suc fuel) p (q ∷ qs) h (step {r} back forth up below target self rest) top
        above (parent_lives, lives) enough =
      elim (Bool-cases (is_shape_alive (h.shapes p))) [
        | inl alive ↦
            let (h₁, runs, f, cleared, same, others, kept) =
              marked_round h p q r qs back forth up below target self top junk alive in
            let agree : living h₁.shapes q qs ≡ living h.shapes q qs =
              living-agree h.shapes h₁.shapes q qs (λ x m. f.flags x (mem_ne m self)) in
            let back_q : BackFrom h₁.shapes q = λ n e.
              ap (λ x. (h₁.shapes x).prev_shape_in_arena)
                (same_of_some n p (
                  sym e
                  ∙ ap (λ s. s.next_shape_in_arena) (others q (mem_ne (head refl) self))
                  ∙ forth))
              ∙ ap (λ s. s.prev_shape_in_arena) same
              ∙ back in
            let (more, h₂, runs', i) =
              sweep_shapes-Relinked fuel q qs h₁ (Linked-Framed self f rest) f.top back_q
                (ParentsLive-agree h.shapes h₁.shapes q qs (λ x m. f.flags x (mem_ne m self))
                  f.parent lives)
                (omega arith) in
            (
              0 + more,
              h₂,
              runs_on fuel p q 0 more h h₁ h₂ back runs runs',
              subst (Relinks h h₂ p (q ∷ qs)) (sym (living-alive h.shapes p q qs alive)) (
                  after_marked h h₁ h₂ p q r (top_survivor h.shapes q qs) qs
                    (survivors h.shapes q qs) self f (subst (Relinks h₁ h₂ q qs) agree i)
                    (living-within h.shapes q qs) back forth up (parent_lives alive r up) target
                    above top same others kept),
            )
        | inr dead ↦
            let (h₁, runs, f, next_q, prev_n, last_q, last_l) =
              dead_round h p q r qs back forth up below target self top junk dead in
            let agree : living h₁.shapes q qs ≡ living h.shapes q qs =
              living-agree h.shapes h₁.shapes q qs (λ x m. f.flags x (mem_ne m self)) in
            let (more, h₂, runs', i) =
              sweep_shapes-Relinked fuel q qs h₁ (Linked-Framed self f rest) f.top
                (λ n e. prev_n n (sym next_q ∙ e))
                (ParentsLive-agree h.shapes h₁.shapes q qs (λ x m. f.flags x (mem_ne m self))
                  f.parent lives)
                (omega arith) in
            (
              1 + more,
              h₂,
              runs_on fuel p q 1 more h h₁ h₂ back runs runs',
              subst (Relinks h h₂ p (q ∷ qs)) (sym (living-dead h.shapes p q qs dead)) (
                  after_dead h h₁ h₂ p q r (top_survivor h.shapes q qs) qs (survivors h.shapes q qs)
                    self f (subst (Relinks h₁ h₂ q qs) agree i) (living-within h.shapes q qs) next_q
                    top last_q last_l),
            )
      ]

-- The shapes of an arena, from the last one back to the root, are linked both ways, and each has its
-- parent below it, with an entry that leads to it.
pub record IsShapeList (h : ShapeHeap) (last : ℕ) (qs : List ℕ) : Type 0 where
  pub known : h.meta.last_allocated_shape ≡ some last
  pub ends : (h.shapes last).next_shape_in_arena ≡ none
  pub linked : Linked h.shapes last qs

-- If the parent of each shape that survives survives too, a sweep, on fuel for each shape of a well
-- formed list, returns, and what it leaves is the well-formed list of the shapes that were marked, in
-- their order, down to the root.
pub sweep_orphaned_shapes-IsShapeList :
    (junk : ℕ → Shape) (fuel last : ℕ) (qs : List ℕ) (h : ShapeHeap)
    → IsShapeList h last qs
    → ParentsLive h.shapes last qs
    → length qs < fuel
    → (killed : ℕ) × (h' : ShapeHeap) × (sweep_orphaned_shapes junk fuel h ≡ ok (killed, h'))
      × IsShapeList h' (top_survivor h.shapes last qs) (survivors h.shapes last qs)
unfolding hd tl
sweep_orphaned_shapes-IsShapeList junk fuel last qs h v lives enough =
    let (killed, h', runs, i) =
      sweep_shapes-Relinked junk fuel last qs h v.linked (λ n e. cc (e, v.ends))
        (λ n e. cc (e, v.ends)) lives enough in
    (
      killed,
      h',
      from_last junk fuel last h v.known ∙ runs,
      record { known = i.last_moved v.known; ends = i.next_top ∙ v.ends; linked = i.linked },
    )
