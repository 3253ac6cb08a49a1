-- ===== src/ShapeMap/Heap/Sweep/Relinked.antt =====
-- sweepOrphanedShapes of lowcode/source/meta/shape_map.cpp: how a round leaves the list linked.
use mathlib.Core.Path.{subst}
use mathlib.Core.List.{Memᴰ}
use mathlib.Core.List.Memᴰ.{head, tail}
use ely_square.Base.{ℕ, ◌≡◌, ◌≢◌, refl, sym, ap, ◌∙◌, some, List, ◌∷◌}
use ely_square.ShapeMap.{Shapes}
use ely_square.ShapeMap.Queries.{entries}
use ely_square.ShapeMap.Heap.{ShapeHeap}
use ely_square.ShapeMap.Heap.Sweep.Entries.{HasTarget}
use ely_square.ShapeMap.Heap.Sweep.Steps.{Linked, step, TopOf, Framed, mem_ne}
use ely_square.ShapeMap.Heap.Sweep.Fields.{unmark, same_of_some}

-- The shape above a shape is linked back to it.
abbrev pub BackFrom : Shapes → ℕ → Type 0
BackFrom shapes p =
    (n : ℕ) → (shapes p).next_shape_in_arena ≡ some n → (shapes n).prev_shape_in_arena ≡ some p

-- What a sweep of the shapes from `p` down leaves: the survivors are linked, `t` is the first of them,
-- and shapes that are not in the list keep their links and entries, but for the one above.
pub record Relinked (before after : ShapeHeap) (p : ℕ) (qs : List ℕ) (t : ℕ) (ts : List ℕ)
    : Type 0 where
  pub linked : Linked after.shapes t ts
  pub next_top : (after.shapes t).next_shape_in_arena ≡ (before.shapes p).next_shape_in_arena
  pub prev_above :
      (n : ℕ)
      → (before.shapes p).next_shape_in_arena ≡ some n
      → (after.shapes n).prev_shape_in_arena ≡ some t
  pub prev :
      (x : ℕ)
      → ¬ Memᴰ x (p ∷ qs)
      → (before.shapes p).next_shape_in_arena ≢ some x
      → (after.shapes x).prev_shape_in_arena ≡ (before.shapes x).prev_shape_in_arena
  pub next :
      (x : ℕ)
      → ¬ Memᴰ x (p ∷ qs)
      → (after.shapes x).next_shape_in_arena ≡ (before.shapes x).next_shape_in_arena
  pub parent :
      (x : ℕ) → ¬ Memᴰ x (p ∷ qs) → (after.shapes x).parent_shape ≡ (before.shapes x).parent_shape
  pub own_entries :
      (x : ℕ) → ¬ Memᴰ x (p ∷ qs) → entries (after.shapes x) ≡ entries (before.shapes x)
  pub targets :
      (r x : ℕ)
      → Memᴰ r (t ∷ ts)
      → ¬ Memᴰ x (p ∷ qs)
      → HasTarget x (entries (before.shapes r))
      → HasTarget x (entries (after.shapes r))
  pub last_moved :
      before.meta.last_allocated_shape ≡ some p → after.meta.last_allocated_shape ≡ some t
  pub last_kept :
      (l : ℕ)
      → ¬ Memᴰ l (p ∷ qs)
      → before.meta.last_allocated_shape ≡ some l
      → after.meta.last_allocated_shape ≡ some l

module _ (h h₁ h₂ : ShapeHeap) (p q r t : ℕ) (qs ts : List ℕ) (self : ¬ Memᴰ p (q ∷ qs))
    (f : Framed h.shapes h₁.shapes p q qs) (i : Relinked h₁ h₂ q qs t ts)
    (within : (x : ℕ) → Memᴰ x (t ∷ ts) → Memᴰ x (q ∷ qs)) where
  -- After a round that killed `p`.
  pub after_dead :
      ((h₁.shapes q).next_shape_in_arena ≡ (h.shapes p).next_shape_in_arena)
      → TopOf h.shapes p (q ∷ qs)
      → (h.meta.last_allocated_shape ≡ some p → h₁.meta.last_allocated_shape ≡ some q)
      → ((l : ℕ)
          → l ≢ p
          → h.meta.last_allocated_shape ≡ some l
          → h₁.meta.last_allocated_shape ≡ some l)
      → Relinked h h₂ p (q ∷ qs) t ts
  after_dead next_q top last_q last_l = record {
    linked = i.linked;
    next_top = i.next_top ∙ next_q;
    prev_above = λ n e. i.prev_above n (next_q ∙ e);
    prev = λ x away ne.
        i.prev x (λ m. away (tail m)) (λ e. ne (sym next_q ∙ e))
        ∙ f.prev_beyond x (λ e. away (head e)) ne;
    next = λ x away.
        i.next x (λ m. away (tail m))
        ∙ f.next_beyond x (λ e. away (head e)) (λ e. away (tail (head e)));
    parent = λ x away. i.parent x (λ m. away (tail m)) ∙ f.parent_beyond x (λ e. away (head e));
    own_entries = λ x away.
        i.own_entries x (λ m. away (tail m))
        ∙ f.entries_beyond x (λ e. away (head e)) (λ m. away (tail m));
    targets = λ y x m away has.
        i.targets y x m (λ n. away (tail n)) (f.targets y x (within y m) (λ e. away (head e)) has);
    last_moved = λ e. i.last_moved (last_q e);
    last_kept =
        λ l away e. i.last_kept l (λ m. away (tail m)) (last_l l (λ same. away (head same)) e);
  }

  -- After a round that found `p` marked.
  module _ (back : (h.shapes p).prev_shape_in_arena ≡ some q)
      (forth : (h.shapes q).next_shape_in_arena ≡ some p) (up : (h.shapes p).parent_shape ≡ some r)
      (lives : Memᴰ r (t ∷ ts)) (target : HasTarget p (entries (h.shapes r)))
      (above : BackFrom h.shapes p) (top : TopOf h.shapes p (q ∷ qs))
      (same : h₁.shapes p ≡ unmark (h.shapes p))
      (others : (x : ℕ) → x ≢ p → h₁.shapes x ≡ h.shapes x) (meta : h₁.meta ≡ h.meta) where
    next_q : (h₁.shapes q).next_shape_in_arena ≡ some p
    next_q = ap (λ s. s.next_shape_in_arena) (others q (mem_ne (head refl) self)) ∙ forth

    own_targets :
        (y x : ℕ)
        → Memᴰ y (p ∷ t ∷ ts)
        → ¬ Memᴰ x (p ∷ q ∷ qs)
        → HasTarget x (entries (h.shapes y))
        → HasTarget x (entries (h₂.shapes y))
    own_targets y x (head e) away has =
        subst (λ z. HasTarget x (entries (h₂.shapes z))) (sym e)
          (subst (HasTarget x) (sym (i.own_entries p self ∙ ap entries same))
            (subst (λ z. HasTarget x (entries (h.shapes z))) e has))
    own_targets y x (tail m) away has =
        i.targets y x m (λ n. away (tail n))
          (subst (λ s. HasTarget x (entries s)) (sym (others y (mem_ne (within y m) self))) has)

    pub after_marked : Relinked h h₂ p (q ∷ qs) p (t ∷ ts)
    after_marked = record {
      linked =
          step (i.prev_above p next_q) (i.next_top ∙ next_q)
            (i.parent p self ∙ ap (λ s. s.parent_shape) same ∙ up) lives
            (i.targets r p lives self (
              subst (λ s. HasTarget p (entries s)) (sym (others r (mem_ne (within r lives) self)))
                target))
            (λ m. self (within p m)) i.linked;
      next_top = i.next p self ∙ ap (λ s. s.next_shape_in_arena) same;
      prev_above = λ n e.
          i.prev n (λ m. top n e (tail m))
            (λ e'. top n e (head (sym (same_of_some p n (sym next_q ∙ e')))))
          ∙ ap (λ s. s.prev_shape_in_arena) (others n (λ e'. top n e (head e')))
          ∙ above n e;
      prev = λ x away ne.
          i.prev x (λ m. away (tail m)) (λ e. away (head (sym (same_of_some p x (sym next_q ∙ e)))))
          ∙ ap (λ s. s.prev_shape_in_arena) (others x (λ e. away (head e)));
      next = λ x away.
          i.next x (λ m. away (tail m))
          ∙ ap (λ s. s.next_shape_in_arena) (others x (λ e. away (head e)));
      parent = λ x away.
          i.parent x (λ m. away (tail m))
          ∙ ap (λ s. s.parent_shape) (others x (λ e. away (head e)));
      own_entries = λ x away.
          i.own_entries x (λ m. away (tail m)) ∙ ap entries (others x (λ e. away (head e)));
      targets = own_targets;
      last_moved = λ e. i.last_kept p self (ap (λ m. m.last_allocated_shape) meta ∙ e);
      last_kept = λ l away e.
          i.last_kept l (λ m. away (tail m)) (ap (λ m. m.last_allocated_shape) meta ∙ e);
    }
