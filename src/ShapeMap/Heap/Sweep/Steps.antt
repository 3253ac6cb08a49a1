-- ===== src/ShapeMap/Heap/Sweep/Steps.antt =====
-- One round of sweepOrphanedShapes of lowcode/source/meta/shape_map.cpp, on the list of shapes from the
-- last one back to the root.
use mathlib.Core.Path.{subst}
use mathlib.Core.List.{Memᴰ}
use mathlib.Core.List.Memᴰ.{head, tail}
use ely_square.Base.{ℕ, ◌≡◌, ◌≢◌, refl, sym, ◌∙◌, none, some, List, [], ◌∷◌}
use ely_square.ShapeMap.{Shapes}
use ely_square.ShapeMap.Queries.{entries}
use ely_square.ShapeMap.Heap.Sweep.Entries.{HasTarget}

-- The shapes below one in the list, down to the root: each is linked with the one above it, and the
-- parent of a shape is below it and has an entry that leads to it.
pub data Linked (shapes : Shapes) : ℕ → List ℕ → Type 0 where
  root : {p : ℕ} → (shapes p).prev_shape_in_arena ≡ none → Linked shapes p []
  step :
      {p q r : ℕ} {qs : List ℕ}
      → (shapes p).prev_shape_in_arena ≡ some q
      → (shapes q).next_shape_in_arena ≡ some p
      → (shapes p).parent_shape ≡ some r
      → Memᴰ r (q ∷ qs)
      → HasTarget p (entries (shapes r))
      → ¬ Memᴰ p (q ∷ qs)
      → Linked shapes q qs
      → Linked shapes p (q ∷ qs)

-- The shape above a shape, if there is one, is not among those from it down.
abbrev pub TopOf : Shapes → ℕ → List ℕ → Type 0
TopOf shapes p qs = (n : ℕ) → (shapes p).next_shape_in_arena ≡ some n → ¬ Memᴰ n (p ∷ qs)

-- What the round for the shape `p` keeps of the shapes `q` and below.
pub record Framed (before after : Shapes) (p q : ℕ) (qs : List ℕ) : Type 0 where
  pub prev :
      (r : ℕ) → Memᴰ r (q ∷ qs) → (after r).prev_shape_in_arena ≡ (before r).prev_shape_in_arena
  pub parent : (r : ℕ) → Memᴰ r (q ∷ qs) → (after r).parent_shape ≡ (before r).parent_shape
  pub next :
      (r : ℕ) → Memᴰ r qs → r ≢ q → (after r).next_shape_in_arena ≡ (before r).next_shape_in_arena
  pub targets :
      (r t : ℕ)
      → Memᴰ r (q ∷ qs)
      → t ≢ p
      → HasTarget t (entries (before r))
      → HasTarget t (entries (after r))
  pub flags : (r : ℕ) → r ≢ p → (after r).shape_flags ≡ (before r).shape_flags
  pub top : TopOf after q qs
  pub parent_beyond : (x : ℕ) → x ≢ p → (after x).parent_shape ≡ (before x).parent_shape
  pub next_beyond :
      (x : ℕ) → x ≢ p → x ≢ q → (after x).next_shape_in_arena ≡ (before x).next_shape_in_arena
  pub prev_beyond :
      (x : ℕ)
      → x ≢ p
      → (before p).next_shape_in_arena ≢ some x
      → (after x).prev_shape_in_arena ≡ (before x).prev_shape_in_arena
  pub entries_beyond : (x : ℕ) → x ≢ p → ¬ Memᴰ x (q ∷ qs) → entries (after x) ≡ entries (before x)

pub mem_ne : {a b : ℕ} {xs : List ℕ} → Memᴰ a xs → ¬ Memᴰ b xs → a ≢ b
mem_ne {xs} m away e = away (subst (λ c. Memᴰ c xs) e m)

-- The list below is linked after the round as before.
Linked-frame :
    {before after : Shapes} {p q : ℕ} {qs : List ℕ}
    → ¬ Memᴰ p (q ∷ qs)
    → ((r : ℕ) → Memᴰ r (q ∷ qs) → (after r).prev_shape_in_arena ≡ (before r).prev_shape_in_arena)
    → ((r : ℕ) → Memᴰ r (q ∷ qs) → (after r).parent_shape ≡ (before r).parent_shape)
    → ((r : ℕ) → Memᴰ r qs → (after r).next_shape_in_arena ≡ (before r).next_shape_in_arena)
    → ((r t : ℕ)
        → Memᴰ r (q ∷ qs)
        → t ≢ p
        → HasTarget t (entries (before r))
        → HasTarget t (entries (after r)))
    → Linked before q qs
    → Linked after q qs
Linked-frame away prev parent next targets (root e) = root (prev _ (head refl) ∙ e)
Linked-frame {p = x} away prev parent next targets
      (step {p} {q} {r} {qs} back forth up below target self rest) =
    step (prev p (head refl) ∙ back) (next q (head refl) ∙ forth) (parent p (head refl) ∙ up) below
      (targets r p (tail below) (λ e. away (head (sym e))) target) self
      (Linked-frame {p = x} (λ m. away (tail m)) (λ r m. prev r (tail m)) (λ r m. parent r (tail m))
        (λ r m. next r (tail m)) (λ r t m. targets r t (tail m)) rest)

not_below : {shapes : Shapes} {q : ℕ} {qs : List ℕ} → Linked shapes q qs → ¬ Memᴰ q qs
not_below (root e) m = elim m [ ]
not_below (step back forth up below target self rest) m = self m

pub Linked-Framed :
    {before after : Shapes} {p q : ℕ} {qs : List ℕ}
    → ¬ Memᴰ p (q ∷ qs)
    → Framed before after p q qs
    → Linked before q qs
    → Linked after q qs
Linked-Framed away f l =
    Linked-frame away f.prev f.parent (λ r m. f.next r m (mem_ne m (not_below l))) f.targets l
