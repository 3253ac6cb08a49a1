-- ===== src/ShapeMap/Heap/Sweep/Survivors.antt =====
-- sweepOrphanedShapes of lowcode/source/meta/shape_map.cpp: the shapes that survive are a list again.
use mathlib.Core.Path.{subst}
use mathlib.Core.List.{Memᴰ}
use mathlib.Core.List.Memᴰ.{head, tail}
use ely_square.Base.{
  ℕ, ◌≡◌, refl, sym, ap, ◌∙◌, true, false, Bool-cases, inl, inr, some, List, [], ◌∷◌, if◌then◌else◌,
}
use ely_square.ShapeMap.{Shapes, is_shape_alive}
use ely_square.ShapeMap.Heap.Sweep.Orphans.{alive_agree}

-- The shapes from `p` down that have a mark, and the root: the first of them, and the others.
unfoldable pub top_survivor : Shapes → ℕ → List ℕ → ℕ
top_survivor shapes p [] = p
top_survivor shapes p (q ∷ qs) =
    let below = top_survivor shapes q qs in if is_shape_alive (shapes p) then p else below

unfoldable pub survivors : Shapes → ℕ → List ℕ → List ℕ
unfolding top_survivor
survivors shapes p [] = []
survivors shapes p (q ∷ qs) =
    let below = survivors shapes q qs in
    if is_shape_alive (shapes p) then top_survivor shapes q qs ∷ below else below

-- The survivors from `p` down.
abbrev pub living : Shapes → ℕ → List ℕ → List ℕ
living shapes p qs = top_survivor shapes p qs ∷ survivors shapes p qs

pub living-alive :
    (shapes : Shapes) (p q : ℕ) (qs : List ℕ)
    → is_shape_alive (shapes p) ≡ true
    → living shapes p (q ∷ qs) ≡ p ∷ living shapes q qs
unfolding top_survivor survivors
living-alive shapes p q qs e = rw e refl

pub living-dead :
    (shapes : Shapes) (p q : ℕ) (qs : List ℕ)
    → is_shape_alive (shapes p) ≡ false
    → living shapes p (q ∷ qs) ≡ living shapes q qs
unfolding top_survivor survivors
living-dead shapes p q qs e = rw e refl

pub living-agree :
    (shapes shapes' : Shapes) (p : ℕ) (qs : List ℕ)
    → ((r : ℕ) → Memᴰ r (p ∷ qs) → (shapes' r).shape_flags ≡ (shapes r).shape_flags)
    → living shapes' p qs ≡ living shapes p qs
unfolding top_survivor survivors
living-agree shapes shapes' p [] same = refl
living-agree shapes shapes' p (q ∷ qs) same =
    let e = alive_agree (shapes p) (shapes' p) (same p (head refl)) in
    let below = living-agree shapes shapes' q qs (λ r m. same r (tail m)) in
    elim (Bool-cases (is_shape_alive (shapes p))) [
      | inl alive ↦
          living-alive shapes' p q qs (e ∙ alive)
          ∙ ap (λ xs. p ∷ xs) below
          ∙ sym (living-alive shapes p q qs alive)
      | inr dead ↦
          living-dead shapes' p q qs (e ∙ dead) ∙ below ∙ sym (living-dead shapes p q qs dead)
    ]

pub living-within :
    (shapes : Shapes) (p : ℕ) (qs : List ℕ) (r : ℕ) → Memᴰ r (living shapes p qs) → Memᴰ r (p ∷ qs)
unfolding top_survivor survivors
living-within shapes p [] r m = m
living-within shapes p (q ∷ qs) r m = elim (Bool-cases (is_shape_alive (shapes p))) [
  | inl alive ↦
      first (living-within shapes q qs r) (subst (Memᴰ r) (living-alive shapes p q qs alive) m)
  | inr dead ↦
      tail (living-within shapes q qs r (subst (Memᴰ r) (living-dead shapes p q qs dead) m))
]
  where
    first :
        (Memᴰ r (living shapes q qs) → Memᴰ r (q ∷ qs))
        → Memᴰ r (p ∷ living shapes q qs)
        → Memᴰ r (p ∷ q ∷ qs)
    first below (head e) = head e
    first below (tail m) = tail (below m)

-- The parent of each shape that survives survives.
unfoldable pub ParentsLive : Shapes → ℕ → List ℕ → Type 0
ParentsLive shapes p [] = Unit {0}
ParentsLive shapes p (q ∷ qs) =
    (is_shape_alive (shapes p) ≡ true
      → (r : ℕ) → (shapes p).parent_shape ≡ some r
      → Memᴰ r (living shapes q qs))
    × ParentsLive shapes q qs

pub ParentsLive-agree :
    (shapes shapes' : Shapes) (p : ℕ) (qs : List ℕ)
    → ((r : ℕ) → Memᴰ r (p ∷ qs) → (shapes' r).shape_flags ≡ (shapes r).shape_flags)
    → ((r : ℕ) → Memᴰ r (p ∷ qs) → (shapes' r).parent_shape ≡ (shapes r).parent_shape)
    → ParentsLive shapes p qs
    → ParentsLive shapes' p qs
unfolding ParentsLive
ParentsLive-agree shapes shapes' p [] flags parents l = l
ParentsLive-agree shapes shapes' p (q ∷ qs) flags parents (here, below) = (
  λ alive r up. subst (Memᴰ r) (sym (living-agree shapes shapes' q qs (λ x m. flags x (tail m)))) (
      here (sym (alive_agree (shapes p) (shapes' p) (flags p (head refl))) ∙ alive) r
        (sym (parents p (head refl)) ∙ up)),
  ParentsLive-agree shapes shapes' q qs (λ r m. flags r (tail m)) (λ r m. parents r (tail m)) below,
)
