-- ===== src/ShapeMap/Heap/Sweep/Fields.antt =====
-- The fields that the writes of a sweep leave.
use ely_square.Base.{
  ℕ, ◌≡◌, ◌≢◌, refl, sym, ap, ◌∙◌, arith, false, Bool-cases, bit_and, not16, inl, inr, Option, none,
  some, ◌==◌,
}
use ely_square.Base.Bits.{bit_and_mask, bit_and_step}
use ely_square.ShapeMap.{Shape, Shapes, is_shape_alive, is_marked_alive}
use ely_square.ShapeMap.Heap.{update}
use ely_square.ShapeMap.Heap.Growth.{update_here, update_elsewhere}

pub same_of_some : (a b : ℕ) → some a ≡ some b → a ≡ b
same_of_some a b e = cc e

-- A field that an update does not write.
pub same_field :
    {A : Type 0} (field : Shape → A) (p : ℕ) (f : Shape → Shape) (shapes : Shapes)
    → ((q : Shape) → field (f q) ≡ field q)
    → (x : ℕ) → field (update p f shapes x) ≡ field (shapes x)
same_field field p f shapes same x = elim (Bool-cases (x == p)) [
  | inl e ↦ rw e (same (shapes x))
  | inr e ↦ rw e refl
]

abbrev pub with_prev : ℕ → Shape → Shape
with_prev prev q = record q { prev_shape_in_arena = some prev }

-- The shapes when the one above knows its new neighbour.
abbrev pub above : Option ℕ → (prev : ℕ) → Shapes → Shapes
above next prev shapes = elim next [ none ↦ shapes | some n ↦ update n (with_prev prev) shapes ]

pub above_field :
    {A : Type 0} (field : Shape → A) (next : Option ℕ) (prev : ℕ) (shapes : Shapes)
    → ((q : Shape) → field (with_prev prev q) ≡ field q)
    → (x : ℕ) → field (above next prev shapes x) ≡ field (shapes x)
above_field field none prev shapes same x = refl
above_field field (some n) prev shapes same x = same_field field n (with_prev prev) shapes same x

pub above_elsewhere :
    (next : Option ℕ) (prev : ℕ) (shapes : Shapes) (x : ℕ)
    → ((n : ℕ) → next ≡ some n → x ≢ n)
    → above next prev shapes x ≡ shapes x
above_elsewhere none prev shapes x away = refl
above_elsewhere (some n) prev shapes x away =
    update_elsewhere n (with_prev prev) shapes x (away n refl)

abbrev pub unmark : Shape → Shape
unmark s = record s { shape_flags = bit_and s.shape_flags (not16 is_marked_alive) }

pub unmark-dead : (s : Shape) → is_shape_alive (unmark s) ≡ false
unfolding is_shape_alive
unmark-dead s =
    let flags = bit_and s.shape_flags (not16 is_marked_alive) in
    let low : bit_and flags 1 ≡ 0 =
      bit_and_mask 1 flags ∙ omega (arith, bit_and_step s.shape_flags (not16 is_marked_alive)) in
    rw low refl

pub above_here :
    (next : Option ℕ) (prev : ℕ) (shapes : Shapes) (n : ℕ)
    → next ≡ some n
    → (above next prev shapes n).prev_shape_in_arena ≡ some prev
above_here none prev shapes n e = cc e
above_here (some m) prev shapes n e =
    ap (λ x. (update m (with_prev prev) shapes x).prev_shape_in_arena) (sym (same_of_some m n e))
    ∙ ap (λ s. s.prev_shape_in_arena) (update_here m (with_prev prev) shapes)
