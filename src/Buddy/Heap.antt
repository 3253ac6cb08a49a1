-- ===== src/Buddy/Heap.antt =====
-- The state of the allocator between two steps: its blocks partition the chunk, the headers and the
-- bins say so, and no two free buddies are left apart.
use native.Mathlib.Nat.{pow-le-pow_right}
use ely_square.Base.{
  ℕ, ◌*◌, ◌^◌, ◌≤◌, ◌<◌, ◌≡◌, ◌≢◌, inl, inr, refl, ap, ◌∙◌, sym, arith, Bool, true, false, u64,
}
use ely_square.Buddy.{
  BuddyAllocator, null_offset, min_order, max_order, get_buddy_offset, push_free_block,
  remove_free_block,
}
use ely_square.Buddy.Orders.{get_buddy_offset-get_buddy_offset}
use ely_square.Buddy.Geometry.{pow_pos}
use ely_square.Buddy.Blocks.{
  Blocks, block, write_cell_ne, write_cell-cases, eq_of_block, IsPartition, IsPartition-Spaced,
}
use ely_square.Buddy.Partition.{mark_block, mark_block-IsPartition}
use ely_square.Buddy.Chains.{IsChained}
use ely_square.Buddy.Headers.{Spaced}
use ely_square.Buddy.Removal.{away_front, unlinked, remove_free_block-IsChained}
use ely_square.Buddy.Pushing.{pushed, push_free_block-IsChained}

-- The chunk that an allocator serves, from `base` on, of which it uses 2 ^ `top` bytes: all of it,
-- or the size of the largest block.
pub record Chunk : Type 0 where
  pub top : ℕ
  pub base : ℕ
  pub pages : ℕ
  pub small : top ≤ max_order
  pub fits : 2 ^ top ≤ u64 (pages * 4096)
  pub whole : top < max_order → u64 (pages * 4096) ≡ 2 ^ top

-- The headers of the blocks in use, but for the one at `hand`.
abbrev pub IsMarked : (hand : ℕ) → Blocks → BuddyAllocator → Type 0
IsMarked hand cells b =
    (y j : ℕ)
    → cells y ≡ block j false
    → y ≢ hand
    → ((b.headers y).order ≡ j) × ((b.headers y).is_free ≡ false)

-- The buddy of a free block is not free as a whole.
abbrev pub IsCoalesced : (top : ℕ) → Blocks → Type 0
IsCoalesced top cells =
    (y j : ℕ) → cells y ≡ block j true → j < top → cells (get_buddy_offset y j) ≢ block j true

pub record IsHeap (ch : Chunk) (hand : ℕ) (cells : Blocks) (b : BuddyAllocator) : Type 0 where
  pub base : b.base ≡ ch.base
  pub pages : b.pages ≡ ch.pages
  pub partition : IsPartition ch.top cells
  pub marked : IsMarked hand cells b
  pub chained : IsChained cells b
  pub coalesced : IsCoalesced ch.top cells

module _ {ch : Chunk} {hand : ℕ} {cells : Blocks} {b : BuddyAllocator}
    (h : IsHeap ch hand cells b) where
  pub IsHeap-bounds :
      (y j : ℕ) (f : Bool)
      → cells y ≡ block j f
      → (y < 2 ^ max_order) × (min_order ≤ j) × (j ≤ max_order)
  IsHeap-bounds y j f e =
      let most = pow-le-pow_right {n = 2} (omega arith) {i = ch.top} {j = max_order} ch.small in
      let within = h.partition.inside_chunk y j f e in
      let (lo, hi) = h.partition.has_bin y j f e in
      (omega (arith, pow_pos j), omega arith, omega (arith, ch.small))

  pub IsHeap-real : (y j : ℕ) (f : Bool) → cells y ≡ block j f → y ≢ null_offset
  IsHeap-real y j f e same = omega (arith, same, IsHeap-bounds y j f e)

  pub IsHeap-Spaced :
      (y z j i : ℕ) (f g : Bool) → cells y ≡ block j f → cells z ≡ block i g → y ≢ z → Spaced y z
  IsHeap-Spaced = IsPartition-Spaced h.partition

  real : (y j : ℕ) → cells y ≡ block j true → y ≢ null_offset
  real y j = IsHeap-real y j true

  -- One more block may have a header that does not count.
  pub IsHeap-hold : (x : ℕ) → hand ≡ null_offset → IsHeap ch x cells b
  IsHeap-hold x none = record {
    base = h.base;
    pages = h.pages;
    partition = h.partition;
    marked = λ y j e ne. h.marked y j e (λ same. IsHeap-real y j false e (same ∙ none));
    chained = h.chained;
    coalesced = h.coalesced;
  }

  -- A free block is taken out of its bin.
  pub remove_free_block-IsHeap :
      (x k : ℕ)
      → cells x ≡ block k true
      → IsHeap ch hand (mark_block cells x k false) (remove_free_block x k b)
  remove_free_block-IsHeap x k ex =
      let (_, lo, hi) = IsHeap-bounds x k true ex in
      let away = away_front h.chained real IsHeap-Spaced x k ex lo (omega (arith, hi)) in
      let u = unlinked h.chained real IsHeap-Spaced x k ex lo (omega (arith, hi)) in
      record {
        base = u.base ∙ h.base;
        pages = u.pages ∙ h.pages;
        partition = mark_block-IsPartition h.partition x k true false ex;
        marked = λ y j e ne. elim (write_cell-cases cells x y (block k false) (block j false) e) [
          | inl (same, blocks) ↦ rw same (
            u.order x (away x k true ex) ∙ (h.chained.header x k ex).0 ∙ (eq_of_block blocks).0,
            u.used,
          )
          | inr (other, e') ↦
              let (order, flag) = h.marked y j e' ne in
              (u.order y (away y j false e') ∙ order, u.is_free y other (away y j false e') ∙ flag)
        ];
        chained =
            remove_free_block-IsChained h.chained real IsHeap-Spaced x k ex lo (omega (arith, hi));
        coalesced = λ y j e lt e'.
            h.coalesced y j (still_free x k y j e) lt (still_free x k (get_buddy_offset y j) j e');
      }
    where
      still_free :
          (x k y j : ℕ) → mark_block cells x k false y ≡ block j true → cells y ≡ block j true
      still_free x k y j e = elim (write_cell-cases cells x y (block k false) (block j true) e) [
        | inl (_, blocks) ↦ absurd (cc blocks)
        | inr (_, e') ↦ e'
      ]

-- The block in hand is put into its bin, where it cannot be merged with its buddy.
pub push_free_block-IsHeap :
    {ch : Chunk} {cells : Blocks} {b : BuddyAllocator} (x k : ℕ)
    → IsHeap ch x cells b
    → cells x ≡ block k false
    → (k < ch.top → cells (get_buddy_offset x k) ≢ block k true)
    → IsHeap ch null_offset (mark_block cells x k true) (push_free_block x k b)
push_free_block-IsHeap {ch} {cells} {b} x k h ex apart =
    let (bound, lo, hi) = IsHeap-bounds h x k false ex in
    let here = IsHeap-real h x k false ex in
    let u =
      pushed h.chained (λ y j. IsHeap-real h y j true) (IsHeap-Spaced h) x k ex here lo
        (omega (arith, hi)) in
    record {
      base = u.base ∙ h.base;
      pages = u.pages ∙ h.pages;
      partition = mark_block-IsPartition h.partition x k false true ex;
      marked = λ y j e _. elim (write_cell-cases cells x y (block k true) (block j false) e) [
        | inl (_, blocks) ↦ absurd (cc blocks)
        | inr (away, e') ↦
            let (order, flag) = h.marked y j e' away in
            let far = IsHeap-Spaced h x y k j false false ex e' (λ s. away (sym s)) in
            (u.order y far ∙ order, u.is_free y far ∙ flag)
      ];
      chained =
          push_free_block-IsChained h.chained (λ y j. IsHeap-real h y j true) (IsHeap-Spaced h) x k
            ex here lo (omega (arith, hi));
      coalesced = λ y j e lt e'. elim (write_cell-cases cells x y (block k true) (block j true) e) [
        | inl (same, blocks) ↦ not_both y j same (eq_of_block blocks).0 lt e'
        | inr (away, ey) ↦
            elim (write_cell-cases cells x (get_buddy_offset y j) (block k true) (block j true)
              e') [
                | inl (same, blocks) ↦
                    let order = (eq_of_block blocks).0 in
                    let back : get_buddy_offset x k ≡ y =
                      rw (order, sym same)
                        (get_buddy_offset-get_buddy_offset y j (small y j ey) (narrow y j ey)).0 in
                    apart (omega (arith, order))
                      (ap cells back ∙ ey ∙ ap (λ n. block n true) (sym order))
                | inr (_, ey') ↦ h.coalesced y j ey lt ey'
              ]
      ];
    }
  where
    small : (y j : ℕ) → cells y ≡ block j true → y < 2 ^ 32
    small y j e = omega (arith, IsHeap-bounds h y j true e)

    narrow : (y j : ℕ) → cells y ≡ block j true → j < 32
    narrow y j e = omega (arith, IsHeap-bounds h y j true e)

    not_both :
        (y j : ℕ)
        → y ≡ x
        → k ≡ j
        → j < ch.top
        → mark_block cells x k true (get_buddy_offset y j) ≢ block j true
    not_both y j same order lt e =
        let (bound, lo, hi) = IsHeap-bounds h x k false ex in
        let (_, other) = get_buddy_offset-get_buddy_offset x k (omega arith) (omega (arith, hi)) in
        let moved : get_buddy_offset x k ≡ get_buddy_offset y j = rw (same, order) refl in
        apart (omega (arith, order)) (
          sym (write_cell_ne cells x (get_buddy_offset x k) (block k true) other)
          ∙ ap (mark_block cells x k true) moved
          ∙ e
          ∙ ap (λ n. block n true) (sym order))
