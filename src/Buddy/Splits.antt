-- ===== src/Buddy/Splits.antt =====
-- splitBlock halves the block in hand until it has the order that is asked for.
use mathlib.Core.Path.{subst}
use native.Mathlib.Nat.{pow-suc}
use ely_square.Base.{
  ℕ, zero, suc, ◌+◌, ◌-◌, ◌%◌, ◌^◌, ◌≤◌, ◌<◌, ◌≡◌, ◌≢◌, inl, inr, refl, ap, ◌∙◌, sym, arith, Bool,
  true, false, ◌==◌, Bool-cases, ==_refl,
}
use ely_square.Buddy.{
  BuddyAllocator, null_offset, max_order, get_buddy_offset, push_free_block, write_tag, split_loop,
}
use ely_square.Buddy.Headers.{write_tag_far}
use ely_square.Buddy.Orders.{get_buddy_offset-get_buddy_offset}
use ely_square.Buddy.Geometry.{
  pow_pos, IsAligned-lower, IsAligned-gap, get_buddy_offset-IsBuddy, lower_half, upper_half,
}
use ely_square.Buddy.Blocks.{Cell, Blocks, block, write_cell, write_cell_self, write_cell_ne}
use ely_square.Buddy.Partition.{mark_block, halve_block}
use ely_square.Buddy.Halves.{
  first_half, second_half, other_block, second_half_empty, halve_block-origin,
  halve_block-IsPartition,
}
use ely_square.Buddy.Chains.{IsChained-frame}
use ely_square.Buddy.Heap.{
  Chunk, IsHeap, IsHeap-bounds, IsHeap-real, IsHeap-Spaced, push_free_block-IsHeap,
}

-- Blocks that are in use before a step are in use after it, but for the one at `x`, and the other
-- way round.
pub record IsUsedAlike (x : ℕ) (cells cells' : Blocks) : Type 0 where
  pub kept : (y j : ℕ) → y ≢ x → cells y ≡ block j false → cells' y ≡ block j false
  pub only : (y j : ℕ) → y ≢ x → cells' y ≡ block j false → cells y ≡ block j false

pub IsUsedAlike-trans :
    {x : ℕ} {a b c : Blocks} → IsUsedAlike x a b → IsUsedAlike x b c → IsUsedAlike x a c
IsUsedAlike-trans u v = record {
  kept = λ y j ne e. v.kept y j ne (u.kept y j ne e);
  only = λ y j ne e. u.only y j ne (v.only y j ne e);
}

pub mark_block-IsUsedAlike :
    (cells : Blocks) (x k : ℕ) (f : Bool) → IsUsedAlike x cells (mark_block cells x k f)
mark_block-IsUsedAlike cells x k f = record {
  kept = λ y j ne e. write_cell_ne cells x y (block k f) ne ∙ e;
  only = λ y j ne e. sym (write_cell_ne cells x y (block k f) ne) ∙ e;
}

-- A second write at an offset is the one that counts.
write_twice :
    (cells : Blocks) (x : ℕ) (c d : Cell)
    → write_cell (write_cell cells x c) x d ≡ write_cell cells x d
write_twice cells x c d = λ i a. once a i
  where
    once : (a : ℕ) → write_cell (write_cell cells x c) x d a ≡ write_cell cells x d a
    once a = elim (Bool-cases (a == x)) [ inl e ↦ rw e refl | inr e ↦ rw e refl ]

module _ {ch : Chunk} {cells : Blocks} {b : BuddyAllocator} (h : IsHeap ch null_offset cells b)
    (x k : ℕ) (ex : cells x ≡ block (suc k) false) (lo : 5 ≤ k) where
  abbrev apart_halves : Blocks
  apart_halves = halve_block cells x k false

  -- The first half has the new order in its header.
  abbrev renamed : BuddyAllocator
  renamed = record b { headers = write_tag b.headers x (k % 128) (b.headers x).is_free }

  -- Of the other blocks' headers it changes nothing.
  renamed_other :
      (y j : ℕ) (f : Bool) → cells y ≡ block j f → y ≢ x → renamed.headers y ≡ b.headers y
  renamed_other y j f e ne =
      let far = IsHeap-Spaced h y x j (suc k) f false e ex ne in
      write_tag_far b.headers x (k % 128) (b.headers x).is_free y ne (λ s. omega (arith, s, far))

  bounds : (x < 2 ^ max_order) × (k < max_order)
  bounds = let (u, _, v) = IsHeap-bounds h x (suc k) false ex in (u, omega arith)

  buddy_behind : get_buddy_offset x k ≡ x + 2 ^ k
  buddy_behind =
      let around = h.partition.aligned x (suc k) false ex in
      elim (get_buddy_offset-IsBuddy k x (omega (arith, bounds))
        (IsAligned-lower k (suc k) x (omega arith) around)) [
          | lower_half _ e ↦ e
          | upper_half a e ↦ absurd (
              omega (
                arith,
                e,
                pow-suc 2 k,
                pow_pos k,
                IsAligned-gap (suc k) (get_buddy_offset x k) x a around
                    (omega (arith, e, pow_pos k)),
              ))
        ]

  free_as_before :
      (g : Bool) (y j : ℕ)
      → y ≢ x + 2 ^ k
      → halve_block cells x k g y ≡ block j true
      → cells y ≡ block j true
  free_as_before g y j ne e = elim (halve_block-origin h.partition x k false g ex y j true e) [
    | first_half same _ ↦ absurd (
        cc (
          sym (
            write_cell_ne (mark_block cells x k false) (x + 2 ^ k) x (block k g)
              (λ s. ne (same ∙ s))
            ∙ write_cell_self cells x (block k false))
          ∙ ap (halve_block cells x k g) (sym same)
          ∙ e))
    | second_half same _ ↦ absurd (ne same)
    | other_block _ _ e' ↦ e'
  ]

  free_still :
      (g : Bool) (y j : ℕ) → cells y ≡ block j true → halve_block cells x k g y ≡ block j true
  free_still g y j e =
      write_cell_ne (mark_block cells x k false) (x + 2 ^ k) y (block k g)
        (λ s. absurd (cc (sym e ∙ ap cells s ∙ second_half_empty h.partition x k false g ex)))
      ∙ write_cell_ne cells x y (block k false) (λ s. absurd (cc (sym e ∙ ap cells s ∙ ex)))
      ∙ e

  second_used : apart_halves (x + 2 ^ k) ≡ block k false
  second_used = write_cell_self (mark_block cells x k false) (x + 2 ^ k) (block k false)

  from_free : (y j : ℕ) → apart_halves y ≡ block j true → cells y ≡ block j true
  from_free y j e =
      free_as_before false y j (λ s. absurd (cc (sym e ∙ ap apart_halves s ∙ second_used))) e

  halves_in_hand : IsHeap ch (x + 2 ^ k) apart_halves renamed
  halves_in_hand = record {
    base = h.base;
    pages = h.pages;
    partition = halve_block-IsPartition h.partition x k false false ex lo;
    marked = λ y j e ne. elim (halve_block-origin h.partition x k false false ex y j false e) [
      | first_half same order ↦
          rw (same, order, ==_refl x)
            (omega (arith, bounds), (h.marked x (suc k) ex (IsHeap-real h x (suc k) false ex)).1)
      | second_half same _ ↦ absurd (ne same)
      | other_block away _ e' ↦
          rw (renamed_other y j false e' away) (h.marked y j e' (IsHeap-real h y j false e'))
    ];
    chained =
        IsChained-frame {b' = renamed} h.chained from_free (free_still false)
          (λ y j e. renamed_other y j true e (λ s. absurd (cc (sym e ∙ ap cells s ∙ ex)))) refl
          refl;
    coalesced =
        λ y j e lt e'. h.coalesced y j (from_free y j e) lt (from_free (get_buddy_offset y j) j e');
  }

  -- One round: the upper half becomes a free block.
  halved :
      IsHeap ch null_offset
        (halve_block cells x k true)
        (push_free_block (get_buddy_offset x k) k renamed)
  halved = rw buddy_behind (
      subst (λ c. IsHeap ch null_offset c (push_free_block (x + 2 ^ k) k renamed))
        (write_twice (mark_block cells x k false) (x + 2 ^ k) (block k false) (block k true))
        (push_free_block-IsHeap (x + 2 ^ k) k halves_in_hand second_used
          λ _ e. absurd (cc (sym first_used ∙ ap apart_halves (sym back) ∙ e))))
    where
      first_used : apart_halves x ≡ block k false
      first_used =
          write_cell_ne (mark_block cells x k false) (x + 2 ^ k) x (block k false)
            (λ s. omega (arith, s, pow_pos k))
          ∙ write_cell_self cells x (block k false)

      back : get_buddy_offset (x + 2 ^ k) k ≡ x
      back =
          ap (λ n. get_buddy_offset n k) (sym buddy_behind)
          ∙ (get_buddy_offset-get_buddy_offset x k (omega (arith, bounds))
              (omega (arith, bounds))).0

  halved_first : halve_block cells x k true x ≡ block k false
  halved_first =
      write_cell_ne (mark_block cells x k false) (x + 2 ^ k) x (block k true)
        (λ s. omega (arith, s, pow_pos k))
      ∙ write_cell_self cells x (block k false)

  halved-IsUsedAlike : IsUsedAlike x cells (halve_block cells x k true)
  halved-IsUsedAlike = record {
    kept = λ y j ne e.
        write_cell_ne (mark_block cells x k false) (x + 2 ^ k) y (block k true)
          (λ s. absurd (cc (sym e ∙ ap cells s ∙ second_half_empty h.partition x k false true ex)))
        ∙ write_cell_ne cells x y (block k false) ne
        ∙ e;
    only = λ y j ne e. elim (halve_block-origin h.partition x k false true ex y j false e) [
      | first_half same _ ↦ absurd (ne same)
      | second_half same _ ↦ absurd (
          cc (
            sym (write_cell_self (mark_block cells x k false) (x + 2 ^ k) (block k true))
            ∙ ap (halve_block cells x k true) (sym same)
            ∙ e))
      | other_block _ _ e' ↦ e'
    ];
  }

-- The loop leaves the block in hand with the order it stops at, and free blocks behind it.
pub split_loop-IsHeap :
    {ch : Chunk} (count x k m : ℕ) {cells : Blocks} {b : BuddyAllocator}
    → IsHeap ch null_offset cells b
    → cells x ≡ block k false
    → 5 + count ≤ k
    → m ≡ k - 1
    → (after : Blocks) × IsHeap ch null_offset after (split_loop count x m b)
      × (after x ≡ block (k - count) false)
      × IsUsedAlike x cells after
unfolding split_loop
split_loop-IsHeap {ch} zero x k m {cells} {b} h ex le em = (
  cells,
  h,
  ex ∙ ap (λ n. block n false) {x = k} {y = k - 0} (omega arith),
  record { kept = λ y j ne e. e; only = λ y j ne e. e },
)
split_loop-IsHeap {ch} (suc count) x zero m {cells} {b} h ex le em = absurd (omega arith)
split_loop-IsHeap {ch} (suc count) x (suc k) m {cells} {b} h ex le em =
    let (after, h', e', same) =
      split_loop-IsHeap count x k (k - 1) (halved h x k ex (omega arith))
        (halved_first h x k ex (omega arith)) (omega arith) refl in
    let here : m ≡ k = omega (arith, em) in
    rw here (
      after,
      h',
      e' ∙ ap (λ n. block n false) {x = k - count} {y = suc k - suc count} (omega arith),
      IsUsedAlike-trans (halved-IsUsedAlike h x k ex (omega arith)) same,
    )
