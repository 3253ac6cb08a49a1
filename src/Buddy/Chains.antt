-- ===== src/Buddy/Chains.antt =====
-- The bins as chains of the free blocks: each free block is linked to its neighbours in both
-- directions, and the chain of its order, followed towards the front, ends in the bin.
use ely_square.Base.{
  ℕ, zero, suc, ◌+◌, ◌-◌, ◌≤◌, ◌<◌, ◌≡◌, ◌≢◌, inl, inr, ap, ◌∙◌, sym, arith, true, ◌==◌, ==_iff,
  ==_false, Bool-cases, get_or,
}
use ely_square.Buddy.{BuddyAllocator, null_offset, min_order, bin_count}
use ely_square.Buddy.Bins.{IsIndexed}
use ely_square.Buddy.Blocks.{Blocks, block}

-- The free blocks of an order are the doubly linked chain of its bin. A rank below the clock grows
-- towards the front of a chain, so that no chain is a ring.
pub record IsChained (cells : Blocks) (b : BuddyAllocator) : Type 0 where
  pub rank : ℕ → ℕ
  pub clock : ℕ
  pub in_time : (x k : ℕ) → cells x ≡ block k true → rank x < clock
  pub header :
      (x k : ℕ)
      → cells x ≡ block k true
      → ((b.headers x).order ≡ k) × ((b.headers x).is_free ≡ true)
  pub next :
      (x k : ℕ)
      → cells x ≡ block k true
      → (b.headers x).next_offset ≢ null_offset
      → (cells (b.headers x).next_offset ≡ block k true)
        × ((b.headers (b.headers x).next_offset).prev_offset ≡ x)
        × (rank (b.headers x).next_offset < rank x)
  pub prev :
      (x k : ℕ)
      → cells x ≡ block k true
      → (b.headers x).prev_offset ≢ null_offset
      → (cells (b.headers x).prev_offset ≡ block k true)
        × ((b.headers (b.headers x).prev_offset).next_offset ≡ x)
        × (rank x < rank (b.headers x).prev_offset)
  pub first :
      (x k : ℕ)
      → cells x ≡ block k true
      → (b.headers x).prev_offset ≡ null_offset
      → get_or b.bins (k - min_order) null_offset ≡ x
  pub head :
      (i : ℕ)
      → i < bin_count
      → get_or b.bins i null_offset ≢ null_offset
      → (cells (get_or b.bins i null_offset) ≡ block (i + min_order) true)
        × ((b.headers (get_or b.bins i null_offset)).prev_offset ≡ null_offset)
  pub indexed : IsIndexed b.bins b.active_bins_bitmap

module _ {cells : Blocks} {b : BuddyAllocator} (c : IsChained cells b) where
  -- Going on towards the front from a free block ends in its bin, within the ranks that are left.
  bin_reached :
      (rounds x k : ℕ)
      → cells x ≡ block k true
      → c.clock ≤ rounds + c.rank x
      → ((y : ℕ) → cells y ≡ block k true → y ≢ null_offset)
      → get_or b.bins (k - min_order) null_offset ≢ null_offset
  bin_reached zero x k e h real = absurd (omega (arith, c.in_time x k e))
  bin_reached (suc rounds) x k e h real =
      elim (Bool-cases ((b.headers x).prev_offset == null_offset)) [
        | inl p ↦ λ empty.
            real x e
              (sym (c.first x k e ((==_iff (b.headers x).prev_offset null_offset).0 p)) ∙ empty)
        | inr p ↦
            let (e', back, less) =
              c.prev x k e (==_false (b.headers x).prev_offset null_offset p) in
            bin_reached rounds (b.headers x).prev_offset k e' (omega arith) real
      ]

  -- The bin of a free block's order is not empty.
  pub IsChained-holds :
      (x k : ℕ)
      → cells x ≡ block k true
      → ((y : ℕ) → cells y ≡ block k true → y ≢ null_offset)
      → get_or b.bins (k - min_order) null_offset ≢ null_offset
  IsChained-holds x k e real = bin_reached c.clock x k e (omega arith) real

-- A chain looks at the free blocks only: at their headers and at the bins.
pub IsChained-frame :
    {cells cells' : Blocks} {b b' : BuddyAllocator}
    → IsChained cells b
    → ((x k : ℕ) → cells' x ≡ block k true → cells x ≡ block k true)
    → ((x k : ℕ) → cells x ≡ block k true → cells' x ≡ block k true)
    → ((x k : ℕ) → cells x ≡ block k true → b'.headers x ≡ b.headers x)
    → b'.bins ≡ b.bins
    → b'.active_bins_bitmap ≡ b.active_bins_bitmap
    → IsChained cells' b'
IsChained-frame {cells} {cells'} {b} {b'} c from to same bins bitmap =
    let move : (x k : ℕ)
        → cells' x ≡ block k true
        → (b'.headers x ≡ b.headers x) × (cells x ≡ block k true) =
      λ x k e. (same x k (from x k e), from x k e) in
    record {
      rank = c.rank;
      clock = c.clock;
      in_time = λ x k e. c.in_time x k (from x k e);
      header = λ x k e. let (h, e') = move x k e in rw h (c.header x k e');
      next = λ x k e.
          let (h, e') = move x k e in
          rw h λ ne.
            let (en, back, less) = c.next x k e' ne in
            (
              to (b.headers x).next_offset k en,
              ap (λ n. n.prev_offset) (same (b.headers x).next_offset k en) ∙ back,
              less,
            );
      prev = λ x k e.
          let (h, e') = move x k e in
          rw h λ ne.
            let (en, back, less) = c.prev x k e' ne in
            (
              to (b.headers x).prev_offset k en,
              ap (λ n. n.next_offset) (same (b.headers x).prev_offset k en) ∙ back,
              less,
            );
      first = λ x k e. let (h, e') = move x k e in rw (h, bins) (c.first x k e');
      head = λ i hi. rw bins λ held.
          let (e, p) = c.head i hi held in
          (
            to (get_or b.bins i null_offset) (i + min_order) e,
            ap (λ n. n.prev_offset) (same (get_or b.bins i null_offset) (i + min_order) e) ∙ p,
          );
      indexed = rw (bins, bitmap) c.indexed;
    }
