-- ===== src/Buddy/Returns.antt =====
-- free gives a block back; when no block is in use the chunk is one free block again.
use ely_square.Base.{
  ℕ, zero, suc, ◌+◌, ◌-◌, ◌^◌, ◌≤◌, ◌<◌, ◌≡◌, ◌≢◌, inl, inr, refl, ap, ◌∙◌, arith, Bool, true,
  false, Option, some, u32, dec_lt,
}
use ely_square.Buddy.{
  BuddyAllocator, Headers, null_offset, max_order, size_to_order, alloc, free, get_buddy_offset,
}
use ely_square.Buddy.Geometry.{pow_pos, get_buddy_offset-IsBuddy}
use ely_square.Buddy.Blocks.{Blocks, block, IsPartition-buddy}
use ely_square.Buddy.Chains.{IsChained-frame}
use ely_square.Buddy.Heap.{Chunk, IsHeap, IsHeap-bounds, IsHeap-real, IsHeap-hold}
use ely_square.Buddy.Joining.{IsMerged}
use ely_square.Buddy.Merges.{merge_block-IsMerged}
use ely_square.Buddy.Serves.{IsServed, refused, exhausted, served, alloc-IsServed}

-- On a heap, whose blocks have at least 32 bytes, freeing the pointer 16 bytes behind the start of a
-- block in use leaves a heap, so that no two free
-- buddies are left apart, in which the block is no more in use and the other blocks in use are as
-- they were.
pub free-IsMerged :
    (ch : Chunk) (cells : Blocks) (b : BuddyAllocator) (x k : ℕ)
    → IsHeap ch null_offset cells b
    → cells x ≡ block k false
    → IsMerged ch x cells (free (some (ch.base + x + 16)) b)
unfolding free
free-IsMerged ch cells b x k h e =
    let (bound, _, _) = IsHeap-bounds h x k false e in
    let offset : u32 (ch.base + x + 16 + 2 ^ 64 - 16 + 2 ^ 64 - b.base) ≡ x =
      rw h.base (omega (arith, bound)) in
    let (order, _) = h.marked x k e (IsHeap-real h x k false e) in
    rw (free, offset, order) (merge_block-IsMerged x k (IsHeap-hold h x refl) e)

module _ {ch : Chunk} {cells : Blocks} {b : BuddyAllocator}
    (h : IsHeap ch null_offset cells b) where
  -- What is written elsewhere than in the headers changes nothing. Of the header of a block in use
  -- the order and the flag count.
  pub write-IsHeap :
      (headers : Headers)
      → ((y j : ℕ) → cells y ≡ block j true → headers y ≡ b.headers y)
      → ((y j : ℕ)
          → cells y ≡ block j false
          → ((headers y).order ≡ (b.headers y).order)
            × ((headers y).is_free ≡ (b.headers y).is_free))
      → IsHeap ch null_offset cells (record b { headers = headers })
  write-IsHeap headers same alike = record {
    base = h.base;
    pages = h.pages;
    partition = h.partition;
    marked = λ y j e ne.
        let (order, flag) = alike y j e in
        (order ∙ (h.marked y j e ne).0, flag ∙ (h.marked y j e ne).1);
    chained =
        IsChained-frame {b' = record b { headers = headers }} h.chained (λ y j e. e) (λ y j e. e)
          (λ y j e. same y j e) refl refl;
    coalesced = h.coalesced;
  }

  module _ (idle : (y j : ℕ) → cells y ≢ block j false) where
    is_free_of : (y j : ℕ) (f : Bool) → cells y ≡ block j f → f ≡ true
    is_free_of y j true e = refl
    is_free_of y j false e = absurd (idle y j e)

    free_block : (y j : ℕ) (f : Bool) → cells y ≡ block j f → cells y ≡ block j true
    free_block y j f e = e ∙ ap (block j) (is_free_of y j f e)

    -- No block is smaller than the whole: its buddy would be smaller still, or free as well.
    no_smaller : (bound y k : ℕ) → k < bound → k < ch.top → cells y ≢ block k true
    no_smaller zero y k lt last e = elim lt [ ]
    no_smaller (suc bound) y k lt last e =
        let (_, _, hi) = IsHeap-bounds h y k true e in
        let buddy = get_buddy_offset-IsBuddy k y (omega arith) (h.partition.aligned y k true e) in
        let (j, g, e', le) =
          IsPartition-buddy h.partition y (get_buddy_offset y k) k true e last buddy in
        let e'' = free_block (get_buddy_offset y k) j g e' in
        elim (dec_lt j k) [
          | yes less ↦ no_smaller bound (get_buddy_offset y k) j (omega arith) (omega arith) e''
          | no same ↦
              h.coalesced y k e last (e'' ∙ ap (λ n. block n true) {x = j} {y = k} (omega arith))
        ]

    pub whole_again : cells 0 ≡ block ch.top true
    whole_again =
        let (x, k, f, e, lo, hi) = h.partition.covered 0 (pow_pos ch.top) in
        let start : 0 ≡ x = omega arith in
        let e' = free_block x k f e in
        let (_, top) = h.partition.has_bin x k f e in
        elim (dec_lt k ch.top) [
          | yes less ↦ absurd (no_smaller (suc k) x k (omega arith) less e')
          | no same ↦
              ap cells start ∙ e' ∙ ap (λ n. block n true) {x = k} {y = ch.top} (omega arith)
        ]

    -- A request that fits in the chunk is served.
    pub alloc-fits :
        (size : ℕ)
        → 16 < size
        → size + 16 ≤ 2 ^ max_order
        → size_to_order size ≤ ch.top
        → (p : ℕ) × (b' : BuddyAllocator) × (alloc size b ≡ (some p, b'))
    alloc-fits size pos small fits =
        go (alloc size b) refl (alloc-IsServed h size (inr pos) (omega arith))
      where
        go :
            (r : Option ℕ × BuddyAllocator)
            → alloc size b ≡ r
            → IsServed ch cells b size r
            → (p : ℕ) × (b' : BuddyAllocator) × (alloc size b ≡ (some p, b'))
        go _ e (refused (inl z)) = absurd (omega (arith, z))
        go _ e (refused (inr large)) = absurd (omega (arith, large))
        go _ e (exhausted small') = absurd (omega (arith, small' 0 ch.top whole_again))
        go _ e (served {b'} x after _ _ _ _) = (ch.base + x + 16, b', e)
