-- ===== src/Buddy/Serves.antt =====
-- alloc hands out a free block of the order of the request, split off a larger one if need be, and
-- fails only if no free block is large enough.
use native.Mathlib.Nat.{pow-le-pow_right}
use ely_square.Base.{
  ℕ, ◌+◌, ◌-◌, ◌^◌, ◌≤◌, ◌<◌, ◌≡◌, ◌≢◌, ◌⊎◌, inl, inr, refl, ap, ◌∙◌, sym, arith, Bool, true, false,
  Option, none, some, ◌==◌, ==_refl, ==_ne, ==_false, ltb, lt→ltb, le→ltb_false, if◌then◌else◌,
  Bool-cases, bit_and, u64, get_or, ℕ_discrete, dec_lt,
}
use ely_square.Base.Bits.{bit, bit_high}
use ely_square.PageBitmap.{countr_zero}
use ely_square.Buddy.{
  BuddyAllocator, null_offset, min_order, max_order, bin_count, size_to_order, remove_free_block,
  clear_flag, split_block, take_block, alloc,
}
use ely_square.Buddy.Headers.{write_tag_far}
use ely_square.Buddy.Orders.{size_to_order_lem}
use ely_square.Buddy.Blocks.{Blocks, block, write_cell_self}
use ely_square.Buddy.Partition.{mark_block}
use ely_square.Buddy.Chains.{IsChained-frame, IsChained-holds}
use ely_square.Buddy.Heap.{
  Chunk, IsHeap, IsHeap-bounds, IsHeap-real, IsHeap-Spaced, remove_free_block-IsHeap,
}
use ely_square.Buddy.Splits.{
  IsUsedAlike, IsUsedAlike-trans, mark_block-IsUsedAlike, split_loop-IsHeap,
}
use ely_square.Buddy.Search.{from_bin, FoundBin, no_bin, some_bin, mask-FoundBin}

-- What a request of `size` bytes comes to. It is refused if it is empty or, with the header, larger
-- than the largest block; it fails if every free block is of a smaller order than the request's;
-- and else the pointer lies behind the header of a block of the request's order that was not in
-- use, and the other blocks in use stay as they are.
pub data IsServed (ch : Chunk) (cells : Blocks) (b : BuddyAllocator) (size : ℕ)
    : Option ℕ × BuddyAllocator → Type 0 where
  refused : (size ≡ 0) ⊎ (2 ^ max_order < size + 16) → IsServed ch cells b size (none, b)
  exhausted :
      ((y j : ℕ) → cells y ≡ block j true → j < size_to_order size)
      → IsServed ch cells b size (none, b)
  served :
      {b' : BuddyAllocator} (x : ℕ) (after : Blocks)
      → IsHeap ch null_offset after b'
      → after x ≡ block (size_to_order size) false
      → ((j : ℕ) → cells x ≢ block j false)
      → IsUsedAlike x cells after
      → IsServed ch cells b size (some (ch.base + x + 16), b')

module _ {ch : Chunk} {cells : Blocks} {b : BuddyAllocator}
    (h : IsHeap ch null_offset cells b) where
  real : (y j : ℕ) → cells y ≡ block j true → y ≢ null_offset
  real y j = IsHeap-real h y j true

  -- A digit that is set stands for a bin with a block at its head.
  bin_head :
      (i : ℕ)
      → i < 32
      → bit i b.active_bins_bitmap ≡ 1
      → (i < bin_count) × (cells (get_or b.bins i null_offset) ≡ block (i + min_order) true)
  bin_head i hi set = elim (dec_lt i bin_count) [
    | no out ↦ absurd (
        omega (
          arith,
          set,
          bit_high bin_count i b.active_bins_bitmap h.chained.indexed.small (omega arith),
        ))
    | yes within ↦
        let digit = h.chained.indexed.digit i within in
        elim (Bool-cases (get_or b.bins i null_offset == null_offset)) [
          | inl e ↦
              let off : bit i b.active_bins_bitmap ≡ 0 = digit ∙ rw e refl in
              absurd (omega (arith, set, off))
          | inr e ↦ (
            within,
            (h.chained.head i within (==_false (get_or b.bins i null_offset) null_offset e)).0,
          )
        ]
  ]

  -- The bin of a free block has its digit set.
  digit_set : (y j : ℕ) → cells y ≡ block j true → bit (j - min_order) b.active_bins_bitmap ≡ 1
  digit_set y j e =
      let (_, lo, hi) = IsHeap-bounds h y j true e in
      h.chained.indexed.digit (j - min_order) (omega (arith, hi))
      ∙ rw
          (==_ne (get_or b.bins (j - min_order) null_offset) null_offset
            (IsChained-holds h.chained y j e (λ z. real z j)))
          refl

  -- The flag of a block in use is cleared once more.
  clear_again :
      {c : BuddyAllocator} {used : Blocks} (x k : ℕ)
      → IsHeap ch null_offset used c
      → used x ≡ block k false
      → IsHeap ch null_offset used (clear_flag c x)
  clear_again {c} {used} x k g ex = record {
    base = g.base;
    pages = g.pages;
    partition = g.partition;
    marked = λ y j e ne. elim (ℕ_discrete y x) [
      | yes same ↦
          rw (same, ==_refl x)
            ((g.marked x j (ap used (sym same) ∙ e) (λ s. ne (same ∙ s))).0, refl)
      | no away ↦ rw (other y j false e away) (g.marked y j e ne)
    ];
    chained =
        IsChained-frame {b' = clear_flag c x} g.chained (λ y j e. e) (λ y j e. e)
          (λ y j e. other y j true e (λ s. absurd (cc (sym e ∙ ap used s ∙ ex)))) refl refl;
    coalesced = g.coalesced;
  }
    where
      other :
          (y j : ℕ) (f : Bool)
          → used y ≡ block j f
          → y ≢ x
          → (clear_flag c x).headers y ≡ c.headers y
      other y j f e ne =
          let far = IsHeap-Spaced g y x j k f false e ex ne in
          write_tag_far c.headers x (c.headers x).order false y ne (λ s. omega (arith, s, far))

  -- The block at the head of a bin, split down to the order of a request.
  take_block-IsServed :
      (i t : ℕ)
      → i < bin_count
      → 5 ≤ t
      → t ≤ i + min_order
      → cells (get_or b.bins i null_offset) ≡ block (i + min_order) true
      → (x : ℕ) × (after : Blocks) × ((take_block i t b).0 ≡ ch.base + x + 16)
        × IsHeap ch null_offset after (take_block i t b).1
        × (after x ≡ block t false)
        × ((j : ℕ) → cells x ≢ block j false)
        × IsUsedAlike x cells after
  unfolding take_block split_block
  take_block-IsServed i t within lo le ex =
      let x = get_or b.bins i null_offset in
      let k = i + min_order in
      let c = remove_free_block x k b in
      let taken = mark_block cells x k false in
      let h₁ = remove_free_block-IsHeap h x k ex in
      let e₁ = write_cell_self cells x (block k false) in
      let (after, h₂, e₂, same) = split_loop-IsHeap (k - t) x k (k - 1) h₁ e₁ (omega arith) refl in
      let goal : after x ≡ block t false =
        e₂ ∙ ap (λ n. block n false) {x = k - (k - t)} {y = t} (omega arith) in
      let parted : (if ltb t k then split_block x k t c else c) ≡ split_block x k t c =
        elim (dec_lt t k) [
          | yes lt ↦ rw (lt→ltb t k lt) refl
          | no eq ↦
              let whole : k - t ≡ 0 = omega arith in
              rw (le→ltb_false t k (omega arith), split_block, whole) refl
        ] in
      (
        x,
        after,
        ap (λ n. n + x + 16) h.base,
        rw parted (clear_again x t h₂ goal),
        goal,
        λ j e. absurd (cc (sym e ∙ ex)),
        IsUsedAlike-trans (mark_block-IsUsedAlike cells x k false) same,
      )

  -- A request of more than 16 bytes has a block of 32 bytes or more.
  order-le : (size : ℕ) → 16 < size → size ≤ 2 ^ 22 → 5 ≤ size_to_order size
  order-le size large small =
      let (_, _, holds, _) = size_to_order_lem size (omega arith) small in
      let t = size_to_order size in
      elim (dec_lt t 5) [
        | no h ↦ omega arith
        | yes h ↦
            let most = pow-le-pow_right {n = 2} (omega arith) {i = t} {j = 4} (omega arith) in
            absurd (omega (arith, most, holds))
      ]

  by_mask :
      (size : ℕ)
      → 16 < size
      → size + 16 ≤ 2 ^ 22
      → FoundBin
          (size_to_order size - min_order)
          b.active_bins_bitmap
          (bit_and b.active_bins_bitmap (from_bin (size_to_order size - min_order)))
      → IsServed ch cells b size (alloc size b)
  unfolding alloc
  by_mask size pos small found = go found refl
    where
      t : ℕ
      t = size_to_order size

      word : u64 (size + 16) ≡ size + 16
      word = omega arith

      go :
          {mask : ℕ}
          → FoundBin (t - min_order) b.active_bins_bitmap mask
          → bit_and b.active_bins_bitmap (from_bin (t - min_order)) ≡ mask
          → IsServed ch cells b size (alloc size b)
      go (no_bin clear) e =
          rw
            (
              alloc,
              ==_ne size 0 (λ z. omega (arith, z, pos)),
              word,
              le→ltb_false (2 ^ 22) (size + 16) small,
              e,
            )
            (exhausted λ y j free. elim (dec_lt j t) [
              | yes lt ↦ lt
              | no le ↦
                  let (_, low, high) = IsHeap-bounds h y j true free in
                  absurd (
                    omega (
                      arith,
                      digit_set y j free,
                      clear (j - min_order) (omega arith) (omega arith),
                    ))
            ])
      go (some_bin {mask} held above inside set) e =
          let lo = order-le size pos (omega arith) in
          let (within, head) = bin_head (countr_zero mask) inside set in
          let (x, after, pointer, heap, own, fresh, same) =
            take_block-IsServed (countr_zero mask) t within lo (omega arith) head in
          rw
            (
              alloc,
              ==_ne size 0 (λ z. omega (arith, z, pos)),
              word,
              le→ltb_false (2 ^ 22) (size + 16) small,
              e,
              ==_ne mask 0 held,
              pointer,
            )
            (served x after heap own fresh same)

  -- On a heap, whose blocks have at least 32 bytes, a request of 0 or more than 16 bytes, whose size with
  -- the header fits in size_t, is refused, with no change, if it is empty or with its header larger than
  -- the largest block; gives null, with no change, only if
  -- every free block is of a smaller order than the request's; and else gives a block of the order of
  -- the request that was not in use, leaves the other blocks in use as they are, and leaves a heap.
  pub alloc-IsServed :
      (size : ℕ)
      → (size ≡ 0) ⊎ (16 < size)
      → size + 16 < 2 ^ 64
      → IsServed ch cells b size (alloc size b)
  unfolding alloc
  alloc-IsServed size allowed fits = elim (ℕ_discrete size 0) [
    | yes empty ↦ rw (alloc, empty) (refused (inl refl))
    | no pos ↦ elim (dec_lt (2 ^ 22) (size + 16)) [
      | yes large ↦
          let word : u64 (size + 16) ≡ size + 16 = omega arith in
          rw (alloc, ==_ne size 0 pos, word, lt→ltb (2 ^ 22) (size + 16) large)
            (refused (inr large))
      | no small ↦ in_reach (omega (arith, allowed, pos)) (omega arith)
    ]
  ]
    where
      in_reach : 16 < size → size + 16 ≤ 2 ^ 22 → IsServed ch cells b size (alloc size b)
      in_reach pos small =
          let (_, hi, _, _) = size_to_order_lem size (omega arith) (omega arith) in
          let t = size_to_order size in
          let word : u64 (size + 16) ≡ size + 16 = omega arith in
          by_mask size pos small (
            mask-FoundBin (t - min_order) b.active_bins_bitmap (omega arith)
              (omega (arith, h.chained.indexed.small)))
