-- ===== src/Buddy/Joining.antt =====
-- One round of mergeBlock: the block in hand is joined with its buddy, or put into its bin.
use ely_square.Base.{
  ℕ, suc, ◌+◌, ◌*◌, ◌^◌, ◌<◌, ◌≡◌, ◌≢◌, ◌⊎◌, inl, inr, refl, ap, ◌∙◌, sym, arith, Bool, true, false,
  ◌==◌, ◌&&◌, ==_refl, ==_ne, ltb, lt→ltb, le→ltb_false, min, u64, ℕ_discrete, dec_lt,
}
use ely_square.Buddy.{
  BuddyAllocator, null_offset, max_order, get_buddy_offset, push_free_block, remove_free_block,
  buddy_is_free,
}
use ely_square.Buddy.Orders.{get_buddy_offset-get_buddy_offset}
use ely_square.Buddy.Geometry.{
  pow_pos, IsAligned, IsBuddy, get_buddy_offset-IsBuddy, lower_half, upper_half,
}
use ely_square.Buddy.Blocks.{
  Blocks, inside, block, write_cell, write_cell_self, write_cell_ne, write_cell-cases, eq_of_block,
  IsPartition-buddy,
}
use ely_square.Buddy.Partition.{mark_block, join_blocks}
use ely_square.Buddy.Joins.{
  JoinedFrom, joined_block, other_block, join_blocks-origin, join_blocks-other, joined_self,
  join_blocks-IsPartition,
}
use ely_square.Buddy.Chains.{IsChained-frame}
use ely_square.Buddy.Heap.{
  Chunk, IsHeap, IsHeap-bounds, push_free_block-IsHeap, remove_free_block-IsHeap,
}

-- The blocks in use after a step are those before it without the one at `x`.
pub record IsReleased (x : ℕ) (cells cells' : Blocks) : Type 0 where
  pub kept : (y j : ℕ) → y ≢ x → cells y ≡ block j false → cells' y ≡ block j false
  pub only : (y j : ℕ) → cells' y ≡ block j false → (y ≢ x) × (cells y ≡ block j false)

-- Two buddies in use, one of them in hand, become one block in hand.
join_in_hand :
    {ch : Chunk} {cells : Blocks} {b : BuddyAllocator} (x lo k : ℕ)
    → IsHeap ch x cells b
    → cells lo ≡ block k false
    → cells (lo + 2 ^ k) ≡ block k false
    → IsAligned (suc k) lo
    → k < ch.top
    → (x ≡ lo) ⊎ (x ≡ lo + 2 ^ k)
    → IsHeap ch lo (join_blocks cells lo k) b
join_in_hand {ch} {cells} {b} x lo k h el eu around lt which = record {
  base = h.base;
  pages = h.pages;
  partition = join_blocks-IsPartition h.partition lo k false false el eu around lt;
  marked = λ z j e ne. elim (origin z j false e) [
    | joined_block same _ ↦ absurd (ne same)
    | other_block _ above e' ↦
        h.marked z j e'
          (λ s. elim which [ inl w ↦ absurd (ne (s ∙ w)) | inr w ↦ absurd (above (s ∙ w)) ])
  ];
  chained = IsChained-frame {b' = b} h.chained from to (λ z j e. refl) refl refl;
  coalesced = λ z j e lt e'. h.coalesced z j (from z j e) lt (from (get_buddy_offset z j) j e');
}
  where
    origin :
        (z j : ℕ) (g : Bool)
        → join_blocks cells lo k z ≡ block j g
        → JoinedFrom h.partition lo k false false el eu around lt z j g
    origin = join_blocks-origin h.partition lo k false false el eu around lt

    from : (z j : ℕ) → join_blocks cells lo k z ≡ block j true → cells z ≡ block j true
    from z j e = elim (origin z j true e) [
      | joined_block same _ ↦ absurd (
          cc (
            sym (joined_self h.partition lo k false false el eu around lt)
            ∙ ap (join_blocks cells lo k) (sym same)
            ∙ e))
      | other_block _ _ e' ↦ e'
    ]

    to : (z j : ℕ) → cells z ≡ block j true → join_blocks cells lo k z ≡ block j true
    to z j e =
        join_blocks-other h.partition lo k false false el eu around lt z (block j true)
          (λ s. absurd (cc (sym e ∙ ap cells s ∙ el))) (λ s. absurd (cc (sym e ∙ ap cells s ∙ eu)))
          e

-- What a merge comes to: a heap that has the block in hand no more in use.
pub record IsMerged (ch : Chunk) (x : ℕ) (cells : Blocks) (b : BuddyAllocator) : Type 0 where
  pub after : Blocks
  pub heap : IsHeap ch null_offset after b
  pub released : IsReleased x cells after

pub push-IsMerged :
    {ch : Chunk} {cells : Blocks} {b : BuddyAllocator} (x k : ℕ)
    → IsHeap ch x cells b
    → cells x ≡ block k false
    → (k < ch.top → cells (get_buddy_offset x k) ≢ block k true)
    → IsMerged ch x cells (push_free_block x k b)
push-IsMerged {ch} {cells} x k h ex apart = record {
  after = mark_block cells x k true;
  heap = push_free_block-IsHeap x k h ex apart;
  released = record {
    kept = λ y j ne e. write_cell_ne cells x y (block k true) ne ∙ e;
    only = λ y j e. elim (write_cell-cases cells x y (block k true) (block j false) e) [
      | inl (_, blocks) ↦ absurd (cc blocks)
      | inr found ↦ found
    ];
  };
}

-- The offset of the lower half, and the two halves.
data Halves (k x y lo : ℕ) : Type 0 where
  hand_first : x ≡ lo → y ≡ lo + 2 ^ k → Halves k x y lo
  hand_second : x ≡ lo + 2 ^ k → y ≡ lo → Halves k x y lo

IsBuddy-Halves : (k x y : ℕ) → IsBuddy k x y → Halves k x y (min x y) × IsAligned (suc k) (min x y)
IsBuddy-Halves k x y (lower_half a e) =
    let m : min x y ≡ x = omega (arith, e, pow_pos k) in rw m (hand_first refl e, a)
IsBuddy-Halves k x y (upper_half a e) =
    let m : min x y ≡ y = omega (arith, e, pow_pos k) in rw m (hand_second e refl, a)

module _ {ch : Chunk} {cells : Blocks} {b : BuddyAllocator} (x k : ℕ) (h : IsHeap ch x cells b)
    (ex : cells x ≡ block k false) where
  abbrev buddy : ℕ
  buddy = get_buddy_offset x k

  bounds : (x < 2 ^ 32) × (k < 32)
  bounds = let (u, _, v) = IsHeap-bounds h x k false ex in (omega arith, omega arith)

  is_buddy : IsBuddy k x buddy
  is_buddy = get_buddy_offset-IsBuddy k x bounds.1 (h.partition.aligned x k false ex)

  buddy_ne : buddy ≢ x
  buddy_ne = (get_buddy_offset-get_buddy_offset x k bounds.0 bounds.1).1

  -- The test of mergeBlock reads the buddy's header only where a block starts.
  pub data BuddyTest : Bool → Type 0 where
    mergeable : cells buddy ≡ block k true → k < ch.top → BuddyTest true
    unmergeable : (k < ch.top → cells buddy ≢ block k true) → BuddyTest false

  buddy_header :
      (j : ℕ) (g : Bool)
      → cells buddy ≡ block j g
      → ((b.headers buddy).order ≡ j) × ((b.headers buddy).is_free ≡ g)
  buddy_header j true e = h.chained.header buddy j e
  buddy_header j false e = h.marked buddy j e buddy_ne

  test_header :
      (j : ℕ) (g : Bool) → cells buddy ≡ block j g → k < ch.top → BuddyTest (g && (j == k))
  test_header j false e lt = unmergeable λ _ e'. absurd (cc (sym e ∙ e'))
  test_header j true e lt = elim (ℕ_discrete j k) [
    | yes same ↦ rw (same, ==_refl k) (mergeable (e ∙ ap (λ n. block n true) same) lt)
    | no ne ↦ rw (==_ne j k ne) (unmergeable λ _ e'. ne (eq_of_block (sym e ∙ e')).0)
  ]

  outside_chunk : ¬ (k < ch.top) → k < max_order → ltb buddy (u64 (b.pages * 4096)) ≡ false
  outside_chunk last lt =
      let same : k ≡ ch.top = omega (arith, h.partition.has_bin x k false ex) in
      let size = h.partition.inside_chunk x k false ex in
      let sizes : 2 ^ k ≡ 2 ^ ch.top = ap (λ n. 2 ^ n) {x = k} {y = ch.top} same in
      rw (h.pages, ch.whole (omega arith))
        (le→ltb_false buddy (2 ^ ch.top) (elim is_buddy [
          | lower_half a e ↦ omega (arith, e)
          | upper_half a e ↦ absurd (omega (arith, e, pow_pos k))
        ]))

  pub buddy_is_free-BuddyTest : k < max_order → BuddyTest (buddy_is_free buddy k b)
  unfolding buddy_is_free
  buddy_is_free-BuddyTest lt = elim (dec_lt k ch.top) [
    | no last ↦ rw (buddy_is_free, outside_chunk last lt) (unmergeable λ l. absurd (last l))
    | yes l ↦
        let (j, g, e, le) = IsPartition-buddy h.partition x buddy k false ex l is_buddy in
        let (order, flag) = buddy_header j g e in
        let below : ltb buddy (u64 (b.pages * 4096)) ≡ true = lt→ltb buddy (u64 (b.pages * 4096)) (
          omega (
            arith,
            ap (λ n. u64 (n * 4096)) {x = b.pages} {y = ch.pages} h.pages,
            h.partition.inside_chunk buddy j g e,
            pow_pos j,
            ch.fits,
          )) in
        rw (buddy_is_free, order, flag, below) (test_header j g e l)
  ]

  abbrev joined : Blocks
  joined = join_blocks (mark_block cells buddy k false) (min x buddy) k

  module _ (ey : cells buddy ≡ block k true) (lt : k < ch.top) where
    abbrev taken : Blocks
    taken = mark_block cells buddy k false

    heap_taken : IsHeap ch x taken (remove_free_block buddy k b)
    heap_taken = remove_free_block-IsHeap h buddy k ey

    hand_used : taken x ≡ block k false
    hand_used = write_cell_ne cells buddy x (block k false) (λ s. buddy_ne (sym s)) ∙ ex

    buddy_used : taken buddy ≡ block k false
    buddy_used = write_cell_self cells buddy (block k false)

    lower_used : (lo : ℕ) → Halves k x buddy lo → taken lo ≡ block k false
    lower_used lo (hand_first e e') = ap taken (sym e) ∙ hand_used
    lower_used lo (hand_second e e') = ap taken (sym e') ∙ buddy_used

    upper_used : (lo : ℕ) → Halves k x buddy lo → taken (lo + 2 ^ k) ≡ block k false
    upper_used lo (hand_first e e') = ap taken (sym e') ∙ buddy_used
    upper_used lo (hand_second e e') = ap taken (sym e) ∙ hand_used

    side : (lo : ℕ) → Halves k x buddy lo → (x ≡ lo) ⊎ (x ≡ lo + 2 ^ k)
    side lo (hand_first e e') = inl e
    side lo (hand_second e e') = inr e

    not_hand : (lo z : ℕ) → Halves k x buddy lo → z ≢ lo → z ≢ lo + 2 ^ k → (z ≢ x) × (z ≢ buddy)
    not_hand lo z (hand_first e e') ne ne' = (λ s. ne (s ∙ e), λ s. ne' (s ∙ e'))
    not_hand lo z (hand_second e e') ne ne' = (λ s. ne' (s ∙ e), λ s. ne (s ∙ e'))

    not_half : (lo z : ℕ) → Halves k x buddy lo → z ≢ x → z ≢ buddy → (z ≢ lo) × (z ≢ lo + 2 ^ k)
    not_half lo z (hand_first e e') ne ne' = (λ s. ne (s ∙ sym e), λ s. ne' (s ∙ sym e'))
    not_half lo z (hand_second e e') ne ne' = (λ s. ne' (s ∙ sym e'), λ s. ne (s ∙ sym e))

    halves : Halves k x buddy (min x buddy) × IsAligned (suc k) (min x buddy)
    halves = IsBuddy-Halves k x buddy is_buddy

    pub heap_joined : IsHeap ch (min x buddy) joined (remove_free_block buddy k b)
    heap_joined =
        let (which, around) = halves in
        let lo = min x buddy in
        join_in_hand x lo k heap_taken (lower_used lo which) (upper_used lo which) around lt
          (side lo which)

    pub joined_hand : joined (min x buddy) ≡ block (suc k) false
    joined_hand =
        write_cell_self (write_cell taken (min x buddy + 2 ^ k) inside) (min x buddy)
          (block (suc k) false)

    pub joined-IsMerged :
        {b' : BuddyAllocator} → IsMerged ch (min x buddy) joined b' → IsMerged ch x cells b'
    joined-IsMerged m =
        let (which, around) = halves in
        let lo = min x buddy in
        record {
          after = m.after;
          heap = m.heap;
          released = record {
            kept = λ z j ne e.
                let away : z ≢ buddy = λ s. absurd (cc (sym e ∙ ap cells s ∙ ey)) in
                let (ne₀, ne₁) = not_half lo z which ne away in
                m.released.kept z j ne₀ (
                  write_cell_ne (write_cell taken (lo + 2 ^ k) inside) lo z (block (suc k) false)
                    ne₀
                  ∙ write_cell_ne taken (lo + 2 ^ k) z inside ne₁
                  ∙ write_cell_ne cells buddy z (block k false) away
                  ∙ e);
            only = λ z j e.
                let (ne, e') = m.released.only z j e in
                elim (write_cell-cases (write_cell taken (lo + 2 ^ k) inside) lo z
                  (block (suc k) false) (block j false) e') [
                    | inl (same, _) ↦ absurd (ne same)
                    | inr (_, e₁) ↦
                        elim (write_cell-cases taken (lo + 2 ^ k) z inside (block j false) e₁) [
                          | inl (_, blocks) ↦ absurd (cc blocks)
                          | inr (above, e₂) ↦
                              let (away, away') = not_hand lo z which ne above in
                              (away, sym (write_cell_ne cells buddy z (block k false) away') ∙ e₂)
                        ]
                  ];
          };
        }
