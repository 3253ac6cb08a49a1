-- ===== src/Buddy/Start.antt =====
-- The constructor: the chunk starts as one free block.
use ely_square.Base.{
  ℕ, ◌+◌, ◌*◌, ◌/◌, ◌^◌, ◌≤◌, ◌<◌, ◌≡◌, ◌≢◌, ◌⊎◌, inl, inr, refl, ap, ◌∙◌, sym, arith, Bool, true,
  false, ◌==◌, if◌then◌else◌, some, ok, u64, Bool-cases, replicate, get_or-replicate,
  length-replicate, dec_lt,
}
use ely_square.Base.Bits.{bit-zero}
use ely_square.PageSource.{PageSource}
use ely_square.Buddy.{
  BuddyAllocator, Headers, null_offset, bin_count, size_to_order, push_free_block, buddy_allocator,
}
use ely_square.Buddy.Bins.{IsIndexed}
use ely_square.Buddy.Orders.{size_to_order-large, size_to_order-pow}
use ely_square.Buddy.Geometry.{pow_split}
use ely_square.Buddy.Blocks.{
  Blocks, inside, block, eq_of_block, IsPartition, write_cell_self, write_cell_ne, write_cell-cases,
}
use ely_square.Buddy.Partition.{mark_block}
use ely_square.Buddy.Heap.{Chunk, IsHeap, push_free_block-IsHeap}

-- One block from the start of the chunk on.
abbrev one_block : (top : ℕ) → Bool → Blocks
one_block top f = mark_block (λ _. inside) 0 top f

one_block-cases :
    (top y k : ℕ) (f g : Bool) → one_block top f y ≡ block k g → (y ≡ 0) × (k ≡ top) × (g ≡ f)
one_block-cases top y k f g e =
    elim (write_cell-cases (λ _. inside) 0 y (block top f) (block k g) e) [
      | inl (same, blocks) ↦ let (order, flag) = eq_of_block blocks in (same, sym order, sym flag)
      | inr (_, e') ↦ absurd (cc e')
    ]

one_block-IsPartition : (top : ℕ) (f : Bool) → 5 ≤ top → IsPartition top (one_block top f)
one_block-IsPartition top f lo = record {
  aligned =
      λ y k g e. let (same, order, _) = one_block-cases top y k f g e in (0, omega (arith, same));
  inside_chunk = λ y k g e.
      let (same, order, _) = one_block-cases top y k f g e in rw (same, order) (omega arith);
  has_bin =
      λ y k g e. let (same, order, _) = one_block-cases top y k f g e in rw order (lo, omega arith);
  apart = λ y k g z e low _.
      write_cell_ne (λ _. inside) 0 z (block top f) (λ same. omega (arith, same, low));
  covered =
      λ z lt. (0, top, f, write_cell_self (λ _. inside) 0 (block top f), omega arith, omega arith);
}

-- An allocator that has no block in use.
pub record IsFresh (ch : Chunk) (b : BuddyAllocator) : Type 0 where
  pub cells : Blocks
  pub heap : IsHeap ch null_offset cells b
  pub idle : (y j : ℕ) → cells y ≢ block j false

-- The allocator before its first block is pushed.
abbrev pub unused : (base pages : ℕ) → Bool → Headers → BuddyAllocator
unused base pages gc headers = record {
  base = base;
  pages = pages;
  bins = replicate bin_count null_offset;
  active_bins_bitmap = 0;
  has_gc_scan_access = gc;
  headers = headers;
}

pub no_bins-IsIndexed : IsIndexed (replicate bin_count null_offset) 0
no_bins-IsIndexed = record {
  count = length-replicate {A = ℕ} bin_count null_offset;
  small = omega arith;
  digit = λ i h. rw (get_or-replicate {A = ℕ} bin_count i null_offset) (bit-zero i);
}

module _ (ch : Chunk) (gc : Bool) (headers : Headers) (lo : 5 ≤ ch.top) where
  no_free : (y k : ℕ) → one_block ch.top false y ≢ block k true
  no_free y k e = let (_, _, flag) = one_block-cases ch.top y k false true e in cc flag

  unused-IsHeap : IsHeap ch 0 (one_block ch.top false) (unused ch.base ch.pages gc headers)
  unused-IsHeap = record {
    base = refl;
    pages = refl;
    partition = one_block-IsPartition ch.top false lo;
    marked = λ y j e ne. absurd (ne (one_block-cases ch.top y j false false e).0);
    chained = record {
      rank = λ _. 0;
      clock = 0;
      in_time = λ y k e. absurd (no_free y k e);
      header = λ y k e. absurd (no_free y k e);
      next = λ y k e. absurd (no_free y k e);
      prev = λ y k e. absurd (no_free y k e);
      first = λ y k e. absurd (no_free y k e);
      head = λ i _ held. absurd (held (get_or-replicate {A = ℕ} bin_count i null_offset));
      indexed = no_bins-IsIndexed;
    };
    coalesced = λ y j e. absurd (no_free y j e);
  }

  -- The allocator with its first block.
  pub begun-IsFresh : IsFresh ch (push_free_block 0 ch.top (unused ch.base ch.pages gc headers))
  begun-IsFresh = record {
    cells = mark_block (one_block ch.top false) 0 ch.top true;
    heap =
        push_free_block-IsHeap 0 ch.top unused-IsHeap
          (write_cell_self (λ _. inside) 0 (block ch.top false)) (λ lt. absurd (omega arith));
    idle = λ y j e.
        elim (write_cell-cases (one_block ch.top false) 0 y (block ch.top true) (block j false) e) [
          | inl (_, blocks) ↦ cc blocks
          | inr (ne, e') ↦ ne (one_block-cases ch.top y j false false e').0
        ];
  }

-- The pages that the constructor asks for.
abbrev pub chunk_pages : (size : ℕ) → ℕ
chunk_pages size = let whole = u64 (size + 4095) / 4096 in if whole == 0 then 1 else whole

chunk_pages-lt : (size : ℕ) → chunk_pages size < 2 ^ 52
chunk_pages-lt size = elim (Bool-cases (u64 (size + 4095) / 4096 == 0)) [
  | inl e ↦ rw e (omega arith)
  | inr e ↦ rw e (omega arith)
]

-- The chunk is a power of two, or at least as large as the largest block.
abbrev pub IsWhole : (pages : ℕ) → Type 0
IsWhole pages = ((k : ℕ) × (k < 10) × (pages ≡ 2 ^ k)) ⊎ (1024 ≤ pages)

chunk_of :
    (base pages : ℕ)
    → pages < 2 ^ 52
    → IsWhole pages
    → (ch : Chunk) × (ch.base ≡ base)
      × (ch.pages ≡ pages)
      × (ch.top ≡ size_to_order (u64 (pages * 4096)))
      × (12 ≤ ch.top)
chunk_of base pages fits (inl (k, lt, e)) =
    let exact : u64 (pages * 4096) ≡ 2 ^ (12 + k) = omega (arith, e, pow_split 12 k) in
    (
      record {
        top = 12 + k;
        base = base;
        pages = pages;
        small = omega arith;
        fits = omega (arith, exact);
        whole = λ _. exact;
      },
      refl,
      refl,
      sym (ap size_to_order exact ∙ size_to_order-pow (12 + k) (omega arith) (omega arith)),
      omega arith,
    )
chunk_of base pages fits (inr large) =
    let word : u64 (pages * 4096) ≡ pages * 4096 = omega arith in
    let order : size_to_order (u64 (pages * 4096)) ≡ 22 = rw word (elim (dec_lt 1024 pages) [
      | yes more ↦ size_to_order-large (pages * 4096) (omega arith) (omega arith)
      | no last ↦
          ap size_to_order {x = pages * 4096} {y = 2 ^ 22} (omega arith)
          ∙ size_to_order-pow 22 (omega arith) (omega arith)
    ]) in
    (
      record {
        top = 22;
        base = base;
        pages = pages;
        small = omega arith;
        fits = omega arith;
        whole = λ lt. absurd (omega arith);
      },
      refl,
      refl,
      sym order,
      omega arith,
    )

module _ (ps : PageSource) where
  open ps use {Store, request}

  -- If the request for the chunk is granted, and its pages are a power of two below 1024, or 1024 and
  -- more, the constructor succeeds with an allocator that is a heap with no block in use, whatever
  -- the memory held before.
  pub buddy_allocator-IsFresh :
      (size base : ℕ) (gc : Bool) (headers : Headers) (s s' : Store)
      → request s (chunk_pages size) ≡ ok (some base, s')
      → IsWhole (chunk_pages size)
      → (ch : Chunk) × (b : BuddyAllocator) × (buddy_allocator ps size gc headers s ≡ ok (b, s'))
        × IsFresh ch b
        × (ch.base ≡ base)
        × (ch.top ≡ size_to_order (u64 (chunk_pages size * 4096)))
  unfolding buddy_allocator
  buddy_allocator-IsFresh size base gc headers s s' granted whole =
      let pages = chunk_pages size in
      let few : pages < 2 ^ 52 = chunk_pages-lt size in
      let (ch, same, same', order, lo) = chunk_of base pages few whole in
      (
        ch,
        push_free_block 0 ch.top (unused ch.base ch.pages gc headers),
        rw (buddy_allocator, granted, order, same, same') refl,
        begun-IsFresh ch gc headers (omega arith),
        same,
        order,
      )
