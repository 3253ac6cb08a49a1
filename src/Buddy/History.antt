-- ===== src/Buddy/History.antt =====
-- BuddyAllocator over time: what a client may do with it, and what holds after it.
use mathlib.Core.Path.{subst}
use native.Mathlib.Nat.{pow-le-pow_right}
use ely_square.Base.{
  PartialMap, assign, assign_self, assign_ne, ℕ, ◌+◌, ◌^◌, ◌≤◌, ◌<◌, ◌≡◌, ◌≢◌, ap, ◌∙◌, sym, arith,
  Bool, true, false, Bool-cases, ◌==◌, ◌⊎◌, inl, inr, ◌-◌, ◌*◌, bit_and, u32, u64, ltb, Option,
  none, some, eq_of_some, ℕ_discrete, dec_lt,
}
use ely_square.Buddy.{
  BuddyAllocator, Headers, null_offset, size_to_order, alloc, free, get_index_by_order,
}
use ely_square.Buddy.Blocks.{Blocks, block, eq_of_block, IsPartition-disjoint}
use ely_square.Buddy.Heap.{Chunk, IsHeap}
use ely_square.Buddy.Serves.{IsServed, refused, exhausted, served, alloc-IsServed}
use ely_square.Buddy.Returns.{free-IsMerged, write-IsHeap}
use ely_square.Buddy.Start.{IsFresh}

-- The blocks in use: for the pointer of each its order.
abbrev pub Used : Type 0
Used = PartialMap

-- What a client's writes to the bytes of a block at `x`, of order `k`, behind its header do to what
-- the memory holds at each offset: the first fields of the header stay, and so do the headers in
-- other blocks.
pub record IsWrite (x k : ℕ) (before after : Headers) : Type 0 where
  pub order : (after x).order ≡ (before x).order
  pub is_free : (after x).is_free ≡ (before x).is_free
  pub front : (a : ℕ) → a + 16 ≤ x → after a ≡ before a
  pub rear : (a : ℕ) → x + 2 ^ k ≤ a → after a ≡ before a

-- What a client does with an allocator, in any order: it allocates, of more than 16 bytes, it frees
-- pointers in use, and it writes behind the header of a block in use.
pub data History (b₀ : BuddyAllocator) : BuddyAllocator → Used → Type 0 where
  begin : History b₀ b₀ (λ _. none)
  allocated :
      {b b' : BuddyAllocator} {used : Used} (size p : ℕ)
      → History b₀ b used
      → 16 < size
      → size + 16 < 2 ^ 64
      → alloc size b ≡ (some p, b')
      → History b₀ b' (assign used p (some (size_to_order size)))
  denied :
      {b b' : BuddyAllocator} {used : Used} (size : ℕ)
      → History b₀ b used
      → size + 16 < 2 ^ 64
      → alloc size b ≡ (none, b')
      → History b₀ b' used
  freed :
      {b : BuddyAllocator} {used : Used} (p k : ℕ)
      → History b₀ b used
      → used p ≡ some k
      → History b₀ (free (some p) b) (assign used p none)
  freed_null :
      {b : BuddyAllocator} {used : Used} → History b₀ b used → History b₀ (free none b) used
  written :
      {b : BuddyAllocator} {used : Used} (x k : ℕ) (headers : Headers)
      → History b₀ b used
      → used (b.base + x + 16) ≡ some k
      → IsWrite x k b.headers headers
      → History b₀ (record b { headers = headers }) used

-- The blocks in use are those that the client holds.
pub record IsHeld (ch : Chunk) (b : BuddyAllocator) (used : Used) : Type 0 where
  pub cells : Blocks
  pub heap : IsHeap ch null_offset cells b
  pub found :
      (p k : ℕ) → used p ≡ some k → (x : ℕ) × (p ≡ ch.base + x + 16) × (cells x ≡ block k false)
  pub listed : (x k : ℕ) → cells x ≡ block k false → used (ch.base + x + 16) ≡ some k

-- A request that is not served changes nothing.
alloc-none : (size : ℕ) (b b' : BuddyAllocator) → alloc size b ≡ (none, b') → b' ≡ b
unfolding alloc
alloc-none size b b' e = by_test (Bool-cases (size == 0))
  where
    mask : ℕ
    mask =
        bit_and b.active_bins_bitmap
          (u32 ((2 ^ 32 - 1) * 2 ^ get_index_by_order (size_to_order size)))

    by_test : ((size == 0) ≡ true) ⊎ ((size == 0) ≡ false) → b' ≡ b
    by_test (inl t) = ap (λ r. r.1) (sym (rw (alloc, t) at e))
    by_test (inr t) = elim (Bool-cases (ltb (2 ^ 22) (u64 (size + 16)))) [
      | inl l ↦ ap (λ r. r.1) (sym (rw (alloc, t, l) at e))
      | inr l ↦ elim (Bool-cases (mask == 0)) [
        | inl m ↦ ap (λ r. r.1) (sym (rw (alloc, t, l, m) at e))
        | inr m ↦ absurd (cc (ap (λ r. r.0) (rw (alloc, t, l, m) at e)))
      ]
    ]

module _ (ch : Chunk) (b₀ : BuddyAllocator) (fresh : IsFresh ch b₀) where
  begin-IsHeld : IsHeld ch b₀ (λ _. none)
  begin-IsHeld = record {
    cells = fresh.cells;
    heap = fresh.heap;
    found = λ p k e. cc e;
    listed = λ x k e. absurd (fresh.idle x k e);
  }

  pointer_ne : (x y : ℕ) → x ≢ y → ch.base + x + 16 ≢ ch.base + y + 16
  pointer_ne x y ne e = ne (omega (arith, e))

  alloc-IsHeld :
      {b : BuddyAllocator} {used : Used} (size : ℕ) (r : Option ℕ × BuddyAllocator)
      → (h : IsHeld ch b used) → IsServed ch h.cells b size r
      → ((p : ℕ) → r.0 ≡ some p → IsHeld ch r.1 (assign used p (some (size_to_order size))))
        × (r.0 ≡ none → IsHeld ch r.1 used)
  alloc-IsHeld size _ h (refused _) = (λ p e. absurd (cc e), λ _. h)
  alloc-IsHeld size _ h (exhausted _) = (λ p e. absurd (cc e), λ _. h)
  alloc-IsHeld {b} {used} size _ h (served {b'} x after heap own new alike) =
      let k = size_to_order size in
      (
        λ p e.
            let here : p ≡ ch.base + x + 16 = sym (eq_of_some (ch.base + x + 16) p e) in
            rw here record {
              cells = after;
              heap = heap;
              found = λ q j eq. elim (ℕ_discrete q (ch.base + x + 16)) [
                | yes same ↦ (
                  x,
                  same,
                  own
                      ∙ ap (λ n. block n false)
                          (eq_of_some k j (
                            sym (assign_self used (ch.base + x + 16) (some k))
                            ∙ ap (assign used (ch.base + x + 16) (some k)) (sym same)
                            ∙ eq)),
                )
                | no ne ↦
                    let (y, e', ey) =
                      h.found q j (sym (assign_ne used (ch.base + x + 16) q (some k) ne) ∙ eq) in
                    (y, e', alike.kept y j (λ same. ne (omega (arith, e', same))) ey)
              ];
              listed = λ y j ey. elim (ℕ_discrete y x) [
                | yes same ↦
                    let order = (eq_of_block (sym own ∙ ap after (sym same) ∙ ey)).0 in
                    ap (λ n. assign used (ch.base + x + 16) (some k) (ch.base + n + 16)) same
                    ∙ assign_self used (ch.base + x + 16) (some k)
                    ∙ ap some order
                | no ne ↦
                    assign_ne used (ch.base + x + 16) (ch.base + y + 16) (some k)
                      (pointer_ne y x ne)
                    ∙ h.listed y j (alike.only y j ne ey)
              ];
            },
        λ e. absurd (cc e),
      )

  free-IsHeld :
      {b : BuddyAllocator} {used : Used} (p k : ℕ)
      → IsHeld ch b used
      → used p ≡ some k
      → IsHeld ch (free (some p) b) (assign used p none)
  free-IsHeld {b} {used} p k h e =
      let (x, here, ex) = h.found p k e in
      let m = free-IsMerged ch h.cells b x k h.heap ex in
      rw here record {
        cells = m.after;
        heap = m.heap;
        found = λ q j eq. elim (ℕ_discrete q (ch.base + x + 16)) [
          | yes same ↦ absurd (
              cc (
                sym (assign_self used (ch.base + x + 16) none)
                ∙ ap (assign used (ch.base + x + 16) none) (sym same)
                ∙ eq))
          | no ne ↦
              let (y, e', ey) =
                h.found q j (sym (assign_ne used (ch.base + x + 16) q none ne) ∙ eq) in
              (y, e', m.released.kept y j (λ same. ne (omega (arith, e', same))) ey)
        ];
        listed = λ y j ey.
            let (ne, before) = m.released.only y j ey in
            assign_ne used (ch.base + x + 16) (ch.base + y + 16) none (pointer_ne y x ne)
            ∙ h.listed y j before;
      }

  -- No block starts inside a block.
  write-IsHeld :
      {b : BuddyAllocator} {used : Used} (x k : ℕ) (headers : Headers)
      → IsHeld ch b used
      → used (b.base + x + 16) ≡ some k
      → IsWrite x k b.headers headers
      → IsHeld ch (record b { headers = headers }) used
  write-IsHeld {b} x k headers h e w =
      let (x', here, ex') = h.found (b.base + x + 16) k e in
      let same : x' ≡ x = omega (arith, here, h.heap.base) in
      let ex : h.cells x ≡ block k false = ap h.cells (sym same) ∙ ex' in
      record {
        cells = h.cells;
        heap =
            write-IsHeap h.heap headers
              (λ y j ey.
                other x k headers h w ex y j true ey
                  (λ s. absurd (cc (sym ey ∙ ap h.cells s ∙ ex))))
              (λ y j ey. elim (ℕ_discrete y x) [
                | yes s ↦ rw s (w.order, w.is_free)
                | no ne ↦
                    let e' = other x k headers h w ex y j false ey ne in
                    (ap (λ n. n.order) e', ap (λ n. n.is_free) e')
              ]);
        found = h.found;
        listed = h.listed;
      }
    where
      other :
          {b : BuddyAllocator} {used : Used} (x k : ℕ) (headers : Headers)
          → (h : IsHeld ch b used) → IsWrite x k b.headers headers
          → h.cells x ≡ block k false
          → (y j : ℕ) (f : Bool) → h.cells y ≡ block j f
          → y ≢ x
          → headers y ≡ b.headers y
      other x k headers h w ex y j f ey ne = elim (dec_lt y x) [
        | yes before ↦ w.front y (
            omega (
              arith,
              IsPartition-disjoint h.heap.partition y x j k f false ey ex before,
              pow-le-pow_right {n = 2} (omega arith) {i = 5} {j = j}
                  (h.heap.partition.has_bin y j f ey).0,
            ))
        | no behind ↦
            w.rear y
              (IsPartition-disjoint h.heap.partition x y k j false f ex ey (omega (arith, ne)))
      ]

  free_null-IsHeld :
      {b : BuddyAllocator} {used : Used} → IsHeld ch b used → IsHeld ch (free none b) used
  unfolding free
  free_null-IsHeld h = h

  -- Whatever such a client does, the blocks in use stay those that it holds.
  pub History-IsHeld : {b : BuddyAllocator} {used : Used} → History b₀ b used → IsHeld ch b used
  History-IsHeld begin = begin-IsHeld
  History-IsHeld (allocated {b} {b'} {used} size p before large fits e) =
      let h = History-IsHeld before in
      subst (λ r. IsHeld ch r.1 (assign used p (some (size_to_order size)))) e
        ((alloc-IsHeld size (alloc size b) h (alloc-IsServed h.heap size (inr large) fits)).0 p
          (ap (λ r. r.0) e))
  History-IsHeld (denied {b} {b'} {used} size before fits e) =
      let h = History-IsHeld before in
      subst (λ c. IsHeld ch c used) (sym (alloc-none size b b' e)) h
  History-IsHeld (freed p k before e) = free-IsHeld p k (History-IsHeld before) e
  History-IsHeld (freed_null before) = free_null-IsHeld (History-IsHeld before)
  History-IsHeld (written x k headers before e w) =
      write-IsHeld x k headers (History-IsHeld before) e w
