-- ===== src/Buddy/Pushed.antt =====
-- The headers after a free block is pushed on a bin, field by field.
use ely_square.Base.{
  ℕ, ◌-◌, ◌%◌, ◌≡◌, ◌≢◌, inl, inr, refl, ap, ◌∙◌, arith, true, ◌==◌, ==_refl, ==_iff, Bool-cases,
  get_or, set,
}
use ely_square.Buddy.{
  FreeBlockHeader, BuddyAllocator, Headers, null_offset, min_order, push_free_block, write_tag,
  write_next_offset, write_prev_offset,
}
use ely_square.Buddy.Headers.{
  Spaced, write_tag_tag, write_tag_prev, write_tag_next, write_next_next, write_next_prev,
  write_next_tag, write_prev_self, write_prev_ne, write_prev_rest,
}

-- What the header of a block that becomes free is, in front of the old head of its bin.
abbrev pub freed : (order old_head : ℕ) → FreeBlockHeader
freed order old_head = record {
  order = order % 128;
  is_free = true;
  next_offset = old_head;
  prev_offset = null_offset;
}

-- `c` is `b` with the block at `x` in front of its bin, where `old` was.
pub record IsPushed (x k old : ℕ) (b c : BuddyAllocator) : Type 0 where
  pub base : c.base ≡ b.base
  pub pages : c.pages ≡ b.pages
  pub bins : c.bins ≡ set b.bins (k - min_order) x
  pub header : c.headers x ≡ freed k old
  pub next : (a : ℕ) → Spaced x a → (c.headers a).next_offset ≡ (b.headers a).next_offset
  pub order : (a : ℕ) → Spaced x a → (c.headers a).order ≡ (b.headers a).order
  pub is_free : (a : ℕ) → Spaced x a → (c.headers a).is_free ≡ (b.headers a).is_free
  pub prev_old : old ≢ null_offset → (c.headers old).prev_offset ≡ x
  pub prev : (a : ℕ) → a ≢ x → a ≢ old → (c.headers a).prev_offset ≡ (b.headers a).prev_offset

-- The header of the block itself is written.
module _ (x k old : ℕ) (b : BuddyAllocator) where
  abbrev tagged : Headers
  tagged = write_tag b.headers x (k % 128) true

  abbrev linked : Headers
  linked = write_next_offset tagged x old

  abbrev own : Headers
  own = write_prev_offset linked x null_offset

  own_header : own x ≡ freed k old
  own_header = rw (==_refl x) refl

  own_next : (a : ℕ) → Spaced x a → (own a).next_offset ≡ (b.headers a).next_offset
  own_next a far =
      (write_prev_rest linked x null_offset a).0
      ∙ write_next_next tagged x old a (λ e. omega (arith, far, e))
      ∙ write_tag_next b.headers x (k % 128) true a (λ e. omega (arith, far, e))

  own_tag :
      (a : ℕ)
      → Spaced x a
      → ((own a).order ≡ (b.headers a).order) × ((own a).is_free ≡ (b.headers a).is_free)
  own_tag a far =
      let (_, order, flag) = write_prev_rest linked x null_offset a in
      let (order', flag') = write_next_tag tagged x old a (λ e. omega (arith, far, e)) in
      let (order'', flag'') =
        write_tag_tag b.headers x (k % 128) true a (λ e. omega (arith, far, e)) in
      (order ∙ order' ∙ order'', flag ∙ flag' ∙ flag'')

  own_prev : (a : ℕ) → a ≢ x → (own a).prev_offset ≡ (b.headers a).prev_offset
  own_prev a ne =
      ap (λ h. h.prev_offset) (write_prev_ne linked x null_offset a ne)
      ∙ write_next_prev tagged x old a
      ∙ write_tag_prev b.headers x (k % 128) true a

-- Pushing a block that is not at the head of the bin already.
pub push_free_block-IsPushed :
    (x k : ℕ) (b : BuddyAllocator)
    → x ≢ get_or b.bins (k - min_order) null_offset
    → IsPushed x k (get_or b.bins (k - min_order) null_offset) b (push_free_block x k b)
unfolding push_free_block
push_free_block-IsPushed x k b ne =
    let old = get_or b.bins (k - min_order) null_offset in
    let header = own_header x k old b in
    let next = own_next x k old b in
    let tag = own_tag x k old b in
    let prev = own_prev x k old b in
    let mine = own x k old b in
    elim (Bool-cases (old == null_offset)) [
      | inl e ↦
          let null : old ≡ null_offset = (==_iff old null_offset).0 e in
          rw (push_free_block, e)
            record {
              base = refl;
              pages = refl;
              bins = refl;
              header = header;
              next = next;
              order = λ a far. (tag a far).0;
              is_free = λ a far. (tag a far).1;
              prev_old = λ held. absurd (held null);
              prev = λ a away away'. prev a away;
            }
      | inr e ↦
          rw (push_free_block, e)
            record {
              base = refl;
              pages = refl;
              bins = refl;
              header = write_prev_ne mine old x x ne ∙ header;
              next = λ a far. (write_prev_rest mine old x a).0 ∙ next a far;
              order = λ a far. (write_prev_rest mine old x a).1 ∙ (tag a far).0;
              is_free = λ a far. (write_prev_rest mine old x a).2 ∙ (tag a far).1;
              prev_old = λ held. ap (λ h. h.prev_offset) (write_prev_self mine old x);
              prev = λ a away away'.
                  ap (λ h. h.prev_offset) (write_prev_ne mine old x a away') ∙ prev a away;
            }
    ]
