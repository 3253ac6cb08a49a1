-- ===== src/Buddy/Pushing.antt =====
-- pushFreeBlock keeps the chains and puts the block in front of its bin.
use ely_square.Base.{
  ℕ, suc, ◌+◌, ◌-◌, ◌≤◌, ◌<◌, ◌≡◌, ◌≢◌, inl, inr, refl, ap, ◌∙◌, sym, arith, Bool, true, false,
  get_or, get_or-set_self, get_or-set_ne, ℕ_discrete, ◌==◌, if◌then◌else◌, ==_refl, ==_ne,
}
use ely_square.Buddy.{BuddyAllocator, null_offset, min_order, bin_count, push_free_block}
use ely_square.Buddy.Headers.{Spaced}
use ely_square.Buddy.Bins.{push_free_block-IsIndexed}
use ely_square.Buddy.Blocks.{
  Blocks, block, write_cell_ne, write_cell_self, write_cell-cases, eq_of_block,
}
use ely_square.Buddy.Partition.{mark_block}
use ely_square.Buddy.Pushed.{IsPushed, push_free_block-IsPushed}
use ely_square.Buddy.Chains.{IsChained}

module _ {cells : Blocks} {b : BuddyAllocator} (c : IsChained cells b)
    (real : (y j : ℕ) → cells y ≡ block j true → y ≢ null_offset)
    (spaced : (y z j i : ℕ) (f g : Bool)
      → cells y ≡ block j f
      → cells z ≡ block i g
      → y ≢ z
      → Spaced y z)
    (x k : ℕ) (ex : cells x ≡ block k false) (here : x ≢ null_offset) (lo : min_order ≤ k)
    (hi : k < min_order + bin_count) where
  abbrev old : ℕ
  old = get_or b.bins (k - min_order) null_offset

  abbrev more : BuddyAllocator
  more = push_free_block x k b

  abbrev all : Blocks
  all = mark_block cells x k true

  -- A block that is free already is another one.
  apart_from : (y j : ℕ) → cells y ≡ block j true → y ≢ x
  apart_from y j e same = absurd (cc (sym e ∙ ap cells same ∙ ex))

  away_block : (y j : ℕ) → cells y ≡ block j true → Spaced x y
  away_block y j e = spaced x y k j false true ex e (λ s. apart_from y j e (sym s))

  -- The block at the head of the bin so far.
  old_link :
      old ≢ null_offset → (cells old ≡ block k true) × ((b.headers old).prev_offset ≡ null_offset)
  old_link held =
      let (e, p) = c.head (k - min_order) (omega arith) held in
      (e ∙ ap (λ n. block n true) {x = k - min_order + min_order} {y = k} (omega arith), p)

  pub pushed : IsPushed x k old b more
  pushed =
      push_free_block-IsPushed x k b
        λ e. apart_from old k (old_link (λ null. here (e ∙ null))).0 (sym e)

  still : (y j : ℕ) → cells y ≡ block j true → all y ≡ block j true
  still y j e = write_cell_ne cells x y (block k true) (apart_from y j e) ∙ e

  abbrev rank : ℕ → ℕ
  rank a = if a == x then c.clock else c.rank a

  rank_self : rank x ≡ c.clock
  rank_self = rw (==_refl x) refl

  rank_other : (y j : ℕ) → cells y ≡ block j true → rank y ≡ c.rank y
  rank_other y j e = rw (==_ne y x (apart_from y j e)) refl

  -- A free block is the new one, or was free before.
  data NewOrOld (y j : ℕ) : Type 0 where
    new_one : y ≡ x → j ≡ k → NewOrOld y j
    old_one : cells y ≡ block j true → y ≢ x → NewOrOld y j

  origin : (y j : ℕ) → all y ≡ block j true → NewOrOld y j
  origin y j e = elim (write_cell-cases cells x y (block k true) (block j true) e) [
    | inl (same, blocks) ↦ new_one same (sym (eq_of_block blocks).0)
    | inr (ne, e') ↦ old_one e' ne
  ]

  push_next :
      (y j : ℕ)
      → NewOrOld y j
      → (more.headers y).next_offset ≢ null_offset
      → (all (more.headers y).next_offset ≡ block j true)
        × ((more.headers (more.headers y).next_offset).prev_offset ≡ y)
        × (rank (more.headers y).next_offset < rank y)
  push_next y j (new_one same order) =
      let goes : (more.headers y).next_offset ≡ old =
        ap (λ n. (more.headers n).next_offset) same ∙ ap (λ h. h.next_offset) pushed.header in
      rw goes λ held.
        let (e, p) = old_link held in
        (
          still old k e ∙ ap (λ n. block n true) (sym order),
          pushed.prev_old held ∙ sym same,
          omega (
            arith,
            rank_other old k e,
            c.in_time old k e,
            ap rank {x = y} {y = x} same,
            rank_self,
          ),
        )
  push_next y j (old_one e ne) = rw (pushed.next y (away_block y j e)) λ held.
      let m = (b.headers y).next_offset in
      let (em, back, less) = c.next y j e held in
      (
        still m j em,
        pushed.prev m (apart_from m j em) (λ same. real y j e (
              sym back
              ∙ ap (λ n. (b.headers n).prev_offset) same
              ∙ (old_link (λ null. held (same ∙ null))).1))
            ∙ back,
        omega (arith, rank_other m j em, rank_other y j e),
      )

  push_prev :
      (y j : ℕ)
      → NewOrOld y j
      → (more.headers y).prev_offset ≢ null_offset
      → (all (more.headers y).prev_offset ≡ block j true)
        × ((more.headers (more.headers y).prev_offset).next_offset ≡ y)
        × (rank y < rank (more.headers y).prev_offset)
  push_prev y j (new_one same order) = λ held.
      absurd
        (held (ap (λ n. (more.headers n).prev_offset) same ∙ ap (λ h. h.prev_offset) pushed.header))
  push_prev y j (old_one e ne) = elim (ℕ_discrete y old) [
    | yes same ↦
        let held : old ≢ null_offset = λ null. real y j e (same ∙ null) in
        let (eo, p) = old_link held in
        let goes : (more.headers y).prev_offset ≡ x =
          ap (λ n. (more.headers n).prev_offset) same ∙ pushed.prev_old held in
        rw goes λ _. (
          write_cell_self cells x (block k true)
              ∙ ap (λ n. block n true) (eq_of_block (sym eo ∙ ap cells (sym same) ∙ e)).0,
          ap (λ h. h.next_offset) pushed.header ∙ sym same,
          omega (arith, rank_self, rank_other y j e, c.in_time y j e),
        )
    | no away ↦ rw (pushed.prev y ne away) λ held.
        let m = (b.headers y).prev_offset in
        let (em, back, less) = c.prev y j e held in
        (
          still m j em,
          pushed.next m (away_block m j em) ∙ back,
          omega (arith, rank_other m j em, rank_other y j e),
        )
  ]

  in_bin : get_or more.bins (k - min_order) null_offset ≡ x
  in_bin =
      ap (λ l. get_or l (k - min_order) null_offset) pushed.bins
      ∙ get_or-set_self b.bins (k - min_order) x null_offset (omega (arith, c.indexed.count))

  push_first :
      (y j : ℕ)
      → NewOrOld y j
      → (more.headers y).prev_offset ≡ null_offset
      → get_or more.bins (j - min_order) null_offset ≡ y
  push_first y j (new_one same order) p = rw (same, order) in_bin
  push_first y j (old_one e ne) p = elim (ℕ_discrete y old) [
    | yes same ↦ absurd (
        here (
          sym (pushed.prev_old (λ null. real y j e (same ∙ null)))
          ∙ ap (λ n. (more.headers n).prev_offset) (sym same)
          ∙ p))
    | no away ↦
        let found = c.first y j e (sym (pushed.prev y ne away) ∙ p) in
        ap (λ l. get_or l (j - min_order) null_offset) pushed.bins
        ∙ get_or-set_ne b.bins (k - min_order) (j - min_order) x null_offset
            (λ bin. away (sym found ∙ ap (λ i. get_or b.bins i null_offset) (sym bin)))
        ∙ found
  ]

  push_head :
      (i : ℕ)
      → i < bin_count
      → get_or more.bins i null_offset ≢ null_offset
      → (all (get_or more.bins i null_offset) ≡ block (i + min_order) true)
        × ((more.headers (get_or more.bins i null_offset)).prev_offset ≡ null_offset)
  push_head i within = elim (ℕ_discrete (k - min_order) i) [
    | yes same ↦
        let goes : get_or more.bins i null_offset ≡ x =
          ap (λ n. get_or more.bins n null_offset) (sym same) ∙ in_bin in
        rw goes λ _. (
          write_cell_self cells x (block k true)
              ∙ ap (λ n. block n true) {x = k} {y = i + min_order} (omega arith),
          ap (λ h. h.prev_offset) pushed.header,
        )
    | no bin ↦
        let goes : get_or more.bins i null_offset ≡ get_or b.bins i null_offset =
          ap (λ l. get_or l i null_offset) pushed.bins
          ∙ get_or-set_ne b.bins (k - min_order) i x null_offset bin in
        rw goes λ held.
          let m = get_or b.bins i null_offset in
          let (e, p) = c.head i within held in
          (
            still m (i + min_order) e,
            pushed.prev m (apart_from m (i + min_order) e) (λ same. bin (
                  omega (
                    arith,
                    (eq_of_block (
                        sym ((old_link (λ null. held (same ∙ null))).0)
                        ∙ ap cells (sym same)
                        ∙ e)).0,
                  )))
                ∙ p,
          )
  ]

  -- A block that was in use joins the chain of its bin, at the front.
  pub push_free_block-IsChained : IsChained (mark_block cells x k true) (push_free_block x k b)
  push_free_block-IsChained = record {
    rank = rank;
    clock = suc c.clock;
    in_time = λ y j e. elim (origin y j e) [
      | new_one same order ↦ omega (arith, ap rank {x = y} {y = x} same, rank_self)
      | old_one e' ne ↦ omega (arith, rank_other y j e', c.in_time y j e')
    ];
    header = λ y j e. elim (origin y j e) [
      | new_one same order ↦
          rw (same, order)
            (ap (λ h. h.order) pushed.header ∙ omega arith, ap (λ h. h.is_free) pushed.header)
      | old_one e' ne ↦
          let (order, flag) = c.header y j e' in
          (pushed.order y (away_block y j e') ∙ order, pushed.is_free y (away_block y j e') ∙ flag)
    ];
    next = λ y j e. push_next y j (origin y j e);
    prev = λ y j e. push_prev y j (origin y j e);
    first = λ y j e. push_first y j (origin y j e);
    head = push_head;
    indexed = (push_free_block-IsIndexed x k b c.indexed lo hi here).0;
  }
