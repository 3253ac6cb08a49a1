-- ===== src/Buddy/Removal.antt =====
-- removeFreeBlock keeps the chains of the other free blocks.
use ely_square.Base.{
  ℕ, ◌+◌, ◌-◌, ◌≤◌, ◌<◌, ◌≡◌, ◌≢◌, inl, inr, ap, ◌∙◌, sym, arith, Bool, true, false, get_or,
  get_or-set_self, get_or-set_ne, ℕ_discrete,
}
use ely_square.Buddy.{BuddyAllocator, null_offset, min_order, bin_count, remove_free_block}
use ely_square.Buddy.Headers.{Spaced}
use ely_square.Buddy.Bins.{remove_free_block-IsIndexed}
use ely_square.Buddy.Blocks.{Blocks, block, write_cell_ne, write_cell-cases, eq_of_block}
use ely_square.Buddy.Partition.{mark_block}
use ely_square.Buddy.Unlinked.{IsUnlinked, remove_free_block-IsUnlinked}
use ely_square.Buddy.Chains.{IsChained, IsChained-holds}

module _ {cells : Blocks} {b : BuddyAllocator} (c : IsChained cells b)
    (real : (y j : ℕ) → cells y ≡ block j true → y ≢ null_offset)
    (spaced : (y z j i : ℕ) (f g : Bool)
      → cells y ≡ block j f
      → cells z ≡ block i g
      → y ≢ z
      → Spaced y z)
    (x k : ℕ) (ex : cells x ≡ block k true) (lo : min_order ≤ k)
    (hi : k < min_order + bin_count) where
  abbrev front : ℕ
  front = (b.headers x).prev_offset

  abbrev rear : ℕ
  rear = (b.headers x).next_offset

  abbrev left : BuddyAllocator
  left = remove_free_block x k b

  abbrev others : Blocks
  others = mark_block cells x k false

  pub unlinked : IsUnlinked x k b left
  unlinked =
      remove_free_block-IsUnlinked x k b (real x k ex)
        (λ e.
          let (_, _, less) = c.prev x k ex (λ null. real x k ex (e ∙ null)) in
          omega (arith, less, ap c.rank {x = x} {y = front} e))
        (λ held.
          let (ef, _, less) = c.prev x k ex held in
          spaced x front k k true true ex ef
            (λ e. omega (arith, less, ap c.rank {x = x} {y = front} e)))

  -- No block starts where the link of the block in front lies.
  pub away_front : (y j : ℕ) (f : Bool) → cells y ≡ block j f → front ≢ null_offset → y ≢ front + 16
  away_front y j f e held same =
      let (ef, _, _) = c.prev x k ex held in
      let far = spaced y front j k f true e ef (λ s. omega (arith, s, same)) in
      omega (arith, same, far)

  away_block : (y j : ℕ) → cells y ≡ block j true → y ≢ x → Spaced x y
  away_block y j e ne = spaced x y k j true true ex e (λ s. ne (sym s))

  other :
      (y j : ℕ) → others y ≡ block j true → (y ≢ x) × (cells y ≡ block j true) × (y ≢ null_offset)
  other y j e = elim (write_cell-cases cells x y (block k false) (block j true) e) [
    | inl (same, flags) ↦ absurd (cc flags)
    | inr (ne, e') ↦ (ne, e', real y j e')
  ]

  still : (y j : ℕ) → y ≢ x → cells y ≡ block j true → others y ≡ block j true
  still y j ne e = write_cell_ne cells x y (block k false) ne ∙ e

  -- The links of the block that is taken out.
  rear_link :
      rear ≢ null_offset
      → (others rear ≡ block k true) × ((b.headers rear).prev_offset ≡ x) × (c.rank rear < c.rank x)
  rear_link held =
      let (e, back, less) = c.next x k ex held in
      (still rear k (λ same. omega (arith, less, ap c.rank {x = rear} {y = x} same)) e, back, less)

  front_link :
      front ≢ null_offset
      → (others front ≡ block k true)
        × ((b.headers front).next_offset ≡ x)
        × (c.rank x < c.rank front)
  front_link held =
      let (e, back, less) = c.prev x k ex held in
      (
        still front k (λ same. omega (arith, less, ap c.rank {x = front} {y = x} same)) e,
        back,
        less,
      )

  order_of : (y j : ℕ) → y ≢ x → others y ≡ block k true → cells y ≡ block j true → j ≡ k
  order_of y j ne e e' = (eq_of_block (sym (still y j ne e') ∙ e)).0

  remove_next :
      (y j : ℕ)
      → others y ≡ block j true
      → (left.headers y).next_offset ≢ null_offset
      → (others (left.headers y).next_offset ≡ block j true)
        × ((left.headers (left.headers y).next_offset).prev_offset ≡ y)
        × (c.rank (left.headers y).next_offset < c.rank y)
  remove_next y j e =
      let (ne, e', here) = other y j e in
      elim (ℕ_discrete y front) [
        | yes same ↦
            let held : front ≢ null_offset = λ null. here (same ∙ null) in
            let (ef, _, less) = front_link held in
            let order = order_of y j ne (ap others same ∙ ef) e' in
            let goes : (left.headers y).next_offset ≡ rear =
              ap (λ m. (left.headers m).next_offset) same ∙ unlinked.next_front held in
            rw goes λ more.
              let (er, _, less') = rear_link more in
              (
                er ∙ ap (λ n. block n true) (sym order),
                unlinked.prev_rear more ∙ sym same,
                omega (arith, ap c.rank {x = y} {y = front} same),
              )
        | no away ↦ rw (unlinked.next y here away (away_block y j e' ne)) λ more.
            let m = (b.headers y).next_offset in
            let (em, back, less) = c.next y j e' more in
            (
              still m j (λ same. away (sym back ∙ ap (λ n. (b.headers n).prev_offset) same)) em,
              unlinked.prev m more (λ same. ne (
                    sym back
                    ∙ ap (λ n. (b.headers n).prev_offset) same
                    ∙ (rear_link (λ null. more (same ∙ null))).1))
                  ∙ back,
              less,
            )
      ]

  remove_prev :
      (y j : ℕ)
      → others y ≡ block j true
      → (left.headers y).prev_offset ≢ null_offset
      → (others (left.headers y).prev_offset ≡ block j true)
        × ((left.headers (left.headers y).prev_offset).next_offset ≡ y)
        × (c.rank y < c.rank (left.headers y).prev_offset)
  remove_prev y j e =
      let (ne, e', here) = other y j e in
      elim (ℕ_discrete y rear) [
        | yes same ↦
            let held : rear ≢ null_offset = λ null. here (same ∙ null) in
            let (er, _, less) = rear_link held in
            let order = order_of y j ne (ap others same ∙ er) e' in
            let goes : (left.headers y).prev_offset ≡ front =
              ap (λ m. (left.headers m).prev_offset) same ∙ unlinked.prev_rear held in
            rw goes λ more.
              let (ef, _, less') = front_link more in
              (
                ef ∙ ap (λ n. block n true) (sym order),
                unlinked.next_front more ∙ sym same,
                omega (arith, ap c.rank {x = y} {y = rear} same),
              )
        | no away ↦ rw (unlinked.prev y here away) λ more.
            let m = (b.headers y).prev_offset in
            let (em, back, less) = c.prev y j e' more in
            (
              still m j (λ same. away (sym back ∙ ap (λ n. (b.headers n).next_offset) same)) em,
              unlinked.next m more
                    (λ same. ne (
                      sym back
                      ∙ ap (λ n. (b.headers n).next_offset) same
                      ∙ (front_link (λ null. more (same ∙ null))).1))
                    (away_block m j em
                      (λ same. away (sym back ∙ ap (λ n. (b.headers n).next_offset) same)))
                  ∙ back,
              less,
            )
      ]

  remove_first :
      (y j : ℕ)
      → others y ≡ block j true
      → (left.headers y).prev_offset ≡ null_offset
      → get_or left.bins (j - min_order) null_offset ≡ y
  remove_first y j e p =
      let (ne, e', here) = other y j e in
      elim (ℕ_discrete y rear) [
        | yes same ↦
            let held : rear ≢ null_offset = λ null. here (same ∙ null) in
            let (er, _, less) = rear_link held in
            let order = order_of y j ne (ap others same ∙ er) e' in
            let null : front ≡ null_offset =
              sym (unlinked.prev_rear held)
              ∙ ap (λ m. (left.headers m).prev_offset) (sym same)
              ∙ p in
            rw (unlinked.bins_first null, order)
              (get_or-set_self b.bins (k - min_order) rear null_offset
                  (omega (arith, c.indexed.count))
                ∙ sym same)
        | no away ↦
            let found = c.first y j e' (sym (unlinked.prev y here away) ∙ p) in
            elim (ℕ_discrete front null_offset) [
              | yes null ↦ elim (ℕ_discrete (k - min_order) (j - min_order)) [
                | yes same ↦ absurd (
                    ne (
                      sym found
                      ∙ ap (λ i. get_or b.bins i null_offset) (sym same)
                      ∙ c.first x k ex null))
                | no bin ↦ rw (unlinked.bins_first null) (
                    get_or-set_ne b.bins (k - min_order) (j - min_order) rear null_offset bin
                    ∙ found)
              ]
              | no held ↦ rw (unlinked.bins held) found
            ]
      ]

  -- The head of a bin that still has one, where it was before.
  head_kept :
      (i m : ℕ)
      → cells m ≡ block (i + min_order) true
      → (b.headers m).prev_offset ≡ null_offset
      → m ≢ x
      → (others m ≡ block (i + min_order) true) × ((left.headers m).prev_offset ≡ null_offset)
  head_kept i m e p ne =
      let here = real m (i + min_order) e in
      (
        still m (i + min_order) ne e,
        unlinked.prev m here (λ same. real x k ex (
              sym ((rear_link (λ null. here (same ∙ null))).1)
              ∙ ap (λ n. (b.headers n).prev_offset) (sym same)
              ∙ p))
            ∙ p,
      )

  remove_head :
      (i : ℕ)
      → i < bin_count
      → get_or left.bins i null_offset ≢ null_offset
      → (others (get_or left.bins i null_offset) ≡ block (i + min_order) true)
        × ((left.headers (get_or left.bins i null_offset)).prev_offset ≡ null_offset)
  remove_head i within = elim (ℕ_discrete front null_offset) [
    | no held ↦ rw (unlinked.bins held) λ more.
        let (e, p) = c.head i within more in
        head_kept i (get_or b.bins i null_offset) e p
          (λ same. held (ap (λ n. (b.headers n).prev_offset) (sym same) ∙ p))
    | yes null ↦ elim (ℕ_discrete (k - min_order) i) [
      | yes same ↦
          let goes : get_or left.bins i null_offset ≡ rear =
            ap (λ l. get_or l i null_offset) (unlinked.bins_first null)
            ∙ rw (sym same) (
                get_or-set_self b.bins (k - min_order) rear null_offset
                  (omega (arith, c.indexed.count))) in
          rw goes λ more.
            let (e, _, _) = rear_link more in
            (
              e ∙ ap (λ n. block n true) {x = k} {y = i + min_order} (omega arith),
              unlinked.prev_rear more ∙ null,
            )
      | no bin ↦
          let goes : get_or left.bins i null_offset ≡ get_or b.bins i null_offset =
            ap (λ l. get_or l i null_offset) (unlinked.bins_first null)
            ∙ get_or-set_ne b.bins (k - min_order) i rear null_offset bin in
          rw goes λ more.
            let (e, p) = c.head i within more in
            head_kept i (get_or b.bins i null_offset) e p
              (λ same. bin (omega (arith, (eq_of_block (sym e ∙ ap cells same ∙ ex)).0)))
    ]
  ]

  -- Taking a free block out of its bin leaves the chains of the other free blocks.
  pub remove_free_block-IsChained : IsChained (mark_block cells x k false) (remove_free_block x k b)
  remove_free_block-IsChained = record {
    rank = c.rank;
    clock = c.clock;
    in_time = λ y j e. c.in_time y j (other y j e).1;
    header = λ y j e.
        let (ne, e', here) = other y j e in
        let (order, flag) = c.header y j e' in
        (
          unlinked.order y (away_front y j true e') ∙ order,
          unlinked.is_free y ne (away_front y j true e') ∙ flag,
        );
    next = remove_next;
    prev = remove_prev;
    first = remove_first;
    head = remove_head;
    indexed =
        remove_free_block-IsIndexed x k b c.indexed lo hi
          (IsChained-holds c x k ex (λ y e. real y k e));
  }
