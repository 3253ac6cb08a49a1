-- ===== src/ShapeMap/Heap/Sweep/Killed.antt =====
-- One round of sweepOrphanedShapes of lowcode/source/meta/shape_map.cpp: a shape that is not marked is
-- taken out of the list and of its parent's table.
use mathlib.Core.Path.{subst}
use mathlib.Core.List.{Memᴰ}
use mathlib.Core.List.Memᴰ.{head, tail}
use ely_square.Base.{
  ==_refl, ==_ne, ◌*◌, length, ℕ, ◌≡◌, ◌≢◌, refl, sym, ap, ◌∙◌, false, Bool-cases, inl, inr, Option,
  some, List, ◌∷◌, ◌==◌, ok, ◌>>=◌, ℕ_discrete,
}
use ely_square.MetaArena.Serves.{last-metarecycle, last-set_last_allocated_shape}
use ely_square.ShapeMap.{TransitionEntry, Shape, Shapes, is_shape_alive}
use ely_square.ShapeMap.Queries.{entries}
use ely_square.ShapeMap.Heap.{ShapeHeap, update}
use ely_square.ShapeMap.Heap.Growth.{update_here, update_elsewhere}
use ely_square.ShapeMap.Heap.Sweep.{remove_entry, unlink, forget_shape, kill_shape, sweep_shape}
use ely_square.ShapeMap.Heap.Sweep.Entries.{HasTarget, remove_entry-HasTarget}
use ely_square.ShapeMap.Heap.Sweep.Steps.{TopOf, Framed, mem_ne}
use ely_square.ShapeMap.Heap.Sweep.Fields.{
  same_field, with_prev, above, above_field, above_elsewhere, above_here,
}

module _ (h : ShapeHeap) (p q r : ℕ) (qs : List ℕ)
    (back : (h.shapes p).prev_shape_in_arena ≡ some q)
    (forth : (h.shapes q).next_shape_in_arena ≡ some p) (up : (h.shapes p).parent_shape ≡ some r)
    (below : Memᴰ r (q ∷ qs)) (target : HasTarget p (entries (h.shapes r)))
    (self : ¬ Memᴰ p (q ∷ qs)) (top : TopOf h.shapes p (q ∷ qs)) (junk : ℕ → Shape) where
  abbrev next : Option ℕ
  next = (h.shapes p).next_shape_in_arena

  abbrev moved : Shapes
  moved = above next q h.shapes

  abbrev next_moved : Shape → Shape
  next_moved s = record s { next_shape_in_arena = (moved p).next_shape_in_arena }

  abbrev unlinked : Shapes
  unlinked = update q next_moved moved

  unlink-unlinked : (unlink p q h).shapes ≡ unlinked
  unlink-unlinked = refl

  -- The shapes below are moved nowhere.
  moved_below : (x : ℕ) → Memᴰ x (q ∷ qs) → moved x ≡ h.shapes x
  moved_below x m =
      above_elsewhere next q h.shapes x
        (λ n e same. top n e (tail (subst (λ y. Memᴰ y (q ∷ qs)) same m)))

  unlinked_field :
      {A : Type 0} (field : Shape → A)
      → ((s : Shape) → field (with_prev q s) ≡ field s)
      → ((s : Shape) → field (next_moved s) ≡ field s)
      → (x : ℕ) → field (unlinked x) ≡ field (h.shapes x)
  unlinked_field field same same' x =
      same_field field q next_moved moved same' x ∙ above_field field next q h.shapes same x

  module _ (table : List TransitionEntry)
      (removed : remove_entry p (entries (h.shapes r)) ≡ ok table)
      (others : (t : ℕ) → t ≢ p → HasTarget t (entries (h.shapes r)) → HasTarget t table) where
    abbrev with_table : Shape → Shape
    with_table s = record s { transition_table = some table }

    abbrev forgotten : Shapes
    forgotten = update r with_table unlinked

    abbrev killed : Shapes
    killed = update p (λ s. junk p) forgotten

    killed_elsewhere : (x : ℕ) → x ≢ p → killed x ≡ forgotten x
    killed_elsewhere x ne = update_elsewhere p (λ s. junk p) forgotten x ne

    below_field :
        {A : Type 0} (field : Shape → A)
        → ((s : Shape) → field (with_table s) ≡ field s)
        → (x : ℕ) → x ≢ p
        → field (killed x) ≡ field (unlinked x)
    below_field field same x ne =
        ap field (killed_elsewhere x ne) ∙ same_field field r with_table unlinked same x

    killed-Framed : Framed h.shapes killed p q qs
    killed-Framed = record {
      prev = λ x m.
          below_field (λ s. s.prev_shape_in_arena) (λ s. refl) x (mem_ne m self)
          ∙ same_field (λ s. s.prev_shape_in_arena) q next_moved moved (λ s. refl) x
          ∙ ap (λ s. s.prev_shape_in_arena) (moved_below x m);
      parent = λ x m.
          below_field (λ s. s.parent_shape) (λ s. refl) x (mem_ne m self)
          ∙ unlinked_field (λ s. s.parent_shape) (λ s. refl) (λ s. refl) x;
      next = λ x m ne.
          below_field (λ s. s.next_shape_in_arena) (λ s. refl) x (mem_ne (tail m) self)
          ∙ ap (λ s. s.next_shape_in_arena)
              (update_elsewhere q next_moved moved x ne ∙ moved_below x (tail m));
      targets = λ x t m ne has. elim (ℕ_discrete x r) [
        | yes e ↦
            subst (λ s. HasTarget t (entries s))
              (sym (
                killed_elsewhere x (mem_ne m self)
                ∙ ap forgotten e
                ∙ update_here r with_table unlinked))
              (others t ne (subst (λ y. HasTarget t (entries (h.shapes y))) e has))
        | no ne' ↦
            subst (HasTarget t)
              (sym (
                ap entries (
                  killed_elsewhere x (mem_ne m self) ∙ update_elsewhere r with_table unlinked x ne')
                ∙ unlinked_field entries (λ s. refl) (λ s. refl) x))
              has
      ];
      flags = λ x ne.
          below_field (λ s. s.shape_flags) (λ s. refl) x ne
          ∙ unlinked_field (λ s. s.shape_flags) (λ s. refl) (λ s. refl) x;
      top = λ n e m.
          top n
            (sym (above_field (λ s. s.next_shape_in_arena) next q h.shapes (λ s. refl) p)
              ∙ sym (
                  below_field (λ s. s.next_shape_in_arena) (λ s. refl) q (mem_ne (head refl) self)
                  ∙ ap (λ s. s.next_shape_in_arena) (update_here q next_moved moved))
              ∙ e)
            (tail m);
      parent_beyond = λ x ne.
          below_field (λ s. s.parent_shape) (λ s. refl) x ne
          ∙ unlinked_field (λ s. s.parent_shape) (λ s. refl) (λ s. refl) x;
      next_beyond = λ x ne ne'.
          below_field (λ s. s.next_shape_in_arena) (λ s. refl) x ne
          ∙ ap (λ s. s.next_shape_in_arena) (update_elsewhere q next_moved moved x ne')
          ∙ above_field (λ s. s.next_shape_in_arena) next q h.shapes (λ s. refl) x;
      prev_beyond = λ x ne away.
          below_field (λ s. s.prev_shape_in_arena) (λ s. refl) x ne
          ∙ same_field (λ s. s.prev_shape_in_arena) q next_moved moved (λ s. refl) x
          ∙ ap (λ s. s.prev_shape_in_arena)
              (above_elsewhere next q h.shapes x (λ n e same. away (e ∙ ap some (sym same))));
      entries_beyond = λ x ne away.
          ap entries (
            killed_elsewhere x ne
            ∙ update_elsewhere r with_table unlinked x
                (λ e. away (subst (λ y. Memᴰ y (q ∷ qs)) (sym e) below)))
          ∙ unlinked_field entries (λ s. refl) (λ s. refl) x;
    }

    killed-next : (killed q).next_shape_in_arena ≡ (h.shapes p).next_shape_in_arena
    killed-next =
        below_field (λ s. s.next_shape_in_arena) (λ s. refl) q (mem_ne (head refl) self)
        ∙ ap (λ s. s.next_shape_in_arena) (update_here q next_moved moved)
        ∙ above_field (λ s. s.next_shape_in_arena) next q h.shapes (λ s. refl) p

    killed-prev : (n : ℕ) → next ≡ some n → (killed n).prev_shape_in_arena ≡ some q
    killed-prev n e =
        below_field (λ s. s.prev_shape_in_arena) (λ s. refl) n (λ same. top n e (head same))
        ∙ same_field (λ s. s.prev_shape_in_arena) q next_moved moved (λ s. refl) n
        ∙ above_here next q h.shapes n e

  kill_shape-last :
      (g : ShapeHeap)
      → (kill_shape junk p g).meta.last_allocated_shape ≡ g.meta.last_allocated_shape
  unfolding kill_shape
  kill_shape-last g =
      let dead = g.shapes p in
      elim (Bool-cases (length dead.prop_array == 0)) [
        | inl e ↦ elim (Bool-cases (dead.transition_capacity == 0)) [
          | inl e' ↦ rw (e, e') (last-metarecycle (some p) 64 g.meta)
          | inr e' ↦
              rw (e, e')
                (last-metarecycle (some p) 64 _
                  ∙ last-metarecycle dead.table_address (16 * dead.transition_capacity) g.meta)
        ]
        | inr e ↦ elim (Bool-cases (dead.transition_capacity == 0)) [
          | inl e' ↦
              rw (e, e')
                (last-metarecycle (some p) 64 _
                  ∙ last-metarecycle dead.prop_address (8 * length dead.prop_array) g.meta)
          | inr e' ↦
              rw (e, e')
                (last-metarecycle (some p) 64 _
                  ∙ last-metarecycle dead.table_address (16 * dead.transition_capacity) _
                  ∙ last-metarecycle dead.prop_address (8 * length dead.prop_array) g.meta)
        ]
      ]

  unlink-last :
      h.meta.last_allocated_shape ≡ some p → (unlink p q h).meta.last_allocated_shape ≡ some q
  unlink-last e = rw (e, ==_refl p) (last-set_last_allocated_shape q h.meta)

  unlink-last_other :
      (l : ℕ)
      → l ≢ p
      → h.meta.last_allocated_shape ≡ some l
      → (unlink p q h).meta.last_allocated_shape ≡ some l
  unlink-last_other l ne e = rw (e, ==_ne p l (λ same. ne (sym same))) e

  unlinked_parent : (unlinked p).parent_shape ≡ some r
  unlinked_parent = unlinked_field (λ s. s.parent_shape) (λ s. refl) (λ s. refl) p ∙ up

  entries-unlinked : entries (unlinked r) ≡ entries (h.shapes r)
  entries-unlinked = unlinked_field entries (λ s. refl) (λ s. refl) r

  forgets :
      (table : List TransitionEntry)
      → remove_entry p (entries (h.shapes r)) ≡ ok table
      → forget_shape p h
        ≡ ok (record (unlink p q h) {
          shapes = update r (λ s. record s { transition_table = some table }) unlinked;
        })
  unfolding forget_shape
  forgets table removed =
      rw (forget_shape, back)
        (rw unlinked_parent (
          ap
            (λ o. o >>= λ t. ok (record (unlink p q h) {
              shapes = update r (λ s. record s { transition_table = some t }) unlinked;
            }))
            (ap (remove_entry p) entries-unlinked ∙ removed)))

  -- A shape that is not is forgotten and killed.
  pub dead_round :
      is_shape_alive (h.shapes p) ≡ false
      → (h' : ShapeHeap) × (sweep_shape junk p h ≡ ok (1, h'))
        × Framed h.shapes h'.shapes p q qs
        × ((h'.shapes q).next_shape_in_arena ≡ (h.shapes p).next_shape_in_arena)
        × ((n : ℕ)
            → (h.shapes p).next_shape_in_arena ≡ some n
            → (h'.shapes n).prev_shape_in_arena ≡ some q)
        × (h.meta.last_allocated_shape ≡ some p → h'.meta.last_allocated_shape ≡ some q)
        × ((l : ℕ)
            → l ≢ p
            → h.meta.last_allocated_shape ≡ some l
            → h'.meta.last_allocated_shape ≡ some l)
  unfolding sweep_shape kill_shape
  dead_round dead =
      let (table, removed, fewer, others) =
        remove_entry-HasTarget p (entries (h.shapes r)) target in
      (
        kill_shape junk p (record (unlink p q h) { shapes = forgotten table removed others }),
        rw (dead, forgets table removed) refl,
        killed-Framed table removed others,
        killed-next table removed others,
        killed-prev table removed others,
        λ e.
            kill_shape-last (record (unlink p q h) { shapes = forgotten table removed others })
            ∙ unlink-last e,
        λ l ne e.
            kill_shape-last (record (unlink p q h) { shapes = forgotten table removed others })
            ∙ unlink-last_other l ne e,
      )
