-- ===== src/Atoms/Table/Sweep.antt =====
-- sweepPlaces: what it frees, and what it leaves. Nothing of the program marks a place alive.
use mathlib.Core.Path.{subst}
use ely_square.Base.{
  ℕ, zero, suc, ◌+◌, ◌<◌, ◌≤◌, ◌≡◌, inl, inr, refl, sym, ap, ◌∙◌, arith, true, false, Bool-cases,
  some, ◌&&◌, length, ok, ℕ_discrete, ltb, ltb→lt, ltb_false→le,
}
use ely_square.Atoms.Table.Round.{
  count_from, is_dead, recycle_texts, count_from-Agree, recycle_texts-Agree, Step, HasRef,
  sweep_place-Step,
}
use ely_square.Atoms.Table.{Alar, place_at, is_used, is_marked_alive, sweep_from, sweep_places}

-- What a sweep of the places from `lo` up to `hi` does.
record Swept (lo hi : ℕ) (a a' : Alar) : Type 0 where
  there : (j : ℕ) → lo ≤ j → j < hi → is_used a' j ≡ (is_used a j && is_marked_alive (place_at a j))
  earlier : (j : ℕ) → j < lo → is_used a' j ≡ is_used a j
  later : (j : ℕ) → hi ≤ j → is_used a' j ≡ is_used a j
  clears : (j : ℕ) → lo ≤ j → j < hi → is_used a' j ≡ true → is_marked_alive (place_at a' j) ≡ false
  stays : (j : ℕ) → is_marked_alive (place_at a j) ≡ false → is_marked_alive (place_at a' j) ≡ false
  created : a'.created_places_count ≡ a.created_places_count

-- A round, and the rounds behind it.
Step-Swept :
    {i hi : ℕ} {a b a' : Alar} → i < hi → Step i a b → Swept (suc i) hi b a' → Swept i hi a a'
Step-Swept {i} {hi} {a} {b} {a'} room t w = record {
  there = λ j lo below. elim (ℕ_discrete j i) [
    | yes same ↦
        ap (is_used a') same
        ∙ w.earlier i (omega arith)
        ∙ t.there
        ∙ ap (λ n. is_used a n && is_marked_alive (place_at a n)) (sym same)
    | no ne ↦
        w.there j (omega arith) below
        ∙ rw (t.later.used j (omega arith), t.later.place j (omega arith)) refl
  ];
  earlier = λ j h. w.earlier j (omega arith) ∙ t.earlier j h;
  later = λ j h. w.later j h ∙ t.later.used j (omega arith);
  clears = λ j lo below used. elim (ℕ_discrete j i) [
    | yes same ↦
        ap (λ n. is_marked_alive (place_at a' n)) same
        ∙ w.stays i (t.clears (sym (w.earlier i (omega arith)) ∙ ap (is_used a') (sym same) ∙ used))
    | no ne ↦ w.clears j (omega arith) below used
  ];
  stays = λ j e. w.stays j (t.stays j e);
  created = w.created ∙ t.created;
}

later-HasRef :
    {i : ℕ} {a b : Alar}
    → Step i a b
    → ((j : ℕ) → i ≤ j → HasRef a j)
    → (j : ℕ) → suc i ≤ j
    → HasRef b j
later-HasRef t refs j h used =
    let (p, at) = refs j (omega arith) (sym (t.later.used j h) ∙ used) in
    (p, ap (λ place. place.ref) (t.later.place j h) ∙ at)

sweep_from-Swept :
    (count i : ℕ) (a : Alar)
    → ((j : ℕ) → i ≤ j → HasRef a j)
    → i + count ≤ length a.idmap
    → i + count ≤ length a.placelist
    → (a' : Alar) × (sweep_from count i a ≡ ok (count_from (is_dead a) count i, a'))
      × Swept i (i + count) a a'
      × (a'.arena ≡ recycle_texts a count i a.arena)
unfolding sweep_from count_from recycle_texts
sweep_from-Swept zero i a refs slots places = (
  a,
  refl,
  record {
    there = λ j lo hi. absurd (omega arith);
    earlier = λ j h. refl;
    later = λ j h. refl;
    clears = λ j lo hi. absurd (omega arith);
    stays = λ j e. e;
    created = refl;
  },
  refl,
)
sweep_from-Swept (suc count) i a refs slots places =
    let (b, round, t) = sweep_place-Step i a (omega arith) (omega arith) (refs i (omega arith)) in
    let (a', runs, w, arena) =
      sweep_from-Swept count (suc i) b (later-HasRef t refs) (omega (arith, t.slots))
        (omega (arith, t.places)) in
    (
      a',
      rw (round, runs, count_from-Agree count (suc i) a b t.later) refl,
      Step-Swept (omega arith) t (subst (λ n. Swept (suc i) n b a') (omega arith) w),
      arena
          ∙ recycle_texts-Agree count (suc i) a b b.arena t.later
          ∙ ap (recycle_texts a count (suc i)) t.arena,
    )

-- The places in use are created and have a text, and the arrays have a slot for each.
pub record IsSweepable (a : Alar) : Type 0 where
  pub below : (i : ℕ) → is_used a i ≡ true → i < a.created_places_count
  pub ref : (i : ℕ) → is_used a i ≡ true → (p : ℕ) × ((place_at a i).ref ≡ some p)
  pub slots : a.created_places_count ≤ length a.idmap
  pub places : a.created_places_count ≤ length a.placelist

-- On a table whose places in use are created and have a text, with or without a mark, a sweep returns
-- the number of places in use without a mark, and recycles the texts of just these, in order. In use
-- afterwards are just the places that had a mark, and they have none any more. The number of places
-- created stays.
pub sweep_places-Swept :
    (a : Alar)
    → IsSweepable a
    → (a' : Alar) × (sweep_places a ≡ ok (count_from (is_dead a) a.created_places_count 0, a'))
      × (a'.arena ≡ recycle_texts a a.created_places_count 0 a.arena)
      × ((i : ℕ) → is_used a' i ≡ (is_used a i && is_marked_alive (place_at a i)))
      × ((i : ℕ) → is_used a' i ≡ true → is_marked_alive (place_at a' i) ≡ false)
      × (a'.created_places_count ≡ a.created_places_count)
unfolding sweep_places
sweep_places-Swept a v =
    let n = a.created_places_count in
    let (a', runs, w, arena) =
      sweep_from-Swept n 0 a (λ j h. v.ref j) (omega (arith, v.slots)) (omega (arith, v.places)) in
    let past : (i : ℕ) → n ≤ i → is_used a i ≡ false = λ i h. elim (Bool-cases (is_used a i)) [
      | inl used ↦ absurd (omega (arith, h, v.below i used))
      | inr unused ↦ unused
    ] in
    (
      a',
      runs,
      arena,
      λ i. elim (Bool-cases (ltb i n)) [
        | inl e ↦ w.there i (omega arith) (omega (arith, ltb→lt i n e))
        | inr e ↦
            let h = ltb_false→le i n e in
            w.later i (omega (arith, h)) ∙ past i h ∙ sym (rw (past i h) refl)
      ],
      λ i used. elim (Bool-cases (ltb i n)) [
        | inl e ↦ w.clears i (omega arith) (omega (arith, ltb→lt i n e)) used
        | inr e ↦
            let h = ltb_false→le i n e in cc (sym used ∙ w.later i (omega (arith, h)) ∙ past i h)
      ],
      w.created,
    )
