-- ===== src/Atoms/Table/Round.antt =====
-- One round of sweepPlaces, at the place of an index.
use ely_square.Base.{
  ℕ, zero, suc, ◌+◌, ◌/◌, ◌%◌, ◌^◌, ◌<◌, ◌≤◌, ◌≡◌, ◌≢◌, inl, inr, refl, sym, ap, ◌∙◌, arith, Bool,
  true, false, Bool-cases, some, not, ◌&&◌, if◌then◌else◌, length, get_or, set, ok, ==_iff, List,
  ℕ_discrete, get_or-set_self, get_or-set_ne, length-set,
}
use ely_square.MetaArena.{MetaArena, metarecycle}
use ely_square.Atoms.Table.{
  StarPlace, no_place, Alar, place_at, len, is_used, is_marked_alive, set_marked_alive, sweep_place,
}

-- How many of the `count` indices from `i` on pass the test.
unfoldable pub count_from : (ℕ → Bool) → (count i : ℕ) → ℕ
count_from p zero i = 0
count_from p (suc count) i = (if p i then 1 else 0) + count_from p count (suc i)

-- A place in use whose mark is not set.
abbrev pub is_dead : Alar → ℕ → Bool
is_dead a i = is_used a i && not (is_marked_alive (place_at a i))

abbrev pub recycle_text : Alar → ℕ → MetaArena → MetaArena
recycle_text a i m =
    if is_dead a i then metarecycle (place_at a i).ref (len (place_at a i)) m else m

-- The arena after the texts of the dead places among `count` places from `i` on are recycled in turn,
-- each with its place's length.
unfoldable pub recycle_texts : Alar → (count i : ℕ) → MetaArena → MetaArena
recycle_texts a zero i m = m
recycle_texts a (suc count) i m = recycle_texts a count (suc i) (recycle_text a i m)

-- From index `i` on, `b` has the same places as `a`, used alike.
pub record Agree (i : ℕ) (a b : Alar) : Type 0 where
  pub used : (j : ℕ) → i ≤ j → is_used b j ≡ is_used a j
  pub place : (j : ℕ) → i ≤ j → place_at b j ≡ place_at a j

Agree-suc : {i : ℕ} {a b : Alar} → Agree i a b → Agree (suc i) a b
Agree-suc g = record {
  used = λ j h. g.used j (omega arith);
  place = λ j h. g.place j (omega arith);
}

Agree-dead : {i : ℕ} {a b : Alar} → Agree i a b → (j : ℕ) → i ≤ j → is_dead b j ≡ is_dead a j
Agree-dead g j h = rw (g.used j h, g.place j h) refl

pub count_from-Agree :
    (count i : ℕ) (a b : Alar)
    → Agree i a b
    → count_from (is_dead b) count i ≡ count_from (is_dead a) count i
unfolding count_from
count_from-Agree zero i a b g = refl
count_from-Agree (suc count) i a b g =
    rw (Agree-dead g i (omega arith), count_from-Agree count (suc i) a b (Agree-suc g)) refl

pub recycle_texts-Agree :
    (count i : ℕ) (a b : Alar) (m : MetaArena)
    → Agree i a b
    → recycle_texts b count i m ≡ recycle_texts a count i m
unfolding recycle_texts
recycle_texts-Agree zero i a b m g = refl
recycle_texts-Agree (suc count) i a b m g =
    rw (Agree-dead g i (omega arith), g.place i (omega arith))
      (recycle_texts-Agree count (suc i) a b (recycle_text a i m) (Agree-suc g))

-- What one round does at index `i`.
pub record Step (i : ℕ) (a b : Alar) : Type 0 where
  pub there : is_used b i ≡ (is_used a i && is_marked_alive (place_at a i))
  pub earlier : (j : ℕ) → j < i → is_used b j ≡ is_used a j
  pub later : Agree (suc i) a b
  pub clears : is_used b i ≡ true → is_marked_alive (place_at b i) ≡ false
  pub stays :
      (j : ℕ) → is_marked_alive (place_at a j) ≡ false → is_marked_alive (place_at b j) ≡ false
  pub created : b.created_places_count ≡ a.created_places_count
  pub slots : length b.idmap ≡ length a.idmap
  pub places : length b.placelist ≡ length a.placelist
  pub arena : b.arena ≡ recycle_text a i a.arena

unmarked_place : (place : StarPlace) → is_marked_alive (set_marked_alive false place) ≡ false
unfolding is_marked_alive set_marked_alive
unmarked_place place = rw ((==_iff (len place / 2 ^ 63 % 2) 0).1 (omega arith)) refl

-- A place that changes to one without a mark leaves the others without their marks.
set-stays :
    (ps : List StarPlace) (i j : ℕ) (place : StarPlace)
    → i < length ps
    → is_marked_alive place ≡ false
    → is_marked_alive (get_or ps j no_place) ≡ false
    → is_marked_alive (get_or (set ps i place) j no_place) ≡ false
set-stays ps i j place inside e other = elim (ℕ_discrete i j) [
  | yes same ↦
      ap (λ n. is_marked_alive (get_or (set ps i place) n no_place)) (sym same)
      ∙ ap is_marked_alive (get_or-set_self ps i place no_place inside)
      ∙ e
  | no ne ↦ ap is_marked_alive (get_or-set_ne ps i j place no_place ne) ∙ other
]

-- The pointer to the text of a place in use.
abbrev pub HasRef : Alar → ℕ → Type 0
HasRef a i = is_used a i ≡ true → (p : ℕ) × ((place_at a i).ref ≡ some p)

module _ (i : ℕ) (a : Alar) (slot : i < length a.idmap) (cell : i < length a.placelist) where
  abbrev kept_at : Alar
  kept_at = record a { placelist = set a.placelist i (set_marked_alive false (place_at a i)) }

  kept-Step : is_used a i ≡ true → is_marked_alive (place_at a i) ≡ true → Step i a kept_at
  kept-Step used mark = record {
    there = rw (used, mark) refl;
    earlier = λ j h. refl;
    later = record {
      used = λ j h. refl;
      place = λ j h.
          get_or-set_ne a.placelist i j (set_marked_alive false (place_at a i)) no_place
            (λ e. omega (arith, e));
    };
    clears = λ u.
        ap is_marked_alive
          (get_or-set_self a.placelist i (set_marked_alive false (place_at a i)) no_place cell)
        ∙ unmarked_place (place_at a i);
    stays = λ j.
        set-stays a.placelist i j (set_marked_alive false (place_at a i)) cell
          (unmarked_place (place_at a i));
    created = refl;
    slots = refl;
    places = length-set a.placelist i (set_marked_alive false (place_at a i));
    arena = rw (used, mark) refl;
  }

  abbrev no_length : StarPlace
  no_length = record (place_at a 0) { len_and_mark = 0 }

  no_length-unmarked : is_marked_alive no_length ≡ false
  unfolding is_marked_alive
  no_length-unmarked = refl

  abbrev freed_at : ℕ → Alar
  freed_at p = record a {
    arena = metarecycle (some p) (len (place_at a i)) a.arena;
    placelist = set a.placelist 0 no_length;
    idmap = set a.idmap i 0;
  }

  freed_slot : (p j : ℕ) → j ≢ i → is_used (freed_at p) j ≡ is_used a j
  freed_slot p j ne = rw (get_or-set_ne a.idmap i j 0 0 (λ e. ne (sym e))) refl

  freed_there : (p : ℕ) → is_used (freed_at p) i ≡ false
  freed_there p = rw (get_or-set_self a.idmap i 0 0 slot) refl

  freed-Step :
      (p : ℕ)
      → is_used a i ≡ true
      → is_marked_alive (place_at a i) ≡ false
      → (place_at a i).ref ≡ some p
      → Step i a (freed_at p)
  freed-Step p used mark at = record {
    there = freed_there p ∙ sym (rw (used, mark) refl);
    earlier = λ j h. freed_slot p j (λ e. omega (arith, e));
    later = record {
      used = λ j h. freed_slot p j (λ e. omega (arith, e));
      place = λ j h. get_or-set_ne a.placelist 0 j no_length no_place (λ e. omega (arith, e));
    };
    clears = λ u. cc (u, freed_there p);
    stays = λ j. set-stays a.placelist 0 j no_length (omega arith) no_length-unmarked;
    created = refl;
    slots = length-set a.idmap i 0;
    places = length-set a.placelist 0 no_length;
    arena = rw (used, mark, at) refl;
  }

  skipped-Step : is_used a i ≡ false → Step i a a
  skipped-Step unused = record {
    there = rw unused refl;
    earlier = λ j h. refl;
    later = record { used = λ j h. refl; place = λ j h. refl };
    clears = λ u. cc (u, unused);
    stays = λ j e. e;
    created = refl;
    slots = refl;
    places = refl;
    arena = rw unused refl;
  }

  pub sweep_place-Step :
      HasRef a i
      → (b : Alar) × (sweep_place i a ≡ ok (if is_dead a i then 1 else 0, b)) × Step i a b
  unfolding sweep_place
  sweep_place-Step ref = elim (Bool-cases (is_used a i)) [
    | inr unused ↦ (a, rw unused refl, skipped-Step unused)
    | inl used ↦ elim (Bool-cases (is_marked_alive (place_at a i))) [
      | inl mark ↦ (kept_at, rw (used, mark) refl, kept-Step used mark)
      | inr mark ↦
          let (p, at) = ref used in
          (freed_at p, rw (used, mark, at) refl, freed-Step p used mark at)
    ]
  ]
