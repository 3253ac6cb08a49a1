-- ===== src/Atoms/Table/Filled.antt =====
-- What staridize writes into a table, at a place that is not in use.
use mathlib.Core.Path.{subst}
use ely_square.Base.{
  ℕ, ◌^◌, ◌<◌, ◌≤◌, ◌≡◌, ◌≢◌, refl, sym, ap, ◌∙◌, arith, true, false, List, length, get_or, take,
  ℕ_discrete, get_or-set_self, get_or-set_ne, length-set,
}
use ely_square.MetaArena.{MetaArena}
use ely_square.Atoms.{hash_string}
use ely_square.Atoms.Table.{no_place, Alar, place_at, is_used, filled_place, fill}
use ely_square.Atoms.Table.Lookup.{text_at, IsEntry, EntryAt, IsAlar, length-take, hash_of_take}

module _ (a : Alar) (v : IsAlar a) (i ref n : ℕ) (text : List ℕ) (arena : MetaArena)
    (inside : i < a.star_id_max_count) (unused : is_used a i ≡ false) where
  -- The table with the text at place `i`.
  abbrev pub filled : Alar
  filled = record (fill a i ref text n) { arena = arena }

  place_here : place_at filled i ≡ filled_place ref text n
  place_here =
      get_or-set_self a.placelist i (filled_place ref text n) no_place (omega (arith, v.places))

  pub place_elsewhere : (j : ℕ) → j ≢ i → place_at filled j ≡ place_at a j
  place_elsewhere j ne =
      get_or-set_ne a.placelist i j (filled_place ref text n) no_place (λ e. ne (sym e))

  pub used_here : is_used filled i ≡ true
  used_here = rw (get_or-set_self a.idmap i 1 0 (omega (arith, v.slots))) refl

  pub used_elsewhere : (j : ℕ) → j ≢ i → is_used filled j ≡ is_used a j
  used_elsewhere j ne = rw (get_or-set_ne a.idmap i j 1 0 (λ e. ne (sym e))) refl

  created_count :
      (a.created_places_count ≤ filled.created_places_count)
      × (i < filled.created_places_count)
      × (filled.created_places_count ≤ a.star_id_max_count)
  created_count = ground (arith, v.created, v.ushort_max)

  module _ (room : n ≤ length text) (small : n < 2 ^ 63)
      (fresh : (j : ℕ) → is_used a j ≡ true → text_at a j ≢ take n text) where
    new-IsEntry :
        IsEntry filled.created_places_count i (hash_string text n) (filled_place ref text n)
    new-IsEntry = record {
      below = (created_count).1;
      hashed = sym (hash_of_take (take n text) text n (length-take n text room) refl);
      sized = omega (arith, length-take n text room);
      short = omega (arith, length-take n text room);
      address = ref;
      has_ref = refl;
    }

    entry_here : EntryAt filled i
    entry_here =
        subst (λ h. IsEntry filled.created_places_count i h (place_at filled i))
          (sym (get_or-set_self a.hash_cache i (hash_string text n) 0 (omega (arith, v.hashes))))
          (subst (IsEntry filled.created_places_count i (hash_string text n)) (sym place_here)
            new-IsEntry)

    kept-IsEntry :
        (j : ℕ)
        → is_used a j ≡ true
        → IsEntry filled.created_places_count j (get_or a.hash_cache j 0) (place_at a j)
    kept-IsEntry j used =
        let t = v.entry j used in
        record {
          below = omega (arith, t.below, (created_count).0);
          hashed = t.hashed;
          sized = t.sized;
          short = t.short;
          address = t.address;
          has_ref = t.has_ref;
        }

    entry_elsewhere : (j : ℕ) → j ≢ i → is_used a j ≡ true → EntryAt filled j
    entry_elsewhere j ne used =
        subst (λ h. IsEntry filled.created_places_count j h (place_at filled j))
          (sym (get_or-set_ne a.hash_cache i j (hash_string text n) 0 (λ e. ne (sym e))))
          (subst (IsEntry filled.created_places_count j (get_or a.hash_cache j 0))
            (sym (place_elsewhere j ne)) (kept-IsEntry j used))

    pub text_here : text_at filled i ≡ take n text
    text_here = ap (λ p. p.text) place_here

    -- A text elsewhere in the table is not the new one.
    text_differs : (j : ℕ) → j ≢ i → is_used filled j ≡ true → text_at filled j ≢ text_at filled i
    text_differs j ne used e =
        fresh j (sym (used_elsewhere j ne) ∙ used)
          (sym (ap (λ p. p.text) (place_elsewhere j ne)) ∙ e ∙ text_here)

    filled-distinct :
        (j k : ℕ)
        → is_used filled j ≡ true
        → is_used filled k ≡ true
        → text_at filled j ≡ text_at filled k
        → j ≡ k
    filled-distinct j k uj uk e = elim (ℕ_discrete j i) [
      | yes ej ↦ elim (ℕ_discrete k i) [
        | yes ek ↦ ej ∙ sym ek
        | no nk ↦ absurd (text_differs k nk uk (sym e ∙ ap (text_at filled) ej))
      ]
      | no nj ↦ elim (ℕ_discrete k i) [
        | yes ek ↦ absurd (text_differs j nj uj (e ∙ ap (text_at filled) ek))
        | no nk ↦ v.distinct j k (sym (used_elsewhere j nj) ∙ uj) (sym (used_elsewhere k nk) ∙ uk) (
            sym (ap (λ p. p.text) (place_elsewhere j nj))
            ∙ e
            ∙ ap (λ p. p.text) (place_elsewhere k nk))
      ]
    ]

    pub filled-IsAlar : IsAlar filled
    filled-IsAlar = record {
      places = length-set a.placelist i (filled_place ref text n) ∙ v.places;
      hashes = length-set a.hash_cache i _ ∙ v.hashes;
      slots = length-set a.idmap i 1 ∙ v.slots;
      ushort_max = v.ushort_max;
      created = (created_count).2;
      entry = λ j used. elim (ℕ_discrete j i) [
        | yes e ↦ rw e entry_here
        | no ne ↦ entry_elsewhere j ne (sym (used_elsewhere j ne) ∙ used)
      ];
      distinct = filled-distinct;
    }
