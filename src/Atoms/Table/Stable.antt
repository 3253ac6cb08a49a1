-- ===== src/Atoms/Table/Stable.antt =====
-- What texts and atoms keep while a table grows.
use ely_square.Base.{
  ℕ, ◌+◌, ◌^◌, ◌<◌, ◌≤◌, ◌≡◌, ◌≢◌, refl, sym, ap, ◌∙◌, arith, true, some, List, [], ◌∷◌, length,
  take, ok, eq_of_ok, ==_ne, lt→ltb,
}
use ely_square.Atoms.{broken_atom, star_id_to_num}
use ely_square.Atoms.Digits.{star_id_to_num-num_to_star_id}
use ely_square.Atoms.Table.{Alar, place_at, is_used, get_star_id_of, get_raw, len_of}
use ely_square.Atoms.Table.Lookup.{
  text_at, IsAlar, Found, known, unknown, get_star_id_of-Found, get_star_id_of-known,
}

-- What a table keeps: each place in use stays in use with its text.
pub record Keeps (a a' : Alar) : Type 0 where
  pub used : (i : ℕ) → is_used a i ≡ true → is_used a' i ≡ true
  pub same : (i : ℕ) → is_used a i ≡ true → place_at a' i ≡ place_at a i

module _ (more : List ℕ) (a a' : Alar) (v : IsAlar a) (v' : IsAlar a') (k : Keeps a a')
    (raw : List ℕ) (n atom : ℕ) (pos : 0 < n) (room : n ≤ length raw) where
  -- If a whole table keeps every place in use of another whole table, then a text of at least one byte
  -- for which the search returned an atom there, other than the broken one, has that atom here.
  get_star_id_of-Keeps :
      atom ≢ broken_atom
      → get_star_id_of (0 ∷ more) a (some raw) n ≡ ok atom
      → get_star_id_of (0 ∷ more) a' (some raw) n ≡ ok atom
  get_star_id_of-Keeps star e = by_case (get_star_id_of-Found more a v raw n pos room)
    where
      by_case :
          Found a (take n raw) (get_star_id_of (0 ∷ more) a (some raw) n)
          → get_star_id_of (0 ∷ more) a' (some raw) n ≡ ok atom
      by_case (known i used text r) =
          get_star_id_of-known more a' raw n i v' pos room (k.used i used)
            (ap (λ p. p.text) (k.same i used) ∙ text)
          ∙ sym r
          ∙ e
      by_case (unknown all r) = absurd (star (sym (eq_of_ok broken_atom atom (sym r ∙ e))))

-- The text and the length of an atom that names a place in use.
pub get_raw-used :
    (a : Alar) (i : ℕ)
    → IsAlar a
    → is_used a i ≡ true
    → (get_raw a (2 ^ 31 + i) ≡ ok (some (text_at a i)))
      × (len_of a (2 ^ 31 + i) ≡ length (text_at a i))
unfolding get_raw len_of
get_raw-used a i v used =
    let t = v.entry i used in
    let index : star_id_to_num (2 ^ 31 + i) ≡ i =
      (star_id_to_num-num_to_star_id i [] (omega (arith, t.below, v.created, v.ushort_max))).1 in
    (
      rw
          (
            get_raw,
            len_of,
            index,
            lt→ltb i a.created_places_count t.below,
            ==_ne (2 ^ 31 + i) broken_atom
                (λ e. omega (arith, e, t.below, v.created, v.ushort_max)),
            t.has_ref,
            index,
          )
          refl,
      rw
          (
            get_raw,
            len_of,
            index,
            lt→ltb i a.created_places_count t.below,
            ==_ne (2 ^ 31 + i) broken_atom
                (λ e. omega (arith, e, t.below, v.created, v.ushort_max)),
          )
          (omega (arith, t.sized, t.short)),
    )
