-- ===== src/Atoms/Table/Lookup.antt =====
-- getStarIdOf: the place that holds a text.
use ely_square.Base.{
  ℕ, zero, suc, ◌+◌, ◌^◌, ◌<◌, ◌≤◌, ◌≡◌, ◌≢◌, ◌↔◌, refl, sym, ap, ◌∙◌, arith, true, Option, some,
  List, [], ◌∷◌, ◌==◌, length, get_or, take, Outcome, ok, &&-eq-true, eq_of_ok, ==_iff, ==_ne,
  le→ltb_false,
}
use ely_square.Base.Loops.{first_index, FirstIndex, at_index, nowhere, first_index-FirstIndex}
use ely_square.Atoms.{broken_atom, hash_from, hash_string}
use ely_square.Atoms.Digits.{star_id_to_num-num_to_star_id}
use ely_square.Atoms.Table.{
  StarPlace, Alar, place_at, len, is_used, bytes_eq, place_matches, actual_length, get_star_id_of,
}

bytes_eq_iff : (xs ys : List ℕ) → (bytes_eq xs ys ≡ true) ↔ (xs ≡ ys)
unfolding bytes_eq
bytes_eq_iff xs ys = (to xs ys, λ e. rw e (same ys))
  where
    to : (xs ys : List ℕ) → bytes_eq xs ys ≡ true → xs ≡ ys
    to [] [] e = refl
    to [] (y ∷ ys) e = cc e
    to (x ∷ xs) [] e = cc e
    to (x ∷ xs) (y ∷ ys) e = ground (arith, to xs ys)

    same : (ys : List ℕ) → bytes_eq ys ys ≡ true
    same [] = refl
    same (y ∷ ys) = ground (arith, same ys)

pub take-length : (xs : List ℕ) → take (length xs) xs ≡ xs
take-length [] = refl
take-length (x ∷ xs) = ap (λ ys. x ∷ ys) (take-length xs)

pub length-take : (n : ℕ) (xs : List ℕ) → n ≤ length xs → length (take n xs) ≡ n
length-take zero xs h = refl
length-take (suc n) [] h = elim h [ ]
length-take (suc n) (x ∷ xs) h = ap suc (length-take n xs (omega arith))

pub hash_of_take :
    (text raw : List ℕ) (n : ℕ)
    → length text ≡ n
    → text ≡ take n raw
    → hash_string text (length text) ≡ hash_string raw n
unfolding hash_string
hash_of_take text raw n size e = ap (hash_from 14695981039346656037) (take-length text ∙ e)

abbrev pub text_at : Alar → ℕ → List ℕ
text_at a i = (place_at a i).text

-- A place in use, by its index, its hash in the cache and the number of places created: its text has
-- this hash, its length and no mark.
pub record IsEntry (created i hash : ℕ) (place : StarPlace) : Type 0 where
  pub below : i < created
  pub hashed : hash ≡ hash_string place.text (length place.text)
  pub sized : place.len_and_mark ≡ length place.text
  pub short : length place.text < 2 ^ 63
  pub address : ℕ
  pub has_ref : place.ref ≡ some address

abbrev pub EntryAt : Alar → ℕ → Type 0
EntryAt a i = IsEntry a.created_places_count i (get_or a.hash_cache i 0) (place_at a i)

-- The arrays have their size, every place in use is filled in, and no two hold the same text.
pub record IsAlar (a : Alar) : Type 0 where
  pub places : length a.placelist ≡ a.star_id_max_count
  pub hashes : length a.hash_cache ≡ a.star_id_max_count
  pub slots : length a.idmap ≡ a.star_id_max_count
  pub ushort_max : a.star_id_max_count < 2 ^ 16
  pub created : a.created_places_count ≤ a.star_id_max_count
  pub entry : (i : ℕ) → is_used a i ≡ true → EntryAt a i
  pub distinct :
      (i j : ℕ) → is_used a i ≡ true → is_used a j ≡ true → text_at a i ≡ text_at a j → i ≡ j

module _ (a : Alar) (v : IsAlar a) (raw : List ℕ) (n i : ℕ) (room : n ≤ length raw) where
  matches-text :
      place_matches a (hash_string raw n) raw n i ≡ true
      → (is_used a i ≡ true) × (text_at a i ≡ take n raw)
  unfolding place_matches
  matches-text e =
      let (used, e₁) = &&-eq-true (is_used a i) _ e in
      let (named, e₂) = &&-eq-true (get_or a.hash_cache i 0 == hash_string raw n) _ e₁ in
      let (size, bytes) = &&-eq-true (len (place_at a i) == n) _ e₂ in
      let t = v.entry i used in
      let n' : length (text_at a i) ≡ n =
        omega (arith, t.sized, t.short, (==_iff (len (place_at a i)) n).0 size) in
      (
        used,
        sym (ap (λ k. take k (text_at a i)) (sym n') ∙ take-length (text_at a i))
            ∙ (bytes_eq_iff (take n (text_at a i)) (take n raw)).0 bytes,
      )

  text-matches :
      is_used a i ≡ true
      → text_at a i ≡ take n raw
      → place_matches a (hash_string raw n) raw n i ≡ true
  unfolding place_matches
  text-matches used e =
      let t = v.entry i used in
      let size : length (text_at a i) ≡ n = ap length e ∙ length-take n raw room in
      let whole : take n (text_at a i) ≡ take n raw =
        ap (λ k. take k (text_at a i)) (sym size) ∙ take-length (text_at a i) ∙ e in
      let same_hash : get_or a.hash_cache i 0 ≡ hash_string raw n =
        t.hashed ∙ hash_of_take (text_at a i) raw n size e in
      rw
        (
          used,
          (==_iff _ _).1 same_hash,
          (==_iff (len (place_at a i)) n).1 (omega (arith, t.sized, t.short, size)),
        )
        ((bytes_eq_iff (take n (text_at a i)) (take n raw)).1 whole)

-- What a search for a text comes to: the atom of the place that holds it, or that no place does.
pub data Found (a : Alar) (text : List ℕ) (r : Outcome ℕ) : Type 0 where
  known : (i : ℕ) → is_used a i ≡ true → text_at a i ≡ text → r ≡ ok (2 ^ 31 + i) → Found a text r
  unknown :
      ((i : ℕ) → is_used a i ≡ true → text_at a i ≢ text) → r ≡ ok broken_atom → Found a text r

actual : (raw : List ℕ) (n : ℕ) → 0 < n → actual_length raw n ≡ ok n
unfolding actual_length
actual raw n pos = rw (==_ne n 0 (omega arith))

module _ (more : List ℕ) (a : Alar) (v : IsAlar a) (raw : List ℕ) (n : ℕ) (pos : 0 < n)
    (room : n ≤ length raw) where
  after_search :
      (o : Option ℕ)
      → first_index (place_matches a (hash_string raw n) raw n) a.created_places_count 0 ≡ o
      → FirstIndex (place_matches a (hash_string raw n) raw n) 0 (0 + a.created_places_count) o
      → Found a (take n raw) (get_star_id_of (0 ∷ more) a (some raw) n)
  unfolding get_star_id_of
  after_search o e (at_index {k} from below holds before) =
      let (used, text) = matches-text a v raw n k room holds in
      known k used text (
        rw (actual raw n pos, le→ltb_false (length raw) n room, e)
          ((star_id_to_num-num_to_star_id k more (omega (arith, v.created, v.ushort_max))).0))
  after_search o e (nowhere all) =
      unknown
        (λ i used text.
          let t = v.entry i used in
          cc
            (all i (omega arith) (omega (arith, t.below)), text-matches a v raw n i room used text))
        (rw (actual raw n pos, le→ltb_false (length raw) n room, e))

  -- Searching for the first bytes of a text in a whole table returns the atom of the place that
  -- holds them, or the broken atom if none does.
  pub get_star_id_of-Found : Found a (take n raw) (get_star_id_of (0 ∷ more) a (some raw) n)
  get_star_id_of-Found =
      let p = place_matches a (hash_string raw n) raw n in
      after_search (first_index p a.created_places_count 0) refl
        (first_index-FirstIndex p a.created_places_count 0)

-- In a whole table, if the searches for two texts, of at least one byte each, return one atom, other
-- than the broken one, then the texts are the same.
get_star_id_of_inj :
    (more : List ℕ) (a : Alar) (raw raw' : List ℕ) (n n' atom : ℕ)
    → IsAlar a
    → 0 < n
    → n ≤ length raw
    → 0 < n'
    → n' ≤ length raw'
    → atom ≢ broken_atom
    → get_star_id_of (0 ∷ more) a (some raw) n ≡ ok atom
    → get_star_id_of (0 ∷ more) a (some raw') n' ≡ ok atom
    → take n raw ≡ take n' raw'
get_star_id_of_inj more a raw raw' n n' atom v pos room pos' room' star e e' =
    both (get_star_id_of-Found more a v raw n pos room)
      (get_star_id_of-Found more a v raw' n' pos' room')
  where
    both :
        Found a (take n raw) (get_star_id_of (0 ∷ more) a (some raw) n)
        → Found a (take n' raw') (get_star_id_of (0 ∷ more) a (some raw') n')
        → take n raw ≡ take n' raw'
    both (known i used text r) (known j used' text' r') =
        let same : i ≡ j =
          omega (arith, eq_of_ok (2 ^ 31 + i) (2 ^ 31 + j) (sym r ∙ e ∙ sym e' ∙ r')) in
        sym text ∙ ap (text_at a) same ∙ text'
    both (unknown all r) f = absurd (star (sym (eq_of_ok broken_atom atom (sym r ∙ e))))
    both (known i used text r) (unknown all r') =
        absurd (star (sym (eq_of_ok broken_atom atom (sym r' ∙ e'))))

-- A text that the table holds at a place has the atom of that place.
pub get_star_id_of-known :
    (more : List ℕ) (a : Alar) (raw : List ℕ) (n i : ℕ)
    → IsAlar a
    → 0 < n
    → n ≤ length raw
    → is_used a i ≡ true
    → text_at a i ≡ take n raw
    → get_star_id_of (0 ∷ more) a (some raw) n ≡ ok (2 ^ 31 + i)
get_star_id_of-known more a raw n i v pos room used text =
    by_case (get_star_id_of-Found more a v raw n pos room)
  where
    by_case :
        Found a (take n raw) (get_star_id_of (0 ∷ more) a (some raw) n)
        → get_star_id_of (0 ∷ more) a (some raw) n ≡ ok (2 ^ 31 + i)
    by_case (known j used' text' r) =
        r ∙ ap (λ k. ok (2 ^ 31 + k)) (v.distinct j i used' used (text' ∙ sym text))
    by_case (unknown all r) = absurd (all i used text)
