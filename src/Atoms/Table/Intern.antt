-- ===== src/Atoms/Table/Intern.antt =====
-- staridize: the atom of a text, which it enters into the table.
use ely_square.Base.{
  ℕ, ◌+◌, ◌%◌, ◌^◌, ◌<◌, ◌≤◌, ◌≡◌, ◌≢◌, inl, inr, refl, ap, ◌∙◌, arith, Bool, true, false,
  Bool-cases, Option, some, List, ◌∷◌, leb, not, length, take, ok, ==_ne, le→ltb_false, leb→le,
}
use ely_square.Base.Loops.{first_index, FirstIndex, at_index, nowhere, first_index-FirstIndex}
use ely_square.PageSource.{PageSource}
use ely_square.MetaArena.{MetaArena, metalloc, align_size}
use ely_square.MetaArena.Sizes.{align_size_lem}
use ely_square.Atoms.{broken_atom}
use ely_square.Atoms.Digits.{star_id_to_num-num_to_star_id}
use ely_square.Atoms.Table.{Alar, is_used, get_star_id_of, fill, add_text, staridize}
use ely_square.Atoms.Table.Filled.{
  filled, used_here, used_elsewhere, place_elsewhere, text_here, filled-IsAlar,
}
use ely_square.Atoms.Table.Lookup.{text_at, IsAlar, Found, known, unknown, get_star_id_of-Found}
use ely_square.Atoms.Table.Stable.{Keeps}
use ely_square.MetaArena.Serves.{IsMeta}

-- What staridize makes of a table: the table is whole, keeps what it held, and the atom is that of a
-- place that holds the text.
pub record Interned (a a' : Alar) (text : List ℕ) (atom : ℕ) : Type 0 where
  pub whole : IsAlar a'
  pub keeps : Keeps a a'
  pub index : ℕ
  pub holds : is_used a' index ≡ true
  pub text_there : text_at a' index ≡ text
  pub atom_of : atom ≡ 2 ^ 31 + index

-- A text that is found is not entered.
pub staridize-known :
    (ps : PageSource) (rest : List ℕ) (a : Alar) (text : List ℕ) (n atom : ℕ) (s : ps.Store)
    → atom ≢ broken_atom
    → get_star_id_of rest a (some text) n ≡ ok atom
    → staridize ps rest a (some text) n s ≡ ok (atom, a, s)
unfolding staridize
staridize-known ps rest a text n atom s star found = rw (found, ==_ne atom broken_atom star) refl

not-false : (b : Bool) → not b ≡ true → b ≡ false
not-false true e = cc e
not-false false e = refl

pub unused_index :
    (a : Alar) {o : Option ℕ} (k : ℕ)
    → FirstIndex (λ i. not (is_used a i)) 0 (0 + a.star_id_max_count) o
    → k < a.star_id_max_count
    → is_used a k ≡ false
    → (i : ℕ) × (o ≡ some i) × (i < a.star_id_max_count) × (is_used a i ≡ false)
unused_index a k (at_index {k = i} from below holds before) inside free =
    (i, refl, omega arith, not-false (is_used a i) holds)
unused_index a k (nowhere all) inside free = cc (rw free at (all k (omega arith) (omega arith)))

module _ (ps : PageSource) (more : List ℕ) (a : Alar) (v : IsAlar a) (text : List ℕ)
    (n ref cell : ℕ) (arena arena' : MetaArena) (s s' s'' : ps.Store) (pos : 0 < n)
    (room : n ≤ length text) (small : n + 15 < 2 ^ 63) (behind : n % 16 ≢ 0)
    (before : IsMeta a.arena) (ready : ps.IsReady s) (after : IsMeta arena')
    (ready_after : ps.IsReady s'') (text_block : metalloc ps n 1 a.arena s ≡ ok (ref, arena, s'))
    (cell_block : metalloc ps 8 8 arena s' ≡ ok (cell, arena', s'')) where
  block_longer : leb (align_size n) n ≡ false
  block_longer =
      let (whole, at_least, block, least, bucket) = align_size_lem n (omega arith) in
      elim (Bool-cases (leb (align_size n) n)) [
        | inr e ↦ e
        | inl e ↦ absurd (
            omega (
              arith,
              leb→le (align_size n) n e,
              behind (
                  ap (λ m. m % 16) {x = n} {y = align_size n}
                    (omega (arith, leb→le (align_size n) n e))
                  ∙ whole),
            ))
      ]

  added :
      (i : ℕ)
      → first_index (λ i. not (is_used a i)) a.star_id_max_count 0 ≡ some i
      → i < a.star_id_max_count
      → add_text ps (0 ∷ more) a text n s
        ≡ ok (2 ^ 31 + i, record (fill a i ref text n) { arena = arena' }, s'')
  unfolding add_text
  added i e inside =
      rw
        (
          add_text,
          e,
          text_block,
          cell_block,
          block_longer,
          le→ltb_false (length text) n room,
          (star_id_to_num-num_to_star_id i more (omega (arith, v.ushort_max))).0,
        )
        refl

  -- What staridize comes to: the atom it returns and the table it leaves.
  abbrev pub Result : Type 0
  Result =
      (atom : ℕ) × (a' : Alar) × (t : ps.Store) × (staridize ps (0 ∷ more) a (some text) n s
        ≡ ok (atom, a', t))
      × Interned a a' (take n text) atom
      × IsMeta a'.arena
      × ps.IsReady t

  known_result :
      (i : ℕ)
      → is_used a i ≡ true
      → text_at a i ≡ take n text
      → get_star_id_of (0 ∷ more) a (some text) n ≡ ok (2 ^ 31 + i)
      → Result
  known_result i used there found = (
    2 ^ 31 + i,
    a,
    s,
    staridize-known ps (0 ∷ more) a text n (2 ^ 31 + i) s
        (λ e. omega (arith, e, (v.entry i used).below, v.created, v.ushort_max)) found,
    record {
      whole = v;
      keeps = record { used = λ j u. u; same = λ j u. refl };
      index = i;
      holds = used;
      text_there = there;
      atom_of = refl;
    },
    before,
    ready,
  )

  new_result :
      ((j : ℕ) → is_used a j ≡ true → text_at a j ≢ take n text)
      → get_star_id_of (0 ∷ more) a (some text) n ≡ ok broken_atom
      → (i : ℕ) → first_index (λ i. not (is_used a i)) a.star_id_max_count 0 ≡ some i
      → i < a.star_id_max_count
      → is_used a i ≡ false
      → Result
  unfolding staridize
  new_result fresh found i first inside unused =
      let other : (j : ℕ) → is_used a j ≡ true → j ≢ i =
        λ j used e. cc (used, unused, ap (is_used a) e) in
      (
        2 ^ 31 + i,
        filled a v i ref n text arena' inside unused,
        s'',
        rw (found, added i first inside) refl,
        record {
          whole = filled-IsAlar a v i ref n text arena' inside unused room (omega arith) fresh;
          keeps = record {
            used = λ j u. used_elsewhere a v i ref n text arena' inside unused j (other j u) ∙ u;
            same = λ j u. place_elsewhere a v i ref n text arena' inside unused j (other j u);
          };
          index = i;
          holds = used_here a v i ref n text arena' inside unused;
          text_there = text_here a v i ref n text arena' inside unused room (omega arith) fresh;
          atom_of = refl;
        },
        after,
        ready_after,
      )

  pub interned : (k : ℕ) → k < a.star_id_max_count → is_used a k ≡ false → Result
  interned k inside free = by_case (get_star_id_of-Found more a v text n pos room)
    where
      by_case : Found a (take n text) (get_star_id_of (0 ∷ more) a (some text) n) → Result
      by_case (known i used there found) = known_result i used there found
      by_case (unknown fresh found) =
          let p : ℕ → Bool = λ i. not (is_used a i) in
          let (i, first, below, unused) =
            unused_index a k (first_index-FirstIndex p a.star_id_max_count 0) inside free in
          new_result fresh found i first below unused
