-- ===== src/Atoms/Table/Entering.antt =====
-- staridize, over an arena that serves: it returns, and what it returns can be read back.
use ely_square.Base.{
  ℕ, ◌%◌, ◌^◌, ◌<◌, ◌≤◌, ◌≡◌, ◌≢◌, refl, sym, ap, ◌∙◌, arith, Bool, true, false, some, List, ◌∷◌,
  leb, not, length, take, ok, undefined, le→leb,
}
use ely_square.Base.Loops.{first_index-FirstIndex}
use ely_square.PageSource.{PageSource}
use ely_square.MetaArena.{align_size}
use ely_square.MetaArena.Sizes.{align_size_lem}
use ely_square.Atoms.{broken_atom}
use ely_square.Atoms.Table.{Alar, is_used, get_star_id_of, add_text, staridize, get_raw, len_of}
use ely_square.Atoms.Table.Lookup.{IsAlar, get_star_id_of-known, length-take}
use ely_square.Atoms.Table.Stable.{Keeps, get_raw-used}
use ely_square.Atoms.Table.Intern.{unused_index, interned}
use ely_square.MetaArena.Serves.{IsMeta, max_size, metalloc-Served}

module _ (ps : PageSource) (roomy : 2 ^ 21 ≤ ps.limit) (more : List ℕ) (a : Alar) (text : List ℕ)
    (n k : ℕ) (s : ps.Store) (pos : 0 < n) (small : n ≤ max_size) (inside : k < a.star_id_max_count)
    (free : is_used a k ≡ false) (served : IsMeta a.arena) (ready : ps.IsReady s) where
  -- Over a source that grants 2097152 pages, with a 0 on the stack behind the buffer of numToStarId,
  -- and with blocks of the arena that do not overlap, entering 1 up to 2 ^ 32 bytes, no multiple of 16,
  -- of a text that has so many into a whole table with a place free and a well-formed arena returns an
  -- atom. The table stays whole and keeps its places, and, with that 0 on the stack again, the atom is
  -- then found for the text, and the text and its length for the atom.
  pub staridize-get_raw :
      IsAlar a
      → n ≤ length text
      → n % 16 ≢ 0
      → (atom : ℕ) × (a' : Alar) × (t : ps.Store) × (staridize ps (0 ∷ more) a (some text) n s
          ≡ ok (atom, a', t))
        × IsAlar a'
        × Keeps a a'
        × (get_star_id_of (0 ∷ more) a' (some text) n ≡ ok atom)
        × (get_raw a' atom ≡ ok (some (take n text)))
        × (len_of a' atom ≡ n)
        × IsMeta a'.arena
        × ps.IsReady t
  staridize-get_raw v room behind =
      let (ref, m, s', block, v', last, ready') =
        metalloc-Served ps roomy n 0 a.arena s served ready (omega arith) small in
      let (cell, m', s'', block', v'', last', ready'') =
        metalloc-Served ps roomy 8 3 m s' v' ready' (omega arith) (omega arith) in
      let (atom, a', t, runs, r, served', ready_after) =
        interned ps more a v text n ref cell m m' s s' s'' pos room (omega (arith, small)) behind
          served ready v'' ready'' block block' k inside free in
      let (raw, size) = get_raw-used a' r.index r.whole r.holds in
      (
        atom,
        a',
        t,
        runs,
        r.whole,
        r.keeps,
        get_star_id_of-known more a' text n r.index r.whole pos room r.holds r.text_there
            ∙ ap ok (sym r.atom_of),
        ap (get_raw a') r.atom_of ∙ raw ∙ ap (λ u. ok (some u)) r.text_there,
        ap (len_of a') r.atom_of ∙ size ∙ ap length r.text_there ∙ length-take n text room,
        served',
        ready_after,
      )

  -- Over a source that grants 2097152 pages and a well-formed arena, with a 0 on the stack behind the
  -- buffer of numToStarId and a place free, entering a text of 1 up to 2 ^ 32 bytes that is not found in
  -- the table is undefined if its length is a multiple of 16: the 0 that ends the text is written behind
  -- its block.
  pub staridize-overrun :
      get_star_id_of (0 ∷ more) a (some text) n ≡ ok broken_atom
      → n % 16 ≡ 0
      → staridize ps (0 ∷ more) a (some text) n s ≡ undefined
  unfolding staridize add_text
  staridize-overrun absent whole =
      let (ref, m, s', block, v', last, ready') =
        metalloc-Served ps roomy n 0 a.arena s served ready (omega arith) small in
      let (cell, m', s'', block', v'', last', ready'') =
        metalloc-Served ps roomy 8 3 m s' v' ready' (omega arith) (omega arith) in
      let p : ℕ → Bool = λ i. not (is_used a i) in
      let (i, first, below, unused) =
        unused_index a k (first_index-FirstIndex p a.star_id_max_count 0) inside free in
      let (aligned, at_least, least, near, bucket) = align_size_lem n (omega (arith, small)) in
      let full : leb (align_size n) n ≡ true =
        le→leb (align_size n) n (omega (arith, aligned, near)) in
      rw (absent, add_text, first, block, block', full) refl
