-- ===== src/Atoms/Table/Tests.antt =====
-- Concrete instances of the theorems on tables with two places.
use ely_square.Base.{
  ℕ, zero, suc, ◌+◌, ◌^◌, ◌<◌, ◌&&◌, ◌%◌, ◌≡◌, ◌≢◌, refl, ap, arith, List, [], ◌∷◌, none, some, ok,
  undefined, take, replicate, false, true, length,
}
use ely_square.Base.Loops.{first_index}
use ely_square.PageSource.Counter.{counter}
use ely_square.MetaArena.{MetaArena, metarecycle}
use ely_square.Atoms.{broken_atom}
use ely_square.Atoms.Table.{
  no_place, is_marked_alive, alar, Alar, is_used, place_at, get_star_id_of, staridize, get_raw,
  len_of, sweep_places,
}
use ely_square.Atoms.Table.Lookup.{IsAlar, text_at}
use ely_square.Atoms.Table.Filled.{filled, filled-IsAlar}
use ely_square.Atoms.Table.Round.{count_from, recycle_texts}
use ely_square.Atoms.Table.Sweep.{IsSweepable, sweep_places-Swept}
use ely_square.MetaArena.Serves.{IsMeta}
use ely_square.Atoms.Table.Stable.{Keeps}
use ely_square.Atoms.Table.Entering.{staridize-get_raw, staridize-overrun}
use ely_square.Atoms.Table.Creation.{alar-IsAlar}
use ely_square.Atoms.Table.Samples.{meta, meta-IsMeta, text, empty, empty-IsAlar, one, one-IsAlar}

-- The table with a second text.
one_fresh : (j : ℕ) → is_used one j ≡ true → text_at one j ≢ 98 ∷ 99 ∷ []
one_fresh zero used e = omega (arith, ap length e)
one_fresh (suc zero) used e = cc used
one_fresh (suc (suc j)) used e = cc used

abbrev two : Alar
two = filled one one-IsAlar 1 0x10100 2 (98 ∷ 99 ∷ []) meta (omega arith) refl

two-IsAlar : IsAlar two
two-IsAlar =
    filled-IsAlar one one-IsAlar 1 0x10100 2 (98 ∷ 99 ∷ []) meta (omega arith) refl (omega arith)
      (omega arith) one_fresh

two-Keeps : Keeps one two
two-Keeps = record { used = kept; same = same }
  where
    kept : (i : ℕ) → is_used one i ≡ true → is_used two i ≡ true
    kept zero used = refl
    kept (suc i) used = cc (later i)
      where
        later : (i : ℕ) → is_used one (suc i) ≡ false
        later zero = refl
        later (suc i) = refl

    same : (i : ℕ) → is_used one i ≡ true → place_at two i ≡ place_at one i
    same zero used = refl
    same (suc zero) used = cc used
    same (suc (suc i)) used = cc used

staridize-get_raw_example :
    (atom : ℕ) × (a' : Alar) × (t : ℕ) × (staridize counter (0 ∷ []) empty (some text) 3 0x20000
      ≡ ok (atom, a', t))
    × IsAlar a'
    × Keeps empty a'
    × (get_star_id_of (0 ∷ []) a' (some text) 3 ≡ ok atom)
    × (get_raw a' atom ≡ ok (some (take 3 text)))
    × (len_of a' atom ≡ 3)
    × IsMeta a'.arena
    × (t % 4096 ≡ 0)
staridize-get_raw_example =
    staridize-get_raw counter (omega arith) [] empty text 3 0 0x20000 (omega arith) (omega arith)
      (omega arith) refl meta-IsMeta refl empty-IsAlar (omega arith) (omega arith)

alar-IsAlar_example :
    (a : Alar) × (outer' : MetaArena) × (s' : ℕ) × (alar counter 256 (λ p. none) meta 0x20000
      ≡ ok (a, outer', s'))
    × IsAlar a
    × (a.star_id_max_count ≡ 256)
    × (a.created_places_count ≡ 0)
    × (a.placelist ≡ replicate 256 no_place)
    × (a.hash_cache ≡ replicate 256 0)
    × (a.idmap ≡ replicate 256 0)
    × IsMeta a.arena
    × IsMeta outer'
    × (s' % 4096 ≡ 0)
alar-IsAlar_example =
    alar-IsAlar counter 256 (λ p. none) meta 0x20000 (omega arith) (omega arith) meta-IsMeta refl

-- A table of a place with a mark and one without.
abbrev half_marked : Alar
half_marked = record {
  arena = meta;
  placelist =
      record { ref = some 0x10000; text = 97 ∷ []; len_and_mark = 2 ^ 63 + 1 }
      ∷ record { ref = some 0x10100; text = 98 ∷ 99 ∷ []; len_and_mark = 2 }
      ∷ [];
  hash_cache = 0 ∷ 0 ∷ [];
  star_id_max_count = 2;
  idmap = 1 ∷ 1 ∷ [];
  created_places_count = 2;
}

half_marked-IsSweepable : IsSweepable half_marked
half_marked-IsSweepable = record {
  below = below;
  ref = ref;
  slots = omega arith;
  places = omega arith;
}
  where
    below : (i : ℕ) → is_used half_marked i ≡ true → i < 2
    below zero used = omega arith
    below (suc zero) used = omega arith
    below (suc (suc i)) used = cc used

    ref : (i : ℕ) → is_used half_marked i ≡ true → (p : ℕ) × ((place_at half_marked i).ref ≡ some p)
    ref zero used = (0x10000, refl)
    ref (suc zero) used = (0x10100, refl)
    ref (suc (suc i)) used = cc used

sweep_places-Swept_example :
    (a' : Alar) × (sweep_places half_marked ≡ ok (1, a'))
    × (a'.arena ≡ metarecycle (some 0x10100) 2 meta)
    × ((i : ℕ) → is_used a' i ≡ (is_used half_marked i && is_marked_alive (place_at half_marked i)))
    × ((i : ℕ) → is_used a' i ≡ true → is_marked_alive (place_at a' i) ≡ false)
    × (a'.created_places_count ≡ 2)
unfolding count_from recycle_texts is_marked_alive
sweep_places-Swept_example = sweep_places-Swept half_marked half_marked-IsSweepable

abbrev long_text : List ℕ
long_text = replicate 16 97

empty_absent : get_star_id_of (0 ∷ []) empty (some long_text) 16 ≡ ok broken_atom
unfolding get_star_id_of first_index
empty_absent = refl

staridize-overrun_example : staridize counter (0 ∷ []) empty (some long_text) 16 0x20000 ≡ undefined
staridize-overrun_example =
    staridize-overrun counter (omega arith) [] empty long_text 16 0 0x20000 (omega arith)
      (omega arith) (omega arith) refl meta-IsMeta refl empty_absent refl
