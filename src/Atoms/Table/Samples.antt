-- ===== src/Atoms/Table/Samples.antt =====
-- Small tables for tests: one with two places, at first empty, then with one text.
use ely_square.Base.{
  ℕ, zero, suc, ◌+◌, ◌^◌, ◌≡◌, refl, arith, List, [], ◌∷◌, none, some, ok, replicate, false,
}
use ely_square.MetaArena.Samples.{sample, sample-IsMeta}
use ely_square.MetaArena.{MetaArena}
use ely_square.MetaArena.Serves.{IsMeta}
use ely_square.Atoms.Table.{no_place, Alar, is_used, get_star_id_of}
use ely_square.Atoms.Table.Lookup.{IsAlar, get_star_id_of-known}
use ely_square.Atoms.Table.Filled.{filled, filled-IsAlar}

-- An arena with two recycled blocks of 16 bytes.
abbrev pub meta : MetaArena
meta = sample none (some 0x10100 ∷ some 0x10200 ∷ replicate 126 none) (λ a. some 0x10110)

pub meta-IsMeta : IsMeta meta
meta-IsMeta =
    sample-IsMeta none (some 0x10100 ∷ some 0x10200 ∷ replicate 126 none) (λ a. some 0x10110)

abbrev pub text : List ℕ
text = 97 ∷ 98 ∷ 99 ∷ []

abbrev pub empty : Alar
empty = record {
  arena = meta;
  placelist = replicate 2 no_place;
  hash_cache = replicate 2 0;
  star_id_max_count = 2;
  idmap = replicate 2 0;
  created_places_count = 0;
}

pub empty_unused : (i : ℕ) → is_used empty i ≡ false
empty_unused zero = refl
empty_unused (suc zero) = refl
empty_unused (suc (suc i)) = refl

pub empty-IsAlar : IsAlar empty
empty-IsAlar = record {
  places = refl;
  hashes = refl;
  slots = refl;
  ushort_max = omega arith;
  created = omega arith;
  entry = λ i used. cc (used, empty_unused i);
  distinct = λ i j used. cc (used, empty_unused i);
}

abbrev pub one : Alar
one = filled empty empty-IsAlar 0 0x10000 3 text meta (omega arith) refl

pub one-IsAlar : IsAlar one
one-IsAlar =
    filled-IsAlar empty empty-IsAlar 0 0x10000 3 text meta (omega arith) refl (omega arith)
      (omega arith) (λ j used. cc (used, empty_unused j))

pub one_found : get_star_id_of (0 ∷ []) one (some text) 3 ≡ ok (2 ^ 31 + 0)
one_found = get_star_id_of-known [] one text 3 0 one-IsAlar (omega arith) (omega arith) refl refl
