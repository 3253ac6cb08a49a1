-- ===== src/Atoms/Table.antt =====
-- ALAR of lowcode/include/meta/starid.h and lowcode/source/meta/starid.cpp: the table of the strings
-- that have a star atom. A place keeps the bytes of its text, which lies in the arena at `*ptr`:
-- that the arena's blocks do not overlap, so that no later block changes a text, is an assumption.
pub mod Lookup
pub mod Filled
pub mod Creation
pub mod Stable
pub mod Intern
pub mod Entering
pub mod Round
pub mod Sweep
pub mod Samples
mod Tests
use ely_square.Base.{
  ℕ, zero, suc, ◌+◌, ◌-◌, ◌*◌, ◌/◌, ◌%◌, ◌^◌, bit_and, Bool, true, false, Option, none, some, List,
  [], ◌∷◌, ltb, leb, not, ◌&&◌, ◌||◌, ◌==◌, if◌then◌else◌, u16, u64, length, get_or, set, take,
  replicate, Outcome, ok, panic, undefined, ◌>>=◌, out_of_memory, runtime_error,
}
use ely_square.Base.Loops.{first_index}
use ely_square.PageSource.{PageSource}
use ely_square.FreeList.{Links}
use ely_square.MetaArena.{MetaArena, meta_arena, metalloc, metarecycle, align_size}
use ely_square.Atoms.{broken_atom, hash_string, strlen, num_to_star_id, star_id_to_num}

-- `ref` is the pointer to the text, `none` where `ptr` is null. The length is in the low 63 bits of
-- `len_and_mark`, the mark in the highest.
pub record StarPlace : Type 0 where
  pub ref : Option ℕ
  pub text : List ℕ
  pub len_and_mark : ℕ

abbrev pub no_place : StarPlace
no_place = record { ref = none; text = []; len_and_mark = 0 }

-- `place.len()`
abbrev pub len : StarPlace → ℕ
len place = place.len_and_mark % 2 ^ 63

pub is_marked_alive : StarPlace → Bool
is_marked_alive place = not (place.len_and_mark / 2 ^ 63 % 2 == 0)

pub set_marked_alive : Bool → StarPlace → StarPlace
set_marked_alive mark place = record place {
  len_and_mark = if mark then len place + 2 ^ 63 else len place;
}

-- The constructor leaves `created_places_count` 0.
pub record Alar : Type 0 where
  pub arena : MetaArena
  pub placelist : List StarPlace
  pub hash_cache : List ℕ
  pub star_id_max_count : ℕ
  pub idmap : List ℕ
  pub created_places_count : ℕ

abbrev pub place_at : Alar → ℕ → StarPlace
place_at a i = get_or a.placelist i no_place

-- memcmp() == 0 of two lists of bytes
pub bytes_eq : List ℕ → List ℕ → Bool
bytes_eq [] [] = true
bytes_eq [] (c ∷ cs) = false
bytes_eq (b ∷ bs) [] = false
bytes_eq (b ∷ bs) (c ∷ cs) = (b == c) && bytes_eq bs cs

abbrev pub is_used : Alar → ℕ → Bool
is_used a i = not (get_or a.idmap i 0 == 0)

-- The body of getStarIdOf's loop.
pub place_matches : Alar → (hash : ℕ) → List ℕ → (length i : ℕ) → Bool
unfolding bytes_eq
place_matches a hash raw n i =
    is_used a i
    && ((get_or a.hash_cache i 0 == hash)
        && ((len (place_at a i) == n) && bytes_eq (take n (place_at a i).text) (take n raw)))

-- The length that getStarIdOf uses.
pub actual_length : List ℕ → (length : ℕ) → Outcome ℕ
unfolding strlen
actual_length raw n = if n == 0 then strlen raw else ok n

module _ (rest : List ℕ) where
  -- `rest` is what the stack holds behind the buffer of numToStarId.
  pub get_new_star_id : Alar → Outcome (ℕ × Alar)
  unfolding num_to_star_id
  get_new_star_id a =
      if leb a.star_id_max_count a.created_places_count
      then panic runtime_error
      else (num_to_star_id rest a.created_places_count >>= λ atom.
          ok (atom, record a { created_places_count = u16 (a.created_places_count + 1) }))

  pub get_star_id_of : Alar → Option (List ℕ) → (length : ℕ) → Outcome ℕ
  unfolding actual_length place_matches
  get_star_id_of a none n = ok broken_atom
  get_star_id_of a (some raw) n = do
    n' ← actual_length raw n
    (if ltb (length raw) n'
        then undefined
        else elim (first_index (place_matches a (hash_string raw n') raw n') a.created_places_count
            0) [ some i ↦ num_to_star_id rest i | none ↦ ok broken_atom ])

-- The place that staridize fills.
abbrev pub filled_place : (ref : ℕ) → List ℕ → (length : ℕ) → StarPlace
filled_place ref text n = record { ref = some ref; text = take n text; len_and_mark = n % 2 ^ 63 }

-- What staridize writes into the table at index `i`.
abbrev pub fill : Alar → (i ref : ℕ) → List ℕ → (length : ℕ) → Alar
fill a i ref text n = record a {
  placelist = set a.placelist i (filled_place ref text n);
  hash_cache = set a.hash_cache i (hash_string text n);
  idmap = set a.idmap i 1;
  created_places_count =
      if leb a.created_places_count i then u16 (i + 1) else a.created_places_count;
}

module _ (ps : PageSource) where
  open ps use {Store}

  -- The constructor, in an arena that is not null; `links` and `links'` are the memory that the
  -- new arena finds.
  pub alar : (max_count : ℕ) → Links → MetaArena → Store → Outcome (Alar × MetaArena × Store)
  alar max_count links outer s = do
    (at, outer', s₁) ← metalloc ps 1040 8 outer s
    (arena, s₂) ← meta_arena ps (16 * max_count * 4) false links s₁
    (places, arena', s₃) ← metalloc ps (16 * max_count) 8 arena s₂
    (hashes, arena'', s₄) ← metalloc ps (8 * max_count) 8 arena' s₃
    (map, arena''', s₅) ← metalloc ps max_count 1 arena'' s₄
    ok (
      record {
        arena = arena''';
        placelist = replicate max_count no_place;
        hash_cache = replicate max_count 0;
        star_id_max_count = max_count;
        idmap = replicate max_count 0;
        created_places_count = 0;
      },
      outer',
      s₅,
    )

  -- The slow path of staridize, for a text of which `n` bytes are stored. The 0 behind them is
  -- undefined where the block ends with them.
  pub add_text : List ℕ → Alar → List ℕ → (length : ℕ) → Store → Outcome (ℕ × Alar × Store)
  add_text rest a text n s = elim (first_index (λ i. not (is_used a i)) a.star_id_max_count 0) [
    | none ↦ panic out_of_memory
    | some i ↦ (do
      (ref, arena, s') ← metalloc ps n 1 a.arena s
      (cell, arena', s'') ← metalloc ps 8 8 arena s'
      (if leb (align_size n) n || ltb (length text) n
          then undefined
          else (num_to_star_id rest i >>= λ atom.
              ok (atom, record (fill a i ref text n) { arena = arena' }, s''))))
  ]

  -- The blocks that the arena gives are taken to be apart: writing this text changes no other.
  pub staridize :
      List ℕ → Alar → Option (List ℕ) → (length : ℕ) → Store → Outcome (ℕ × Alar × Store)
  unfolding get_star_id_of add_text
  staridize rest a none n s = undefined
  staridize rest a (some text) n s = do
    found ← get_star_id_of rest a (some text) n
    if found == broken_atom then add_text rest a text n s else ok (found, a, s)

-- getRaw: the text, `none` for the empty string that is returned for other atoms.
pub get_raw : Alar → ℕ → Outcome (Option (List ℕ))
unfolding star_id_to_num
get_raw a star_id =
    let i = star_id_to_num star_id in
    if (star_id == broken_atom) || ltb i a.created_places_count
    then elim (place_at a i).ref [ none ↦ undefined | some p ↦ ok (some (place_at a i).text) ]
    else ok none

pub len_of : Alar → ℕ → ℕ
unfolding star_id_to_num
len_of a star_id =
    let i = star_id_to_num star_id in
    if (star_id == broken_atom) || ltb i a.created_places_count then len (place_at a i) else 0

-- One round of sweepPlaces, with what it adds to the count. It clears the length of the first place
-- where it frees the place at `i`.
pub sweep_place : ℕ → Alar → Outcome (ℕ × Alar)
unfolding is_marked_alive set_marked_alive
sweep_place i a =
    let place = place_at a i in
    let first = record (place_at a 0) { len_and_mark = 0 } in
    if is_used a i
    then if is_marked_alive place
      then ok (0, record a { placelist = set a.placelist i (set_marked_alive false place) })
      else elim place.ref [
        | none ↦ undefined
        | some p ↦ ok (
          1,
          record a {
            arena = metarecycle (some p) (len place) a.arena;
            placelist = set a.placelist 0 first;
            idmap = set a.idmap i 0;
          },
        )
      ]
    else ok (0, a)

pub sweep_from : (count i : ℕ) → Alar → Outcome (ℕ × Alar)
unfolding sweep_place
sweep_from zero i a = ok (0, a)
sweep_from (suc count) i a = do
  (killed, a') ← sweep_place i a
  (more, a'') ← sweep_from count (suc i) a'
  ok (killed + more, a'')

pub sweep_places : Alar → Outcome (ℕ × Alar)
unfolding sweep_from
sweep_places a = sweep_from a.created_places_count 0 a
