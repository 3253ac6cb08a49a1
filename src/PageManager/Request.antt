-- ===== src/PageManager/Request.antt =====
-- requestPageChunk: the search over the segments.
use mathlib.Core.Path.{subst}
use ely_square.Base.{
  ℕ, ◌+◌, ◌*◌, ◌/◌, ◌%◌, ◌≤◌, ◌<◌, ◌≡◌, refl, arith, List, [], ◌∷◌, length, Option, none, some,
  Outcome, ok, panic, undefined, out_of_fuel, ◌>>=◌,
}
use ely_square.OsMem.{Kernel, Os}
use ely_square.PageBitmap.{Scan, found, next_word, stuck, scan_words}
use ely_square.PageBitmap.Search.{page_bit, IsFree, Blocked, Shows}
use ely_square.PageBitmap.Scanned.{IsBitmap, scan_words-Shows}
use ely_square.PageBitmap.Marks.{IsSmall, IsFilled, mark_pages-IsFilled}
use ely_square.PageManager.{
  CageSegment, Grant, page_size, bitmap_words, commit_and_return, search_segments, with_front,
}

-- A segment's bitmap has its words, each of 64 bits.
pub record IsSegment (s : CageSegment) : Type 0 where
  pub words : length s.bitmap ≡ bitmap_words
  pub small : IsSmall s.bitmap

abbrev pub total_pages : ℕ
total_pages = bitmap_words * 64

abbrev pub AllSegments : List CageSegment → Type 0
AllSegments [] = Unit {0}
AllSegments (s ∷ ss) = IsSegment s × AllSegments ss

-- A run of `n` free pages of the segment, from `start` on.
abbrev pub HasRun : CageSegment → (n start : ℕ) → Type 0
HasRun s n start = (start + n ≤ total_pages) × IsFree (page_bit s.bitmap) start (start + n)

-- The search in one segment finds the first run, or there is none.
pub data Searched (s : CageSegment) (n : ℕ) : Scan → Type 0 where
  hit :
      {start : ℕ}
      → HasRun s n start
      → ((q : ℕ) → q < start → Blocked (page_bit s.bitmap) n start q)
      → Searched s n (found start)
  miss :
      {len at : ℕ}
      → ((q : ℕ) → q + n ≤ total_pages → Blocked (page_bit s.bitmap) n total_pages q)
      → Searched s n (next_word len at)

IsSegment-IsBitmap :
    (s : CageSegment) (n : ℕ) → IsSegment s → IsBitmap (page_bit s.bitmap) n 0 s.bitmap
unfolding page_bit
IsSegment-IsBitmap s n v = record {
  small = v.small;
  covers = λ j h k hk.
      let digit : ((0 + j) * 64 + k) % 64 ≡ k = omega arith in
      let word : ((0 + j) * 64 + k) / 64 ≡ j = omega arith in rw (digit, word);
}

Searched-of_Shows :
    (s : CageSegment) (n : ℕ) (r : Scan)
    → Shows (page_bit s.bitmap) n total_pages r
    → Searched s n r
Searched-of_Shows s n (found start) (fits, free, blocked) = hit (fits, free) blocked
Searched-of_Shows s n (next_word len at) st = miss λ q h.
    let b = st.blocked q (omega (arith, st.short, st.length_le)) in
    record {
      taken = b.taken;
      after_start = b.after_start;
      before_end = b.before_end;
      below = omega (arith, b.below);
      digit = b.digit;
    }
Searched-of_Shows s n stuck sh = absurd sh

-- The search for at least one page in a segment with a whole bitmap ends, with the first run of
-- that many free pages, or, if there is none, without a result.
pub scan_words-Searched :
    (s : CageSegment) (n : ℕ) → IsSegment s → 0 < n → Searched s n (scan_words s.bitmap 0 n 0 0)
scan_words-Searched s n v pos = Searched-of_Shows s n (scan_words s.bitmap 0 n 0 0) (
    subst (λ p. Shows (page_bit s.bitmap) n p (scan_words s.bitmap 0 n 0 0))
      (omega (arith, v.words))
      (scan_words-Shows (page_bit s.bitmap) n s.bitmap 0 0 0 (IsSegment-IsBitmap s n v) (record {
        short = pos;
        length_le = omega arith;
        origin = λ ne. absurd (ne refl);
        free = λ p lo hi. absurd (omega arith);
        blocked = λ q h. absurd (omega arith);
      })))

-- Every run of `n` pages of the segment has a taken page.
abbrev pub IsFull : CageSegment → ℕ → Type 0
IsFull s n = (q : ℕ) → q + n ≤ total_pages → Blocked (page_bit s.bitmap) n total_pages q

abbrev pub AllFull : List CageSegment → ℕ → Type 0
AllFull [] n = Unit {0}
AllFull (s ∷ ss) n = IsFull s n × AllFull ss n

-- `address` is the first run of `n` free pages of the first segment that has one, and `ss'` is `ss`
-- with just these pages taken.
pub data Granted (n address : ℕ) : (ss ss' : List CageSegment) → Type 0 where
  here :
      {s s' : CageSegment} {rest : List CageSegment} (start : ℕ)
      → HasRun s n start
      → ((q : ℕ) → q < start → Blocked (page_bit s.bitmap) n start q)
      → s'.base_address ≡ s.base_address
      → IsFilled 1 start (start + n) s.bitmap s'.bitmap
      → address ≡ s.base_address + start * page_size
      → Granted n address (s ∷ rest) (s' ∷ rest)
  there :
      {s : CageSegment} {rest rest' : List CageSegment}
      → IsFull s n
      → Granted n address rest rest'
      → Granted n address (s ∷ rest) (s ∷ rest')

-- What the search over the segments comes to.
pub data Search (ss : List CageSegment) (n : ℕ) : Outcome (Option Grant) → Type 0 where
  granted : (g : Grant) → Granted n g.address ss g.segments → Search ss n (ok (some g))
  all_full : AllFull ss n → Search ss n (ok none)

module _ (k : Kernel) where
  commit_and_return-Search :
      (s : CageSegment) (rest : List CageSegment) (start n : ℕ) (os : Os)
      → IsSegment s
      → HasRun s n start
      → ((q : ℕ) → q < start → Blocked (page_bit s.bitmap) n start q)
      → Search (s ∷ rest) n (commit_and_return k s rest start n os >>= λ g. ok (some g))
  unfolding commit_and_return
  commit_and_return-Search s rest start n os v run first =
      let marked = mark_pages-IsFilled s.bitmap start n v.small (omega (arith, v.words)) in
      rw marked.1 (granted _ (here start run first refl marked.2 refl))

  Search-cons :
      (s : CageSegment) (ss : List CageSegment) (n : ℕ) (r : Outcome (Option Grant))
      → IsFull s n
      → Search ss n r
      → Search (s ∷ ss) n (r >>= λ o. ok (with_front s o))
  Search-cons s ss n (ok (some g)) full (granted g' h) = granted _ (there full h)
  Search-cons s ss n (ok none) full (all_full h) = all_full (full, h)
  Search-cons s ss n (panic e) full h = elim h [ ]
  Search-cons s ss n undefined full h = elim h [ ]
  Search-cons s ss n out_of_fuel full h = elim h [ ]

  pub search_segments-Search :
      (ss : List CageSegment) (n : ℕ) (os : Os)
      → AllSegments ss
      → 0 < n
      → Search ss n (search_segments k ss n os)
  unfolding search_segments
  search_segments-Search [] n os v pos = all_full tt
  search_segments-Search (s ∷ ss) n os (v, vs) pos =
      after_scan (scan_words s.bitmap 0 n 0 0) (scan_words-Searched s n v pos)
        (search_segments-Search ss n os vs pos)
    where
      after_scan :
          (r : Scan)
          → Searched s n r
          → Search ss n (search_segments k ss n os)
          → Search (s ∷ ss) n (elim r [
            | found start ↦ commit_and_return k s ss start n os >>= λ g. ok (some g)
            | next_word l p ↦ search_segments k ss n os >>= λ o. ok (with_front s o)
            | stuck ↦ out_of_fuel
          ])
      after_scan (found start) (hit run first) further =
          commit_and_return-Search s ss start n os v run first
      after_scan stuck h further = elim h [ ]
      after_scan (next_word l p) (miss full) further = Search-cons s ss n _ full further
