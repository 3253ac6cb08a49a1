-- ===== src/PageBitmap.antt =====
-- The bitmap of a segment in lowcode/source/allocators/page_mgr.cpp: the search for a run of clear
-- digits, and the loops that set and clear the digits of a chunk. A bitmap is the list of its words.
pub mod Words
pub mod Search
pub mod Scanned
pub mod Marks
mod Tests
use ely_square.Base.{
  ℕ, zero, suc, ◌+◌, ◌-◌, ◌*◌, ◌/◌, ◌%◌, ◌^◌, bit_and, bit_or, List, [], ◌∷◌, ltb, leb, ◌==◌,
  if◌then◌else◌, not64, ◌>>>◌, get_or, set, length, Outcome, ok, panic, undefined, out_of_memory,
}

-- `~0ULL`
abbrev pub full_word : ℕ
full_word = 0xffff_ffff_ffff_ffff

-- std::countr_zero of a word, with the digits still to look at
unfoldable pub countr_zero_from : ℕ → ℕ → ℕ
countr_zero_from zero x = 0
countr_zero_from (suc n) x = if x % 2 == 1 then 0 else suc (countr_zero_from n (x / 2))

abbrev pub countr_zero : ℕ → ℕ
countr_zero x = countr_zero_from 64 x

pub find_first_zero_bit : ℕ → Outcome ℕ
find_first_zero_bit word =
    if word == full_word then panic out_of_memory else ok (countr_zero (not64 word))

-- What a search has come to: a start index, or the run that reaches the end of what was searched
-- (its length, and its start where the length is not 0).
pub data Scan : Type 0 where
  found : ℕ → Scan
  next_word : ℕ → ℕ → Scan
  stuck : Scan

-- `(count > 64 - b) ? 64 - b : count`
abbrev pub clip : ℕ → ℕ → ℕ
clip count b = if ltb (64 - b) count then 64 - b else count

-- The loop over the runs of one word, at digit `b`, on fuel.
pub scan_bits : ℕ → (word i page_count b run_length run_start : ℕ) → Scan
scan_bits zero word i page_count b run_length run_start = stuck
scan_bits (suc fuel) word i page_count b run_length run_start =
    let zeros = clip (countr_zero (word >>> b)) b in
    let ones = clip (countr_zero (not64 (word >>> b))) b in
    let start = if run_length == 0 then i * 64 + b else run_start in
    let after_zeros = scan_bits fuel word i page_count (b + zeros) (run_length + zeros) start in
    let after_ones = scan_bits fuel word i page_count (b + ones) 0 run_start in
    if ltb b 64
    then if bit_and (word >>> b) 1 == 0
      then if leb page_count (run_length + zeros) then found start else after_zeros
      else after_ones
    else next_word run_length run_start

-- Each round takes one digit at least, and one more round sees the end.
abbrev pub bits_fuel : ℕ
bits_fuel = 65

-- The loop over the words, from index `i` on.
pub scan_words : List ℕ → (i page_count run_length run_start : ℕ) → Scan
scan_words [] i page_count run_length run_start = next_word run_length run_start
scan_words (word ∷ words) i page_count run_length run_start =
    let start = if run_length == 0 then i * 64 else run_start in
    let after_full = scan_words words (suc i) page_count 0 run_start in
    let after_free = scan_words words (suc i) page_count (run_length + 64) start in
    if word == full_word
    then after_full
    else if word == 0
    then if leb page_count (run_length + 64) then found start else after_free
    else elim (scan_bits bits_fuel word i page_count 0 run_length run_start) [
      | found s ↦ found s
      | next_word l s ↦ scan_words words (suc i) page_count l s
      | stuck ↦ stuck
    ]

-- `bitmap[idx / 64] |= 1ULL << (idx % 64)` for `count` indices from `idx` on; an index past the
-- array is undefined behaviour.
pub mark_pages : List ℕ → ℕ → ℕ → Outcome (List ℕ)
mark_pages bitmap idx zero = ok bitmap
mark_pages bitmap idx (suc count) =
    if ltb (idx / 64) (length bitmap)
    then mark_pages (set bitmap (idx / 64) (bit_or (get_or bitmap (idx / 64) 0) (2 ^ (idx % 64))))
        (suc idx) count
    else undefined

-- `bitmap[idx / 64] &= ~(1ULL << (idx % 64))` for `count` indices
pub clear_pages : List ℕ → ℕ → ℕ → Outcome (List ℕ)
clear_pages bitmap idx zero = ok bitmap
clear_pages bitmap idx (suc count) =
    if ltb (idx / 64) (length bitmap)
    then clear_pages
        (set bitmap (idx / 64) (bit_and (get_or bitmap (idx / 64) 0) (not64 (2 ^ (idx % 64)))))
        (suc idx) count
    else undefined
