-- ===== src/PageManager.antt =====
-- lowcode/include/allocators/page_mgr.h and lowcode/source/allocators/page_mgr.cpp. Each segment
-- of reserved address space has a bitmap with one digit for each page, 64 to a word. The list that
-- starts at `head` is the segments before the current one, the current one, and those after it.
pub mod Request
pub mod Chunk
pub mod Returns
pub mod Layout
pub mod Release
pub mod Chunks
pub mod Returned
pub mod History
mod Tests
use ely_square.Base.{
  ℕ, zero, suc, ◌+◌, ◌-◌, ◌*◌, ◌/◌, Bool, true, false, Option, none, some, List, [], ◌∷◌, ◌++◌, ltb,
  leb, ◌&&◌, ◌==◌, if◌then◌else◌, u64, replicate, Outcome, ok, panic, undefined, out_of_fuel, ◌>>=◌,
  out_of_memory,
}
use ely_square.OsMem.{
  Kernel, Os, Prot, prot_none, memset_zero, read_write, reserve_pages, commit_pages, decommit_pages,
  release_reserved_pages,
}
use ely_square.PageBitmap.{found, next_word, stuck, scan_words, mark_pages, clear_pages}

-- ESLM_MEMORY_CHUNK_SIZE
abbrev pub memory_chunk_size : ℕ
memory_chunk_size = 8589934592

-- ESL_PAGE_SIZE
abbrev pub page_size : ℕ
page_size = 4096

abbrev pub bitmap_words : ℕ
bitmap_words = 32768

pub record CageSegment : Type 0 where
  pub base_address : ℕ
  pub bitmap : List ℕ

-- `before` is in the order from `head`. The counters totalReserved, totalCommited and totalFree
-- are declared in the source and never used.
pub record PageManager : Type 0 where
  pub before : List CageSegment
  pub current : CageSegment
  pub after : List CageSegment
  pub os : Os

-- What the search over the segments hands back where it succeeds.
pub record Grant : Type 0 where
  pub address : ℕ
  pub segments : List CageSegment
  pub os : Os

-- A segment that the search has passed stays in front of what the rest of it hands back.
abbrev pub with_front : CageSegment → Option Grant → Option Grant
with_front s none = none
with_front s (some g) = some (record g { segments = s ∷ g.segments })

abbrev pub Released : Type 0
Released = List CageSegment × Os

abbrev pub behind : CageSegment → Option Released → Option Released
behind s none = none
behind s (some (ss, os)) = some (s ∷ ss, os)

-- The manager whose current segment and those after it are the given ones.
abbrev pub with_tail : PageManager → List CageSegment → Os → PageManager
with_tail m [] os = record m { os = os }
with_tail m (s ∷ ss) os = record m { current = s; after = ss; os = os }

-- `memset` to 0 on pages with the given access; a write to pages without write access faults.
pub write_zero : (access : Prot) (address bytes : ℕ) → Os → Outcome Os
write_zero access address bytes os =
    if access.can_write then ok (memset_zero address bytes ∷ os) else undefined

module _ (k : Kernel) where
  -- commitAndReturn. The result of commitPages is not looked at.
  pub commit_and_return : CageSegment → List CageSegment → ℕ → ℕ → Os → Outcome Grant
  commit_and_return segment rest start page_count os = do
    marked ← mark_pages segment.bitmap start page_count
    let target = segment.base_address + start * page_size
    let (committed, os') = commit_pages k (some target) (u64 (page_count * page_size)) read_write os
    ok (record { address = target; segments = record segment { bitmap = marked } ∷ rest; os = os' })

  -- The loop over the segments from the current one on; `none` where all have been searched.
  pub search_segments : List CageSegment → ℕ → Os → Outcome (Option Grant)
  unfolding commit_and_return
  search_segments [] page_count os = ok none
  search_segments (segment ∷ rest) page_count os =
      elim (scan_words segment.bitmap 0 page_count 0 0) [
        | found start ↦ commit_and_return segment rest start page_count os >>= λ g. ok (some g)
        | next_word l s ↦ search_segments rest page_count os >>= λ o. ok (with_front segment o)
        | stuck ↦ out_of_fuel
      ]

  -- A new segment: reserve, zero the first bytes of the reserved range (as the source does), link.
  -- The range was mapped with PROT_NONE and nothing of it is committed yet.
  pub new_segment : Os → Outcome (CageSegment × Os)
  unfolding write_zero
  new_segment os =
      let (start, os') = reserve_pages k memory_chunk_size os in
      elim start [
        | none ↦ panic out_of_memory
        | some address ↦
            (write_zero prot_none address (bitmap_words * 8) os' >>= λ os''.
            ok (record { base_address = address; bitmap = replicate bitmap_words 0 }, os''))
      ]

  -- The part of createNewSegmentAndAllocate before it calls requestPageChunk again. It overwrites
  -- `current->next`, so segments after the current one would be lost.
  pub create_new_segment : PageManager → Outcome PageManager
  unfolding new_segment
  create_new_segment m = do
    (segment, os') ← new_segment m.os
    ok (record { before = m.before ++ (m.current ∷ []); current = segment; after = []; os = os' })

  -- The fuel counts the calls of requestPageChunk, which createNewSegmentAndAllocate calls again.
  pub request_page_chunk : ℕ → PageManager → ℕ → Outcome (Option ℕ × PageManager)
  unfolding search_segments create_new_segment
  request_page_chunk zero m page_count = out_of_fuel
  request_page_chunk (suc fuel) m page_count =
      if page_count == 0
      then ok (none, m)
      else (search_segments (m.current ∷ m.after) page_count m.os >>= λ o. elim o [
        | some g ↦ ok (some g.address, with_tail m g.segments g.os)
        | none ↦ create_new_segment m >>= λ m'. request_page_chunk fuel m' page_count
      ])

  pub page_manager : Outcome PageManager
  unfolding new_segment
  page_manager = do
    (segment, os') ← new_segment []
    ok (record { before = []; current = segment; after = []; os = os' })

  -- The loop of releasePageChunk over the segments of a list; `none` where it leaves the list
  -- without a match.
  pub release_in : List CageSegment → (address page_count : ℕ) → Os → Outcome (Option Released)
  release_in [] address page_count os = ok none
  release_in (segment ∷ rest) address page_count os =
      let inside =
        leb segment.base_address address
        && ltb address (segment.base_address + memory_chunk_size) in
      let start = (address - segment.base_address) / page_size in
      let further = release_in rest address page_count os in
      if inside
      then (clear_pages segment.bitmap start page_count >>= λ cleared. ok (
          some (
            record segment { bitmap = cleared } ∷ rest,
            (decommit_pages k (some address) (u64 (page_count * page_size)) os).1,
          )))
      else (further >>= λ r. ok (behind segment r))

  -- The walk goes from `head` through the current segment to the last one.
  pub release_page_chunk : PageManager → (address page_count : ℕ) → Outcome PageManager
  unfolding release_in
  release_page_chunk m address page_count = release_in m.before address page_count m.os >>= λ r.
      elim r [
        | some (segments, os) ↦ ok (record m { before = segments; os = os })
        | none ↦ release_in (m.current ∷ m.after) address page_count m.os >>= λ r'. elim r' [
          | some (segments, os) ↦ ok (with_tail m segments os)
          | none ↦ panic out_of_memory
        ]
      ]

  -- ~PageManager
  pub release_segments : List CageSegment → Os → Os
  release_segments [] os = os
  release_segments (segment ∷ rest) os =
      release_segments rest
        (release_reserved_pages k (some segment.base_address) memory_chunk_size os).1

-- All segments, in the order from `head`.
abbrev pub all_segments : PageManager → List CageSegment
all_segments m = m.before ++ (m.current ∷ m.after)
