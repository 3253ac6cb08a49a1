-- ===== src/PageManager/Tests.antt =====
-- Concrete instances of the theorems: a manager with one empty segment.
use ely_square.Base.{
  ℕ, ◌≡◌, ◌≢◌, inr, refl, arith, ◌∙◌, none, some, ok, true, [], ◌∷◌, PartialMap, assign,
  assign_self, assign_ne,
}
use ely_square.OsMem.{Kernel}
use ely_square.PageBitmap.{scan_words}
use ely_square.PageManager.{
  CageSegment, PageManager, request_page_chunk, release_page_chunk, all_segments,
}
use ely_square.PageManager.Request.{Granted, here, there, HasRun, Searched, scan_words-Searched}
use ely_square.PageManager.Chunk.{
  IsManager, Requested, fresh_segment, fresh-IsSegment, fresh_clear, fresh_address, Answer,
}
use ely_square.PageManager.Returns.{request_page_chunk-Requested}
use ely_square.PageManager.Layout.{SamePages}
use ely_square.PageManager.Release.{release_page_chunk-request_page_chunk, room-Answer}
use ely_square.PageManager.Chunks.{ApartChunks, Granted-ApartChunks}
use ely_square.PageManager.History.{
  History, begin, requested, Granted-HasChunk, History-ApartChunks,
}

abbrev kernel : Kernel
kernel = record { mapped = λ n. some 0x10000000000; returned_zero = λ n. true }

abbrev manager : PageManager
manager = record { before = []; current = fresh_segment 0x200000000; after = []; os = [] }

manager-IsManager : IsManager manager
manager-IsManager = record { last = refl; earlier = tt; now = fresh-IsSegment 0x200000000 }

run_at_5 : HasRun manager.current 3 5
run_at_5 = (omega arith, λ p lo hi. fresh_clear 0x200000000 p)

scan_words-Searched_example :
    Searched (fresh_segment 0x200000000) 3 (scan_words (fresh_segment 0x200000000).bitmap 0 3 0 0)
scan_words-Searched_example =
    scan_words-Searched (fresh_segment 0x200000000) 3 (fresh-IsSegment 0x200000000) (omega arith)

request_page_chunk-Requested_example :
    Requested manager 3 (some 0x10000000000) (request_page_chunk kernel 1 manager 3)
request_page_chunk-Requested_example =
    request_page_chunk-Requested kernel 0 3 manager manager-IsManager (omega arith)

release_page_chunk-request_page_chunk_example :
    (a : ℕ) × (m' : PageManager) × (m'' : PageManager) × (request_page_chunk kernel 1 manager 3
      ≡ ok (some a, m'))
    × (release_page_chunk kernel m' a 3 ≡ ok m'')
    × SamePages (all_segments manager) (all_segments m'')
release_page_chunk-request_page_chunk_example =
    release_page_chunk-request_page_chunk kernel 0 3 5 manager manager-IsManager (tt, tt)
      (omega arith) run_at_5

-- A first request, for three pages of the empty segment.
abbrev first : Answer kernel 3 (omega arith) 1 manager
first = room-Answer kernel 3 manager 1 5 manager-IsManager (omega arith) run_at_5

abbrev first_chunk : ℕ
first_chunk = first.1

-- What the segment is like after it.
after_first :
    {a base : ℕ} {s : CageSegment}
    → Granted 3 a (fresh_segment base ∷ []) (s ∷ [])
    → HasRun s 5 3 × (s.base_address ≡ base)
after_first {a} {base} {s} (here start run earliest same filled at) =
    let front : a ≡ base = fresh_address {ss' = s ∷ []} (here start run earliest same filled at) in
    let zero_start : start ≡ 0 = omega (arith, front, at) in
    (
      (
        omega arith,
        λ p lo hi. filled.outside p (inr (omega (arith, zero_start))) ∙ fresh_clear base p,
      ),
      same,
    )
after_first (there full g) = elim g [ ]

-- A second one, for five pages.
abbrev second : Answer kernel 5 (omega arith) 1 first.0
second = room-Answer kernel 5 first.0 1 3 first.5 (omega arith) (after_first first.3).0

abbrev second_chunk : ℕ
second_chunk = second.1

abbrev both : PartialMap
both = assign (assign (λ _. none) first_chunk (some 3)) second_chunk (some 5)

chunks_apart : ApartChunks second_chunk 5 first_chunk 3
chunks_apart =
    Granted-ApartChunks [] first_chunk 3 second.3 (omega arith) (omega arith) (tt, tt)
      (Granted-HasChunk [] first.3)

different : first_chunk ≢ second_chunk
different e = omega (arith, e, chunks_apart)

history : History kernel manager second.0 both
history =
    requested 1 5 second_chunk (requested 1 3 first_chunk begin (omega arith) first.2) (omega arith)
      second.2

History-ApartChunks_example :
    ((m' : PageManager) × (release_page_chunk kernel second.0 first_chunk 3 ≡ ok m'))
    × ((b c : ℕ) → both b ≡ some c → first_chunk ≢ b → ApartChunks first_chunk 3 b c)
History-ApartChunks_example =
    History-ApartChunks kernel manager manager-IsManager (tt, tt) first_chunk 3 history
      (assign_ne (assign (λ _. none) first_chunk (some 3)) second_chunk first_chunk (some 5)
          different
        ∙ assign_self (λ _. none) first_chunk (some 3))
