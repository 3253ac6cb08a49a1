-- ===== src/PageManager/Chunk.antt =====
-- One call of requestPageChunk.
use mathlib.Core.Path.{subst}
use ely_square.Base.{
  ℕ, suc, ◌/◌, ◌%◌, ◌<◌, ◌≡◌, refl, ◌∙◌, arith, ◌⊎◌, dec_lt, inl, inr, ap, List, [], ◌∷◌, Option,
  none, some, Outcome, ok, panic, undefined, out_of_fuel, ◌>>=◌, replicate, out_of_memory,
  length-replicate, get_or-replicate, ==_ne,
}
use ely_square.Base.Bits.{bit-zero}
use ely_square.OsMem.{Kernel}
use ely_square.PageBitmap.Search.{page_bit}
use ely_square.PageManager.{
  CageSegment, PageManager, Grant, bitmap_words, search_segments, with_tail, create_new_segment,
  request_page_chunk,
}
use ely_square.PageManager.Request.{
  IsSegment, AllSegments, IsFull, AllFull, Granted, here, there, Search, granted, all_full,
  search_segments-Search,
}

-- The current segment is the last of the list, and every segment's bitmap is whole.
pub record IsManager (m : PageManager) : Type 0 where
  pub last : m.after ≡ []
  pub earlier : AllSegments m.before
  pub now : IsSegment m.current

abbrev pub fresh_segment : ℕ → CageSegment
fresh_segment address = record { base_address = address; bitmap = replicate bitmap_words 0 }

pub fresh-IsSegment : (address : ℕ) → IsSegment (fresh_segment address)
fresh-IsSegment address = record {
  words = length-replicate {A = ℕ} bitmap_words 0;
  small = λ j. rw (get_or-replicate {A = ℕ} bitmap_words j 0) (omega arith);
}

pub fresh_clear : (address p : ℕ) → page_bit (fresh_segment address).bitmap p ≡ 0
unfolding page_bit
fresh_clear address p = rw (get_or-replicate {A = ℕ} bitmap_words (p / 64) 0) (bit-zero (p % 64))

-- What a request for `n` pages comes to: a chunk of the current segment, or, where that has no run
-- of `n` free pages, a new segment, which the kernel refuses or whose first bytes are written while
-- they have no access yet. `base` is the kernel's answer to the reservation.
pub data Requested (m : PageManager) (n : ℕ) (base : Option ℕ)
    : Outcome (Option ℕ × PageManager) → Type 0 where
  from_current :
      {a : ℕ} {m' : PageManager}
      → Granted n a (m.current ∷ []) (m'.current ∷ [])
      → m'.before ≡ m.before
      → IsManager m'
      → Requested m n base (ok (some a, m'))
  no_memory : IsFull m.current n → base ≡ none → Requested m n base (panic out_of_memory)
  faults : {a : ℕ} → IsFull m.current n → base ≡ some a → Requested m n base undefined

-- A grant from one segment changes that segment alone, and keeps it whole.
pub Granted-one :
    {n a : ℕ} {s : CageSegment} {ss : List CageSegment}
    → IsSegment s
    → Granted n a (s ∷ []) ss
    → (s' : CageSegment) × (ss ≡ s' ∷ []) × IsSegment s' × Granted n a (s ∷ []) (s' ∷ [])
Granted-one v (here {s' = s'} start run first base filled at) = (
  s',
  refl,
  record { words = filled.same_length ∙ v.words; small = filled.small },
  here start run first base filled at,
)
Granted-one v (there full g) = elim g [ ]

-- In a new segment the chunk starts at the first page.
pub fresh_address :
    {n a base : ℕ} {ss' : List CageSegment} → Granted n a (fresh_segment base ∷ []) ss' → a ≡ base
fresh_address {base} (here start run first same filled at) = elim (dec_lt 0 start) [
  | no early ↦ at ∙ omega arith
  | yes later ↦ let b = first 0 later in absurd (omega (arith, b.digit, fresh_clear base b.taken))
]
fresh_address (there full g) = elim g [ ]

module _ (k : Kernel) (n : ℕ) (pos : 0 < n) where
  found_here :
      (fuel : ℕ) (m : PageManager) (g : Grant)
      → search_segments k (m.current ∷ m.after) n m.os ≡ ok (some g)
      → request_page_chunk k (suc fuel) m n ≡ ok (some g.address, with_tail m g.segments g.os)
  unfolding request_page_chunk
  found_here fuel m g e = rw (==_ne n 0 (omega arith), e)

  pub not_here :
      (fuel : ℕ) (m : PageManager)
      → search_segments k (m.current ∷ m.after) n m.os ≡ ok none
      → request_page_chunk k (suc fuel) m n
        ≡ (create_new_segment k m >>= λ m'. request_page_chunk k fuel m' n)
  unfolding request_page_chunk
  not_here fuel m e = rw (==_ne n 0 (omega arith), e)

  -- A manager after the search of its only remaining segment.
  abbrev pub Answer : (fuel : ℕ) (m : PageManager) → Type 0
  Answer fuel m =
      (m' : PageManager) × (a : ℕ) × (request_page_chunk k (suc fuel) m n ≡ ok (some a, m'))
      × Granted n a (m.current ∷ []) (m'.current ∷ [])
      × (m'.before ≡ m.before)
      × IsManager m'

  Granted-Answer :
      (fuel : ℕ) (m : PageManager) (g : Grant)
      → IsManager m
      → search_segments k (m.current ∷ m.after) n m.os ≡ ok (some g)
      → Granted n g.address (m.current ∷ []) g.segments
      → Answer fuel m
  Granted-Answer fuel m g v e h =
      let one = Granted-one v.now h in
      (
        record m { current = one.0; after = []; os = g.os },
        g.address,
        found_here fuel m g e ∙ ap (λ ss. ok (some g.address, with_tail m ss g.os)) one.1,
        one.3,
        refl,
        record { last = refl; earlier = v.earlier; now = one.2 },
      )

  pub searched-Answer :
      (fuel : ℕ) (m : PageManager)
      → IsManager m
      → (AllFull (m.current ∷ []) n × (search_segments k (m.current ∷ m.after) n m.os ≡ ok none))
        ⊎ Answer fuel m
  searched-Answer fuel m v = inspect (search_segments k (m.current ∷ m.after) n m.os) refl (
      subst (λ ss. Search ss n (search_segments k (m.current ∷ m.after) n m.os))
        (ap (λ ss. m.current ∷ ss) v.last)
        (search_segments-Search k (m.current ∷ m.after) n m.os (v.now, rw v.last tt) pos))
    where
      inspect :
          (r : Outcome (Option Grant))
          → search_segments k (m.current ∷ m.after) n m.os ≡ r
          → Search (m.current ∷ []) n r
          → (AllFull (m.current ∷ []) n
              × (search_segments k (m.current ∷ m.after) n m.os ≡ ok none))
            ⊎ Answer fuel m
      inspect (ok (some g)) e (granted g' h) = inr (Granted-Answer fuel m g v e h)
      inspect (ok none) e (all_full h) = inl (h, e)
      inspect (panic c) e h = elim h [ ]
      inspect undefined e h = elim h [ ]
      inspect out_of_fuel e h = elim h [ ]
