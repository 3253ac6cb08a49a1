-- ===== src/PageManager/Chunks.antt =====
-- Chunks of pages that are taken in a list of segments, and what a change of one chunk keeps.
use ely_square.Base.{
  ℕ, ◌+◌, ◌*◌, ◌≤◌, ◌<◌, ◌≡◌, ◌⊎◌, inl, inr, ◌∙◌, arith, List, [], ◌∷◌, ◌++◌, dec_lt,
}
use ely_square.PageBitmap.Search.{page_bit}
use ely_square.PageBitmap.Marks.{IsFilled}
use ely_square.PageManager.{CageSegment, memory_chunk_size, page_size}
use ely_square.PageManager.Request.{AllSegments, total_pages, Granted, here, there}
use ely_square.PageManager.Layout.{Apart, AllApart}

-- The `n` pages from address `a` on are pages of the segment, and taken.
abbrev pub InSegment : CageSegment → (a n : ℕ) → Type 0
InSegment s a n =
    (start : ℕ) × (a ≡ s.base_address + start * page_size)
    × (start + n ≤ total_pages)
    × ((p : ℕ) → start ≤ p → p < start + n → page_bit s.bitmap p ≡ 1)

abbrev pub HasChunk : List CageSegment → (a n : ℕ) → Type 0
HasChunk [] a n = ⊥
HasChunk (s ∷ ss) a n = InSegment s a n ⊎ HasChunk ss a n

-- The bytes of two chunks do not overlap.
abbrev pub ApartChunks : (a n b c : ℕ) → Type 0
ApartChunks a n b c = (a + n * page_size ≤ b) ⊎ (b + c * page_size ≤ a)

-- The `n` pages from `a` on, of one of the segments, get the digit `d`.
pub data Changed (d a n : ℕ) : (ss ss' : List CageSegment) → Type 0 where
  change_here :
      {s s' : CageSegment} {rest : List CageSegment} (start : ℕ)
      → start + n ≤ total_pages
      → s'.base_address ≡ s.base_address
      → IsFilled d start (start + n) s.bitmap s'.bitmap
      → a ≡ s.base_address + start * page_size
      → Changed d a n (s ∷ rest) (s' ∷ rest)
  change_there :
      {s : CageSegment} {rest rest' : List CageSegment}
      → Changed d a n rest rest'
      → Changed d a n (s ∷ rest) (s ∷ rest')

pub Granted-Changed :
    {n a : ℕ} {ss ss' : List CageSegment} → Granted n a ss ss' → Changed 1 a n ss ss'
Granted-Changed (here start run first base filled at) = change_here start run.0 base filled at
Granted-Changed (there full g) = change_there (Granted-Changed g)

base_Apart :
    (s s' : CageSegment) (ss : List CageSegment)
    → s'.base_address ≡ s.base_address
    → Apart s ss
    → Apart s' ss
base_Apart s s' [] e o = tt
base_Apart s s' (t ∷ ts) e (o, os) = (omega (arith, e, o), base_Apart s s' ts e os)

module _ {d a n : ℕ} where
  pub Changed-before :
      (bs : List CageSegment) {ss ss' : List CageSegment}
      → Changed d a n ss ss'
      → Changed d a n (bs ++ ss) (bs ++ ss')
  Changed-before [] c = c
  Changed-before (b ∷ bs) c = change_there (Changed-before bs c)

  pub Changed-behind :
      {ss ss' : List CageSegment} (ts : List CageSegment)
      → Changed d a n ss ss'
      → Changed d a n (ss ++ ts) (ss' ++ ts)
  Changed-behind ts (change_here start fits base filled at) = change_here start fits base filled at
  Changed-behind ts (change_there c) = change_there (Changed-behind ts c)

  pub Changed-AllSegments :
      {ss ss' : List CageSegment} → Changed d a n ss ss' → AllSegments ss → AllSegments ss'
  Changed-AllSegments (change_here start fits base filled at) (v, vs) =
      (record { words = filled.same_length ∙ v.words; small = filled.small }, vs)
  Changed-AllSegments (change_there c) (v, vs) = (v, Changed-AllSegments c vs)

  Changed-Apart :
      {ss ss' : List CageSegment} (t : CageSegment)
      → Changed d a n ss ss'
      → Apart t ss
      → Apart t ss'
  Changed-Apart t (change_here start fits base filled at) (o, os) = (omega (arith, base, o), os)
  Changed-Apart t (change_there c) (o, os) = (o, Changed-Apart t c os)

  pub Changed-AllApart :
      {ss ss' : List CageSegment} → Changed d a n ss ss' → AllApart ss → AllApart ss'
  Changed-AllApart (change_here {s} {s'} {rest} start fits base filled at) (o, os) =
      (base_Apart s s' rest base o, os)
  Changed-AllApart (change_there {s} c) (o, os) = (Changed-Apart s c o, Changed-AllApart c os)

  -- A chunk stays taken if pages are only taken, or if it is apart from those that are cleared.
  pub Changed-HasChunk :
      {ss ss' : List CageSegment} (b c : ℕ)
      → Changed d a n ss ss'
      → (d ≡ 1) ⊎ ApartChunks a n b c
      → HasChunk ss b c
      → HasChunk ss' b c
  Changed-HasChunk b c (change_here start fits base filled at) safe (inr later) = inr later
  Changed-HasChunk b c (change_here {s} {s'} start fits base filled at) safe
        (inl (start', at', fits', taken)) =
      inl (
        start',
        omega (arith, at', base),
        fits',
        λ p lo hi. elim (dec_lt p start) [
          | yes below ↦ filled.outside p (inl below) ∙ taken p lo hi
          | no from ↦ elim (dec_lt p (start + n)) [
            | no above ↦ filled.outside p (inr (omega arith)) ∙ taken p lo hi
            | yes within ↦ filled.inside p (omega arith) within ∙ elim safe [
              | inl one ↦ one
              | inr apart ↦ absurd (omega (arith, apart, at, at', lo, hi))
            ]
          ]
        ],
      )
  Changed-HasChunk b c (change_there ch) safe (inl now) = inl now
  Changed-HasChunk b c (change_there ch) safe (inr later) = inr (Changed-HasChunk b c ch safe later)

pub HasChunk-behind :
    (ss ts : List CageSegment) (a n : ℕ) → HasChunk ss a n → HasChunk (ss ++ ts) a n
HasChunk-behind [] ts a n h = elim h [ ]
HasChunk-behind (s ∷ ss) ts a n (inl now) = inl now
HasChunk-behind (s ∷ ss) ts a n (inr later) = inr (HasChunk-behind ss ts a n later)

pub HasChunk-split :
    (ss ts : List CageSegment) (a n : ℕ)
    → HasChunk (ss ++ ts) a n
    → HasChunk ss a n ⊎ HasChunk ts a n
HasChunk-split [] ts a n h = inr h
HasChunk-split (s ∷ ss) ts a n (inl now) = inl (inl now)
HasChunk-split (s ∷ ss) ts a n (inr later) = elim (HasChunk-split ss ts a n later) [
  | inl front ↦ inl (inr front)
  | inr rear ↦ inr rear
]

-- The pages of a grant were free, so they are apart from every chunk that was taken.
pub Granted-ApartChunks :
    {n a : ℕ} {s s' : CageSegment} (bs : List CageSegment) (b c : ℕ)
    → Granted n a (s ∷ []) (s' ∷ [])
    → 0 < n
    → 0 < c
    → AllApart (bs ++ (s ∷ []))
    → HasChunk (bs ++ (s ∷ [])) b c
    → ApartChunks a n b c
Granted-ApartChunks [] b c (there full g) pos pos' aparts h = elim g [ ]
Granted-ApartChunks [] b c (here start run first base filled at) pos pos' aparts (inr later) =
    elim later [ ]
Granted-ApartChunks {n} {s} [] b c (here start run first base filled at) pos pos' aparts
      (inl (start', at', fits', taken)) =
    elim (dec_lt start' (start + n)) [
      | no above ↦ inl (omega (arith, at, at'))
      | yes below ↦ elim (dec_lt start (start' + c)) [
        | no before ↦ inr (omega (arith, at, at'))
        | yes overlap ↦ elim (dec_lt start start') [
          | yes later ↦ absurd (
              omega
                (arith, run.1 start' (omega arith) below, taken start' (omega arith) (omega arith)))
          | no earlier ↦ absurd (
              omega
                (arith, run.1 start (omega arith) (omega arith), taken start (omega arith) overlap))
        ]
      ]
    ]
Granted-ApartChunks (t ∷ bs) b c g pos pos' (o, aparts) (inr later) =
    Granted-ApartChunks bs b c g pos pos' aparts later
Granted-ApartChunks {n} {a} {s} (t ∷ bs) b c g pos pos' (o, aparts)
      (inl (start', at', fits', taken)) =
    apart_last (apart_from bs o) g
  where
    apart_from :
        (bs : List CageSegment)
        → Apart t (bs ++ (s ∷ []))
        → (t.base_address + memory_chunk_size ≤ s.base_address)
          ⊎ (s.base_address + memory_chunk_size ≤ t.base_address)
    apart_from [] (o, _) = o
    apart_from (_ ∷ bs) (_, os) = apart_from bs os

    apart_last :
        {s' : CageSegment}
        → (t.base_address + memory_chunk_size ≤ s.base_address)
          ⊎ (s.base_address + memory_chunk_size ≤ t.base_address)
        → Granted n a (s ∷ []) (s' ∷ [])
        → ApartChunks a n b c
    apart_last side (here start run first base filled at) =
        omega (arith, side, at, at', run.0, fits')
    apart_last side (there full g) = elim g [ ]
