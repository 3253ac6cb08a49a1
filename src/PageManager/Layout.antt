-- ===== src/PageManager/Layout.antt =====
-- Where segments lie, and what it means that two lists of segments have the same pages taken.
use ely_square.Base.{ℕ, ◌+◌, ◌≤◌, ◌<◌, ◌≡◌, refl, arith, ◌⊎◌, List, [], ◌∷◌, ◌++◌}
use ely_square.PageBitmap.Search.{page_bit}
use ely_square.PageManager.{CageSegment, PageManager, memory_chunk_size, all_segments}

-- The addresses of a segment, and those that lie outside it.
abbrev pub Inside : CageSegment → ℕ → Type 0
Inside s a = (s.base_address ≤ a) × (a < s.base_address + memory_chunk_size)

abbrev pub Outside : CageSegment → ℕ → Type 0
Outside s a = (a < s.base_address) ⊎ (s.base_address + memory_chunk_size ≤ a)

abbrev pub AllOutside : List CageSegment → ℕ → Type 0
AllOutside [] a = Unit {0}
AllOutside (s ∷ ss) a = Outside s a × AllOutside ss a

-- No two segments overlap: each ends before the other starts.
abbrev pub Apart : CageSegment → List CageSegment → Type 0
Apart s [] = Unit {0}
Apart s (t ∷ ts) =
    ((s.base_address + memory_chunk_size ≤ t.base_address)
      ⊎ (t.base_address + memory_chunk_size ≤ s.base_address))
    × Apart s ts

abbrev pub AllApart : List CageSegment → Type 0
AllApart [] = Unit {0}
AllApart (s ∷ ss) = Apart s ss × AllApart ss

-- The same segments with the same pages taken.
abbrev pub SamePages : List CageSegment → List CageSegment → Type 0
SamePages [] [] = Unit {0}
SamePages [] (t ∷ ts) = ⊥
SamePages (s ∷ ss) [] = ⊥
SamePages (s ∷ ss) (t ∷ ts) =
    (t.base_address ≡ s.base_address)
    × ((p : ℕ) → page_bit t.bitmap p ≡ page_bit s.bitmap p)
    × SamePages ss ts

pub SamePages-refl : (ss : List CageSegment) → SamePages ss ss
SamePages-refl [] = tt
SamePages-refl (s ∷ ss) = (refl, λ p. refl, SamePages-refl ss)

SamePages-append : (bs ss ts : List CageSegment) → SamePages ss ts → SamePages (bs ++ ss) (bs ++ ts)
SamePages-append [] ss ts same = same
SamePages-append (b ∷ bs) ss ts same = (refl, λ p. refl, SamePages-append bs ss ts same)

pub SamePages-all :
    (m m'' : PageManager)
    → m''.before ≡ m.before
    → m.after ≡ []
    → SamePages (m.current ∷ []) (m''.current ∷ m''.after)
    → SamePages (all_segments m) (all_segments m'')
SamePages-all m m'' keeps last same =
    rw (keeps, last) (SamePages-append m.before (m.current ∷ []) (m''.current ∷ m''.after) same)

Outside-of_Apart :
    {a : ℕ} (s c : CageSegment) (bs : List CageSegment)
    → Apart s (bs ++ (c ∷ []))
    → Inside c a
    → Outside s a
Outside-of_Apart s c [] (apart, aparts) inside = omega arith
Outside-of_Apart s c (b ∷ bs) (apart, aparts) inside = Outside-of_Apart s c bs aparts inside

-- An address of the last segment lies in none of those before it.
pub earlier_outside :
    {a : ℕ} (bs : List CageSegment) (c : CageSegment)
    → AllApart (bs ++ (c ∷ []))
    → Inside c a
    → AllOutside bs a
earlier_outside [] c aparts inside = tt
earlier_outside (b ∷ bs) c (apart, aparts) inside =
    (Outside-of_Apart b c bs apart inside, earlier_outside bs c aparts inside)

pub AllOutside-split :
    (a : ℕ) (bs ss : List CageSegment) → AllOutside (bs ++ ss) a → AllOutside bs a × AllOutside ss a
AllOutside-split a [] ss out = (tt, out)
AllOutside-split a (b ∷ bs) ss (o, out) =
    let (front, rear) = AllOutside-split a bs ss out in ((o, front), rear)
