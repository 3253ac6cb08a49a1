-- ===== src/PageBitmap/Tests.antt =====
-- Concrete instances of the theorems: a bitmap of two empty words.
use ely_square.Base.{ℕ, arith, List, replicate, get_or-replicate}
use ely_square.PageBitmap.Marks.{IsSmall}

abbrev empty : List ℕ
empty = replicate 2 0

empty-IsSmall : IsSmall empty
empty-IsSmall j = rw (get_or-replicate {A = ℕ} 2 j 0) (omega arith)
