-- ===== src/PageManager/Returns.antt =====
-- requestPageChunk as a whole.
use mathlib.Core.Path.{subst}
use ely_square.Base.{
  ℕ, suc, ◌<◌, ◌≡◌, ◌∙◌, ap, sym, ◌⊎◌, inl, inr, Option-cases, [], ◌∷◌, length, none, some, ok,
  panic, undefined, ◌>>=◌, out_of_memory,
}
use ely_square.OsMem.{Kernel, reserve_pages}
use ely_square.PageManager.{
  PageManager, write_zero, new_segment, search_segments, create_new_segment, request_page_chunk,
}
use ely_square.PageManager.Request.{AllFull}
use ely_square.PageManager.Chunk.{
  IsManager, Requested, from_current, no_memory, faults, not_here, Answer, searched-Answer,
}

create_new_segment-undefined :
    (k : Kernel) (m : PageManager) (a : ℕ)
    → k.mapped (length m.os) ≡ some a
    → create_new_segment k m ≡ undefined
unfolding create_new_segment new_segment write_zero reserve_pages
create_new_segment-undefined k m a e = rw e

create_new_segment-panic :
    (k : Kernel) (m : PageManager)
    → k.mapped (length m.os) ≡ none
    → create_new_segment k m ≡ panic out_of_memory
unfolding create_new_segment new_segment write_zero reserve_pages
create_new_segment-panic k m e = rw e

-- On a manager whose current segment is the last and whose bitmaps are whole, a request for at
-- least one page ends in the first call, in one of three ways. If the current segment has a run of
-- that many free pages, the chunk is the first such run: its pages were free and become taken, no
-- other page and no earlier segment changes, and every bitmap stays whole. If it has none, a new
-- segment is reserved: the request panics if the kernel refuses, and faults if the kernel grants,
-- since the first bytes of the range are written while the range has no access.
pub request_page_chunk-Requested :
    (k : Kernel) (fuel n : ℕ) (m : PageManager)
    → IsManager m
    → 0 < n
    → Requested m n (k.mapped (length m.os)) (request_page_chunk k (suc fuel) m n)
request_page_chunk-Requested k fuel n m v pos = after_search (searched-Answer k n pos fuel m v)
  where
    after_search :
        (AllFull (m.current ∷ []) n × (search_segments k (m.current ∷ m.after) n m.os ≡ ok none))
          ⊎ Answer k n pos fuel m
        → Requested m n (k.mapped (length m.os)) (request_page_chunk k (suc fuel) m n)
    after_search (inr (m', a, run, g, keeps, v')) =
        subst (Requested m n (k.mapped (length m.os))) (sym run) (from_current g keeps v')
    after_search (inl (full, missed)) = elim (Option-cases (k.mapped (length m.os))) [
      | inl e ↦
          subst (Requested m n (k.mapped (length m.os)))
            (sym (
              not_here k n pos fuel m missed
              ∙ ap (λ o. o >>= λ m'. request_page_chunk k fuel m' n)
                  (create_new_segment-panic k m e)))
            (no_memory full.0 e)
      | inr (a, e) ↦
          subst (Requested m n (k.mapped (length m.os)))
            (sym (
              not_here k n pos fuel m missed
              ∙ ap (λ o. o >>= λ m'. request_page_chunk k fuel m' n)
                  (create_new_segment-undefined k m a e)))
            (faults full.0 e)
    ]
