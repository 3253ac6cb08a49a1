-- ===== src/FreeList.antt =====
-- The chains of free blocks of lowcode/include/allocators/block.h (FreeBlock) and
-- lowcode/include/meta/meta_arena.h (FreeList): a free block holds the pointer to the next one in
-- its first bytes.
use ely_square.Base.{ℕ, Option, none, some, List, [], ◌∷◌, ◌==◌, ◌≢◌, if◌then◌else◌, ==_refl, ==_ne}

-- The `next` pointer that the memory holds at an address; `none` for a null pointer.
abbrev pub Links : Type 0
Links = ℕ → Option ℕ

-- `block->next = next`
abbrev pub write_next : Links → (block : ℕ) → (next : Option ℕ) → Links
write_next links block next = λ a. if a == block then next else links a

-- The blocks of the chain from `head` on.
pub data IsChain (links : Links) : (head : Option ℕ) → List ℕ → Type 0 where
  nil : IsChain links none []
  cons : {p : ℕ} {ps : List ℕ} → IsChain links (links p) ps → IsChain links (some p) (p ∷ ps)

-- No block of the list is `p`.
abbrev pub IsFresh : ℕ → List ℕ → Type 0
IsFresh p [] = Unit {0}
IsFresh p (q ∷ qs) = (q ≢ p) × IsFresh p qs

-- Writing into a block that is not of the chain leaves the chain.
pub IsChain-write_next :
    {links : Links} {head : Option ℕ} {ps : List ℕ} (p : ℕ) (next : Option ℕ)
    → IsChain links head ps
    → IsFresh p ps
    → IsChain (write_next links p next) head ps
IsChain-write_next p next nil fresh = nil
IsChain-write_next {links} p next (cons {p = q} {ps} rest) (ne, fresh) =
    cons (rw (==_ne q p ne) (IsChain-write_next p next rest fresh))

-- A block put in front of a chain that does not hold it.
pub IsChain-push :
    {links : Links} {head : Option ℕ} {ps : List ℕ} (p : ℕ)
    → IsChain links head ps
    → IsFresh p ps
    → IsChain (write_next links p head) (some p) (p ∷ ps)
IsChain-push {head} p chain fresh = cons (rw (==_refl p) (IsChain-write_next p head chain fresh))
