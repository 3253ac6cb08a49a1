-- ===== src/Block/History.antt =====
-- BlockAllocator over time: the blocks in use and the free ones.
use mathlib.Core.List.{append_assoc, append-nil}
use mathlib.Core.List.Perm
use mathlib.Core.List.{Perm, perm_middle}
use mathlib.Core.Path.{subst}
use ely_square.Base.{
  ℕ, zero, suc, ◌+◌, ◌*◌, ◌≤◌, ◌<◌, ◌≡◌, ◌⊎◌, inl, inr, refl, sym, ap, ◌∙◌, arith, Option, none,
  some, List, [], ◌∷◌, ◌++◌, eq_of_some,
}
use ely_square.FreeList.{IsFresh}
use ely_square.Block.{BlockAllocator, alloc, free}
use ely_square.Block.Pool.{Serves, blocks_from, popped, alloc-Serves, free-Serves}

module _ (size : ℕ) where
  -- The bytes of two blocks do not overlap.
  abbrev pub Apart : ℕ → ℕ → Type 0
  Apart p q = (p + size ≤ q) ⊎ (q + size ≤ p)

  abbrev pub ApartFrom : ℕ → List ℕ → Type 0
  ApartFrom p [] = Unit {0}
  ApartFrom p (q ∷ qs) = Apart p q × ApartFrom p qs

  abbrev pub AllApart : List ℕ → Type 0
  AllApart [] = Unit {0}
  AllApart (p ∷ ps) = ApartFrom p ps × AllApart ps

  Apart-comm : (p q : ℕ) → Apart p q → Apart q p
  Apart-comm p q (inl h) = inr h
  Apart-comm p q (inr h) = inl h

  ApartFrom-insert :
      (a p : ℕ) (xs ys : List ℕ) → Apart a p → ApartFrom a (xs ++ ys) → ApartFrom a (xs ++ (p ∷ ys))
  ApartFrom-insert a p [] ys h hs = (h, hs)
  ApartFrom-insert a p (x ∷ xs) ys h (k, hs) = (k, ApartFrom-insert a p xs ys h hs)

  ApartFrom-remove :
      (a p : ℕ) (xs ys : List ℕ) → ApartFrom a (xs ++ (p ∷ ys)) → Apart a p × ApartFrom a (xs ++ ys)
  ApartFrom-remove a p [] ys hs = hs
  ApartFrom-remove a p (x ∷ xs) ys (k, hs) =
      let (h, rest) = ApartFrom-remove a p xs ys hs in (h, (k, rest))

  AllApart-to_front :
      (p : ℕ) (xs ys : List ℕ) → AllApart (xs ++ (p ∷ ys)) → AllApart (p ∷ (xs ++ ys))
  AllApart-to_front p [] ys hs = hs
  AllApart-to_front p (x ∷ xs) ys (k, hs) =
      let (h, others) = ApartFrom-remove x p xs ys k in
      let (from, rest) = AllApart-to_front p xs ys hs in ((Apart-comm x p h, from), (others, rest))

  AllApart-from_front :
      (p : ℕ) (xs ys : List ℕ) → AllApart (p ∷ (xs ++ ys)) → AllApart (xs ++ (p ∷ ys))
  AllApart-from_front p [] ys hs = hs
  AllApart-from_front p (x ∷ xs) ys ((h, from), (k, hs)) =
      (ApartFrom-insert x p xs ys (Apart-comm p x h) k, AllApart-from_front p xs ys (from, hs))

  ApartFrom-IsFresh : (p : ℕ) (xs ys : List ℕ) → 0 < size → ApartFrom p (xs ++ ys) → IsFresh p xs
  ApartFrom-IsFresh p [] ys pos hs = tt
  ApartFrom-IsFresh p (x ∷ xs) ys pos (h, hs) =
      (λ e. omega (arith, e, h), ApartFrom-IsFresh p xs ys pos hs)

  blocks_from-ApartFrom :
      (chunk i count a : ℕ)
      → a + size ≤ chunk + i * size
      → ApartFrom a (blocks_from chunk size i count)
  blocks_from-ApartFrom chunk i zero a h = tt
  blocks_from-ApartFrom chunk i (suc count) a h =
      (inl h, blocks_from-ApartFrom chunk (suc i) count a (omega arith))

  blocks_from-AllApart : (chunk i count : ℕ) → AllApart (blocks_from chunk size i count)
  blocks_from-AllApart chunk i zero = tt
  blocks_from-AllApart chunk i (suc count) = (
    blocks_from-ApartFrom chunk (suc i) count (chunk + i * size) (omega arith),
    blocks_from-AllApart chunk (suc i) count,
  )

-- What a client does with an allocator: it allocates, and it frees blocks that it has in use, in
-- any order. The list holds the blocks in use.
pub data History (b₀ : BlockAllocator) : BlockAllocator → List ℕ → Type 0 where
  begin : History b₀ b₀ []
  allocated :
      {b b' : BlockAllocator} {used : List ℕ} (size p : ℕ)
      → History b₀ b used
      → alloc size b ≡ (some p, b')
      → History b₀ b' (p ∷ used)
  refused :
      {b b' : BlockAllocator} {used : List ℕ} (size : ℕ)
      → History b₀ b used
      → alloc size b ≡ (none, b')
      → History b₀ b' used
  freed :
      {b : BlockAllocator} (earlier : List ℕ) (p : ℕ) (later : List ℕ)
      → History b₀ b (earlier ++ (p ∷ later))
      → History b₀ (free (some p) b) (earlier ++ later)

-- The allocator serves a stack of free blocks that, with those in use, are all the blocks.
record Accounts (size : ℕ) (blocks : List ℕ) (b : BlockAllocator) (used : List ℕ) : Type 0 where
  unused : List ℕ
  serves : Serves b unused
  all : Perm (unused ++ used) blocks
  apart : AllApart size (unused ++ used)

pops :
    (ps : List ℕ) (o : Option ℕ) (p : ℕ)
    → o ≡ (popped ps).0
    → o ≡ some p
    → (rest : List ℕ) × (ps ≡ p ∷ rest)
pops [] o p e h = absurd (cc (e, h))
pops (q ∷ rest) o p e h = (rest, ap (λ x. x ∷ rest) (eq_of_some q p (sym e ∙ h)))

-- An allocation that succeeds takes the top of the stack.
taken :
    (b b' : BlockAllocator) (size p : ℕ) (ps : List ℕ)
    → Serves b ps
    → alloc size b ≡ (some p, b')
    → (rest : List ℕ) × (ps ≡ p ∷ rest) × Serves b' rest
taken b b' size p ps v e = elim (alloc-Serves b size ps v) [
  | inl (large, missed) ↦ absurd (cc (e, missed))
  | inr (fits, top, further) ↦
      let (rest, stack) = pops ps ((alloc size b).0) p top (ap (λ r. r.0) e) in
      (
        rest,
        stack,
        subst (λ c. Serves c rest) (ap (λ r. r.1) e)
            (subst (λ qs. Serves ((alloc size b).1) ((popped qs).1)) stack further),
      )
]

empty_stack : (ps : List ℕ) → (popped ps).0 ≡ none → ps ≡ []
empty_stack [] e = refl
empty_stack (p ∷ ps) e = absurd (cc e)

-- An allocation that is refused leaves the stack.
left :
    (b b' : BlockAllocator) (size : ℕ) (ps : List ℕ)
    → Serves b ps
    → alloc size b ≡ (none, b')
    → Serves b' ps
left b b' size ps v e = elim (alloc-Serves b size ps v) [
  | inl (large, missed) ↦ subst (λ c. Serves c ps) (ap (λ r. r.1) (sym missed ∙ e)) v
  | inr (fits, top, further) ↦
      let none_left = empty_stack ps (sym top ∙ ap (λ r. r.0) e) in
      rw none_left (subst (λ c. Serves c []) (ap (λ r. r.1) e) (rw none_left at further))
]

module _ (b₀ : BlockAllocator) (size : ℕ) (blocks : List ℕ) (pos : 0 < size) where
  accounts :
      {b : BlockAllocator} {used : List ℕ}
      → Serves b₀ blocks
      → AllApart size blocks
      → History b₀ b used
      → Accounts size blocks b used
  accounts v apart begin = record {
    unused = blocks;
    serves = v;
    all = rw (append-nil blocks) Perm.rfl;
    apart = rw (append-nil blocks) apart;
  }
  accounts v apart (allocated {b} {b' = b'} {used} size' p run e) =
      let x = accounts v apart run in
      let (rest, stack, serves) = taken b b' size' p x.unused x.serves e in
      record {
        unused = rest;
        serves = serves;
        all = Perm.trans (perm_middle rest used) (rw stack at x.all);
        apart = AllApart-from_front size p rest used (rw stack at x.apart);
      }
  accounts v apart (refused {b} {b' = b'} {used} size' run e) =
      let x = accounts v apart run in
      record {
        unused = x.unused;
        serves = left b b' size' x.unused x.serves e;
        all = x.all;
        apart = x.apart;
      }
  accounts v apart (freed {b} earlier p later run) =
      let x = accounts v apart run in
      let front = x.unused ++ earlier in
      let split : x.unused ++ (earlier ++ (p ∷ later)) ≡ front ++ (p ∷ later) =
        sym (append_assoc x.unused earlier (p ∷ later)) in
      let joined : x.unused ++ (earlier ++ later) ≡ front ++ later =
        sym (append_assoc x.unused earlier later) in
      let apart' : AllApart size (p ∷ (front ++ later)) =
        AllApart-to_front size p front later (subst (AllApart size) split x.apart) in
      let moved : AllApart size (p ∷ (x.unused ++ (earlier ++ later))) =
        subst (λ qs. AllApart size (p ∷ qs)) (sym joined) apart' in
      record {
        unused = p ∷ x.unused;
        serves =
            free-Serves b p x.unused x.serves
              (ApartFrom-IsFresh size p x.unused (earlier ++ later) pos (moved.0));
        all =
            Perm.trans
              (subst (λ qs. Perm (p ∷ qs) (front ++ (p ∷ later))) (sym joined)
                (Perm.symm (perm_middle front later)))
              (subst (λ qs. Perm qs blocks) split x.all);
        apart = moved;
      }

-- Whatever a client does with an allocator that starts with all its blocks free, freeing only blocks
-- that it has in use: the allocator serves a stack of free blocks that together with those in use
-- are all the blocks, each once, and no two of them, free or in use, overlap.
pub History-blocks :
    (b₀ b : BlockAllocator) (chunk n : ℕ) (used : List ℕ)
    → 0 < b₀.block_size
    → Serves b₀ (blocks_from chunk b₀.block_size 0 n)
    → History b₀ b used
    → (unused : List ℕ) × Serves b unused
      × Perm (unused ++ used) (blocks_from chunk b₀.block_size 0 n)
      × AllApart b₀.block_size (unused ++ used)
History-blocks b₀ b chunk n used pos v run =
    let x =
      accounts b₀ b₀.block_size (blocks_from chunk b₀.block_size 0 n) pos v
        (blocks_from-AllApart b₀.block_size chunk 0 n) run in
    (x.unused, x.serves, x.all, x.apart)
