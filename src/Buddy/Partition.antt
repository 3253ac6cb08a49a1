-- ===== src/Buddy/Partition.antt =====
-- The steps of the allocator on its blocks: a block changes hands, a block is split in two, and two
-- buddies are merged. The first of them leaves a partition of the chunk.
use mathlib.Core.Path.{subst}
use ely_square.Base.{
  ℕ, suc, ◌+◌, ◌^◌, ◌<◌, ◌≡◌, inl, inr, ap, ◌∙◌, sym, arith, Bool, false, ℕ_discrete,
}
use ely_square.Buddy.Blocks.{
  inside, block, Blocks, write_cell, write_cell_self, write_cell_ne, write_cell-cases, eq_of_block,
  IsPartition,
}

-- The block at `x` is of order `k`, free or not.
abbrev pub mark_block : Blocks → (x k : ℕ) → Bool → Blocks
mark_block cells x k f = write_cell cells x (block k f)

-- The block of order `k + 1` at `x` becomes two of order `k`, the first in use.
abbrev pub halve_block : Blocks → (x k : ℕ) → Bool → Blocks
halve_block cells x k f = mark_block (mark_block cells x k false) (x + 2 ^ k) k f

-- The two blocks of order `k` at `x` and behind it become one of order `k + 1`, in use.
abbrev pub join_blocks : Blocks → (x k : ℕ) → Blocks
join_blocks cells x k = mark_block (write_cell cells (x + 2 ^ k) inside) x (suc k) false

module _ {top : ℕ} {cells : Blocks} (p : IsPartition top cells) where
  module _ (x k : ℕ) (f g : Bool) (ex : cells x ≡ block k f) where
    mark_block-origin :
        (y j : ℕ) (h : Bool)
        → mark_block cells x k g y ≡ block j h
        → (i : Bool) × (cells y ≡ block j i)
    mark_block-origin y j h e = elim (write_cell-cases cells x y (block k g) (block j h) e) [
      | inl (ey, same) ↦ (f, ap cells ey ∙ ex ∙ ap (λ n. block n f) (eq_of_block same).0)
      | inr (ne, ey) ↦ (h, ey)
    ]

    pub mark_block-IsPartition : IsPartition top (mark_block cells x k g)
    mark_block-IsPartition = record {
      aligned = λ y j h e. let (i, e') = mark_block-origin y j h e in p.aligned y j i e';
      inside_chunk = λ y j h e. let (i, e') = mark_block-origin y j h e in p.inside_chunk y j i e';
      has_bin = λ y j h e. let (i, e') = mark_block-origin y j h e in p.has_bin y j i e';
      apart = λ y j h z e lo hi.
          let (i, e') = mark_block-origin y j h e in
          let empty = p.apart y j i z e' lo hi in
          write_cell_ne cells x z (block k g) (λ ez. absurd (cc (empty, ap cells ez ∙ ex))) ∙ empty;
      covered = λ z lt.
          let (y, j, i, ey, lo, hi) = p.covered z lt in
          elim (ℕ_discrete y x) [
            | yes e ↦
                let order = (eq_of_block (sym ey ∙ ap cells e ∙ ex)).0 in
                (
                  x,
                  k,
                  g,
                  write_cell_self cells x (block k g),
                  omega (arith, e),
                  subst (λ n. z < n) {x = y + 2 ^ j} {y = x + 2 ^ k}
                      (ap (λ n. n + 2 ^ j) {x = y} {y = x} e
                        ∙ ap (λ n. x + 2 ^ n) {x = j} {y = k} order)
                      hi,
                )
            | no ne ↦ (y, j, i, write_cell_ne cells x y (block k g) ne ∙ ey, lo, hi)
          ];
    }
