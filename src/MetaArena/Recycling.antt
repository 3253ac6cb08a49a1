-- ===== src/MetaArena/Recycling.antt =====
-- What MetaArena does with recycled blocks.
use mathlib.Core.Path.{subst}
use ely_square.Base.{
  ℕ, zero, suc, ◌<◌, ◌≤◌, ◌≡◌, refl, ap, sym, arith, none, some, List, [], ◌∷◌, ok, length, get_or,
  set, get_or-set_self, lt→ltb, ==_refl,
}
use ely_square.FreeList.{write_next, IsChain, IsFresh, IsChain-write_next}
use ely_square.PageSource.{PageSource}
use ely_square.MetaArena.{
  MetaArena, align_size, get_bucket_index, num_buckets, metarecycle, metalloc,
}

-- The bucket of the blocks of a size.
abbrev pub bucket_of : ℕ → ℕ
bucket_of size = get_bucket_index (align_size size)

set-set_back :
    {A : Type 0} (xs : List A) (i : ℕ) (v d : A) → set (set xs i v) i (get_or xs i d) ≡ xs
set-set_back [] i v d = refl
set-set_back (x ∷ xs) zero v d = refl
set-set_back (x ∷ xs) (suc i) v d = ap (λ ys. x ∷ ys) (set-set_back xs i v d)

-- With all its buckets, after a block that is not in the free list of its size has been recycled with
-- a size that has a bucket: an allocation of any size with the same aligned size and an alignment of
-- at most 16 returns that block, leaves the arena below and the page source alone, and every free list
-- starts where it did before the recycling, with the same blocks in that of the size.
pub metalloc-metarecycle :
    (ps : PageSource) (m : MetaArena) (p size size' alignment : ℕ) (s : ps.Store) (blocks : List ℕ)
    → alignment ≤ 16
    → IsChain m.links (get_or m.free_list_head (bucket_of size) none) blocks
    → IsFresh p blocks
    → length m.free_list_head ≡ num_buckets
    → bucket_of size < num_buckets
    → align_size size' ≡ align_size size
    → (m' : MetaArena) × (metalloc ps size' alignment (metarecycle (some p) size m) s
        ≡ ok (p, m', s))
      × (m'.free_list_head ≡ m.free_list_head)
      × (m'.arena ≡ m.arena)
      × IsChain m'.links (get_or m'.free_list_head (bucket_of size) none) blocks
unfolding metalloc metarecycle
metalloc-metarecycle ps m p size size' alignment s blocks fits chain apart whole inside same =
    let i = bucket_of size in
    let heads = m.free_list_head in
    let next = get_or heads i none in
    (
      record m {
        links = write_next m.links p next;
        free_list_head = set (set heads i (some p)) i next;
      },
      rw
          (
            same,
            lt→ltb i num_buckets inside,
            get_or-set_self heads i (some p) none (omega (arith, whole)),
            metarecycle,
            lt→ltb i num_buckets inside,
            same,
            ==_refl p,
          )
          refl,
      set-set_back heads i (some p) none,
      refl,
      subst (λ hs. IsChain (write_next m.links p next) (get_or hs i none) blocks)
          (sym (set-set_back heads i (some p) none)) (IsChain-write_next p next chain apart),
    )
