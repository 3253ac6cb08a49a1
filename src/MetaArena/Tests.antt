-- ===== src/MetaArena/Tests.antt =====
-- Concrete instances of the theorems: an empty meta arena.
use ely_square.Base.{◌≡◌, refl, arith, none, some, ok, replicate, [], get_or}
use ely_square.PageSource.Counter.{counter}
use ely_square.FreeList.{IsChain, nil}
use ely_square.MetaArena.Samples.{sample}
use ely_square.MetaArena.{
  MetaArena, align_size, get_bucket_index, num_buckets, metarecycle, metalloc,
}
use ely_square.MetaArena.Recycling.{metalloc-metarecycle}

abbrev meta : MetaArena
meta = sample none (replicate num_buckets none) (λ a. none)

metalloc-metarecycle_example :
    (m' : MetaArena) × (metalloc counter 33 8 (metarecycle (some 0x10000) 40 meta) 0x20000
      ≡ ok (0x10000, m', 0x20000))
    × (m'.free_list_head ≡ replicate num_buckets none)
    × (m'.arena ≡ meta.arena)
    × IsChain m'.links (get_or m'.free_list_head 2 none) []
unfolding align_size get_bucket_index
metalloc-metarecycle_example =
    metalloc-metarecycle counter meta 0x10000 40 33 8 0x20000 [] (omega arith) nil tt refl
      (omega arith) refl
