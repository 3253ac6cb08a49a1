-- ===== src/InlineCache/Staridize.antt =====
-- ELY_FAST_STARIDIZE: what the cache of an atom gives.
use ely_square.Base.{ℕ, ◌≡◌, ◌≢◌, refl, none, some, List, ok, ==_refl, ==_ne}
use ely_square.PageSource.{PageSource}
use ely_square.Atoms.{broken_atom}
use ely_square.Atoms.Table.{Alar, staridize}
use ely_square.InlineCache.{same_pointer, StaridCache, fast_staridize}

-- After staridize gave a pointer's text an atom, other than the broken one, through a cache that was
-- unused, every later text at that pointer gets the same atom, whatever it is and whatever the table
-- holds then.
fast_staridize-stale :
    (ps : PageSource) (rest text text' : List ℕ) (p n n' atom : ℕ) (a a' b : Alar)
    (s s' t : ps.Store)
    → atom ≢ broken_atom
    → staridize ps rest a (some text) n s ≡ ok (atom, a', s')
    → (cache : StaridCache) × (fast_staridize ps rest
          (some p)
          (some text)
          n
          a
          (record { last_ptr = none; cached_atom = broken_atom })
          s
        ≡ ok (atom, a', cache, s'))
      × (fast_staridize ps rest (some p) (some text') n' b cache t ≡ ok (atom, b, cache, t))
unfolding fast_staridize same_pointer
fast_staridize-stale ps rest text text' p n n' atom a a' b s s' t star runs = (
  record { last_ptr = some p; cached_atom = atom },
  rw runs refl,
  rw (==_refl p, ==_ne atom broken_atom star) refl,
)
