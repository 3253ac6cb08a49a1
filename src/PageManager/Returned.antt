-- ===== src/PageManager/Returned.antt =====
-- Releasing a chunk that is taken.
use mathlib.Core.Path.{subst}
use ely_square.Base.{ℕ, ◌<◌, ◌≡◌, inl, inr, refl, ◌∙◌, arith, List, [], ◌∷◌, ◌++◌, ok, some}
use ely_square.OsMem.{Kernel, Os}
use ely_square.PageManager.{CageSegment, PageManager, release_in, release_page_chunk, all_segments}
use ely_square.PageManager.Request.{AllSegments}
use ely_square.PageManager.Layout.{Outside, AllOutside, Apart, AllApart}
use ely_square.PageManager.Release.{release_hit, release_pass, release_in-none}
use ely_square.PageManager.Chunk.{IsManager}
use ely_square.PageManager.Chunks.{
  HasChunk, HasChunk-split, Changed, change_here, change_there, Changed-before, Changed-behind,
  Changed-AllSegments,
}

module _ (k : Kernel) (a n : ℕ) (pos : 0 < n) where
  chunk-Outside :
      (s : CageSegment) (ss : List CageSegment) → Apart s ss → HasChunk ss a n → Outside s a
  chunk-Outside s [] o h = elim h [ ]
  chunk-Outside s (t ∷ ts) (o, os) (inl (start, at, fits, taken)) = omega (arith, o, at, fits)
  chunk-Outside s (t ∷ ts) (o, os) (inr later) = chunk-Outside s ts os later

  release_in-Changed :
      (ss : List CageSegment) (os : Os)
      → AllSegments ss
      → AllApart ss
      → HasChunk ss a n
      → (ss' : List CageSegment) × (os' : Os) × (release_in k ss a n os ≡ ok (some (ss', os')))
        × Changed 0 a n ss ss'
  release_in-Changed [] os v o h = elim h [ ]
  release_in-Changed (s ∷ rest) os (v, vs) o (inl (start, at, fits, taken)) =
      let (s', os', done, base, filled) = release_hit k n s rest a start os v pos fits at in
      (s' ∷ rest, os', done, change_here start fits base filled at)
  release_in-Changed (s ∷ rest) os (v, vs) (o, aparts) (inr later) =
      let (ss', os', done, changed) = release_in-Changed rest os vs aparts later in
      (
        s ∷ ss',
        os',
        release_pass k n s rest a os (chunk-Outside s rest o later) ∙ rw done refl,
        change_there changed,
      )

  front_outside :
      (bs ss : List CageSegment) → AllApart (bs ++ ss) → HasChunk ss a n → AllOutside bs a
  front_outside [] ss o h = tt
  front_outside (b ∷ bs) ss (o, aparts) h =
      (chunk-Outside b (bs ++ ss) o (behind_front bs), front_outside bs ss aparts h)
    where
      behind_front : (bs : List CageSegment) → HasChunk (bs ++ ss) a n
      behind_front [] = h
      behind_front (c ∷ cs) = inr (behind_front cs)

  AllApart-front : (bs ss : List CageSegment) → AllApart (bs ++ ss) → AllApart bs
  AllApart-front [] ss o = tt
  AllApart-front (b ∷ bs) ss (o, aparts) = (front_apart b bs o, AllApart-front bs ss aparts)
    where
      front_apart : (b : CageSegment) (cs : List CageSegment) → Apart b (cs ++ ss) → Apart b cs
      front_apart b [] o = tt
      front_apart b (c ∷ cs) (o, os) = (o, front_apart b cs os)

  AllApart-rear : (bs ss : List CageSegment) → AllApart (bs ++ ss) → AllApart ss
  AllApart-rear [] ss o = o
  AllApart-rear (b ∷ bs) ss (o, aparts) = AllApart-rear bs ss aparts

  -- On segments apart, a chunk whose pages are all taken can be released: just its pages are cleared.
  pub release_page_chunk-Changed :
      (m : PageManager)
      → IsManager m
      → AllApart (all_segments m)
      → HasChunk (all_segments m) a n
      → (m' : PageManager) × (release_page_chunk k m a n ≡ ok m')
        × IsManager m'
        × Changed 0 a n (all_segments m) (all_segments m')
  unfolding release_page_chunk
  release_page_chunk-Changed m v o h = elim (HasChunk-split m.before (m.current ∷ m.after) a n h) [
    | inl front ↦
        let (ss', os', done, changed) =
          release_in-Changed m.before m.os v.earlier
            (AllApart-front m.before (m.current ∷ m.after) o) front in
        (
          record m { before = ss'; os = os' },
          rw done refl,
          record { last = v.last; earlier = Changed-AllSegments changed v.earlier; now = v.now },
          Changed-behind (m.current ∷ m.after) changed,
        )
    | inr (inr rear) ↦ elim (subst (λ ss. HasChunk ss a n) v.last rear) [ ]
    | inr (inl now) ↦
        let (start, at, fits, taken) = now in
        let (s', os', done, base, filled) =
          release_hit k n m.current m.after a start m.os v.now pos fits at in
        let changed = change_here {rest = m.after} start fits base filled at in
        (
          record m { current = s'; os = os' },
          rw
              (
                release_in-none k n m.before a m.os
                    (front_outside m.before (m.current ∷ m.after) o (inl now)),
                done,
              )
              refl,
          record {
            last = v.last;
            earlier = v.earlier;
            now =
                (Changed-AllSegments (change_here {rest = []} start fits base filled at)
                  (v.now, tt)).0;
          },
          Changed-before m.before changed,
        )
  ]
