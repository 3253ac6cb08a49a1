-- ===== src/PageManager/Release.antt =====
-- releasePageChunk.
use ely_square.Base.{
  ℕ, suc, ◌+◌, ◌-◌, ◌*◌, ◌/◌, ◌≤◌, ◌<◌, ◌≡◌, refl, ◌∙◌, arith, inl, inr, ap, sym, List, [], ◌∷◌,
  ◌++◌, none, some, Outcome, ok, panic, ◌>>=◌, dec_lt, out_of_memory, u64, lt→ltb, le→leb,
}
use ely_square.OsMem.{Kernel, Os, decommit_pages}
use ely_square.PageBitmap.{clear_pages}
use ely_square.PageBitmap.Search.{page_bit}
use ely_square.PageBitmap.Marks.{IsFilled, clear_pages-IsFilled}
use ely_square.PageManager.{
  CageSegment, PageManager, memory_chunk_size, page_size, release_in, release_page_chunk, behind,
  request_page_chunk, with_tail, all_segments,
}
use ely_square.PageManager.Layout.{
  Inside, Outside, AllOutside, Apart, AllApart, SamePages, SamePages-refl, SamePages-all,
  earlier_outside, AllOutside-split,
}
use ely_square.PageManager.Request.{
  IsSegment, AllSegments, total_pages, HasRun, Granted, here, there,
}
use ely_square.PageManager.Chunk.{IsManager, Answer, searched-Answer}

-- Pages that were free, then taken, then cleared are as they were at first.
refilled :
    {first second third : List ℕ} {hi : ℕ} (lo : ℕ)
    → ((p : ℕ) → lo ≤ p → p < hi → page_bit first p ≡ 0)
    → IsFilled 1 lo hi first second
    → IsFilled 0 lo hi second third
    → (p : ℕ) → page_bit third p ≡ page_bit first p
refilled {hi} lo free f g p = elim (dec_lt p lo) [
  | yes below ↦ g.outside p (inl below) ∙ f.outside p (inl below)
  | no from ↦ elim (dec_lt p hi) [
    | yes inside ↦ g.inside p (omega arith) inside ∙ sym (free p (omega arith) inside)
    | no above ↦ g.outside p (inr (omega arith)) ∙ f.outside p (inr (omega arith))
  ]
]

module _ (k : Kernel) (n : ℕ) where
  release_at :
      (s : CageSegment) (rest : List CageSegment) (a : ℕ) (os : Os) (r : Outcome (List ℕ))
      → Inside s a
      → clear_pages s.bitmap ((a - s.base_address) / page_size) n ≡ r
      → release_in k (s ∷ rest) a n os ≡ (
          r >>= λ cleared. ok (
            some (
              record s { bitmap = cleared } ∷ rest,
              (decommit_pages k (some a) (u64 (n * page_size)) os).1,
            )))
  unfolding release_in
  release_at s rest a os r (lo, hi) e =
      rw (le→leb s.base_address a lo, lt→ltb a (s.base_address + memory_chunk_size) hi, e)

  pub release_hit :
      (s : CageSegment) (rest : List CageSegment) (a start : ℕ) (os : Os)
      → IsSegment s
      → 0 < n
      → start + n ≤ total_pages
      → a ≡ s.base_address + start * page_size
      → (s' : CageSegment) × (os' : Os) × (release_in k (s ∷ rest) a n os
          ≡ ok (some (s' ∷ rest, os')))
        × (s'.base_address ≡ s.base_address)
        × IsFilled 0 start (start + n) s.bitmap s'.bitmap
  release_hit s rest a start os v pos fits at =
      let page : (a - s.base_address) / page_size ≡ start = omega arith in
      let (cleared, done, filled) =
        clear_pages-IsFilled s.bitmap start n v.small (omega (arith, v.words)) in
      (
        record s { bitmap = cleared },
        (decommit_pages k (some a) (u64 (n * page_size)) os).1,
        release_at s rest a os (ok cleared) (omega arith)
            (ap (λ x. clear_pages s.bitmap x n) page ∙ done),
        refl,
        filled,
      )

  pub release_pass :
      (s : CageSegment) (rest : List CageSegment) (a : ℕ) (os : Os)
      → Outside s a
      → release_in k (s ∷ rest) a n os ≡ (release_in k rest a n os >>= λ r. ok (behind s r))
  unfolding release_in
  release_pass s rest a os out = ground arith

  -- An address outside a list of segments is passed by all of them.
  pub release_in-none :
      (ss : List CageSegment) (a : ℕ) (os : Os) → AllOutside ss a → release_in k ss a n os ≡ ok none
  unfolding release_in
  release_in-none [] a os out = refl
  release_in-none (s ∷ ss) a os (out, outs) =
      release_pass s ss a os out ∙ rw (release_in-none ss a os outs)

  -- A chunk lies in the segment that granted it, so outside every segment that this one is apart from.
  grant-Outside :
      {a : ℕ} (s : CageSegment) {ss ss' : List CageSegment}
      → Granted n a ss ss'
      → 0 < n
      → Apart s ss
      → Outside s a
  grant-Outside s (here start run first base filled at) pos (apart, aparts) = omega (arith, run.0)
  grant-Outside s (there full g) pos (apart, aparts) = grant-Outside s g pos aparts

  -- Releasing a chunk just granted gives back the segments with the pages as they were.
  pub release_in-Granted :
      {a : ℕ} {ss ss' : List CageSegment} (os : Os)
      → Granted n a ss ss'
      → AllSegments ss
      → AllApart ss
      → 0 < n
      → (ss'' : List CageSegment) × (os' : Os) × (release_in k ss' a n os ≡ ok (some (ss'', os')))
        × SamePages ss ss''
  release_in-Granted os (here {s} {s'} {rest} start run first base filled at) (v, vs) aparts pos =
      let whole : IsSegment s' = record {
        words = filled.same_length ∙ v.words;
        small = filled.small;
      } in
      let (t, os', done, base', cleared) =
        release_hit s' rest _ start os whole pos run.0 (rw base at) in
      (
        t ∷ rest,
        os',
        done,
        (base' ∙ base, refilled start run.1 filled cleared, SamePages-refl rest),
      )
  release_in-Granted os (there {s} full g) (v, vs) (apart, aparts) pos =
      let (ss'', os', done, same) = release_in-Granted os g vs aparts pos in
      (
        s ∷ ss'',
        os',
        release_pass s _ _ os (grant-Outside s g pos apart) ∙ rw done,
        (refl, λ p. refl, same),
      )

Granted-Inside :
    {n a : ℕ} {s : CageSegment} {ss : List CageSegment}
    → Granted n a (s ∷ []) ss
    → 0 < n
    → Inside s a
Granted-Inside (here start run first base filled at) pos = omega (arith, run.0)
Granted-Inside (there full g) pos = elim g [ ]

module _ (k : Kernel) (n : ℕ) (m : PageManager) where
  release_current :
      (a : ℕ) (c : CageSegment) (segments : List CageSegment) (os : Os)
      → AllOutside m.before a
      → release_in k (m.current ∷ m.after) a n m.os ≡ ok (some (segments, os))
      → SamePages (c ∷ []) segments
      → (m'' : PageManager) × (release_page_chunk k m a n ≡ ok m'')
        × (m''.before ≡ m.before)
        × SamePages (c ∷ []) (m''.current ∷ m''.after)
  unfolding release_page_chunk
  release_current a c [] os out done same = absurd same
  release_current a c (t ∷ ts) os out done same =
      (with_tail m (t ∷ ts) os, rw (release_in-none k n m.before a m.os out, done), refl, same)

  pub room-Answer :
      (fuel q : ℕ) (v : IsManager m) (pos : 0 < n) → HasRun m.current n q → Answer k n pos fuel m
  room-Answer fuel q v pos run = elim (searched-Answer k n pos fuel m v) [
    | inr answer ↦ answer
    | inl (full, missed) ↦
        let b = full.0 q run.0 in
        absurd (omega (arith, b.digit, run.1 b.taken b.after_start b.before_end))
  ]

-- On a manager with segments apart, whose current segment is the last and has a run of `n` free pages: requesting
-- `n` pages succeeds, releasing what was returned succeeds too, and afterwards the same segments
-- have the same pages taken as at the start.
pub release_page_chunk-request_page_chunk :
    (k : Kernel) (fuel n q : ℕ) (m : PageManager)
    → IsManager m
    → AllApart (all_segments m)
    → 0 < n
    → HasRun m.current n q
    → (a : ℕ) × (m' : PageManager) × (m'' : PageManager) × (request_page_chunk k (suc fuel) m n
        ≡ ok (some a, m'))
      × (release_page_chunk k m' a n ≡ ok m'')
      × SamePages (all_segments m) (all_segments m'')
release_page_chunk-request_page_chunk k fuel n q m v aparts pos run =
    let (m', a, granted_run, g, keeps, v') = room-Answer k n m fuel q v pos run in
    let whole : AllApart (m.before ++ (m.current ∷ [])) = rw v.last at aparts in
    let (ss, os, done, same) = release_in-Granted k n m'.os g (v.now, tt) (tt, tt) pos in
    let out : AllOutside m'.before a =
      rw keeps (earlier_outside m.before m.current whole (Granted-Inside g pos)) in
    let (m'', back, keeps', same') =
      release_current k n m' a m.current ss os out
        (ap (λ ts. release_in k (m'.current ∷ ts) a n m'.os) v'.last ∙ done) same in
    (a, m', m'', granted_run, back, SamePages-all m m'' (keeps' ∙ keeps) v.last same')

-- Releasing an address that lies in no segment panics.
release_page_chunk-panic :
    (k : Kernel) (m : PageManager) (a n : ℕ)
    → AllOutside (all_segments m) a
    → release_page_chunk k m a n ≡ panic out_of_memory
unfolding release_page_chunk
release_page_chunk-panic k m a n out =
    let (front, rear) = AllOutside-split a m.before (m.current ∷ m.after) out in
    rw (
      release_in-none k n m.before a m.os front,
      release_in-none k n (m.current ∷ m.after) a m.os rear,
    )
