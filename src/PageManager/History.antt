-- ===== src/PageManager/History.antt =====
-- PageManager over time: chunks that are requested and released, in any order.
use mathlib.Core.Path.{subst}
use ely_square.Base.{
  ℕ, suc, ◌<◌, ◌≡◌, ◌≢◌, inl, inr, refl, ap, ◌∙◌, sym, arith, List, [], ◌∷◌, ◌++◌, length, Option,
  none, some, eq_of_some, eq_of_ok, Outcome, ok, PartialMap, assign, assign_self, assign_ne,
  ℕ_discrete,
}
use ely_square.OsMem.{Kernel}
use ely_square.PageManager.{
  CageSegment, PageManager, request_page_chunk, release_page_chunk, all_segments,
}
use ely_square.PageManager.Request.{Granted, here, there}
use ely_square.PageManager.Layout.{AllApart}
use ely_square.PageManager.Chunk.{IsManager, Requested, from_current, no_memory, faults}
use ely_square.PageManager.Returns.{request_page_chunk-Requested}
use ely_square.PageManager.Chunks.{
  HasChunk, ApartChunks, Changed, Granted-Changed, Changed-before, Changed-AllApart,
  Changed-HasChunk, Granted-ApartChunks,
}
use ely_square.PageManager.Returned.{release_page_chunk-Changed}

module _ (k : Kernel) where
  -- What clients do with a page manager: they request chunks of at least one page, which are granted,
  -- and release chunks that they hold. The map has the pages of each held chunk by its address.
  pub data History (m₀ : PageManager) : PageManager → PartialMap → Type 0 where
    begin : History m₀ m₀ (λ _. none)
    requested :
        {m m' : PageManager} {live : PartialMap} (fuel n a : ℕ)
        → History m₀ m live
        → 0 < n
        → request_page_chunk k (suc fuel) m n ≡ ok (some a, m')
        → History m₀ m' (assign live a (some n))
    released :
        {m m' : PageManager} {live : PartialMap} (a n : ℕ)
        → History m₀ m live
        → live a ≡ some n
        → release_page_chunk k m a n ≡ ok m'
        → History m₀ m' (assign live a none)

-- The pages of the held chunks are taken, and the chunks do not overlap.
record IsHeld (ss : List CageSegment) (live : PartialMap) : Type 0 where
  aparts : AllApart ss
  held : (a n : ℕ) → live a ≡ some n → (0 < n) × HasChunk ss a n
  disjoint : (a n b c : ℕ) → live a ≡ some n → live b ≡ some c → a ≢ b → ApartChunks a n b c

ApartChunks-comm : (a n b c : ℕ) → ApartChunks a n b c → ApartChunks b c a n
ApartChunks-comm a n b c (inl h) = inr h
ApartChunks-comm a n b c (inr h) = inl h

pub Granted-HasChunk :
    {n a : ℕ} {s s' : CageSegment} (bs : List CageSegment)
    → Granted n a (s ∷ []) (s' ∷ [])
    → HasChunk (bs ++ (s' ∷ [])) a n
Granted-HasChunk [] (here start run first base filled at) =
    inl (start, omega (arith, at, base), run.0, filled.inside)
Granted-HasChunk [] (there full g) = elim g [ ]
Granted-HasChunk (b ∷ bs) g = inr (Granted-HasChunk bs g)

IsHeld-grant :
    {n a : ℕ} {s s' : CageSegment} {live : PartialMap} (bs : List CageSegment)
    → IsHeld (bs ++ (s ∷ [])) live
    → Granted n a (s ∷ []) (s' ∷ [])
    → 0 < n
    → IsHeld (bs ++ (s' ∷ [])) (assign live a (some n))
IsHeld-grant {n} {a} {s} {s'} {live} bs h g pos =
    let changed = Changed-before bs (Granted-Changed g) in
    let was : (b c : ℕ) → b ≢ a → assign live a (some n) b ≡ some c → live b ≡ some c =
      λ b c ne e. sym (assign_ne live a b (some n) ne) ∙ e in
    let count : (c : ℕ) → assign live a (some n) a ≡ some c → n ≡ c =
      λ c e. eq_of_some n c (sym (assign_self live a (some n)) ∙ e) in
    let new : (b c : ℕ) → live b ≡ some c → ApartChunks a n b c =
      λ b c e. Granted-ApartChunks bs b c g pos (h.held b c e).0 h.aparts (h.held b c e).1 in
    record {
      aparts = Changed-AllApart changed h.aparts;
      held = λ b c e. elim (ℕ_discrete b a) [
        | yes same ↦
            let e' = count c (ap (assign live a (some n)) (sym same) ∙ e) in
            (
              omega (arith, e'),
              subst (λ x. HasChunk (bs ++ (s' ∷ [])) x c) (sym same)
                  (subst (HasChunk (bs ++ (s' ∷ [])) a) e' (Granted-HasChunk bs g)),
            )
        | no ne ↦
            let (pos', chunk) = h.held b c (was b c ne e) in
            (pos', Changed-HasChunk b c changed (inl refl) chunk)
      ];
      disjoint = λ b c d f eb ed ne. elim (ℕ_discrete b a) [
        | yes same ↦
            let e' = count c (ap (assign live a (some n)) (sym same) ∙ eb) in
            let apart = new d f (was d f (λ s. ne (same ∙ sym s)) ed) in
            omega (arith, apart, e', same)
        | no away ↦ elim (ℕ_discrete d a) [
          | yes same ↦
              let e' = count f (ap (assign live a (some n)) (sym same) ∙ ed) in
              let apart = new b c (was b c away eb) in omega (arith, apart, e', same)
          | no away' ↦ h.disjoint b c d f (was b c away eb) (was d f away' ed) ne
        ]
      ];
    }

IsHeld-release :
    {ss ss' : List CageSegment} {live : PartialMap} (a n : ℕ)
    → IsHeld ss live
    → live a ≡ some n
    → Changed 0 a n ss ss'
    → IsHeld ss' (assign live a none)
IsHeld-release {live = live} a n h e changed =
    let was : (b c : ℕ) → assign live a none b ≡ some c → (b ≢ a) × (live b ≡ some c) = λ b c eb.
      elim (ℕ_discrete b a) [
        | yes same ↦
            absurd (cc (sym (assign_self live a none) ∙ ap (assign live a none) (sym same) ∙ eb))
        | no ne ↦ (ne, sym (assign_ne live a b none ne) ∙ eb)
      ] in
    record {
      aparts = Changed-AllApart changed h.aparts;
      held = λ b c eb.
          let (ne, e') = was b c eb in
          let (pos, chunk) = h.held b c e' in
          (
            pos,
            Changed-HasChunk b c changed (inr (h.disjoint a n b c e e' (λ s. ne (sym s)))) chunk,
          );
      disjoint = λ b c d f eb ed. h.disjoint b c d f (was b c eb).1 (was d f ed).1;
    }

-- A manager whose held chunks are the given ones.
IsTracked : PageManager → PartialMap → Type 0
IsTracked m live = IsManager m × IsHeld (all_segments m) live

segments_listed : (m : PageManager) → IsManager m → all_segments m ≡ m.before ++ (m.current ∷ [])
segments_listed m v = ap (λ ss. m.before ++ (m.current ∷ ss)) v.last

-- The same for an equal answer.
IsTracked-answer :
    (live : PartialMap) (n : ℕ) {a a' : ℕ} {m m' : PageManager}
    → ◌≡◌ {A = Option ℕ × PageManager} (some a, m) (some a', m')
    → IsTracked m (assign live a (some n))
    → IsTracked m' (assign live a' (some n))
IsTracked-answer live n {a} {a'} {m} {m'} e t =
    let ea : a ≡ a' = eq_of_some a a' (ap (λ r. r.0) e) in
    let em : m ≡ m' = ap (λ r. r.1) e in
    subst (λ x. IsTracked m' (assign live x (some n))) ea
      (subst (λ x. IsTracked x (assign live a (some n))) em t)

Requested-IsTracked :
    (m : PageManager) (live : PartialMap) (n : ℕ) (base : Option ℕ)
    (r : Outcome (Option ℕ × PageManager))
    → IsTracked m live
    → 0 < n
    → Requested m n base r
    → (a : ℕ) (m' : PageManager) → r ≡ ok (some a, m')
    → IsTracked m' (assign live a (some n))
unfolding IsTracked
Requested-IsTracked m live n base _ (v, h) pos (from_current {a} {m'} g keeps v') a' m'' e =
    let listed = subst (λ ss. IsHeld ss live) (segments_listed m v) h in
    let after = IsHeld-grant m.before listed g pos in
    let same : m'.before ++ (m'.current ∷ []) ≡ all_segments m' = sym (segments_listed m' v') in
    let here' : IsHeld (all_segments m') (assign live a (some n)) =
      subst (λ ss. IsHeld ss (assign live a (some n)))
        (ap (λ bs. bs ++ (m'.current ∷ [])) (sym keeps) ∙ same) after in
    IsTracked-answer live n (eq_of_ok (some a, m') (some a', m'') e) (v', here')
Requested-IsTracked m live n base _ (v, h) pos (no_memory full at) a' m'' e = absurd (cc e)
Requested-IsTracked m live n base _ (v, h) pos (faults full at) a' m'' e = absurd (cc e)

module _ (k : Kernel) (m₀ : PageManager) (v₀ : IsManager m₀) (o₀ : AllApart (all_segments m₀)) where
  History-IsTracked : {m : PageManager} {live : PartialMap} → History k m₀ m live → IsTracked m live
  unfolding IsTracked
  History-IsTracked begin = (
    v₀,
    record { aparts = o₀; held = λ a n e. absurd (cc e); disjoint = λ a n b c e. absurd (cc e) },
  )
  History-IsTracked (requested {m} {m'} {live} fuel n a before pos run) =
      let t = History-IsTracked before in
      Requested-IsTracked m live n (k.mapped (length m.os)) (request_page_chunk k (suc fuel) m n) t
        pos (request_page_chunk-Requested k fuel n m t.0 pos) a m' run
  History-IsTracked (released {m} {m'} {live} a n before e run) =
      let (v, h) = History-IsTracked before in
      let (pos, chunk) = h.held a n e in
      let (m'', run', v', changed) = release_page_chunk-Changed k a n pos m v h.aparts chunk in
      let same : m'' ≡ m' = eq_of_ok m'' m' (sym run' ∙ run) in
      subst (λ x. IsManager x × IsHeld (all_segments x) (assign live a none)) same
        (v', IsHeld-release a n h e changed)

  -- From a manager whose current segment is the last, with whole bitmaps and segments apart, whatever
  -- chunks of at least one page are granted and whatever held chunks are released, in whatever order:
  -- each held chunk can be released, which neither panics nor leaves a bitmap, and any other held
  -- chunk does not overlap it.
  pub History-ApartChunks :
      {m : PageManager} {live : PartialMap} (a n : ℕ)
      → History k m₀ m live
      → live a ≡ some n
      → ((m' : PageManager) × (release_page_chunk k m a n ≡ ok m'))
        × ((b c : ℕ) → live b ≡ some c → a ≢ b → ApartChunks a n b c)
  unfolding IsTracked
  History-ApartChunks a n before ea =
      let (v, h) = History-IsTracked before in
      let (pos, chunk) = h.held a n ea in
      let (m', run, _, _) = release_page_chunk-Changed k a n pos _ v h.aparts chunk in
      ((m', run), λ b c eb ne. h.disjoint a n b c ea eb ne)
