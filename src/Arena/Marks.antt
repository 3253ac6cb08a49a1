-- ===== src/Arena/Marks.antt =====
-- getMarker and popToMarker.
use mathlib.Core.List.{append_assoc}
use ely_square.Base.{
  ℕ, ◌+◌, ◌≡◌, refl, ◌∙◌, ap, arith, Bool-cases, inl, inr, ltb, u64, some, List, [], ◌∷◌, ◌++◌,
  length, Outcome, ok, panic, undefined, out_of_fuel, ◌>>=◌,
}
use ely_square.PageSource.{PageSource}
use ely_square.Arena.{
  Chunk, Arena, get_marker, split_at, delete_chunks, pop_to_marker, alloc, take_bytes, new_chunk,
  linked, all_chunks, align_forward,
}

-- The same chunk, up to how much of it is used.
pub record SameChunk (c d : Chunk) : Type 0 where
  pub base : d.base ≡ c.base
  pub capacity : d.capacity ≡ c.capacity
  pub pages : d.pages ≡ c.pages

-- What allocations make of an arena: they only move the end of what is used in its current chunk,
-- or they link chunks behind it.
pub data Grown (a b : Arena) : Type 0 where
  in_place : b.before ≡ a.before → SameChunk a.current b.current → Grown a b
  further :
      (c : Chunk) (between : List Chunk)
      → b.before ≡ a.before ++ (c ∷ between)
      → SameChunk a.current c
      → Grown a b

pub record Extends (a b : Arena) : Type 0 where
  pub grown : Grown a b
  pub last : b.after ≡ []
  pub size : b.default_size ≡ a.default_size
  pub access : b.has_gc_scan_access ≡ a.has_gc_scan_access

split_at-append :
    (front : List Chunk) (c : Chunk) (rear : List Chunk)
    → split_at (front ++ (c ∷ rear)) (length front) ≡ some (front, c, rear)
unfolding split_at
split_at-append [] c rear = refl
split_at-append (d ∷ front) c rear = rw (split_at-append front c rear)

Grown-moved :
    (a b : Arena) (offset : ℕ)
    → Grown a b
    → Grown a (record b { current = record (b.current) { offset = offset } })
Grown-moved a b offset (in_place before same) =
    in_place before (record { base = same.base; capacity = same.capacity; pages = same.pages })
Grown-moved a b offset (further c between before same) = further c between before same

Grown-linked : (a b : Arena) (d : Chunk) → Grown a b → Grown a (linked b d)
Grown-linked a b d (in_place before same) =
    further b.current [] (ap (λ cs. cs ++ (b.current ∷ [])) before) same
Grown-linked a b d (further c between before same) =
    further c (between ++ (b.current ∷ []))
      (ap (λ cs. cs ++ (b.current ∷ [])) before
        ∙ append_assoc a.before (c ∷ between) (b.current ∷ []))
      same

-- The marker's chunk with the marker's offset is the chunk as it was.
reset :
    (a b : Arena) (kept : Chunk)
    → Extends a b
    → SameChunk a.current kept
    → a.after ≡ []
    → record b {
      before = a.before;
      current = record kept { offset = a.current.offset };
      after = [];
    }
      ≡ a
reset a b kept x same last = ground (arith, x.size, x.access, same.base, same.capacity, same.pages)

module _ (ps : PageSource) where
  open ps use {Store}

  -- Allocations one after the other, each of which has succeeded.
  pub data Allocs (a : Arena) (s : Store) : Arena → Store → Type 0 where
    start : Allocs a s a s
    next :
        {b c : Arena} {t u : Store} {p : ℕ} (bytes alignment : ℕ)
        → Allocs a s b t
        → alloc ps bytes alignment b t ≡ ok (p, c, u)
        → Allocs a s c u

  taken_arena :
      (b : Arena) (offset bytes : ℕ) (t : Store) {p : ℕ} {c : Arena} {u : Store}
      → take_bytes ps b offset bytes t ≡ ok (p, c, u)
      → c ≡ record b { current = record (b.current) { offset = u64 (offset + bytes) } }
  unfolding take_bytes
  taken_arena b offset bytes t e = ground arith

  Extends-take :
      (a b : Arena) (offset bytes : ℕ) (t : Store) {p : ℕ} {c : Arena} {u : Store}
      → Extends a b
      → take_bytes ps b offset bytes t ≡ ok (p, c, u)
      → Extends a c
  Extends-take a b offset bytes t x e = rw (taken_arena b offset bytes t e) (record {
    grown = Grown-moved a b (u64 (offset + bytes)) x.grown;
    last = x.last;
    size = x.size;
    access = x.access;
  })

  Extends-chunk :
      (a b : Arena) (bytes alignment : ℕ) (r : Outcome (Chunk × Store)) {p : ℕ} {c : Arena}
      {u : Store}
      → Extends a b
      → (r >>= λ d. take_bytes ps (linked b d.0) (align_forward d.0.offset alignment) bytes d.1)
        ≡ ok (p, c, u)
      → Extends a c
  Extends-chunk a b bytes alignment (ok (d, t)) x e =
      Extends-take a (linked b d) (align_forward d.offset alignment) bytes t
        (record {
          grown = Grown-linked a b d x.grown;
          last = refl;
          size = x.size;
          access = x.access;
        })
        e
  Extends-chunk a b bytes alignment (panic c) x e = absurd (cc e)
  Extends-chunk a b bytes alignment undefined x e = absurd (cc e)
  Extends-chunk a b bytes alignment out_of_fuel x e = absurd (cc e)

  Extends-alloc :
      (a b : Arena) (bytes alignment : ℕ) (t : Store) {p : ℕ} {c : Arena} {u : Store}
      → Extends a b
      → alloc ps bytes alignment b t ≡ ok (p, c, u)
      → Extends a c
  unfolding alloc
  Extends-alloc a b bytes alignment t x e =
      elim (Bool-cases
        (ltb b.current.capacity (u64 (align_forward b.current.offset alignment + bytes)))) [
          | inr room ↦ Extends-take a b _ bytes t x (rw room at e)
          | inl full ↦ Extends-chunk a b bytes alignment (new_chunk ps _ t) x (rw full at e)
        ]

  Allocs-Extends :
      {a : Arena} {s : Store} {b : Arena} {t : Store} → a.after ≡ [] → Allocs a s b t → Extends a b
  Allocs-Extends last start = record {
    grown = in_place refl (record { base = refl; capacity = refl; pages = refl });
    last = last;
    size = refl;
    access = refl;
  }
  Allocs-Extends {a} last (next {b = m} {t = t'} bytes alignment run e) =
      Extends-alloc a m bytes alignment t' (Allocs-Extends last run) e

  -- The chunks of the grown arena, split at the marker's chunk.
  Grown-split :
      (a b : Arena)
      → Grown a b
      → b.after ≡ []
      → (kept : Chunk) × (since : List Chunk) × (all_chunks b ≡ a.before ++ (kept ∷ since))
        × SameChunk a.current kept
  Grown-split a b (in_place before same) last = (
    b.current,
    [],
    ap (λ cs. cs ++ (b.current ∷ b.after)) before ∙ ap (λ cs. a.before ++ (b.current ∷ cs)) last,
    same,
  )
  Grown-split a b (further c between before same) last = (
    c,
    between ++ (b.current ∷ []),
    ap (λ cs. cs ++ (b.current ∷ b.after)) before
        ∙ ap (λ cs. (a.before ++ (c ∷ between)) ++ (b.current ∷ cs)) last
        ∙ append_assoc a.before (c ∷ between) (b.current ∷ []),
    same,
  )

  popped :
      (a b : Arena) (t : Store) (kept : Chunk) (since : List Chunk)
      → split_at (all_chunks b) (length a.before) ≡ some (a.before, kept, since)
      → pop_to_marker ps (get_marker a) b t ≡ (
          delete_chunks ps since t >>= λ u. ok (
            record b {
              before = a.before;
              current = record kept { offset = a.current.offset };
              after = [];
            },
            u,
          ))
  unfolding pop_to_marker get_marker
  popped a b t kept since e = rw (e, pop_to_marker)

  -- With no chunk behind the current one, and any successful allocations after the marker was taken:
  -- the chunks are then those before the marked one, the marked one, and those linked since. Going
  -- back to the marker deletes the latter in their order and no other, and, if these deletions
  -- succeed, gives the arena as it was when the marker was taken.
  pub pop_to_marker-get_marker :
      (a b : Arena) (s t : Store)
      → a.after ≡ []
      → Allocs a s b t
      → (kept : Chunk) × (since : List Chunk) × (all_chunks b ≡ a.before ++ (kept ∷ since))
        × SameChunk a.current kept
        × (pop_to_marker ps (get_marker a) b t ≡ (delete_chunks ps since t >>= λ u. ok (a, u)))
  unfolding pop_to_marker get_marker
  pop_to_marker-get_marker a b s t last run =
      let x = Allocs-Extends last run in
      let (kept, since, chunks, same) = Grown-split a b x.grown x.last in
      (
        kept,
        since,
        chunks,
        same,
        popped a b t kept since (
              ap (λ cs. split_at cs (length a.before)) chunks ∙ split_at-append a.before kept since)
            ∙ (ap (λ arena. delete_chunks ps since t >>= λ u. ok (arena, u))
                (reset a b kept x same last)),
      )
