-- ===== src/Arena/Alloc.antt =====
-- Arena::alloc: where an allocation lies.
use native.Mathlib.Nat.{pow-le-pow_right, mod-eq_of_lt}
use mathlib.Core.Path.{subst}
use ely_square.Base.{
  ℕ, ◌+◌, ◌*◌, ◌%◌, ◌^◌, ◌≤◌, ◌<◌, ◌≡◌, inl, inr, refl, ◌∙◌, sym, arith, some, [], ◌∷◌, ◌++◌, ltb,
  leb, if◌then◌else◌, u64, ok, Bool-cases, ltb_false→le,
}
use ely_square.PageSource.{PageSource}
use ely_square.Arena.Align.{align_forward_lem, chunk_pages_lem, page_aligned, both_multiples}
use ely_square.Arena.{
  Chunk, Arena, align_forward, chunk_pages, linked, new_chunk, take_bytes, alloc,
}

pub record IsChunk (c : Chunk) : Type 0 where
  pub address : ℕ
  pub has_base : c.base ≡ some address
  pub aligned : address % 4096 ≡ 0
  pub size : c.capacity ≡ c.pages * 4096
  pub small : c.capacity < 2 ^ 64
  pub used : c.offset ≤ c.capacity

pub record IsArena (a : Arena) : Type 0 where
  pub last : a.after ≡ []
  pub now : IsChunk a.current

module _ (ps : PageSource) where
  open ps use {Store, request, release, IsReady, limit, request_grants}

  -- A new chunk is empty, holds the bytes asked for, and leaves the store ready.
  pub new_chunk_lem :
      (bytes : ℕ) (s : Store)
      → IsReady s
      → bytes < 2 ^ 63
      → chunk_pages bytes ≤ limit
      → (c : Chunk) × (s' : Store) × (new_chunk ps bytes s ≡ ok (c, s'))
        × IsChunk c
        × (c.offset ≡ 0)
        × (bytes ≤ c.capacity)
        × (c.capacity ≡ u64 (chunk_pages bytes * 4096))
        × IsReady s'
  unfolding new_chunk
  new_chunk_lem bytes s ready small fits =
      let (enough, pos, below) = chunk_pages_lem bytes small in
      let (address, s', granted, at_page, ready') =
        request_grants s (chunk_pages bytes) ready pos fits in
      let fit : u64 (chunk_pages bytes * 4096) ≡ chunk_pages bytes * 4096 = omega arith in
      (
        record {
          base = some address;
          capacity = u64 (chunk_pages bytes * 4096);
          offset = 0;
          pages = chunk_pages bytes;
        },
        s',
        rw granted,
        record {
          address = address;
          has_base = refl;
          aligned = at_page;
          size = fit;
          small = omega arith;
          used = omega arith;
        },
        refl,
        omega arith,
        refl,
        ready',
      )

  -- `p` is the start of `bytes` bytes of the current chunk, behind the `used` bytes at its front.
  pub record IsTaken (bytes alignment used p : ℕ) (a' : Arena) : Type 0 where
    pub address : ℕ
    pub start : ℕ
    pub same_base : a'.current.base ≡ some address
    pub place : p ≡ address + start
    pub after_used : used ≤ start
    pub inside : start + bytes ≤ a'.current.capacity
    pub used_up_to : a'.current.offset ≡ start + bytes
    pub aligned : p % alignment ≡ 0
    pub arena : IsArena a'

  take_bytes_lem :
      (a : Arena) (offset bytes j : ℕ) (s : Store)
      → IsArena a
      → j ≤ 12
      → offset % 2 ^ j ≡ 0
      → a.current.offset ≤ offset
      → offset + bytes ≤ a.current.capacity
      → (p : ℕ) × (a' : Arena) × (take_bytes ps a offset bytes s ≡ ok (p, a', s))
        × IsTaken bytes (2 ^ j) a.current.offset p a'
        × (a'.before ≡ a.before)
        × (a'.current.base ≡ a.current.base)
        × (a'.current.capacity ≡ a.current.capacity)
        × (a'.default_size ≡ a.default_size)
  unfolding take_bytes
  take_bytes_lem a offset bytes j s v hj even later inside =
      let c = a.current in
      let address = v.now.address in
      (
        address + offset,
        record a { current = record c { offset = u64 (offset + bytes) } },
        rw v.now.has_base,
        record {
          address = address;
          start = offset;
          same_base = v.now.has_base;
          place = refl;
          after_used = later;
          inside = inside;
          used_up_to = omega (arith, v.now.small);
          aligned =
              both_multiples address offset (2 ^ j) (page_aligned j address hj v.now.aligned) even;
          arena = record {
            last = v.last;
            now = record {
              address = address;
              has_base = v.now.has_base;
              aligned = v.now.aligned;
              size = v.now.size;
              small = v.now.small;
              used = omega (arith, v.now.small);
            };
          };
        },
        refl,
        refl,
        refl,
        refl,
      )

  -- The size of the chunk that an allocation makes where the current one is full.
  abbrev pub next_size : Arena → ℕ → ℕ
  next_size a bytes = if leb bytes a.default_size then a.default_size else bytes

  -- The allocation is made in the current chunk, or in a new one that is linked behind it.
  pub data Placed (bytes alignment p : ℕ) (a a' : Arena) : Type 0 where
    in_current :
        IsTaken bytes alignment a.current.offset p a'
        → a'.before ≡ a.before
        → a'.current.base ≡ a.current.base
        → a'.current.capacity ≡ a.current.capacity
        → a'.default_size ≡ a.default_size
        → Placed bytes alignment p a a'
    in_new :
        IsTaken bytes alignment 0 p a'
        → a'.before ≡ a.before ++ (a.current ∷ [])
        → a'.current.capacity ≡ u64 (chunk_pages (next_size a bytes) * 4096)
        → a'.default_size ≡ a.default_size
        → Placed bytes alignment p a a'

  -- On an arena whose store grants pages, an allocation with an alignment of a power of two up to the
  -- page size, with sizes below 2 ^ 63 so that no sum wraps, succeeds: the address is a multiple of
  -- the alignment, and its bytes lie inside the current chunk behind all that was used of it, or
  -- inside a new chunk linked behind it. The arena stays well formed.
  pub alloc-Placed :
      (bytes j : ℕ) (a : Arena) (s : Store)
      → IsArena a
      → IsReady s
      → j ≤ 12
      → bytes < 2 ^ 63
      → a.default_size < 2 ^ 63
      → a.current.capacity < 2 ^ 63
      → chunk_pages (next_size a bytes) ≤ limit
      → (p : ℕ) × (a' : Arena) × (s' : Store) × (alloc ps bytes (2 ^ j) a s ≡ ok (p, a', s'))
        × Placed bytes (2 ^ j) p a a'
        × IsReady s'
  unfolding alloc
  alloc-Placed bytes j a s v ready hj hb hd hc fits =
      let top : 2 ^ j ≤ 2 ^ 12 = pow-le-pow_right {n = 2} (omega arith) {i = j} {j = 12} hj in
      let (even, later, near) =
        align_forward_lem a.current.offset j (omega arith) (omega (arith, v.now.used)) in
      let aligned = align_forward a.current.offset (2 ^ j) in
      elim (Bool-cases (ltb a.current.capacity (u64 (aligned + bytes)))) [
        | inr room ↦
            let fit : aligned + bytes ≤ a.current.capacity =
              omega (arith, ltb_false→le a.current.capacity (u64 (aligned + bytes)) room) in
            let (p, a', run, taken, keeps, same, size, default) =
              take_bytes_lem a aligned bytes j s v hj even later fit in
            (p, a', s, rw room run, in_current taken keeps same size default, ready)
        | inl full ↦
            let (c, s', made, vc, empty, enough, whole, ready') =
              new_chunk_lem (next_size a bytes) s ready (ground arith) fits in
            let (even', low, near') = align_forward_lem c.offset j (omega arith) (omega arith) in
            let start : align_forward c.offset (2 ^ j) ≡ 0 =
              sym (mod-eq_of_lt (omega arith)) ∙ even' in
            let (p, a', run, taken, keeps, same, size, default) =
              take_bytes_lem (linked a c) (align_forward c.offset (2 ^ j)) bytes j s'
                (record { last = refl; now = vc }) hj even' low (ground arith) in
            (
              p,
              a',
              s',
              rw (full, made) run,
              in_new (subst (λ u. IsTaken bytes (2 ^ j) u p a') empty taken) keeps (size ∙ whole)
                  default,
              ready',
            )
      ]
