-- ===== src/Arena.antt =====
-- lowcode/include/allocators/arena.h and lowcode/source/allocators/arena.cpp: chunks of pages, filled
-- from the front and given back as a whole. The list from `head` is the chunks before the current
-- one, the current one, and those after it; a pointer to a chunk is its index in that list. A marker
-- of a chunk that has been deleted is a dangling pointer, and its use undefined.
pub mod Align
pub mod Alloc
pub mod Marks
mod Tests
use ely_square.Base.{
  ℕ, zero, suc, ◌+◌, ◌-◌, ◌*◌, ◌/◌, ◌%◌, ◌^◌, bit_and, Bool, true, false, Option, none, some, List,
  [], ◌∷◌, ◌++◌, ltb, leb, ◌==◌, if◌then◌else◌, u64, not64, Outcome, ok, undefined, ◌>>=◌, length,
}
use ely_square.PageSource.{PageSource}

-- `base` is the pointer `data` of the source, `none` where it is null.
pub record Chunk : Type 0 where
  pub base : Option ℕ
  pub capacity : ℕ
  pub offset : ℕ
  pub pages : ℕ

pub record Arena : Type 0 where
  pub before : List Chunk
  pub current : Chunk
  pub after : List Chunk
  pub default_size : ℕ
  pub has_gc_scan_access : Bool

pub record Marker : Type 0 where
  pub chunk : Option ℕ
  pub offset : ℕ

unfoldable pub align_forward : (address alignment : ℕ) → ℕ
align_forward address alignment =
    bit_and (u64 (u64 (address + alignment) + 2 ^ 64 - 1)) (not64 (u64 (alignment + 2 ^ 64 - 1)))

-- The number of pages of a chunk for `bytes` bytes.
unfoldable pub chunk_pages : ℕ → ℕ
chunk_pages bytes = let pages = u64 (bytes + 4095) / 4096 in if pages == 0 then 1 else pages

-- The arena with the chunk put behind the current one. What was behind it before is lost, as the
-- source overwrites `next`.
abbrev pub linked : Arena → Chunk → Arena
linked a c = record a { before = a.before ++ (a.current ∷ []); current = c; after = [] }

-- All chunks in the order from `head`.
abbrev pub all_chunks : Arena → List Chunk
all_chunks a = a.before ++ (a.current ∷ a.after)

pub get_marker : Arena → Marker
get_marker a = record { chunk = some (length a.before); offset = a.current.offset }

-- The list split at an index: what is before it, the chunk there, and what is behind it.
unfoldable pub split_at : List Chunk → ℕ → Option (List Chunk × Chunk × List Chunk)
split_at [] i = none
split_at (c ∷ cs) zero = some ([], c, cs)
split_at (c ∷ cs) (suc i) = elim (split_at cs i) [
  | none ↦ none
  | some (front, d, rear) ↦ some (c ∷ front, d, rear)
]

module _ (ps : PageSource) where
  open ps use {Store, request, release}

  unfoldable pub new_chunk : ℕ → Store → Outcome (Chunk × Store)
  unfolding chunk_pages
  new_chunk bytes s = do
    let pages = chunk_pages bytes
    (start, s') ← request s pages
    ok (record { base = start; capacity = u64 (pages * 4096); offset = 0; pages = pages }, s')

  -- ~Chunk
  unfoldable pub delete_chunk : Chunk → Store → Outcome Store
  delete_chunk c s = elim c.base [ none ↦ ok s | some address ↦ release s address c.pages ]

  unfoldable pub delete_chunks : List Chunk → Store → Outcome Store
  unfolding delete_chunk
  delete_chunks [] s = ok s
  delete_chunks (c ∷ cs) s = delete_chunk c s >>= λ s'. delete_chunks cs s'

  unfoldable pub make_arena : (default_chunk_size : ℕ) → Bool → Store → Outcome (Arena × Store)
  unfolding new_chunk
  make_arena size gc s = do
    (c, s') ← new_chunk size s
    ok (
      record { before = []; current = c; after = []; default_size = size; has_gc_scan_access = gc },
      s',
    )

  pub expand_by_new_chunk : ℕ → Arena → Store → Outcome (Arena × Store)
  unfolding new_chunk
  expand_by_new_chunk size a s = do (c, s') ← new_chunk size s; ok (linked a c, s')

  -- `bytes` at `offset` of the current chunk, which becomes the end of what is used.
  unfoldable pub take_bytes : Arena → (offset bytes : ℕ) → Store → Outcome (ℕ × Arena × Store)
  take_bytes a offset bytes s = elim a.current.base [
    | none ↦ undefined
    | some address ↦
        let c = a.current in
        ok (address + offset, record a { current = record c { offset = u64 (offset + bytes) } }, s)
  ]

  unfoldable pub alloc : (bytes alignment : ℕ) → Arena → Store → Outcome (ℕ × Arena × Store)
  unfolding align_forward take_bytes new_chunk
  alloc bytes alignment a s =
      let aligned = align_forward a.current.offset alignment in
      let next_size = if leb bytes a.default_size then a.default_size else bytes in
      if ltb a.current.capacity (u64 (aligned + bytes))
      then (do
        (c, s') ← new_chunk next_size s
        take_bytes (linked a c) (align_forward c.offset alignment) bytes s')
      else take_bytes a aligned bytes s

  unfoldable pub pop_to_marker : Marker → Arena → Store → Outcome (Arena × Store)
  unfolding split_at delete_chunks
  pop_to_marker marker a s = elim marker.chunk [
    | none ↦ ok (a, s)
    | some i ↦ elim (split_at (all_chunks a) i) [
      | none ↦ undefined
      | some (front, c, rear) ↦ do
        s' ← delete_chunks rear s
        ok (
          record a { before = front; current = record c { offset = marker.offset }; after = [] },
          s',
        )
    ]
  ]

  pub clear : Arena → Store → Outcome (Arena × Store)
  unfolding delete_chunks new_chunk
  clear a s = do
    s' ← delete_chunks (all_chunks a) s
    (c, s'') ← new_chunk a.default_size s'
    ok (record a { before = []; current = c; after = [] }, s'')

  -- ~Arena
  unfoldable pub destroy : Arena → Store → Outcome Store
  unfolding delete_chunks
  destroy a s = delete_chunks (all_chunks a) s
