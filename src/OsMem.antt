-- ===== src/OsMem.antt =====
-- lowcode/include/platform/os_mem.h and lowcode/source/platform/os_mem.cpp, on the POSIX path.
-- The kernel is a parameter: what it answers to the n-th request of a run. The requests made so
-- far are kept, the latest first, so that what the code asks of the kernel can be stated.
pub mod Rounding
mod Tests
use ely_square.Base.{
  ℕ, ◌+◌, ◌%◌, ◌^◌, ◌==◌, if◌then◌else◌, bit_and, Bool, true, false, ◌&&◌, Option, none, some, List,
  [], ◌∷◌, length, u64, not64,
}

-- `enum class PagePermissions`
pub data PagePermissions : Type 0 where
  read read_execute read_write read_write_execute no_access : PagePermissions

-- The flags PROT_READ, PROT_WRITE and PROT_EXEC, joined by `|`; none of them is PROT_NONE.
pub record Prot : Type 0 where
  pub can_read : Bool
  pub can_write : Bool
  pub can_execute : Bool

abbrev pub prot_none : Prot
prot_none = record { can_read = false; can_write = false; can_execute = false }

-- The switch that each function repeats.
pub to_prot : PagePermissions → Prot
to_prot read = record { can_read = true; can_write = false; can_execute = false }
to_prot read_execute = record { can_read = true; can_write = false; can_execute = true }
to_prot read_write = record { can_read = true; can_write = true; can_execute = false }
to_prot read_write_execute = record { can_read = true; can_write = true; can_execute = true }
to_prot no_access = prot_none

-- A request to the kernel, or a write to memory that the page manager makes by itself.
pub data OsEvent : Type 0 where
  mmap : ℕ → Prot → OsEvent
  mprotect : ℕ → ℕ → Prot → OsEvent
  madvise_dontneed : ℕ → ℕ → OsEvent
  munmap : ℕ → ℕ → OsEvent
  memset_zero : ℕ → ℕ → OsEvent

abbrev pub Os : Type 0
Os = List OsEvent

-- The answers to the n-th event: the mapping's address (`none` is MAP_FAILED), and whether
-- mprotect, madvise or munmap returned 0.
pub record Kernel : Type 0 where
  pub mapped : ℕ → Option ℕ
  pub returned_zero : ℕ → Bool

pub get_closest_to4 : ℕ → ℕ
get_closest_to4 count = bit_and (u64 (count + 4095)) (not64 4095)

module _ (k : Kernel) where
  -- `mmap` of `size` bytes; a null pointer on failure
  map_pages : ℕ → Prot → Os → Option ℕ × Os
  map_pages size prot os = (k.mapped (length os), mmap size prot ∷ os)

  -- Pointers are `none` for nullptr.
  pub allocate_pages : ℕ → PagePermissions → Os → Option ℕ × Os
  unfolding map_pages to_prot get_closest_to4
  allocate_pages bytes flag os =
      if bytes == 0 then (none, os) else map_pages (get_closest_to4 bytes) (to_prot flag) os

  unfoldable pub reserve_pages : ℕ → Os → Option ℕ × Os
  unfolding map_pages get_closest_to4
  reserve_pages bytes os =
      if bytes == 0 then (none, os) else map_pages (get_closest_to4 bytes) prot_none os

  pub commit_pages : Option ℕ → ℕ → PagePermissions → Os → Bool × Os
  unfolding to_prot get_closest_to4
  commit_pages none bytes flag os = (false, os)
  commit_pages (some address) bytes flag os = if bytes == 0 then (true, os) else (
    k.returned_zero (length os),
    mprotect address (get_closest_to4 bytes) (to_prot flag) ∷ os,
  )

  -- Both requests are made, whatever the first one returns.
  pub decommit_pages : Option ℕ → ℕ → Os → Bool × Os
  unfolding get_closest_to4
  decommit_pages none bytes os = (false, os)
  decommit_pages (some address) bytes os =
      if bytes == 0
      then (true, os)
      else let size = get_closest_to4 bytes in
        let advised = madvise_dontneed address size ∷ os in
        (
          k.returned_zero (length advised) && k.returned_zero (length os),
          mprotect address size prot_none ∷ advised,
        )

  pub release_reserved_pages : Option ℕ → ℕ → Os → Bool × Os
  unfolding get_closest_to4
  release_reserved_pages none bytes os = (false, os)
  release_reserved_pages (some address) bytes os =
      if bytes == 0
      then (true, os)
      else (k.returned_zero (length os), munmap address (get_closest_to4 bytes) ∷ os)

  pub free_pages : Option ℕ → ℕ → Os → Bool × Os
  unfolding release_reserved_pages
  free_pages address bytes os = release_reserved_pages address bytes os

  pub protect_pages : Option ℕ → ℕ → PagePermissions → Os → Bool × Os
  unfolding to_prot get_closest_to4
  protect_pages none bytes flag os = (false, os)
  protect_pages (some address) bytes flag os = if bytes == 0 then (false, os) else (
    k.returned_zero (length os),
    mprotect address (get_closest_to4 bytes) (to_prot flag) ∷ os,
  )
