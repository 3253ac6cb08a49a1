-- ===== src/Atomics.antt =====
-- lowcode/include/platform/atomics.h: the atomic operations on a word of 64 bits, in the branch of
-- each compiler. The compilers' intrinsics are a parameter.
pub mod Branches
mod Tests
use ely_square.Base.{
  ℕ, ◌+◌, ◌%◌, ◌^◌, ◌≡◌, Bool, true, false, ◌==◌, if◌then◌else◌, u64, List, [], ◌∷◌,
}

-- The words in memory by their addresses.
abbrev pub Memory : Type 0
Memory = ℕ → ℕ

abbrev pub store : Memory → (address value : ℕ) → Memory
store m address value = λ a. if a == address then value else m a

-- The intrinsics, each of them one step that no other thread comes between: what they return, and
-- the memory after them.
pub record Intrinsics : Type 0 where
  -- _InterlockedCompareExchange64 returns the initial value.
  pub interlocked_compare_exchange64 : Memory → (destination desired comparand : ℕ) → ℕ × Memory
  pub interlocked_compare_exchange64_lem :
      (m : Memory) (destination desired comparand : ℕ)
      → interlocked_compare_exchange64 m destination desired comparand
        ≡ (m destination, if m destination == comparand then store m destination desired else m)
  -- __atomic_compare_exchange_n writes the value that it finds to `expected` if it is another.
  pub atomic_compare_exchange_n : Memory → (destination expected desired : ℕ) → Bool × Memory
  pub atomic_compare_exchange_n_lem :
      (m : Memory) (destination expected desired : ℕ)
      → atomic_compare_exchange_n m destination expected desired ≡ (
          if m destination == m expected
          then (true, store m destination desired)
          else (false, store m expected (m destination)))
  -- _InterlockedExchangeAdd64 and __atomic_fetch_add return the value before, and wrap around.
  pub interlocked_exchange_add64 : Memory → (destination value : ℕ) → ℕ × Memory
  pub interlocked_exchange_add64_lem :
      (m : Memory) (destination value : ℕ)
      → interlocked_exchange_add64 m destination value
        ≡ (m destination, store m destination (u64 (m destination + value)))
  pub fetch_add : Memory → (destination value : ℕ) → ℕ × Memory
  pub fetch_add_lem :
      (m : Memory) (destination value : ℕ)
      → fetch_add m destination value
        ≡ (m destination, store m destination (u64 (m destination + value)))

pub data Compiler : Type 0 where
  msvc gcc_clang : Compiler

-- enum class MemoryOrder
pub data MemoryOrder : Type 0 where
  release acquire sequential_consistency : MemoryOrder

-- The fences that the compilers have.
pub data Fence : Type 0 where
  read_write_barrier mm_mfence : Fence
  atomic_thread_fence : MemoryOrder → Fence

-- memoryFence
pub memory_fence : Compiler → MemoryOrder → Fence
memory_fence msvc acquire = read_write_barrier
memory_fence msvc release = read_write_barrier
memory_fence msvc sequential_consistency = mm_mfence
memory_fence gcc_clang acquire = atomic_thread_fence acquire
memory_fence gcc_clang release = atomic_thread_fence release
memory_fence gcc_clang sequential_consistency = atomic_thread_fence sequential_consistency

module _ (ops : Intrinsics) where
  open ops use {
    interlocked_compare_exchange64, atomic_compare_exchange_n, interlocked_exchange_add64,
    fetch_add,
  }

  -- The branch for MSVC, behind the exchange: `*expected` is read once more.
  abbrev pub compare_initial : (expected initial : ℕ) → Memory → Bool × Memory
  compare_initial expected initial m =
      if initial == m expected then (true, m) else (false, store m expected initial)

  -- atomicCompareExchange
  pub atomic_compare_exchange :
      Compiler → Memory → (destination expected desired : ℕ) → Bool × Memory
  atomic_compare_exchange msvc m destination expected desired =
      let (initial, m') = interlocked_compare_exchange64 m destination desired (m expected) in
      compare_initial expected initial m'
  atomic_compare_exchange gcc_clang m destination expected desired =
      atomic_compare_exchange_n m destination expected desired

  -- atomicFetchAdd, with the 64 bits of its result and its second argument
  pub atomic_fetch_add : Compiler → Memory → (destination value : ℕ) → ℕ × Memory
  atomic_fetch_add msvc m destination value = interlocked_exchange_add64 m destination value
  atomic_fetch_add gcc_clang m destination value = fetch_add m destination value
