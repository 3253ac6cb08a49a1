-- ===== src/Atomics/Tests.antt =====
-- Concrete instances of the theorems: intrinsics that do what their documentation says.
use ely_square.Base.{◌+◌, ◌≡◌, refl, arith, true, false, ◌==◌, if◌then◌else◌, u64}
use ely_square.Atomics.{Memory, store, Intrinsics, msvc, gcc_clang, atomic_compare_exchange}
use ely_square.Atomics.Branches.{atomic_compare_exchange_msvc}

abbrev machine : Intrinsics
machine = record {
  interlocked_compare_exchange64 = λ m destination desired comparand.
      (m destination, if m destination == comparand then store m destination desired else m);
  interlocked_compare_exchange64_lem = λ m destination desired comparand. refl;
  atomic_compare_exchange_n = λ m destination expected desired.
      if m destination == m expected
      then (true, store m destination desired)
      else (false, store m expected (m destination));
  atomic_compare_exchange_n_lem = λ m destination expected desired. refl;
  interlocked_exchange_add64 =
      λ m destination value. (m destination, store m destination (u64 (m destination + value)));
  interlocked_exchange_add64_lem = λ m destination value. refl;
  fetch_add =
      λ m destination value. (m destination, store m destination (u64 (m destination + value)));
  fetch_add_lem = λ m destination value. refl;
}

abbrev words : Memory
words a = a + 5

atomic_compare_exchange_msvc_example :
    (atomic_compare_exchange machine msvc words 8 16 7
      ≡ atomic_compare_exchange machine gcc_clang words 8 16 7)
    × (atomic_compare_exchange machine gcc_clang words 8 16 7 ≡ (false, store words 16 13))
atomic_compare_exchange_msvc_example =
    atomic_compare_exchange_msvc machine words 8 16 7 (λ e. omega (arith, e))
