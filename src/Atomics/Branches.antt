-- ===== src/Atomics/Branches.antt =====
-- The branches of atomicCompareExchange do the same.
use ely_square.Base.{
  ℕ, ◌≡◌, ◌≢◌, inl, inr, refl, sym, true, false, ◌==◌, if◌then◌else◌, ==_ne, Bool-cases,
}
use ely_square.Atomics.{Memory, store, Intrinsics, msvc, gcc_clang, atomic_compare_exchange}

-- Where `expected` is not the destination itself, atomicCompareExchange does the same with MSVC as
-- with the other compilers: it writes the desired value and returns true if the value was the
-- expected one, and else writes the value that it found to `expected` and returns false.
pub atomic_compare_exchange_msvc :
    (ops : Intrinsics) (m : Memory) (destination expected desired : ℕ)
    → destination ≢ expected
    → (atomic_compare_exchange ops msvc m destination expected desired
        ≡ atomic_compare_exchange ops gcc_clang m destination expected desired)
      × (atomic_compare_exchange ops gcc_clang m destination expected desired ≡ (
          if m destination == m expected
          then (true, store m destination desired)
          else (false, store m expected (m destination))))
unfolding atomic_compare_exchange
atomic_compare_exchange_msvc ops m destination expected desired ne =
    let found = ops.interlocked_compare_exchange64_lem m destination desired (m expected) in
    let same = ops.atomic_compare_exchange_n_lem m destination expected desired in
    elim (Bool-cases (m destination == m expected)) [
      | inl e ↦ (rw (found, same, e, ==_ne expected destination (λ s. ne (sym s)), e) refl, same)
      | inr e ↦ (rw (found, same, e, e) refl, same)
    ]
