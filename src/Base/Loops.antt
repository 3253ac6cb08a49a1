-- ===== src/Base/Loops.antt =====
-- Loops that look for the first index with a property.
use Prim.Native.Nat.{ℕ, zero, suc, ◌+◌, ◌≤◌, ◌<◌}
use mathlib.Core.Path.{◌≡◌}
use mathlib.Core.Logic.{inl, inr}
use mathlib.Core.Bool.{Bool, true, false}
use mathlib.Core.Option.{Option, none, some}
use native.Mathlib.Omega.{arith}
use native.Mathlib.Decide.{ℕ_discrete}
use ely_square.Base.Tests.{if◌then◌else◌, Bool-cases}

-- `for (j = i; j < i + count; j++) if (p(j)) return j;`
unfoldable pub first_index : (ℕ → Bool) → (count i : ℕ) → Option ℕ
first_index p zero i = none
first_index p (suc count) i = let rest = first_index p count (suc i) in if p i then some i else rest

-- The first index from `lo` up to `hi` with the property, or that there is none.
pub data FirstIndex (p : ℕ → Bool) (lo hi : ℕ) : Option ℕ → Type 0 where
  at_index :
      {k : ℕ}
      → lo ≤ k
      → k < hi
      → p k ≡ true
      → ((j : ℕ) → lo ≤ j → j < k → p j ≡ false)
      → FirstIndex p lo hi (some k)
  nowhere : ((j : ℕ) → lo ≤ j → j < hi → p j ≡ false) → FirstIndex p lo hi none

later_index :
    {p : ℕ → Bool} {lo hi hi' : ℕ} {o : Option ℕ}
    → p lo ≡ false
    → hi ≡ hi'
    → FirstIndex p (suc lo) hi o
    → FirstIndex p lo hi' o
later_index {p} {lo} e h (at_index {k} from below holds before) =
    at_index (omega arith) (omega arith) holds
      λ j hj hk. elim (ℕ_discrete j lo) [ yes same ↦ rw same e | no ne ↦ before j (omega arith) hk ]
later_index {p} {lo} e h (nowhere all) = nowhere λ j hj hk. elim (ℕ_discrete j lo) [
  | yes same ↦ rw same e
  | no ne ↦ all j (omega arith) (omega arith)
]

pub first_index-FirstIndex :
    (p : ℕ → Bool) (count i : ℕ) → FirstIndex p i (i + count) (first_index p count i)
unfolding first_index
first_index-FirstIndex p zero i = nowhere λ j lo hi. absurd (omega arith)
first_index-FirstIndex p (suc count) i = elim (Bool-cases (p i)) [
  | inl e ↦ rw e (at_index (omega arith) (omega arith) e λ j lo hi. absurd (omega arith))
  | inr e ↦ rw e (later_index e (omega arith) (first_index-FirstIndex p count (suc i)))
]
