-- ===== src/Base/Maps.antt =====
-- Finite maps from numbers to numbers, as functions.
use Prim.Native.Nat.{ℕ}
use mathlib.Core.Path.{◌≡◌, refl}
use mathlib.Core.Logic.{◌≢◌}
use mathlib.Core.Option.{Option}
use ely_square.Base.Tests.{◌==◌, if◌then◌else◌, ==_refl, ==_ne}

abbrev pub PartialMap : Type 0
PartialMap = ℕ → Option ℕ

abbrev pub assign : PartialMap → (key : ℕ) → Option ℕ → PartialMap
assign f key o = λ q. if q == key then o else f q

pub assign_self : (f : PartialMap) (p : ℕ) (o : Option ℕ) → assign f p o p ≡ o
assign_self f p o = rw (==_refl p) refl

pub assign_ne : (f : PartialMap) (p q : ℕ) (o : Option ℕ) → q ≢ p → assign f p o q ≡ f q
assign_ne f p q o ne = rw (==_ne q p ne) refl
