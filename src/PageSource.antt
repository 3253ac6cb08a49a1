-- ===== src/PageSource.antt =====
-- What the allocators above ask of ESPageManager (lowcode/include/allocators/page_mgr.h): chunks of
-- whole pages, and their release. A client takes this record. Its law holds of a page source as long as
-- that grants; the page manager's own behaviour is PageManager.Returns.
pub mod Counter
use ely_square.Base.{ℕ, ◌≤◌, ◌<◌, ◌%◌, ◌≡◌, Option, some, Outcome, ok}

pub record PageSource : Type 1 where
  pub Store : Type 0
  pub request : Store → ℕ → Outcome (Option ℕ × Store)
  pub release : Store → (address page_count : ℕ) → Outcome Store
  -- The stores from which requests are granted, and the largest one.
  pub IsReady : Store → Type 0
  pub limit : ℕ
  pub request_grants :
      (s : Store) (n : ℕ)
      → IsReady s
      → 0 < n
      → n ≤ limit
      → (address : ℕ) × (s' : Store) × (request s n ≡ ok (some address, s'))
        × (address % 4096 ≡ 0)
        × IsReady s'
