-- ===== src/PageBitmap/Search.antt =====
-- The search for a run of free pages, as a state that each step changes.
use ely_square.Base.{
  ℕ, ◌+◌, ◌-◌, ◌/◌, ◌%◌, ◌≤◌, ◌<◌, ◌≡◌, refl, arith, ◌==◌, if◌then◌else◌, ◌≢◌, dec_lt, List, max,
  get_or,
}
use ely_square.Base.Bits.{bit}
use ely_square.PageBitmap.{Scan, found, next_word, stuck}

-- The digit of page `p`: 1 where it is taken.
unfoldable pub page_bit : List ℕ → ℕ → ℕ
page_bit bitmap p = bit (p % 64) (get_or bitmap (p / 64) 0)

module _ (page : ℕ → ℕ) where
  abbrev pub IsFree : (lo hi : ℕ) → Type 0
  IsFree lo hi = (p : ℕ) → lo ≤ p → p < hi → page p ≡ 0

  -- A run of `n` pages from `q` on is blocked by a taken page in it, below `limit`.
  pub record Blocked (n limit q : ℕ) : Type 0 where
    pub taken : ℕ
    pub after_start : q ≤ taken
    pub before_end : taken < q + n
    pub below : taken < limit
    pub digit : page taken ≡ 1

  -- The state of the search at page `p`: the last `len` pages are free, fewer than are wanted, and
  -- every run that starts before them is blocked before them.
  pub record IsState (n p len start : ℕ) : Type 0 where
    pub short : len < n
    pub length_le : len ≤ p
    pub origin : len ≢ 0 → start + len ≡ p
    pub free : IsFree (p - len) p
    pub blocked : (q : ℕ) → q < p - len → Blocked n (p - len) q

  -- What a search has shown when it comes to an end at page `p`, or has found a run that ends there
  -- at the latest.
  abbrev pub Shows : (n p : ℕ) → Scan → Type 0
  Shows n p (found s) = (s + n ≤ p) × IsFree s (s + n) × ((q : ℕ) → q < s → Blocked n s q)
  Shows n p (next_word len start) = IsState n p len start
  Shows n p stuck = ⊥

module _ {page : ℕ → ℕ} {n : ℕ} where
  start_of_run :
      {p len start : ℕ} → IsState page n p len start → (if len == 0 then p else start) ≡ p - len
  start_of_run s = ground (arith, s.origin, s.length_le)

  free_to :
      {p len start : ℕ} (z : ℕ)
      → IsState page n p len start
      → IsFree page p (p + z)
      → IsFree page (p - len) (p + z)
  free_to {p} z s free q lo hi = elim (dec_lt q p) [
    | yes before ↦ s.free q lo before
    | no beyond ↦ free q (omega arith) hi
  ]

  -- Free pages up to `p + z` extend the run.
  pub extend :
      {p len start : ℕ} (z : ℕ)
      → IsState page n p len start
      → IsFree page p (p + z)
      → len + z < n
      → 0 < z
      → IsState page n (p + z) (len + z) (if len == 0 then p else start)
  extend {p} {len} {start} z s free short pos =
      let same : (p + z) - (len + z) ≡ p - len = omega arith in
      record {
        short = short;
        length_le = omega (arith, s.length_le);
        origin = λ ne. ground (arith, start_of_run s);
        free = λ q lo hi. free_to z s free q (omega arith) hi;
        blocked = rw same s.blocked;
      }

  -- With enough free pages the run is found.
  pub finish :
      {p len start : ℕ} (z : ℕ)
      → IsState page n p len start
      → IsFree page p (p + z)
      → n ≤ len + z
      → Shows page n (p + z) (found (if len == 0 then p else start))
  finish {p} {len} {start} z s free enough = rw (start_of_run s) (
    omega (arith, s.length_le),
    λ q lo hi. free_to z s free q lo (omega (arith, s.length_le)),
    s.blocked,
  )

  -- Taken pages up to `p + z` end it.
  pub restart :
      {p len start : ℕ} (z : ℕ)
      → IsState page n p len start
      → ((q : ℕ) → p ≤ q → q < p + z → page q ≡ 1)
      → 0 < z
      → IsState page n (p + z) 0 start
  restart {p} {len} {start} z s taken pos = record {
    short = omega (arith, s.short);
    length_le = omega arith;
    origin = λ ne. absurd (ne refl);
    free = λ q lo hi. absurd (omega arith);
    blocked = λ q h. elim (dec_lt q (p - len)) [
      | yes early ↦
          let b = s.blocked q early in
          record {
            taken = b.taken;
            after_start = b.after_start;
            before_end = b.before_end;
            below = omega (arith, b.below);
            digit = b.digit;
          }
      | no late ↦ record {
        taken = max p q;
        after_start = omega arith;
        before_end = omega (arith, s.short, s.length_le);
        below = omega arith;
        digit = taken (max p q) (omega arith) (omega arith);
      }
    ];
  }
