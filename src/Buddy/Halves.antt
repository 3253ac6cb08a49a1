-- ===== src/Buddy/Halves.antt =====
-- A block split in two leaves a partition of the chunk.
use mathlib.Core.Path.{subst}
use native.Mathlib.Nat.{pow-suc}
use ely_square.Base.{
  ℕ, suc, ◌+◌, ◌^◌, ◌≤◌, ◌<◌, ◌≡◌, ◌≢◌, inl, inr, refl, ap, ◌∙◌, sym, arith, Bool, false, dec_lt,
  ℕ_discrete,
}
use ely_square.Buddy.Geometry.{IsAligned, IsAligned-lower, IsAligned-next, pow_pos}
use ely_square.Buddy.Blocks.{
  inside, block, Blocks, write_cell_self, write_cell_ne, write_cell-cases, eq_of_block, IsPartition,
}
use ely_square.Buddy.Partition.{mark_block, halve_block}

module _ {top : ℕ} {cells : Blocks} (p : IsPartition top cells) where
  module _ (x k : ℕ) (f g : Bool) (ex : cells x ≡ block (suc k) f) where
    pub data HalfOf (y j : ℕ) (h : Bool) : Type 0 where
      first_half : y ≡ x → j ≡ k → HalfOf y j h
      second_half : y ≡ x + 2 ^ k → j ≡ k → HalfOf y j h
      other_block : y ≢ x → y ≢ x + 2 ^ k → cells y ≡ block j h → HalfOf y j h

    pub second_half_empty : cells (x + 2 ^ k) ≡ inside
    second_half_empty =
        p.apart x (suc k) f (x + 2 ^ k) ex (omega (arith, pow_pos k))
          (omega (arith, pow_pos k, pow-suc 2 k))

    pub halve_block-origin :
        (y j : ℕ) (h : Bool) → halve_block cells x k g y ≡ block j h → HalfOf y j h
    halve_block-origin y j h e =
        elim (write_cell-cases (mark_block cells x k false) (x + 2 ^ k) y (block k g) (block j h)
          e) [
            | inl (ey, same) ↦ second_half ey (sym (eq_of_block same).0)
            | inr (ne, e') ↦ elim (write_cell-cases cells x y (block k false) (block j h) e') [
              | inl (ey, same) ↦ first_half ey (sym (eq_of_block same).0)
              | inr (ne', ey) ↦ other_block ne' ne ey
            ]
          ]

    -- Offsets where nothing starts stay so, but for the second half.
    halve_block-empty :
        (z : ℕ) → z ≢ x + 2 ^ k → cells z ≡ inside → halve_block cells x k g z ≡ inside
    halve_block-empty z ne e =
        write_cell_ne (mark_block cells x k false) (x + 2 ^ k) z (block k g) ne
        ∙ write_cell_ne cells x z (block k false) (λ ez. absurd (cc (e, ap cells ez ∙ ex)))
        ∙ e

    halve_block-IsAligned : (y j : ℕ) (h : Bool) → HalfOf y j h → IsAligned j y
    halve_block-IsAligned y j h (first_half ey ej) =
        rw (ey, ej) (IsAligned-lower k (suc k) x (omega arith) (p.aligned x (suc k) f ex))
    halve_block-IsAligned y j h (second_half ey ej) =
        rw (ey, ej)
          (IsAligned-next k x
            (IsAligned-lower k (suc k) x (omega arith) (p.aligned x (suc k) f ex)))
    halve_block-IsAligned y j h (other_block ne ne' ey) = p.aligned y j h ey

    halve_block-inside_chunk : (y j : ℕ) (h : Bool) → HalfOf y j h → y + 2 ^ j ≤ 2 ^ top
    halve_block-inside_chunk y j h (first_half ey ej) =
        rw (ey, ej) (omega (arith, p.inside_chunk x (suc k) f ex, pow-suc 2 k))
    halve_block-inside_chunk y j h (second_half ey ej) =
        rw (ey, ej) (omega (arith, p.inside_chunk x (suc k) f ex, pow-suc 2 k))
    halve_block-inside_chunk y j h (other_block ne ne' ey) = p.inside_chunk y j h ey

    halve_block-has_bin : (y j : ℕ) (h : Bool) → 5 ≤ k → HalfOf y j h → (5 ≤ j) × (j ≤ top)
    halve_block-has_bin y j h low (first_half ey ej) =
        (omega (arith, ej), omega (arith, ej, p.has_bin x (suc k) f ex))
    halve_block-has_bin y j h low (second_half ey ej) =
        (omega (arith, ej), omega (arith, ej, p.has_bin x (suc k) f ex))
    halve_block-has_bin y j h low (other_block ne ne' ey) = p.has_bin y j h ey

    halve_block-apart :
        (y j : ℕ) (h : Bool) (z : ℕ)
        → HalfOf y j h
        → y < z
        → z < y + 2 ^ j
        → halve_block cells x k g z ≡ inside
    halve_block-apart y j h z (first_half ey ej) lo hi =
        let hi' : z < x + 2 ^ k =
          subst (λ n. z < n) {x = y + 2 ^ j} {y = x + 2 ^ k} (rw (ey, ej) refl) hi in
        halve_block-empty z (λ e. omega (arith, e, hi'))
          (p.apart x (suc k) f z ex (omega (arith, ey)) (omega (arith, pow-suc 2 k)))
    halve_block-apart y j h z (second_half ey ej) lo hi =
        let hi' : z < x + 2 ^ k + 2 ^ k =
          subst (λ n. z < n) {x = y + 2 ^ j} {y = x + 2 ^ k + 2 ^ k} (rw (ey, ej) refl) hi in
        halve_block-empty z (λ e. omega (arith, e, ey))
          (p.apart x (suc k) f z ex (omega (arith, ey)) (omega (arith, pow-suc 2 k)))
    halve_block-apart y j h z (other_block ne ne' ey) lo hi =
        let empty = p.apart y j h z ey lo hi in
        halve_block-empty z (λ e. other_second e empty) empty
      where
        other_second : z ≡ x + 2 ^ k → cells z ≡ inside → ⊥
        other_second e empty = elim (dec_lt x y) [
          | yes h' ↦ absurd (cc (p.apart x (suc k) f y ex h' (omega (arith, e, pow-suc 2 k)), ey))
          | no h' ↦ absurd (cc (p.apart y j h x ey (omega arith) (omega (arith, e)), ex))
        ]

    halve_block-covered :
        (z : ℕ)
        → z < 2 ^ top
        → (y : ℕ) × (j : ℕ) × (h : Bool) × (halve_block cells x k g y ≡ block j h)
          × (y ≤ z)
          × (z < y + 2 ^ j)
    halve_block-covered z lt =
        let (y, j, i, ey, lo, hi) = p.covered z lt in
        elim (ℕ_discrete y x) [
          | no ne ↦ (
            y,
            j,
            i,
            write_cell_ne (mark_block cells x k false) (x + 2 ^ k) y (block k g)
                  (λ e. absurd (cc (ap cells e ∙ second_half_empty, ey)))
                ∙ write_cell_ne cells x y (block k false) ne
                ∙ ey,
            lo,
            hi,
          )
          | yes e ↦
              let order : j ≡ suc k = (eq_of_block (sym ey ∙ ap cells e ∙ ex)).0 in
              let end : z < x + 2 ^ suc k =
                subst (λ n. z < n) {x = y + 2 ^ j} {y = x + 2 ^ suc k} (rw (e, order) refl) hi in
              elim (dec_lt z (x + 2 ^ k)) [
                | yes low ↦ (
                  x,
                  k,
                  false,
                  write_cell_ne (mark_block cells x k false) (x + 2 ^ k) x (block k g)
                        (λ e'. omega (arith, e', pow_pos k))
                      ∙ write_cell_self cells x (block k false),
                  omega (arith, e),
                  low,
                )
                | no high ↦ (
                  x + 2 ^ k,
                  k,
                  g,
                  write_cell_self (mark_block cells x k false) (x + 2 ^ k) (block k g),
                  omega arith,
                  omega (arith, pow-suc 2 k),
                )
              ]
        ]

    pub halve_block-IsPartition : 5 ≤ k → IsPartition top (halve_block cells x k g)
    halve_block-IsPartition low = record {
      aligned = λ y j h e. halve_block-IsAligned y j h (halve_block-origin y j h e);
      inside_chunk = λ y j h e. halve_block-inside_chunk y j h (halve_block-origin y j h e);
      has_bin = λ y j h e. halve_block-has_bin y j h low (halve_block-origin y j h e);
      apart = λ y j h z e lo hi. halve_block-apart y j h z (halve_block-origin y j h e) lo hi;
      covered = halve_block-covered;
    }
