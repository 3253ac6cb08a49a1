-- ===== src/Buddy/Joins.antt =====
-- Two buddies merged leave a partition of the chunk.
use mathlib.Core.Path.{subst}
use native.Mathlib.Nat.{pow-suc}
use ely_square.Base.{
  ℕ, suc, ◌+◌, ◌^◌, ◌≤◌, ◌<◌, ◌≡◌, ◌≢◌, inl, inr, refl, ap, ◌∙◌, sym, arith, Bool, false, dec_lt,
  ℕ_discrete,
}
use ely_square.Buddy.Geometry.{IsAligned, pow_pos}
use ely_square.Buddy.Blocks.{
  Cell, inside, block, Blocks, write_cell, write_cell_self, write_cell_ne, write_cell-cases,
  eq_of_block, IsPartition,
}
use ely_square.Buddy.Partition.{join_blocks}

module _ {top : ℕ} {cells : Blocks} (p : IsPartition top cells) where
  module _ (x k : ℕ) (f g : Bool) (ex : cells x ≡ block k f) (ey : cells (x + 2 ^ k) ≡ block k g)
      (around : IsAligned (suc k) x) (lt : k < top) where
    pub data JoinedFrom (y j : ℕ) (h : Bool) : Type 0 where
      joined_block : y ≡ x → j ≡ suc k → JoinedFrom y j h
      other_block : y ≢ x → y ≢ x + 2 ^ k → cells y ≡ block j h → JoinedFrom y j h

    pub join_blocks-origin :
        (y j : ℕ) (h : Bool) → join_blocks cells x k y ≡ block j h → JoinedFrom y j h
    join_blocks-origin y j h e =
        elim (write_cell-cases (write_cell cells (x + 2 ^ k) inside) x y (block (suc k) false)
          (block j h) e) [
            | inl (same, c) ↦ joined_block same (sym (eq_of_block c).0)
            | inr (ne, e') ↦ elim (write_cell-cases cells (x + 2 ^ k) y inside (block j h) e') [
              | inl (same, c) ↦ absurd (cc c)
              | inr (ne', e'') ↦ other_block ne ne' e''
            ]
          ]

    pub join_blocks-other :
        (z : ℕ) (c : Cell) → z ≢ x → z ≢ x + 2 ^ k → cells z ≡ c → join_blocks cells x k z ≡ c
    join_blocks-other z c ne ne' e =
        write_cell_ne (write_cell cells (x + 2 ^ k) inside) x z (block (suc k) false) ne
        ∙ write_cell_ne cells (x + 2 ^ k) z inside ne'
        ∙ e

    join_blocks-empty : (z : ℕ) → z ≢ x → cells z ≡ inside → join_blocks cells x k z ≡ inside
    join_blocks-empty z ne e =
        join_blocks-other z inside ne (λ same. absurd (cc (e, ap cells same ∙ ey))) e

    pub joined_self : join_blocks cells x k x ≡ block (suc k) false
    joined_self = write_cell_self (write_cell cells (x + 2 ^ k) inside) x (block (suc k) false)

    pub joined_upper : join_blocks cells x k (x + 2 ^ k) ≡ inside
    joined_upper =
        write_cell_ne (write_cell cells (x + 2 ^ k) inside) x (x + 2 ^ k) (block (suc k) false)
          (λ e. omega (arith, e, pow_pos k))
        ∙ write_cell_self cells (x + 2 ^ k) inside

    join_blocks-apart :
        (y j : ℕ) (h : Bool) (z : ℕ)
        → JoinedFrom y j h
        → y < z
        → z < y + 2 ^ j
        → join_blocks cells x k z ≡ inside
    join_blocks-apart y j h z (other_block ne ne' e) lo hi =
        let empty = p.apart y j h z e lo hi in
        join_blocks-empty z (λ same. absurd (cc (empty, ap cells same ∙ ex))) empty
    join_blocks-apart y j h z (joined_block e ej) lo hi =
        let end : z < x + 2 ^ suc k =
          subst (λ n. z < n) {x = y + 2 ^ j} {y = x + 2 ^ suc k} (rw (e, ej) refl) hi in
        elim (ℕ_discrete z (x + 2 ^ k)) [
          | yes same ↦ ap (join_blocks cells x k) same ∙ joined_upper
          | no ne ↦
              join_blocks-empty z (λ same. omega (arith, same, e))
                (elim (dec_lt z (x + 2 ^ k)) [
                  | yes low ↦ p.apart x k f z ex (omega (arith, e)) low
                  | no high ↦
                      p.apart (x + 2 ^ k) k g z ey (omega arith) (omega (arith, pow-suc 2 k))
                ])
        ]

    join_blocks-covered :
        (z : ℕ)
        → z < 2 ^ top
        → (y : ℕ) × (j : ℕ) × (h : Bool) × (join_blocks cells x k y ≡ block j h)
          × (y ≤ z)
          × (z < y + 2 ^ j)
    join_blocks-covered z below =
        let (y, j, i, e, lo, hi) = p.covered z below in
        elim (ℕ_discrete y x) [
          | yes same ↦ whole (omega (arith, same)) (
              let order : j ≡ k = (eq_of_block (sym e ∙ ap cells same ∙ ex)).0 in
              let end : z < x + 2 ^ k =
                subst (λ n. z < n) {x = y + 2 ^ j} {y = x + 2 ^ k} (rw (same, order) refl) hi in
              omega (arith, pow-suc 2 k))
          | no ne ↦ elim (ℕ_discrete y (x + 2 ^ k)) [
            | yes same ↦ whole (omega (arith, same)) (
                let order : j ≡ k = (eq_of_block (sym e ∙ ap cells same ∙ ey)).0 in
                let end : z < x + 2 ^ k + 2 ^ k =
                  subst (λ n. z < n) {x = y + 2 ^ j} {y = x + 2 ^ k + 2 ^ k} (rw (same, order) refl)
                    hi in
                omega (arith, pow-suc 2 k))
            | no ne' ↦ (y, j, i, join_blocks-other y (block j i) ne ne' e, lo, hi)
          ]
        ]
      where
        whole :
            x ≤ z
            → z < x + 2 ^ suc k
            → (y : ℕ) × (j : ℕ) × (h : Bool) × (join_blocks cells x k y ≡ block j h)
              × (y ≤ z)
              × (z < y + 2 ^ j)
        whole lo hi = (x, suc k, false, joined_self, lo, hi)

    pub join_blocks-IsPartition : IsPartition top (join_blocks cells x k)
    join_blocks-IsPartition = record {
      aligned = λ y j h e. elim (join_blocks-origin y j h e) [
        | joined_block same ej ↦ rw (same, ej) around
        | other_block ne ne' e' ↦ p.aligned y j h e'
      ];
      inside_chunk = λ y j h e. elim (join_blocks-origin y j h e) [
        | joined_block same ej ↦
            rw (same, ej) (omega (arith, pow-suc 2 k, p.inside_chunk (x + 2 ^ k) k g ey))
        | other_block ne ne' e' ↦ p.inside_chunk y j h e'
      ];
      has_bin = λ y j h e. elim (join_blocks-origin y j h e) [
        | joined_block same ej ↦ (omega (arith, ej, p.has_bin x k f ex), omega (arith, ej))
        | other_block ne ne' e' ↦ p.has_bin y j h e'
      ];
      apart = λ y j h z e lo hi. join_blocks-apart y j h z (join_blocks-origin y j h e) lo hi;
      covered = join_blocks-covered;
    }
