-- ===== src/Buddy/Headers.antt =====
-- The writes to the fields of a header, and the fields of the others.
use ely_square.Base.{
  ℕ, ◌+◌, ◌≡◌, ◌≢◌, ◌≤◌, ◌⊎◌, inl, inr, refl, Bool, ◌==◌, ==_refl, ==_ne, Bool-cases,
}
use ely_square.Buddy.{Headers, write_tag, write_next_offset, write_prev_offset}

-- Two headers that are not the same have no byte in common.
abbrev pub Spaced : ℕ → ℕ → Type 0
Spaced x y = (x + 32 ≤ y) ⊎ (y + 32 ≤ x)

module _ (headers : Headers) (x : ℕ) where
  -- The order and the flag.
  module _ (order : ℕ) (flag : Bool) where
    pub write_tag_self :
        write_tag headers x order flag x ≡ record (headers x) { order = order; is_free = flag }
    write_tag_self = rw (==_refl x) refl

    pub write_tag_far : (a : ℕ) → a ≢ x → a + 16 ≢ x → write_tag headers x order flag a ≡ headers a
    write_tag_far a ne far = rw (==_ne a x ne, ==_ne (a + 16) x far) refl

    pub write_tag_tag :
        (a : ℕ)
        → a ≢ x
        → ((write_tag headers x order flag a).order ≡ (headers a).order)
          × ((write_tag headers x order flag a).is_free ≡ (headers a).is_free)
    write_tag_tag a ne = elim (Bool-cases (a + 16 == x)) [
      | inl e ↦ rw (==_ne a x ne, e) (refl, refl)
      | inr e ↦ rw (==_ne a x ne, e) (refl, refl)
    ]

    pub write_tag_prev :
        (a : ℕ) → (write_tag headers x order flag a).prev_offset ≡ (headers a).prev_offset
    write_tag_prev a = elim (Bool-cases (a == x)) [
      | inl e ↦ rw e refl
      | inr e ↦ elim (Bool-cases (a + 16 == x)) [
        | inl e' ↦ rw (e, e') refl
        | inr e' ↦ rw (e, e') refl
      ]
    ]

    pub write_tag_next :
        (a : ℕ)
        → a + 16 ≢ x
        → (write_tag headers x order flag a).next_offset ≡ (headers a).next_offset
    write_tag_next a far = elim (Bool-cases (a == x)) [
      | inl e ↦ rw e refl
      | inr e ↦ rw (e, ==_ne (a + 16) x far) refl
    ]

  module _ (next : ℕ) where
    pub write_next_self :
        write_next_offset headers x next x ≡ record (headers x) { next_offset = next }
    write_next_self = rw (==_refl x) refl

    pub write_next_next :
        (a : ℕ) → a ≢ x → (write_next_offset headers x next a).next_offset ≡ (headers a).next_offset
    write_next_next a ne = elim (Bool-cases (a == x + 16)) [
      | inl e ↦ rw (==_ne a x ne, e) refl
      | inr e ↦ rw (==_ne a x ne, e) refl
    ]

    pub write_next_prev :
        (a : ℕ) → (write_next_offset headers x next a).prev_offset ≡ (headers a).prev_offset
    write_next_prev a = elim (Bool-cases (a == x)) [
      | inl e ↦ rw e refl
      | inr e ↦ elim (Bool-cases (a == x + 16)) [
        | inl e' ↦ rw (e, e') refl
        | inr e' ↦ rw (e, e') refl
      ]
    ]

    pub write_next_tag :
        (a : ℕ)
        → a ≢ x + 16
        → ((write_next_offset headers x next a).order ≡ (headers a).order)
          × ((write_next_offset headers x next a).is_free ≡ (headers a).is_free)
    write_next_tag a far = elim (Bool-cases (a == x)) [
      | inl e ↦ rw e (refl, refl)
      | inr e ↦ rw (e, ==_ne a (x + 16) far) (refl, refl)
    ]

  module _ (prev : ℕ) where
    pub write_prev_self :
        write_prev_offset headers x prev x ≡ record (headers x) { prev_offset = prev }
    write_prev_self = rw (==_refl x) refl

    pub write_prev_ne : (a : ℕ) → a ≢ x → write_prev_offset headers x prev a ≡ headers a
    write_prev_ne a ne = rw (==_ne a x ne) refl

    pub write_prev_rest :
        (a : ℕ)
        → ((write_prev_offset headers x prev a).next_offset ≡ (headers a).next_offset)
          × ((write_prev_offset headers x prev a).order ≡ (headers a).order)
          × ((write_prev_offset headers x prev a).is_free ≡ (headers a).is_free)
    write_prev_rest a = elim (Bool-cases (a == x)) [
      | inl e ↦ rw e (refl, refl, refl)
      | inr e ↦ rw e (refl, refl, refl)
    ]
