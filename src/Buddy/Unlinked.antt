-- ===== src/Buddy/Unlinked.antt =====
-- The headers after a free block is pushed on a bin or taken out of one, field by field.
use ely_square.Base.{
  ℕ, ◌-◌, ◌≡◌, ◌≢◌, inl, inr, refl, ap, ◌∙◌, false, ◌==◌, if◌then◌else◌, ==_refl, ==_ne, ==_iff,
  ==_false, Bool-cases, set, ◌+◌, arith, ℕ_discrete,
}
use ely_square.Buddy.Headers.{
  Spaced, write_tag_self, write_tag_tag, write_tag_prev, write_tag_next, write_next_next,
  write_next_prev, write_next_tag, write_prev_rest,
}
use ely_square.Buddy.{
  BuddyAllocator, null_offset, min_order, unlink_front, unlink_rear, remove_free_block, clear_flag,
}

module _ (x k : ℕ) (b : BuddyAllocator) where
  abbrev nx : ℕ → ℕ
  nx a = (b.headers a).next_offset

  abbrev pv : ℕ → ℕ
  pv a = (b.headers a).prev_offset

  unlink_front_next :
      (a : ℕ)
      → a ≢ null_offset
      → ((unlink_front x k b).headers a).next_offset ≡ (if a == pv x then nx x else nx a)
  unfolding unlink_front
  unlink_front_next a ne = elim (Bool-cases (pv x == null_offset)) [
    | inl e ↦
        let null : pv x ≡ null_offset = (==_iff (pv x) null_offset).0 e in
        rw (unlink_front, e, ==_ne a (pv x) (λ same. ne (same ∙ null))) refl
    | inr e ↦ elim (Bool-cases (a == pv x)) [
      | inl here ↦ rw (unlink_front, e, here) refl
      | inr there ↦
          let stays : nx a ≡ (if a == pv x then nx x else nx a) = rw there refl in
          rw (unlink_front, e)
            (write_next_next b.headers (pv x) (nx x) a (==_false a (pv x) there) ∙ stays)
    ]
  ]

  unlink_front_prev : (a : ℕ) → ((unlink_front x k b).headers a).prev_offset ≡ pv a
  unfolding unlink_front
  unlink_front_prev a = elim (Bool-cases (pv x == null_offset)) [
    | inl e ↦ rw (unlink_front, e) refl
    | inr e ↦ rw (unlink_front, e) (write_next_prev b.headers (pv x) (nx x) a)
  ]

  -- The order and the flag of a header that the link in front does not lie in.
  unlink_front_tag :
      (a : ℕ)
      → (pv x ≢ null_offset → a ≢ pv x + 16)
      → (((unlink_front x k b).headers a).order ≡ (b.headers a).order)
        × (((unlink_front x k b).headers a).is_free ≡ (b.headers a).is_free)
  unfolding unlink_front
  unlink_front_tag a far = elim (Bool-cases (pv x == null_offset)) [
    | inl e ↦ rw (unlink_front, e) (refl, refl)
    | inr e ↦
        rw (unlink_front, e)
          (write_next_tag b.headers (pv x) (nx x) a (far (==_false (pv x) null_offset e)))
  ]

  unlink_rear_prev :
      (a : ℕ)
      → a ≢ null_offset
      → ((unlink_rear x b).headers a).prev_offset ≡ (if a == nx x then pv x else pv a)
  unfolding unlink_rear
  unlink_rear_prev a ne = elim (Bool-cases (nx x == null_offset)) [
    | inl e ↦
        let null : nx x ≡ null_offset = (==_iff (nx x) null_offset).0 e in
        rw (unlink_rear, e, ==_ne a (nx x) (λ same. ne (same ∙ null))) refl
    | inr e ↦ elim (Bool-cases (a == nx x)) [
      | inl here ↦ rw (unlink_rear, e, here) refl
      | inr there ↦ rw (unlink_rear, e, there) refl
    ]
  ]

  unlink_rear_rest :
      (a : ℕ)
      → (((unlink_rear x b).headers a).next_offset ≡ nx a)
        × (((unlink_rear x b).headers a).order ≡ (b.headers a).order)
        × (((unlink_rear x b).headers a).is_free ≡ (b.headers a).is_free)
  unfolding unlink_rear
  unlink_rear_rest a = elim (Bool-cases (nx x == null_offset)) [
    | inl e ↦ rw (unlink_rear, e) (refl, refl, refl)
    | inr e ↦ rw (unlink_rear, e) (write_prev_rest b.headers (nx x) (pv x) a)
  ]

-- `c` is `b` without the block at `x`: its neighbours are linked to each other, and it is in use.
pub record IsUnlinked (x k : ℕ) (b c : BuddyAllocator) : Type 0 where
  pub base : c.base ≡ b.base
  pub pages : c.pages ≡ b.pages
  pub next_front :
      (b.headers x).prev_offset ≢ null_offset
      → (c.headers (b.headers x).prev_offset).next_offset ≡ (b.headers x).next_offset
  pub next :
      (a : ℕ)
      → a ≢ null_offset
      → a ≢ (b.headers x).prev_offset
      → Spaced x a
      → (c.headers a).next_offset ≡ (b.headers a).next_offset
  pub prev_rear :
      (b.headers x).next_offset ≢ null_offset
      → (c.headers (b.headers x).next_offset).prev_offset ≡ (b.headers x).prev_offset
  pub prev :
      (a : ℕ)
      → a ≢ null_offset
      → a ≢ (b.headers x).next_offset
      → (c.headers a).prev_offset ≡ (b.headers a).prev_offset
  pub order :
      (a : ℕ)
      → ((b.headers x).prev_offset ≢ null_offset → a ≢ (b.headers x).prev_offset + 16)
      → (c.headers a).order ≡ (b.headers a).order
  pub used : (c.headers x).is_free ≡ false
  pub is_free :
      (a : ℕ)
      → a ≢ x
      → ((b.headers x).prev_offset ≢ null_offset → a ≢ (b.headers x).prev_offset + 16)
      → (c.headers a).is_free ≡ (b.headers a).is_free
  pub bins_first :
      (b.headers x).prev_offset ≡ null_offset
      → c.bins ≡ set b.bins (k - min_order) (b.headers x).next_offset
  pub bins : (b.headers x).prev_offset ≢ null_offset → c.bins ≡ b.bins

-- Setting the flag keeps the order, and changes no other field of a header that shares no byte with
-- this one.
flag_cleared_order :
    (x : ℕ) (b : BuddyAllocator) (a : ℕ) → ((clear_flag b x).headers a).order ≡ (b.headers a).order
flag_cleared_order x b a = elim (ℕ_discrete a x) [
  | yes same ↦ rw same (ap (λ h. h.order) (write_tag_self b.headers x (b.headers x).order false))
  | no ne ↦ (write_tag_tag b.headers x (b.headers x).order false a ne).0
]

unlink-chunk :
    (x k : ℕ) (b : BuddyAllocator)
    → ((unlink_front x k b).base ≡ b.base)
      × ((unlink_front x k b).pages ≡ b.pages)
      × ((unlink_rear x b).base ≡ b.base)
      × ((unlink_rear x b).pages ≡ b.pages)
      × ((unlink_rear x b).bins ≡ b.bins)
unfolding unlink_front unlink_rear
unlink-chunk x k b = elim (Bool-cases ((b.headers x).prev_offset == null_offset)) [
  | inl e ↦ elim (Bool-cases ((b.headers x).next_offset == null_offset)) [
    | inl e' ↦ rw (unlink_front, unlink_rear, e, e') (refl, refl, refl, refl, refl)
    | inr e' ↦ rw (unlink_front, unlink_rear, e, e') (refl, refl, refl, refl, refl)
  ]
  | inr e ↦ elim (Bool-cases ((b.headers x).next_offset == null_offset)) [
    | inl e' ↦ rw (unlink_front, unlink_rear, e, e') (refl, refl, refl, refl, refl)
    | inr e' ↦ rw (unlink_front, unlink_rear, e, e') (refl, refl, refl, refl, refl)
  ]
]

unlink_front-bins :
    (x k : ℕ) (b : BuddyAllocator)
    → (unlink_front x k b).bins ≡ (
        if (b.headers x).prev_offset == null_offset
        then set b.bins (k - min_order) (b.headers x).next_offset
        else b.bins)
unfolding unlink_front
unlink_front-bins x k b = elim (Bool-cases ((b.headers x).prev_offset == null_offset)) [
  | inl e ↦ rw (unlink_front, e) refl
  | inr e ↦ rw (unlink_front, e) refl
]

-- Removing a block that shares no byte with its predecessor.
pub remove_free_block-IsUnlinked :
    (x k : ℕ) (b : BuddyAllocator)
    → x ≢ null_offset
    → x ≢ (b.headers x).prev_offset
    → ((b.headers x).prev_offset ≢ null_offset → Spaced x (b.headers x).prev_offset)
    → IsUnlinked x k b (remove_free_block x k b)
unfolding remove_free_block
remove_free_block-IsUnlinked x k b here loop far =
    let f = unlink_front x k b in
    let r = unlink_rear x f in
    let p = (b.headers x).prev_offset in
    let n = (b.headers x).next_offset in
    let o = (r.headers x).order in
    let fp : (f.headers x).prev_offset ≡ p = unlink_front_prev x k b x in
    let fn : (f.headers x).next_offset ≡ n =
      unlink_front_next x k b x here ∙ rw (==_ne x p loop) refl in
    let next : (a : ℕ)
        → a ≢ null_offset
        → a + 16 ≢ x
        → ((remove_free_block x k b).headers a).next_offset
          ≡ (if a == p then n else (b.headers a).next_offset) =
      λ a ne away.
        write_tag_next r.headers x o false a away
        ∙ (unlink_rear_rest x k f a).0
        ∙ unlink_front_next x k b a ne in
    let prev : (a : ℕ)
        → a ≢ null_offset
        → ((remove_free_block x k b).headers a).prev_offset
          ≡ (if a == n then p else (b.headers a).prev_offset) =
      λ a ne.
        write_tag_prev r.headers x o false a
        ∙ unlink_rear_prev x k f a ne
        ∙ rw (fn, fp, unlink_front_prev x k b a) refl in
    let (fb, fs, _, _, _) = unlink-chunk x k b in
    let (_, _, rb, rs, rl) = unlink-chunk x k f in
    record {
      base = rb ∙ fb;
      pages = rs ∙ fs;
      next_front = λ ne. next p ne (λ e. omega (arith, e, far ne)) ∙ rw (==_refl p) refl;
      next = λ a ne away apart. next a ne (λ e. omega (arith, e, apart)) ∙ rw (==_ne a p away) refl;
      prev_rear = λ ne. prev n ne ∙ rw (==_refl n) refl;
      prev = λ a ne away. prev a ne ∙ rw (==_ne a n away) refl;
      order = λ a away.
          flag_cleared_order x r a
          ∙ (unlink_rear_rest x k f a).1
          ∙ (unlink_front_tag x k b a away).0;
      used = ap (λ h. h.is_free) (write_tag_self r.headers x o false);
      is_free = λ a ne away.
          (write_tag_tag r.headers x o false a ne).1
          ∙ (unlink_rear_rest x k f a).2
          ∙ (unlink_front_tag x k b a away).1;
      bins_first = λ e. rl ∙ unlink_front-bins x k b ∙ rw ((==_iff p null_offset).1 e) refl;
      bins = λ ne. rl ∙ unlink_front-bins x k b ∙ rw (==_ne p null_offset ne) refl;
    }
