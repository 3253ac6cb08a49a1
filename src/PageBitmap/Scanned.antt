-- ===== src/PageBitmap/Scanned.antt =====
-- The loops of requestPageChunk over the digits of a word and over the words, by the steps of Search.
use mathlib.Core.Path.{subst}
use ely_square.Base.{
  ℕ, zero, suc, ◌+◌, ◌-◌, ◌*◌, ◌^◌, ◌≤◌, ◌<◌, ◌≡◌, ◌∙◌, arith, not64, ◌==◌, Bool-cases, inl, inr,
  if◌then◌else◌, ==_iff, bit_and, ap, true, List, [], ◌∷◌, length, get_or, leb, ltb, ltb→lt,
  ltb_false→le, leb→le, leb_false→lt, ◌>>>◌,
}
use ely_square.Base.Bits.{bit, bit-zero, bit_not}
use ely_square.PageBitmap.{
  Scan, found, next_word, stuck, scan_bits, scan_words, full_word, bits_fuel, countr_zero, clip,
}
use ely_square.PageBitmap.Words.{IsRun, zeros-IsRun, ones-IsRun}
use ely_square.PageBitmap.Search.{IsFree, IsState, Shows, extend, finish, restart}

module _ (page : ℕ → ℕ) (n : ℕ) where
  found_mono : {p p' s : ℕ} → p ≤ p' → Shows page n p (found s) → Shows page n p' (found s)
  found_mono h (fits, free, blocked) = (omega arith, free, blocked)

  -- The digits of word `i` are the pages from `i * 64` on.
  abbrev Covers : (i word : ℕ) → Type 0
  Covers i word = (k : ℕ) → k < 64 → page (i * 64 + k) ≡ bit k word

  run_pages :
      {word b d z : ℕ} (i : ℕ)
      → Covers i word
      → IsRun word b d z
      → (q : ℕ) → i * 64 + b ≤ q
      → q < i * 64 + b + z
      → page q ≡ d
  run_pages {word} {b} {d} {z} i covers run q lo hi =
      let j = q - (i * 64 + b) in
      let e : q ≡ i * 64 + (b + j) = omega arith in
      rw e (covers (b + j) (omega (arith, run.inside)) ∙ run.digits j (omega arith))

  at_sum :
      (i b z : ℕ) {len start : ℕ}
      → IsState page n (i * 64 + b + z) len start
      → IsState page n (i * 64 + (b + z)) len start
  at_sum i b z {len} {start} = subst (λ p. IsState page n p len start) (omega arith)

  -- With a round for each digit left, the loop over one word ends, and shows what it should.
  pub scan_bits-Shows :
      (fuel word i b len start : ℕ)
      → word < 2 ^ 64
      → Covers i word
      → b ≤ 64
      → 64 < fuel + b
      → IsState page n (i * 64 + b) len start
      → Shows page n (i * 64 + 64) (scan_bits fuel word i n b len start)
  unfolding scan_bits
  scan_bits-Shows zero word i b len start hw covers hb enough s = absurd (omega arith)
  scan_bits-Shows (suc fuel) word i b len start hw covers hb enough s =
      elim (Bool-cases (ltb b 64)) [
        | inr end ↦
            rw end
              (subst (λ p. IsState page n p len start) (omega (arith, ltb_false→le b 64 end)) s)
        | inl within ↦ elim (Bool-cases (bit_and (word >>> b) 1 == 0)) [
          | inl even ↦
              let z = clip (countr_zero (word >>> b)) b in
              let run : IsRun word b 0 z = zeros-IsRun word b (ltb→lt b 64 within) even in
              let free : IsFree page (i * 64 + b) (i * 64 + b + z) = run_pages i covers run in
              elim (Bool-cases (leb n (len + z))) [
                | inl enough' ↦
                    rw (within, even, enough')
                      (found_mono {p = i * 64 + b + z} (omega (arith, run.inside))
                        (finish z s free (leb→le n (len + z) enough')))
                | inr few ↦
                    rw (within, even, few)
                      (scan_bits-Shows fuel word i (b + z) (len + z)
                        (if len == 0 then i * 64 + b else start) hw covers run.inside
                        (omega (arith, run.positive))
                        (at_sum i b z
                          (extend z s free (leb_false→lt n (len + z) few) run.positive)))
              ]
          | inr odd ↦
              rw (within, odd)
                (let z = clip (countr_zero (not64 (word >>> b))) b in
                  let run : IsRun word b 1 z = ones-IsRun word b (ltb→lt b 64 within) hw odd in
                  scan_bits-Shows fuel word i (b + z) 0 start hw covers run.inside
                    (omega (arith, run.positive))
                    (at_sum i b z (restart z s (run_pages i covers run) run.positive)))
        ]
      ]

  -- Every word is one of 64 bits, and the words stand for the pages from `i * 64` on.
  pub record IsBitmap (i : ℕ) (words : List ℕ) : Type 0 where
    pub small : (j : ℕ) → get_or words j 0 < 2 ^ 64
    pub covers : (j : ℕ) → j < length words → Covers (i + j) (get_or words j 0)

  IsBitmap-tail : (i word : ℕ) (words : List ℕ) → IsBitmap i (word ∷ words) → IsBitmap (suc i) words
  IsBitmap-tail i word words v = record {
    small = λ j. v.small (suc j);
    covers = λ j h k hk.
        ap (λ m. page (m * 64 + k)) {x = suc i + j} {y = i + suc j} (omega arith)
        ∙ v.covers (suc j) (omega arith) k hk;
  }

  IsBitmap-head : (i word : ℕ) (words : List ℕ) → IsBitmap i (word ∷ words) → Covers i word
  IsBitmap-head i word words v k hk =
      ap (λ m. page (m * 64 + k)) {x = i} {y = i + 0} (omega arith) ∙ v.covers 0 (omega arith) k hk

  full-bit : (k : ℕ) → k < 64 → bit k full_word ≡ 1
  full-bit k h = bit_not 64 k 0 (omega arith) h ∙ rw (bit-zero k)

  -- One round of the loop over the words, given what the further rounds show.
  scan_step :
      (word : ℕ) (words : List ℕ) (i len start : ℕ)
      → IsBitmap i (word ∷ words)
      → IsState page n (i * 64) len start
      → ((len' start' : ℕ)
          → IsState page n (i * 64 + 64) len' start'
          → Shows page n
              ((i + length (word ∷ words)) * 64)
              (scan_words words (suc i) n len' start'))
      → Shows page n ((i + length (word ∷ words)) * 64) (scan_words (word ∷ words) i n len start)
  unfolding scan_words
  scan_step word words i len start v s further = elim (Bool-cases (word == full_word)) [
    | inl full ↦ rw full (further 0 start (restart 64 s (taken full) (omega arith)))
    | inr open_word ↦ elim (Bool-cases (word == 0)) [
      | inl free ↦ elim (Bool-cases (leb n (len + 64))) [
        | inl enough ↦
            rw (open_word, free, enough)
              (found_mono {p = i * 64 + 64} (omega arith)
                (finish 64 s (clear free) (leb→le n (len + 64) enough)))
        | inr few ↦
            rw (open_word, free, few)
              (further (len + 64) (if len == 0 then i * 64 else start)
                (extend 64 s (clear free) (leb_false→lt n (len + 64) few) (omega arith)))
      ]
      | inr mixed ↦
          rw (open_word, mixed) (after_word (scan_bits bits_fuel word i n 0 len start) inner)
    ]
  ]
    where
      head : Covers i word
      head = IsBitmap-head i word words v

      taken : (word == full_word) ≡ true → (q : ℕ) → i * 64 ≤ q → q < i * 64 + 64 → page q ≡ 1
      taken full q lo hi =
          let e : q ≡ i * 64 + (q - i * 64) = omega arith in
          rw e (
            head (q - i * 64) (omega arith)
            ∙ ap (bit (q - i * 64)) ((==_iff _ _).0 full)
            ∙ full-bit (q - i * 64) (omega arith))

      clear : (word == 0) ≡ true → IsFree page (i * 64) (i * 64 + 64)
      clear free q lo hi =
          let e : q ≡ i * 64 + (q - i * 64) = omega arith in
          rw e (
            head (q - i * 64) (omega arith)
            ∙ ap (bit (q - i * 64)) ((==_iff _ _).0 free)
            ∙ bit-zero (q - i * 64))

      inner : Shows page n (i * 64 + 64) (scan_bits bits_fuel word i n 0 len start)
      inner =
          scan_bits-Shows bits_fuel word i 0 len start (v.small 0) head (omega arith) (omega arith)
            (subst (λ p. IsState page n p len start) (omega arith) s)

      after_word :
          (r : Scan)
          → Shows page n (i * 64 + 64) r
          → Shows page n ((i + length (word ∷ words)) * 64) (elim r [
            | found s ↦ found s
            | next_word l s ↦ scan_words words (suc i) n l s
            | stuck ↦ stuck
          ])
      after_word (found s) sh = found_mono {p = i * 64 + 64} (omega arith) sh
      after_word (next_word l s) sh = further l s sh
      after_word stuck sh = sh

  -- The search over the words ends, and shows what it should.
  pub scan_words-Shows :
      (words : List ℕ) (i len start : ℕ)
      → IsBitmap i words
      → IsState page n (i * 64) len start
      → Shows page n ((i + length words) * 64) (scan_words words i n len start)
  unfolding scan_words
  scan_words-Shows [] i len start v s = subst (λ p. IsState page n p len start) (omega arith) s
  scan_words-Shows (word ∷ words) i len start v s =
      scan_step word words i len start v s λ len' start' s'.
        subst (λ p. Shows page n p (scan_words words (suc i) n len' start')) (omega arith)
          (scan_words-Shows words (suc i) len' start' (IsBitmap-tail i word words v)
            (subst (λ p. IsState page n p len' start') (omega arith) s'))
