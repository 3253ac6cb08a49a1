-- ===== src/Panics/Tests.antt =====
-- Concrete instances of the theorems: two frames, with symbols.
use Prim.Native.String.{String}
use ely_square.Base.{
  ℕ, zero, suc, ◌≤◌, ◌≡◌, ◌⊎◌, refl, arith, none, some, List, [], ◌∷◌, length, take, internal_error,
  get_or, eq_of_some, ap, sym, ◌∙◌,
}
use ely_square.Panics.{
  pos, enumerator, linux, StackTrace, windows, trigger_panic, Line, text, number, pointer, numcode,
}
use ely_square.Panics.Lines.{IsDump, trigger_panic-IsDump}

-- A system that captures two frames at most.
abbrev two_frames : ℕ → List ℕ
two_frames limit = take limit (0x401000 ∷ 0x402000 ∷ [])

length-take : (n : ℕ) (xs : List ℕ) → length (take n xs) ≤ n
length-take zero xs = omega arith
length-take (suc n) [] = omega arith
length-take (suc n) (x ∷ xs) = omega (arith, length-take n xs)

abbrev names : List ℕ → List String
names [] = []
names (x ∷ xs) = "elysquare(main)" ∷ names xs

length-names : (xs : List ℕ) → length (names xs) ≡ length xs
length-names [] = refl
length-names (x ∷ xs) = ap suc (length-names xs)

abbrev trace : StackTrace
trace = record {
  capture = two_frames;
  symbols = λ frames. some (names frames);
  capture-le = λ limit. length-take limit (0x401000 ∷ 0x402000 ∷ []);
  symbols-length =
      λ frames texts e. ap length (sym (eq_of_some (names frames) texts e)) ∙ length-names frames;
}

abbrev opening : Line
opening =
    text "[ElySquare][PANIC][ERROR CODE:"
    ∷ number (pos 7)
    ∷ text "]["
    ∷ text "gc.cpp"
    ∷ text ":"
    ∷ number (pos 12)
    ∷ text "]: "
    ∷ text "bug"
    ∷ text "\n"
    ∷ []

abbrev address : ℕ → Line
address i = text "] Address: " ∷ pointer (get_or (two_frames 64) i 0) ∷ text "\n" ∷ []

trigger_panic-IsDump_example :
    IsDump opening
      (two_frames 64)
      address
      (trigger_panic trace windows (enumerator internal_error) "bug" "gc.cpp" (pos 12))
    × (((texts : List String) × (some (names (two_frames 64)) ≡ some texts)
          × IsDump opening
              (two_frames 64)
              (λ i. text "] " ∷ text (get_or texts i "") ∷ text "\n" ∷ [])
              (trigger_panic trace linux (enumerator internal_error) "bug" "gc.cpp" (pos 12)))
        ⊎ ((some (names (two_frames 64)) ≡ none)
            × IsDump opening
                (two_frames 64)
                address
                (trigger_panic trace linux (enumerator internal_error) "bug" "gc.cpp" (pos 12))))
unfolding numcode
trigger_panic-IsDump_example =
    trigger_panic-IsDump trace (enumerator internal_error) "bug" "gc.cpp" (pos 12)
