-- ===== src/Panics/Lines.antt =====
-- The lines of a panic, and the code that they carry.
use Prim.Native.String.{String}
use ely_square.Base.{
  ℕ, zero, suc, ◌+◌, ◌≤◌, ◌<◌, ◌≡◌, ◌⊎◌, inl, inr, refl, ap, ◌∙◌, arith, Option, none, some, List,
  [], ◌∷◌, ◌++◌, length, get_elem?, get_or, length-append, ErrorCode, success, out_of_memory,
  dangling_pointer_access, type_not_registered, mailbox_key_not_found, safepoint_timeout,
  container_contains_other, internal_error, runtime_error, Option-cases,
}
use ely_square.Panics.{
  ℤ, pos, negsuc, number, Line, max_frames, CodeValue, enumerator, other_value, numcode, Platform,
  windows, linux, StackTrace, text, pointer, frame_lines, dump_frames, dump_stack, end_line,
  trigger_panic, raise_warning,
}

-- The codes by their numbers.
abbrev codes : List ErrorCode
codes =
    success ∷ out_of_memory ∷ dangling_pointer_access ∷ type_not_registered ∷ mailbox_key_not_found
    ∷ safepoint_timeout ∷ container_contains_other ∷ internal_error ∷ runtime_error ∷ []

abbrev code_of : ℤ → Option ErrorCode
code_of (pos n) = get_elem? codes n
code_of (negsuc n) = none

-- The code that the first line carries, read back.
abbrev pub printed_code : List Line → Option ErrorCode
printed_code ((first ∷ number n ∷ rest) ∷ lines) = code_of n
printed_code _ = none

code_of-numcode : (e : ErrorCode) → code_of (numcode (enumerator e)) ≡ some e
unfolding numcode
code_of-numcode success = refl
code_of-numcode out_of_memory = refl
code_of-numcode dangling_pointer_access = refl
code_of-numcode type_not_registered = refl
code_of-numcode mailbox_key_not_found = refl
code_of-numcode safepoint_timeout = refl
code_of-numcode container_contains_other = refl
code_of-numcode internal_error = refl
code_of-numcode runtime_error = refl

-- What a panic and a warning write carries the error code: it can be read back from the number in
-- the first line, on every platform, and is no code for a value that is no enumerator.
printed_code-trigger_panic :
    (trace : StackTrace) (platform : Platform) (e : ErrorCode) (v : ℤ) (message file : String)
    (line : ℤ)
    → (printed_code (trigger_panic trace platform (enumerator e) message file line) ≡ some e)
      × (printed_code (raise_warning (enumerator e) message file line) ≡ some e)
      × (printed_code (trigger_panic trace platform (other_value v) message file line) ≡ none)
      × (printed_code (raise_warning (other_value v) message file line) ≡ none)
unfolding trigger_panic raise_warning numcode
printed_code-trigger_panic trace platform e v message file line =
    (code_of-numcode e, code_of-numcode e, refl, refl)

length-frame_lines : (line : ℕ → Line) (count i : ℕ) → length (frame_lines line count i) ≡ count
unfolding frame_lines
length-frame_lines line zero i = refl
length-frame_lines line (suc count) i = ap suc (length-frame_lines line count (suc i))

get_elem?-frame_lines :
    (line : ℕ → Line) (count i j : ℕ) (rest : List Line)
    → j < count
    → get_elem? (frame_lines line count i ++ rest) j ≡ some (line (i + j))
unfolding frame_lines
get_elem?-frame_lines line zero i j rest h = elim h [ ]
get_elem?-frame_lines line (suc count) i zero rest h = ap (λ n. some (line n)) (omega arith)
get_elem?-frame_lines line (suc count) i (suc j) rest h =
    get_elem?-frame_lines line count (suc i) j rest (omega arith)
    ∙ ap (λ n. some (line n)) {x = suc i + j} {y = i + suc j} (omega arith)

get_elem?-append :
    (xs ys : List Line) (i : ℕ) → get_elem? (xs ++ ys) (length xs + i) ≡ get_elem? ys i
get_elem?-append [] ys i = ap (get_elem? ys) {x = 0 + i} {y = i} (omega arith)
get_elem?-append (x ∷ xs) ys i =
    ap (get_elem? (x ∷ xs ++ ys)) {x = suc (length xs) + i} {y = suc (length xs + i)} (omega arith)
    ∙ get_elem?-append xs ys i

-- What is written: the opening line, a line for each frame, with the frame's number and what is
-- shown of it, and the end line.
pub record IsDump (opening : Line) (frames : List ℕ) (shown : ℕ → Line) (out : List Line)
    : Type 0 where
  pub few : length frames ≤ max_frames
  pub size : length out ≡ length frames + 2
  pub front : get_elem? out 0 ≡ some opening
  pub frame :
      (i : ℕ)
      → i < length frames
      → get_elem? out (suc i) ≡ some (text "[ElySquare][PANIC][" ∷ number (pos i) ∷ shown i)
  pub last :
      get_elem? out (suc (length frames)) ≡ some (text "[ElySquare][PANIC] Stacktrace end" ∷ [])

IsDump-frame_lines :
    (frames : List ℕ) (shown : ℕ → Line) (opening : Line)
    → length frames ≤ max_frames
    → let line : ℕ → Line = λ i. text "[ElySquare][PANIC][" ∷ number (pos i) ∷ shown i in
      IsDump opening frames shown
        (opening ∷ (frame_lines line (length frames) 0 ++ (end_line ∷ [])))
IsDump-frame_lines frames shown opening few =
    let line : ℕ → Line = λ i. text "[ElySquare][PANIC][" ∷ number (pos i) ∷ shown i in
    let n = length frames in
    let long = length-frame_lines line n 0 in
    record {
      few = few;
      size = omega (arith, length-append (frame_lines line n 0) (end_line ∷ []), long);
      front = refl;
      frame = λ i h.
          get_elem?-frame_lines line n 0 i (end_line ∷ []) h
          ∙ ap (λ k. some (line k)) {x = 0 + i} {y = i} (omega arith);
      last =
          ap (get_elem? (frame_lines line n 0 ++ (end_line ∷ []))) {x = n}
            {y = length (frame_lines line n 0) + 0} (omega (arith, long))
          ∙ get_elem?-append (frame_lines line n 0) (end_line ∷ []) 0;
    }

-- A panic writes its opening line, with the number of its code, the file, the line and the message;
-- then one line for each frame that the system captures, of which there are at most 64, each with the
-- frame's number, from 0 on in order; then the end line and nothing more. On Linux the line of a frame
-- shows its symbol, if the system has the symbols, and its address if not; on Windows it shows the
-- address.
pub trigger_panic-IsDump :
    (trace : StackTrace) (code : CodeValue) (message file : String) (line : ℤ)
    → let opening : Line =
        text "[ElySquare][PANIC][ERROR CODE:"
        ∷ number (numcode code)
        ∷ text "]["
        ∷ text file
        ∷ text ":"
        ∷ number line
        ∷ text "]: "
        ∷ text message
        ∷ text "\n"
        ∷ [] in
      let frames = trace.capture max_frames in
      let address : ℕ → Line =
        λ i. text "] Address: " ∷ pointer (get_or frames i 0) ∷ text "\n" ∷ [] in
      IsDump opening frames address (trigger_panic trace windows code message file line)
      × (((texts : List String) × (trace.symbols frames ≡ some texts)
            × IsDump opening frames
                (λ i. text "] " ∷ text (get_or texts i "") ∷ text "\n" ∷ [])
                (trigger_panic trace linux code message file line))
          ⊎ ((trace.symbols frames ≡ none)
              × IsDump opening frames address (trigger_panic trace linux code message file line)))
unfolding trigger_panic dump_stack dump_frames
trigger_panic-IsDump trace code message file line =
    let frames = trace.capture max_frames in
    let few = trace.capture-le max_frames in
    let address : ℕ → Line =
      λ i. text "] Address: " ∷ pointer (get_or frames i 0) ∷ text "\n" ∷ [] in
    (
      IsDump-frame_lines frames address _ few,
      elim (Option-cases (trace.symbols frames)) [
        | inl e ↦ inr (e, rw e (IsDump-frame_lines frames address _ few))
        | inr (texts, e) ↦ inl (
          texts,
          e,
          rw e (
              IsDump-frame_lines frames (λ i. text "] " ∷ text (get_or texts i "") ∷ text "\n" ∷ [])
                _ few),
        )
      ],
    )
