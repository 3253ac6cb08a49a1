-- ===== src/Panics.antt =====
-- lowcode/include/errors/panic.h and lowcode/source/errors/panic.cpp: what a panic and a warning
-- write to the error stream, one entry for each chain of `<<`.
pub mod Lines
mod Tests
use Prim.Native.String.{String}
use ely_square.Base.{
  ℕ, zero, suc, ◌≤◌, ◌≡◌, Option, none, some, List, [], ◌∷◌, ◌++◌, length, get_or, ErrorCode,
  success, dangling_pointer_access, type_not_registered, mailbox_key_not_found, safepoint_timeout,
  container_contains_other, internal_error, runtime_error, out_of_memory,
}

pub data ℤ : Type 0 where
  pos : ℕ → ℤ
  negsuc : ℕ → ℤ

-- What `<<` is given.
pub data Piece : Type 0 where
  text : String → Piece
  number : ℤ → Piece
  pointer : ℕ → Piece

abbrev pub Line : Type 0
Line = List Piece

abbrev pub max_frames : ℕ
max_frames = 64

-- A value of the enumeration's type: an enumerator, or another int.
pub data CodeValue : Type 0 where
  enumerator : ErrorCode → CodeValue
  other_value : ℤ → CodeValue

-- The switch of triggerPanic and raiseWarning.
pub numcode : CodeValue → ℤ
numcode (enumerator success) = pos 0
numcode (enumerator out_of_memory) = pos 1
numcode (enumerator dangling_pointer_access) = pos 2
numcode (enumerator type_not_registered) = pos 3
numcode (enumerator mailbox_key_not_found) = pos 4
numcode (enumerator safepoint_timeout) = pos 5
numcode (enumerator container_contains_other) = pos 6
numcode (enumerator internal_error) = pos 7
numcode (enumerator runtime_error) = pos 8
numcode (other_value v) = negsuc 0

-- The branches for the platform.
pub data Platform : Type 0 where
  windows linux other_platform : Platform

-- The system's stack trace: CaptureStackBackTrace or backtrace, which capture no more frames than
-- they are asked for, and backtrace_symbols, which may fail and else has a text for each frame.
pub record StackTrace : Type 0 where
  pub capture : (limit : ℕ) → List ℕ
  pub symbols : List ℕ → Option (List String)
  pub capture-le : (limit : ℕ) → length (capture limit) ≤ limit
  pub symbols-length :
      (frames : List ℕ) (texts : List String)
      → symbols frames ≡ some texts
      → length texts ≡ length frames

-- The loop over the frames, with the line for each.
pub frame_lines : (ℕ → Line) → (count i : ℕ) → List Line
frame_lines line zero i = []
frame_lines line (suc count) i = line i ∷ frame_lines line count (suc i)

abbrev pub address_line : List ℕ → ℕ → Line
address_line frames i =
    text "[ElySquare][PANIC]["
    ∷ number (pos i)
    ∷ text "] Address: "
    ∷ pointer (get_or frames i 0)
    ∷ text "\n"
    ∷ []

abbrev pub symbol_line : List String → ℕ → Line
symbol_line texts i =
    text "[ElySquare][PANIC]["
    ∷ number (pos i)
    ∷ text "] "
    ∷ text (get_or texts i "")
    ∷ text "\n"
    ∷ []

-- The dump of the frames that were captured, as addresses or as symbols.
pub dump_frames : (frames : List ℕ) → Option (List String) → List Line
unfolding frame_lines
dump_frames frames (some texts) = frame_lines (symbol_line texts) (length frames) 0
dump_frames frames none = frame_lines (address_line frames) (length frames) 0

pub dump_stack : StackTrace → Platform → List Line
unfolding dump_frames
dump_stack trace windows = dump_frames (trace.capture max_frames) none
dump_stack trace linux =
    let frames = trace.capture max_frames in dump_frames frames (trace.symbols frames)
dump_stack trace other_platform = []

abbrev pub end_line : Line
end_line = text "[ElySquare][PANIC] Stacktrace end" ∷ []

-- What triggerPanic writes before it aborts.
pub trigger_panic :
    StackTrace → Platform → CodeValue → (message file : String) → (line : ℤ) → List Line
unfolding numcode dump_stack
trigger_panic trace platform code message file line =
    (text "[ElySquare][PANIC][ERROR CODE:"
      ∷ number (numcode code)
      ∷ text "]["
      ∷ text file
      ∷ text ":"
      ∷ number line
      ∷ text "]: "
      ∷ text message
      ∷ text "\n"
      ∷ [])
    ∷ (dump_stack trace platform ++ (end_line ∷ []))

pub raise_warning : CodeValue → (message file : String) → (line : ℤ) → List Line
unfolding numcode
raise_warning code message file line =
    (text "[ElySquare][WARNING][CODE:"
      ∷ number (numcode code)
      ∷ text "]["
      ∷ text file
      ∷ text ":"
      ∷ number line
      ∷ text "]: "
      ∷ text message
      ∷ text "\n"
      ∷ [])
    ∷ []
