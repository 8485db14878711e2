-- ===== src/Sinks/Console/Threads/Tests.antt =====
-- Threads at a console sink on which the theorems are applied.
use native.Mathlib.Decide.{ℕ_discrete}
use logrin.Base.{
  ℕ, ◌≡◌, ◌≢◌, refl, Bool, true, List, [], ◌∷◌, Option, none, some, Bytes, codes, ltb,
}
use logrin.Record.{LogRecord, info}
use logrin.Sinks.Console.Threads.Atomic.{lasting, perform_all}
use logrin.Sinks.Console.Threads.Progress.{CanMove, never_stuck}
use logrin.Sinks.Console.Threads.Refinement.{Reach-refines, one_inside, switch_drops}
use logrin.Sinks.Console.{handle_of, Descriptors, Stream, stdout, stderr, new_console, keeps}
use logrin.Sinks.Console.Threads.{
  idle, formatting, Done, emitted, Move, emit_enters, emit_formats, emit_locks, emit_writes,
  emit_ends, switch_enters, switch_locks, switch_closes, unlocks, flushes, System, Reach, start,
  later,
}

-- A descriptor is its handle, and 0 stands for a closed one.
abbrev handles : Descriptors
handles = record { Descriptor = ℕ; of_handle = λ h. h; is_valid = λ d. ltb 0 d; handle = λ d. d }

abbrev close_it : ℕ → ℕ
close_it d = 0

abbrev digits : ℕ → Bytes
digits n = codes "0"

abbrev message : LogRecord Bool
message = record {
  timestamp = 1;
  level = info;
  message = codes "a";
  fields = [];
  logger = [];
  location = record { file = []; function = []; line = 0; column = 0 };
}

abbrev plain_format : LogRecord Bool → Option Bytes
plain_format r = some r.message

abbrev ThreadsReach : List (Done Bool) → System ℕ Bool → Type 0
ThreadsReach = Reach handles digits close_it (some plain_format) stdout

opens : (stream : Stream) → ltb 0 (handle_of stream) ≡ true
opens stdout = refl
opens stderr = refl

-- Thread 0 has the mutex, and thread 1 waits for it, with its text ready.
abbrev contended : (s : System ℕ Bool) × ThreadsReach [] s
unfolding new_console ℕ_discrete
contended = (
  _,
  later 0
      (later 1
        (later 1
          (later 0 (later 0 start (emit_enters plain_format message refl refl))
            (emit_formats (codes "a") refl))
          (emit_enters plain_format message refl refl))
        (emit_formats (codes "a") refl))
      (emit_locks refl),
)

-- Thread 0 writes its line, thread 2 flushes within it, and the mutex is free again.
abbrev one_line : (s : System ℕ Bool) × ThreadsReach (emitted message none ∷ []) s
unfolding new_console ℕ_discrete
one_line = (
  _,
  later 0 (later 0 (later 2 (later 0 (contended.1) (emit_writes none)) flushes) emit_ends) unlocks,
)

Reach-refines_example :
    perform_all handles digits
      (new_console handles (some plain_format) stdout)
      []
      (emitted message none ∷ [])
    ≡ some (one_line.0.mem.console, lasting one_line.0.mem.out)
unfolding new_console ℕ_discrete
Reach-refines_example =
    Reach-refines handles digits close_it (some plain_format) opens (one_line.1) refl

abbrev first : ℕ
first = 0

one_inside_example : first ≡ first
unfolding new_console ℕ_discrete
one_inside_example =
    one_inside handles digits close_it (some plain_format) opens first first (contended.1) tt tt

-- Thread 0 has closed standard output.
abbrev half_open : (s : System ℕ Bool) × ThreadsReach [] s
unfolding new_console keeps ℕ_discrete
half_open = (
  _,
  later 0 (later 0 (later 0 start (switch_enters stderr)) (switch_locks refl))
      (switch_closes refl refl),
)

switch_drops_example :
    ¬ Move handles digits close_it 1
      (half_open.0.mem)
      idle
      none
      (half_open.0.mem)
      (formatting plain_format message)
unfolding new_console keeps ℕ_discrete
switch_drops_example =
    switch_drops handles digits close_it (some plain_format) opens (λ d. refl) 0 1 stderr
      (half_open.1) refl plain_format message none (half_open.0.mem)

never_stuck_example :
    (j : ℕ) × (contended.0.pc j ≢ idle)
    × CanMove handles digits close_it j contended.0.mem (contended.0.pc j)
unfolding new_console ℕ_discrete
never_stuck_example = never_stuck handles digits close_it 1 (contended.1) (λ e. absurd cc)
