-- ===== src/Sinks/Console/Threads.antt =====
-- src/sinks/Console.cc, several threads on one sink: each call is cut where another thread may run,
-- so at the tests of `Emit` and its formatting, which come before the mutex is taken, at the taking
-- and the release of the mutex, and at each call on the descriptor.
pub mod Atomic
pub mod Invariant
pub mod Moves
pub mod Refinement
pub mod Progress
mod Tests
use native.Mathlib.Decide.{ℕ_discrete}
use mathlib.Core.Logic.{ite}
use logrin.Base.{ℕ, ◌≡◌, ◌⊎◌, true, false, List, [], ◌∷◌, ◌++◌, Option, none, some, Bytes}
use logrin.Record.{LogRecord}
use logrin.Sinks.Console.{
  Descriptors, Stream, handle_of, Output, write, close_handle, Console, keeps, new_console,
  after_write, flush_console,
}

-- The sink, the thread that holds its mutex, and all that was done to the outside, in order.
pub record Shared (Descriptor D : Type 0) : Type 0 where
  pub console : Console Descriptor D
  pub owner : Option ℕ
  pub out : List (Output Descriptor)

-- Where a thread stands, with its local variables: outside the sink; in `Emit` before it formats,
-- before it has the mutex, before and behind the writing of the text, `failure` being the error of
-- that call; in `WithStream` before it has the mutex, behind that, and behind the test that opens
-- the stream; and before the mutex is released.
pub data Pc (D : Type 0) : Type 0 where
  idle unlocking : Pc D
  formatting : (LogRecord D → Option Bytes) → LogRecord D → Pc D
  waiting writing : LogRecord D → Bytes → Pc D
  written : LogRecord D → Bytes → Option Bytes → Pc D
  switch_waiting switching opening : Stream → Pc D

-- A call that has done its work: `Emit` with the error of its first `Write`, or `WithStream`.
pub data Done (D : Type 0) : Type 0 where
  emitted : LogRecord D → Option Bytes → Done D
  switched : Stream → Done D

-- A move of thread `i`. It says which call has done its work by it, if one has. `closed` is a
-- descriptor behind its `Close`.
pub data Move (io : Descriptors) {D : Type 0} (format_number : ℕ → Bytes)
    (closed : io.Descriptor → io.Descriptor) (i : ℕ) (m : Shared io.Descriptor D)
    : Pc D → Option (Done D) → Shared io.Descriptor D → Pc D → Type 0 where
  -- `Emit`
  emit_enters :
      (format : LogRecord D → Option Bytes) (r : LogRecord D)
      → m.console.formatter ≡ some format
      → io.is_valid m.console.descriptor ≡ true
      → Move io format_number closed i m idle none m (formatting format r)
  emit_leaves :
      (m.console.formatter ≡ none) ⊎ (io.is_valid m.console.descriptor ≡ false)
      → Move io format_number closed i m idle none m idle
  emit_formats :
      {format : LogRecord D → Option Bytes} {r : LogRecord D} (text : Bytes)
      → format r ≡ some text
      → Move io format_number closed i m (formatting format r) none m (waiting r text)
  emit_throws :
      {format : LogRecord D → Option Bytes} {r : LogRecord D}
      → format r ≡ none
      → Move io format_number closed i m (formatting format r) none m idle
  emit_locks :
      {r : LogRecord D} {text : Bytes}
      → m.owner ≡ none
      → Move io format_number closed i m
          (waiting r text)
          none
          (record m { owner = some i })
          (writing r text)
  emit_writes :
      {r : LogRecord D} {text : Bytes} (failure : Option Bytes)
      → Move io format_number closed i m
          (writing r text)
          none
          (record m { out = m.out ++ write m.console.descriptor text ∷ [] })
          (written r text failure)
  emit_ends :
      {r : LogRecord D} {text : Bytes} {failure : Option Bytes}
      → Move io format_number closed i m
          (written r text failure)
          (some (emitted r failure))
          (record m { out = m.out ++ after_write io format_number m.console.descriptor r failure })
          unlocking
  -- `WithStream`
  switch_enters :
      (stream : Stream) → Move io format_number closed i m idle none m (switch_waiting stream)
  switch_locks :
      {stream : Stream}
      → m.owner ≡ none
      → Move io format_number closed i m
          (switch_waiting stream)
          none
          (record m { owner = some i })
          (switching stream)
  switch_keeps :
      {stream : Stream}
      → io.is_valid m.console.descriptor ≡ true
      → keeps (io.handle m.console.descriptor) stream ≡ true
      → Move io format_number closed i m (switching stream) (some (switched stream)) m unlocking
  switch_closes :
      {stream : Stream}
      → io.is_valid m.console.descriptor ≡ true
      → keeps (io.handle m.console.descriptor) stream ≡ false
      → Move io format_number closed i m
          (switching stream)
          none
          (record m {
            console = record m.console { descriptor = closed m.console.descriptor };
            out = m.out ++ close_handle m.console.descriptor ∷ [];
          })
          (opening stream)
  switch_finds_none :
      {stream : Stream}
      → io.is_valid m.console.descriptor ≡ false
      → Move io format_number closed i m (switching stream) none m (opening stream)
  switch_opens :
      {stream : Stream}
      → Move io format_number closed i m
          (opening stream)
          (some (switched stream))
          (record m { console = record m.console { descriptor = io.of_handle (handle_of stream) } })
          unlocking
  -- the end of the scope that holds the mutex, in either
  unlocks : Move io format_number closed i m unlocking none (record m { owner = none }) idle
  -- `Flush`, which does not take the mutex
  flushes :
      Move io format_number closed i m idle none
        (record m { out = m.out ++ flush_console io m.console })
        idle

-- The program counters of the threads, with thread `i` at `p`.
abbrev pub update : {D : Type 0} → (ℕ → Pc D) → ℕ → Pc D → ℕ → Pc D
update pc i p j = ite (ℕ_discrete i j) p (pc j)

pub record System (Descriptor D : Type 0) : Type 0 where
  pub mem : Shared Descriptor D
  pub pc : ℕ → Pc D

abbrev pub note : {D : Type 0} → List (Done D) → Option (Done D) → List (Done D)
note calls none = calls
note calls (some d) = calls ++ d ∷ []

module _ (io : Descriptors) {D : Type 0} (formatter : Option (LogRecord D → Option Bytes)) where
  -- A new sink, which no thread uses yet.
  abbrev pub init : Stream → System io.Descriptor D
  init stream = record {
    mem = record { console = new_console io formatter stream; owner = none; out = [] };
    pc = λ i. idle;
  }

-- The systems that moves of any threads, in any order, lead to from a new sink, with the calls that
-- have done their work on the way, in order.
pub data Reach (io : Descriptors) {D : Type 0} (format_number : ℕ → Bytes)
    (closed : io.Descriptor → io.Descriptor) (formatter : Option (LogRecord D → Option Bytes))
    (stream : Stream) : List (Done D) → System io.Descriptor D → Type 0 where
  start : Reach io format_number closed formatter stream [] (init io formatter stream)
  later :
      {calls : List (Done D)} {s : System io.Descriptor D} {d : Option (Done D)}
      {m : Shared io.Descriptor D} {p : Pc D} (i : ℕ)
      → Reach io format_number closed formatter stream calls s
      → Move io format_number closed i s.mem (s.pc i) d m p
      → Reach io format_number closed formatter stream
          (note calls d)
          (record { mem = m; pc = update s.pc i p })
