-- ===== src/Sinks/Console/Threads/Invariant.antt =====
-- What the threads at a console sink have in common: where its mutex is free, the sink is what the
-- calls that are done have made of it, and where a thread holds it, that thread's program counter
-- tells how far it is.
use logrin.Base.{ℕ, ◌≡◌, ◌≢◌, false, List, [], ◌∷◌, ◌++◌, Option, none, some, Bytes}
use logrin.Record.{LogRecord}
use logrin.Sinks.Console.{
  Descriptors, Stream, handle_of, Output, write, close_handle, Console, keeps, new_console,
}
use logrin.Sinks.Console.Threads.Atomic.{lasting, perform_all}
use logrin.Sinks.Console.Threads.{
  Shared, Pc, idle, unlocking, formatting, waiting, writing, written, switch_waiting, switching,
  opening, Done,
}

-- What `Flush` leaves as it is.
pub record View (Descriptor D : Type 0) : Type 0 where
  pub owner : Option ℕ
  pub console : Console Descriptor D
  pub seen : List (Output Descriptor)

abbrev pub view : {Descriptor D : Type 0} → Shared Descriptor D → View Descriptor D
view m = record { owner = m.owner; console = m.console; seen = lasting m.out }

-- The sink behind the calls that are done, and what they did to the outside.
abbrev pub Base : Type 0 → Type 0 → Type 0
Base Descriptor D = Console Descriptor D × List (Output Descriptor)

-- Thread `i` has the mutex, and the sink is the one given.
abbrev pub Held :
    {Descriptor D : Type 0}
    → View Descriptor D
    → ℕ
    → Console Descriptor D
    → List (Output Descriptor)
    → Type 0
Held v i c out = (v.owner ≡ some i) × (v.console ≡ c) × (v.seen ≡ out)

module _ (io : Descriptors) {D : Type 0} (format_number : ℕ → Bytes)
    (closed : io.Descriptor → io.Descriptor) (formatter : Option (LogRecord D → Option Bytes)) where
  open io use {Descriptor, is_valid, of_handle, handle}

  abbrev pub Formats : LogRecord D → Bytes → Type 0
  Formats r text =
      (format : LogRecord D → Option Bytes) × (formatter ≡ some format) × (format r ≡ some text)

  -- What the program counter of thread `i` says.
  abbrev pub Local : Base Descriptor D → View Descriptor D → ℕ → Pc D → Type 0
  Local b v i idle = Unit
  Local b v i (formatting format r) = formatter ≡ some format
  Local b v i (waiting r text) = Formats r text
  Local b v i (writing r text) = Formats r text × Held v i b.0 b.1
  Local b v i (written r text failure) =
      Formats r text × Held v i b.0 (b.1 ++ write b.0.descriptor text ∷ [])
  Local b v i (switch_waiting stream) = Unit
  Local b v i (switching stream) = Held v i b.0 b.1
  Local b v i (opening stream) =
      (keeps (handle b.0.descriptor) stream ≡ false)
      × Held v i (record b.0 { descriptor = closed b.0.descriptor })
          (b.1 ++ close_handle b.0.descriptor ∷ [])
  Local b v i unlocking = Held v i b.0 b.1

  -- What all threads share: the calls that are done make the sink of `b`, which has a descriptor of
  -- a standard stream, and is the sink itself where the mutex is free. Nothing changes the
  -- formatter.
  pub record Settled (stream : Stream) (calls : List (Done D)) (v : View Descriptor D)
      (b : Base Descriptor D) : Type 0 where
    pub performed : perform_all io format_number (new_console io formatter stream) [] calls ≡ some b
    pub opened : (open_stream : Stream) × (b.0.descriptor ≡ of_handle (handle_of open_stream))
    pub kept : b.0.formatter ≡ formatter
    pub same : v.console.formatter ≡ formatter
    pub free : v.owner ≡ none → (v.console ≡ b.0) × (v.seen ≡ b.1)

  -- A thread that does not hold the mutex says nothing of the sink.
  pub Local-other :
      (b b' : Base Descriptor D) (v v' : View Descriptor D) (i : ℕ) (p : Pc D)
      → v.owner ≢ some i
      → Local b v i p
      → Local b' v' i p
  Local-other b b' v v' i idle other l = l
  Local-other b b' v v' i unlocking other l = absurd (other (l.0))
  Local-other b b' v v' i (formatting format r) other l = l
  Local-other b b' v v' i (waiting r text) other l = l
  Local-other b b' v v' i (writing r text) other l = absurd (other (l.1.0))
  Local-other b b' v v' i (written r text failure) other l = absurd (other (l.1.0))
  Local-other b b' v v' i (switch_waiting stream) other l = l
  Local-other b b' v v' i (switching stream) other l = absurd (other (l.0))
  Local-other b b' v v' i (opening stream) other l = absurd (other (l.1.0))

  -- What a move of thread `i` leaves, for it and for the others.
  pub record After (stream : Stream) (calls : List (Done D)) (v : View Descriptor D)
      (b : Base Descriptor D) (i : ℕ) (v' : View Descriptor D) (p' : Pc D) : Type 0 where
    pub base : Base Descriptor D
    pub settled : Settled stream calls v' base
    pub own : Local base v' i p'
    pub others : (j : ℕ) (q : Pc D) → i ≢ j → Local b v j q → Local base v' j q
