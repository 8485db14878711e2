-- ===== src/Sinks/Console.antt =====
-- include/logrin/Sinks/Console.h and src/sinks/Console.cc: the sink that writes to a standard
-- stream, on a Unix system.
pub mod Streams
pub mod Switches
pub mod Pipeline
pub mod Life
pub mod Threads
use logrin.Base.{
  ℕ, Bool, true, false, not, ◌&&◌, List, [], ◌∷◌, ◌++◌, Option, none, some, Bytes, codes, ◌==◌, ltb,
  if◌then◌else◌, length,
}
use logrin.Pattern.Runtime.{◌>>=◌}
use logrin.Record.{LogRecord, SourceLocation}

-- `violet::io::FileDescriptor`: a descriptor made from a handle, `Valid` and `Get`.
pub record Descriptors : Type 1 where
  pub Descriptor : Type 0
  pub of_handle : ℕ → Descriptor
  pub is_valid : Descriptor → Bool
  pub handle : Descriptor → ℕ

-- `Console::Stream`
pub data Stream : Type 0 where
  stdout stderr : Stream

-- `STDOUT_HANDLE` and `STDERR_HANDLE`
abbrev pub stdout_handle : ℕ
stdout_handle = 1

abbrev pub stderr_handle : ℕ
stderr_handle = 2

abbrev pub handle_of : Stream → ℕ
handle_of stdout = stdout_handle
handle_of stderr = stderr_handle

-- What a sink does to the outside: calls on a descriptor, and text for `std::cerr`.
pub data Output (Descriptor : Type 0) : Type 0 where
  write : Descriptor → Bytes → Output Descriptor
  close_handle : Descriptor → Output Descriptor
  flush_handle : Descriptor → Output Descriptor
  complain : Bytes → Output Descriptor

-- The fields of `Console` but for the mutex. A null formatter is `none`, and a formatter gives
-- `none` where it throws.
pub record Console (Descriptor D : Type 0) : Type 0 where
  pub formatter : Option (LogRecord D → Option Bytes)
  pub descriptor : Descriptor
  pub stream : Stream

abbrev pub is_stdout : Stream → Bool
is_stdout stdout = true
is_stdout stderr = false

-- Whether `WithStream` returns early, with the descriptor valid.
unfoldable pub keeps : ℕ → Stream → Bool
keeps fd stream =
    if fd == stdout_handle && is_stdout stream
    then true
    else fd == stderr_handle && not (is_stdout stream)

-- A part of the location with its separator, if the location has it.
abbrev pub numbered : (ℕ → Bytes) → ℕ → Bytes
numbered format_number n = if ltb 0 n then codes ":" ++ format_number n else []

-- The text for a failed write.
unfoldable pub complaint : (ℕ → Bytes) → SourceLocation → Bytes → Bytes
complaint format_number location error =
    codes "[logrin@fatal"
    ++ ((if ltb 0 (length location.file) then codes " " ++ location.file else [])
        ++ (numbered format_number location.line
            ++ (numbered format_number location.column
                ++ (codes "]: received fatal error when writing to stream: "
                    ++ (error ++ codes "\n")))))

module _ (io : Descriptors) {D : Type 0} where
  open io use {Descriptor, of_handle, is_valid, handle}

  -- The two constructors; the first has no formatter.
  unfoldable pub new_console : Option (LogRecord D → Option Bytes) → Stream → Console Descriptor D
  new_console formatter stream = record {
    formatter = formatter;
    descriptor = of_handle (handle_of stream);
    stream = stream;
  }

  -- `Console::WithFormatter`
  unfoldable pub with_formatter :
      (LogRecord D → Option Bytes) → Console Descriptor D → Console Descriptor D
  with_formatter formatter c = record c { formatter = some formatter }

  -- `Console::WithStream`: the sink, and what it does to the outside.
  unfoldable pub with_stream :
      Stream → Console Descriptor D → Console Descriptor D × List (Output Descriptor)
  unfolding keeps
  with_stream stream c =
      let opened = record c { descriptor = of_handle (handle_of stream) } in
      if is_valid c.descriptor
      then if keeps (handle c.descriptor) stream
        then (c, [])
        else (opened, close_handle c.descriptor ∷ [])
      else (opened, [])

  -- `Console::Flush`
  unfoldable pub flush_console : Console Descriptor D → List (Output Descriptor)
  flush_console c = flush_handle c.descriptor ∷ []

  module _ (format_number : ℕ → Bytes) where
    -- What follows the writing of the text: `failure` is the error of that call.
    unfoldable pub after_write : Descriptor → LogRecord D → Option Bytes → List (Output Descriptor)
    unfolding complaint
    after_write fd r none = write fd (codes "\n") ∷ []
    after_write fd r (some error) = complain (complaint format_number r.location error) ∷ []

    -- `Console::Emit`; `failure` is the error of its first call of `Write`, if there is one.
    unfoldable pub emit_console :
        Console Descriptor D → LogRecord D → Option Bytes → Option (List (Output Descriptor))
    unfolding after_write
    emit_console c r failure = elim c.formatter [
      | none ↦ some []
      | some format ↦
          if is_valid c.descriptor
          then (format r >>= λ text.
              some (write c.descriptor text ∷ after_write c.descriptor r failure))
          else some []
    ]
