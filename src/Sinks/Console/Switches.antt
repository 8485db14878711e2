-- ===== src/Sinks/Console/Switches.antt =====
-- include/logrin/Sinks/Console.h and src/sinks/Console.cc: one console that is made, switched
-- between the streams, and used.
use logrin.Base.{
  ℕ, ◌≡◌, refl, Bool, true, false, List, [], ◌∷◌, ◌++◌, Option, some, Bytes, if◌then◌else◌,
}
use logrin.Pattern.Runtime.{◌>>=◌}
use logrin.Record.{LogRecord}
use logrin.Sinks.Console.Pipeline.{ending, after_write-ending}
use logrin.Sinks.Console.{
  keeps, Descriptors, Stream, stdout, stderr, handle_of, Output, write, close_handle, flush_handle,
  Console, new_console, with_stream, flush_console, emit_console,
}

-- A call on a console.
pub data Use (D : Type 0) : Type 0 where
  switch : Stream → Use D
  print : LogRecord D → Use D
  flush : Use D

module _ (io : Descriptors) {D : Type 0} (format_number : ℕ → Bytes)
    (failure : LogRecord D → Option Bytes) where
  open io use {Descriptor, of_handle, is_valid, handle}

  -- The calls one after the other: what they do to the outside, or an exception of the formatter.
  unfoldable pub run_uses : Console Descriptor D → List (Use D) → Option (List (Output Descriptor))
  unfolding with_stream emit_console flush_console
  run_uses c [] = some []
  run_uses c (switch stream ∷ uses) =
      let (switched, out) = with_stream io stream c in
      run_uses switched uses >>= λ later. some (out ++ later)
  run_uses c (print r ∷ uses) = emit_console io format_number c r (failure r) >>= λ out.
      run_uses c uses >>= λ later. some (out ++ later)
  run_uses c (flush ∷ uses) = run_uses c uses >>= λ later. some (flush_console io c ++ later)

  abbrev pub is_same : Stream → Stream → Bool
  is_same stdout stdout = true
  is_same stderr stderr = true
  is_same _ _ = false

  -- The descriptor that is made for a stream.
  abbrev pub made : Stream → Descriptor
  made stream = of_handle (handle_of stream)

  -- What calls bring about on a console at a stream: a switch to the other stream closes the
  -- descriptor that is left, and nothing else closes one; a record is written to the stream that
  -- was chosen last, with its ending, and a flush reaches that one.
  abbrev pub effects : (LogRecord D → Bytes) → Stream → List (Use D) → List (Output Descriptor)
  effects text at [] = []
  effects text at (switch stream ∷ uses) =
      (if is_same at stream then [] else close_handle (made at) ∷ []) ++ effects text stream uses
  effects text at (print r ∷ uses) =
      (write (made at) (text r) ∷ ending io format_number (made at) r (failure r))
      ++ effects text at uses
  effects text at (flush ∷ uses) = flush_handle (made at) ∷ effects text at uses

  module _ (opens : (h : ℕ) → (is_valid (of_handle h) ≡ true) × (handle (of_handle h) ≡ h)) where
    abbrev console_at : (LogRecord D → Option Bytes) → Stream → Stream → Console Descriptor D
    console_at format first at = record {
      formatter = some format;
      descriptor = made at;
      stream = first;
    }

    with_stream-console_at :
        (format : LogRecord D → Option Bytes) (first at stream : Stream)
        → with_stream io stream (console_at format first at) ≡ (
          console_at format first stream,
          if is_same at stream then [] else close_handle (made at) ∷ [],
        )
    unfolding with_stream keeps
    with_stream-console_at format first stdout stdout =
        rw ((opens 1).0, (opens 1).1, with_stream, keeps) refl
    with_stream-console_at format first stdout stderr =
        rw ((opens 1).0, (opens 1).1, with_stream, keeps) refl
    with_stream-console_at format first stderr stdout =
        rw ((opens 2).0, (opens 2).1, with_stream, keeps) refl
    with_stream-console_at format first stderr stderr =
        rw ((opens 2).0, (opens 2).1, with_stream, keeps) refl

    opened : (stream : Stream) → is_valid (made stream) ≡ true
    opened stream = (opens (handle_of stream)).0

    run_uses-effects :
        (format : LogRecord D → Option Bytes) (text : LogRecord D → Bytes)
        → ((r : LogRecord D) → format r ≡ some (text r))
        → (first at : Stream) (uses : List (Use D))
        → run_uses (console_at format first at) uses ≡ some (effects text at uses)
    unfolding run_uses emit_console flush_console
    run_uses-effects format text formats first at [] = refl
    run_uses-effects format text formats first at (switch stream ∷ uses) =
        rw
          (
            with_stream-console_at format first at stream,
            run_uses-effects format text formats first stream uses,
          )
          refl
    run_uses-effects format text formats first at (print r ∷ uses) =
        rw
          (
            opened at,
            formats r,
            after_write-ending io format_number (made at) r (failure r),
            run_uses-effects format text formats first at uses,
          )
          refl
    run_uses-effects format text formats first at (flush ∷ uses) =
        rw (run_uses-effects format text formats first at uses) refl

    -- A console that is made with a formatter for a stream, and then switched between the streams,
    -- given records and flushed in any order: each record is written in full to the stream that was
    -- chosen last, with a newline, or a complaint where the writing fails, each flush reaches that
    -- stream, and each switch to the other stream, and nothing else, closes a descriptor, the one
    -- that is left; a switch back makes it again from the same handle. This holds where a
    -- descriptor that is made from a handle is valid and has that handle, and the formatter does
    -- not throw.
    pub made_console-effects :
        (format : LogRecord D → Option Bytes) (text : LogRecord D → Bytes)
        → ((r : LogRecord D) → format r ≡ some (text r))
        → (at : Stream) (uses : List (Use D))
        → run_uses (new_console io (some format) at) uses ≡ some (effects text at uses)
    unfolding new_console
    made_console-effects format text formats at uses =
        run_uses-effects format text formats at at uses
