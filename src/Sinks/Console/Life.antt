-- ===== src/Sinks/Console/Life.antt =====
-- A console as a sink of loggers, from the log calls of a program to what the console writes.
use logrin.Base.{
  sym, ℕ, zero, suc, ◌≡◌, ◌∙◌, refl, ap, true, List, [], ◌∷◌, ◌++◌, map, append_assoc, append-nil,
  Option, some, Bytes, replicate,
}
use logrin.Logger.Programs.{LogCall, count, takes, flushes, logged, life, share}
use logrin.Logger.Sinks.{Sink, AsyncSink, States, deliver, act, life_reaches}
use logrin.Logger.{Logger}
use logrin.Pattern.Error.{ok}
use logrin.Pattern.Formatter.Safety.{format-Returns}
use logrin.Pattern.Formatter.{Config, Formatter, parse_formatter, format}
use logrin.Pattern.Runtime.{Runtime, ◌>>=◌}
use logrin.Record.{LogRecord}
use logrin.Sinks.Console.Pipeline.{ending, after_write-ending}
use logrin.Sinks.Console.{
  Descriptors, Output, write, flush_handle, Console, emit_console, flush_console,
}

module _ (io : Descriptors) {D : Type 0} (format_number : ℕ → Bytes) where
  open io use {Descriptor, is_valid}

  module _ (failure : LogRecord D → Option Bytes) (c : Console Descriptor D) where
    -- The console as a `Sink`: its state is what it has done to the outside, or an exception that
    -- its formatter has thrown. `failure` gives the error of writing a record, if there is one.
    unfoldable pub console_sink : Sink D (Option (List (Output Descriptor)))
    unfolding emit_console flush_console
    console_sink = record {
      emit_record = λ r s.
          s >>= λ out. emit_console io format_number c r (failure r) >>= λ more. some (out ++ more);
      flush_state = λ s. s >>= λ out. some (out ++ flush_console io c);
    }

    -- The text of each record, then the newline, or the complaint where the writing fails.
    abbrev pub printed : (LogRecord D → Bytes) → List (LogRecord D) → List (Output Descriptor)
    printed text [] = []
    printed text (r ∷ records) =
        (write c.descriptor (text r) ∷ ending io format_number c.descriptor r (failure r))
        ++ printed text records

    act-flushes :
        (n : ℕ) (out : List (Output Descriptor))
        → act console_sink (replicate n flushes) (some out)
          ≡ some (out ++ replicate n (flush_handle c.descriptor))
    unfolding console_sink flush_console
    act-flushes zero out = ap (λ xs. some xs) (sym (append-nil out))
    act-flushes (suc n) out =
        act-flushes n (out ++ flush_handle c.descriptor ∷ [])
        ∙ ap (λ xs. some xs)
            (append_assoc out (flush_handle c.descriptor ∷ [])
              (replicate n (flush_handle c.descriptor)))

    module _ (formatter : LogRecord D → Option Bytes) (text : LogRecord D → Bytes)
        (has : c.formatter ≡ some formatter) (valid : is_valid c.descriptor ≡ true)
        (formats : (r : LogRecord D) → formatter r ≡ some (text r)) where
      emit_console-text :
          (r : LogRecord D)
          → emit_console io format_number c r (failure r)
            ≡ some
                (write c.descriptor (text r) ∷ ending io format_number c.descriptor r (failure r))
      unfolding emit_console
      emit_console-text r =
          rw (has, valid, formats r, after_write-ending io format_number c.descriptor r (failure r))
            refl

      emit_record-line :
          (r : LogRecord D) (out : List (Output Descriptor))
          → console_sink.emit_record r (some out)
            ≡ some (
                out
                ++ (write c.descriptor (text r)
                    ∷ ending io format_number c.descriptor r (failure r)))
      unfolding console_sink
      emit_record-line r out = rw (emit_console-text r) refl

      act-printed :
          (records : List (LogRecord D)) (n : ℕ) (out : List (Output Descriptor))
          → act console_sink (map takes records ++ replicate n flushes) (some out)
            ≡ some (out ++ (printed text records ++ replicate n (flush_handle c.descriptor)))
      unfolding console_sink
      act-printed [] n out = act-flushes n out
      act-printed (r ∷ records) n out =
          let line : List (Output Descriptor) =
            write c.descriptor (text r) ∷ ending io format_number c.descriptor r (failure r) in
          ap (act console_sink (map takes records ++ replicate n flushes)) (emit_record-line r out)
          ∙ act-printed records n (out ++ line)
          ∙ ap (λ xs. some xs)
              (append_assoc out line _
                ∙ ap (λ xs. out ++ xs) (sym (append_assoc line (printed text records) _)))

  module _ {A : Type 0} (async_sinks : ℕ → AsyncSink D A) (consoles : ℕ → Console Descriptor D)
      (failure : ℕ → LogRecord D → Option Bytes) where
    -- The whole life of a logger whose sinks are consoles, with a formatter that `Pattern::Parse` has
    -- returned and a valid descriptor each. When log calls have been made on it and it has been
    -- destroyed, no formatter has thrown, and each console has written, behind what it wrote before,
    -- the text of every enabled call in their order and as often as it was added to the logger,
    -- each with its newline, or the complaint where writing that record fails, and has then been
    -- flushed as often.
    pub life_writes :
        (env : Runtime D) (input : Bytes) (config : Config) (f : Formatter) (i : ℕ)
        → parse_formatter env input config ≡ some (ok f)
        → (consoles i).formatter ≡ some (format env f)
        → is_valid (consoles i).descriptor ≡ true
        → (logger : Logger) (logs : List LogCall)
        → (s : States (Option (List (Output Descriptor))) A) (out : List (Output Descriptor))
        → s.sync i ≡ some out
        → (text : LogRecord D → Bytes) × ((r : LogRecord D) → format env f r ≡ some (text r))
          × ((deliver
                  (λ j. console_sink (failure j) (consoles j))
                  async_sinks
                  (life logger logs)
                  s).sync
                i
              ≡ some (
                  out
                  ++ (printed
                        (failure i)
                        (consoles i)
                        text
                        (logged (count i logger.sinks) logger logs)
                      ++ replicate (count i logger.sinks) (flush_handle (consoles i).descriptor))))
    life_writes env input config f i parsed has valid logger logs s out before =
        let text : LogRecord D → Bytes = λ r. (format-Returns env input config r parsed).0 in
        let formats : (r : LogRecord D) → format env f r ≡ some (text r) =
          λ r. (format-Returns env input config r parsed).1 in
        let n : ℕ = count i logger.sinks in
        (
          text,
          formats,
          (life_reaches (λ j. console_sink (failure j) (consoles j)) async_sinks i logger logs s).0
              ∙ ap (act (console_sink (failure i) (consoles i)) (share n logger logs)) before
              ∙ act-printed (failure i) (consoles i) (format env f) text has valid formats
                  (logged n logger logs) n out,
        )
