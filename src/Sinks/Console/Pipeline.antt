-- ===== src/Sinks/Console/Pipeline.antt =====
-- From a log call to the lines that console sinks with pattern formatters write.
use logrin.Base.{
  ℕ, ◌≡◌, refl, inl, inr, true, List, [], ◌∷◌, ◌++◌, map, Option, none, some, Bytes, codes,
  if◌then◌else◌, Bool-cases,
}
use logrin.Logger.Emission.{delivered_record, log_delivers}
use logrin.Logger.{
  Call, emit, enqueue, flush_sink, flush_async, Logger, enabled, destroy_entry, log,
}
use logrin.Pattern.Error.{ok}
use logrin.Pattern.Formatter.Safety.{format-Returns}
use logrin.Pattern.Formatter.{Config, Formatter, parse_formatter, format}
use logrin.Pattern.Runtime.{Runtime, ◌>>=◌}
use logrin.Record.{LogLevel, LogRecord, SourceLocation}
use logrin.Sinks.Console.{
  Descriptors, Output, write, complain, complaint, Console, after_write, emit_console,
  flush_console,
}

module _ (io : Descriptors) {D : Type 0} (format_number : ℕ → Bytes) where
  open io use {Descriptor, is_valid}

  -- The newline, or the complaint where the writing has failed.
  abbrev pub ending : Descriptor → LogRecord D → Option Bytes → List (Output Descriptor)
  ending fd r none = write fd (codes "\n") ∷ []
  ending fd r (some error) = complain (complaint format_number r.location error) ∷ []

  pub after_write-ending :
      (fd : Descriptor) (r : LogRecord D) (failed : Option Bytes)
      → after_write io format_number fd r failed ≡ ending fd r failed
  unfolding after_write
  after_write-ending fd r none = refl
  after_write-ending fd r (some error) = refl

  module _ (consoles : ℕ → Console Descriptor D) (failure : ℕ → Option Bytes) where
    -- The calls of a logger whose sinks are consoles, as the consoles run them. `failure` gives
    -- the error of a sink's writing, if there is one. The asynchronous sinks are left to others.
    unfoldable pub run_calls : List (Call D) → Option (List (Output Descriptor))
    unfolding emit_console flush_console
    run_calls [] = some []
    run_calls (emit i r ∷ rest) =
        emit_console io format_number (consoles i) r (failure i) >>= λ out.
        run_calls rest >>= λ later. some (out ++ later)
    run_calls (flush_sink i ∷ rest) =
        run_calls rest >>= λ later. some (flush_console io (consoles i) ++ later)
    run_calls (enqueue i r ∷ rest) = run_calls rest
    run_calls (flush_async i ∷ rest) = run_calls rest

    -- For each sink its text, then the newline, or the complaint where the writing fails.
    unfoldable pub lines : (ℕ → Bytes) → LogRecord D → List ℕ → List (Output Descriptor)
    lines text r [] = []
    lines text r (i ∷ sinks) =
        (write (consoles i).descriptor (text i) ∷ ending (consoles i).descriptor r (failure i))
        ++ lines text r sinks

    run_calls-enqueue :
        (r : LogRecord D) (sinks : List ℕ) → run_calls (map (λ i. enqueue i r) sinks) ≡ some []
    unfolding run_calls
    run_calls-enqueue r [] = refl
    run_calls-enqueue r (i ∷ sinks) = run_calls-enqueue r sinks

    module _ (formatter : ℕ → LogRecord D → Option Bytes)
        (ready : (i : ℕ)
          → ((consoles i).formatter ≡ some (formatter i))
            × (is_valid (consoles i).descriptor ≡ true)) where
      run_calls-emit :
          (text : ℕ → Bytes) (r : LogRecord D) (sinks : List ℕ) (others : List ℕ)
          → ((i : ℕ) → formatter i r ≡ some (text i))
          → run_calls (map (λ i. emit i r) sinks ++ map (λ i. enqueue i r) others)
            ≡ some (lines text r sinks)
      unfolding run_calls lines emit_console
      run_calls-emit text r [] others formats = run_calls-enqueue r others
      run_calls-emit text r (i ∷ sinks) others formats =
          rw
            (
              (ready i).0,
              (ready i).1,
              formats i,
              after_write-ending (consoles i).descriptor r (failure i),
              run_calls-emit text r sinks others formats,
            )
            refl

    -- A log call on a logger whose sinks are consoles, each with a valid descriptor and a
    -- formatter that `Pattern::Parse` has returned: no formatter throws, and if the level is
    -- enabled each sink in order writes the record's text in its own format and a newline, or
    -- complains where that writing fails; if it is not enabled, nothing is written.
    pub log_writes :
        (env : Runtime D) (input : ℕ → Bytes) (config : ℕ → Config) (f : ℕ → Formatter)
        → ((i : ℕ) → parse_formatter env (input i) (config i) ≡ some (ok (f i)))
        → ((i : ℕ)
            → ((consoles i).formatter ≡ some (format env (f i)))
              × (is_valid (consoles i).descriptor ≡ true))
        → (logger : Logger) (time : ℕ) (level : LogLevel) (message : Bytes)
        → (location : SourceLocation)
        → (text : ℕ → Bytes) × ((i : ℕ)
            → format env (f i) (delivered_record logger time level message location)
              ≡ some (text i))
          × (run_calls (destroy_entry (log logger time level message location))
              ≡ some (
                  if enabled logger level
                  then lines text (delivered_record logger time level message location) logger.sinks
                  else []))
    unfolding run_calls
    log_writes env input config f parsed ready logger time level message location =
        let r : LogRecord D = delivered_record logger time level message location in
        let text : ℕ → Bytes = λ i. (format-Returns env (input i) (config i) r (parsed i)).0 in
        let formats : (i : ℕ) → format env (f i) r ≡ some (text i) =
          λ i. (format-Returns env (input i) (config i) r (parsed i)).1 in
        (
          text,
          formats,
          elim (Bool-cases (enabled logger level)) [
            | inl on ↦
                rw (log_delivers {D = D} logger time level message location, on)
                  (run_calls-emit (λ i. format env (f i)) ready text r logger.sinks
                    logger.async_sinks formats)
            | inr silent ↦ rw (log_delivers {D = D} logger time level message location, silent) refl
          ],
        )
