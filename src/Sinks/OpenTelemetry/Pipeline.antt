-- ===== src/Sinks/OpenTelemetry/Pipeline.antt =====
-- From the log calls of a program to what the OpenTelemetry sink exports: src/Logger.cc,
-- include/logrin/detail/Batcher.h and src/sinks/OpenTelemetry.cc together.
use logrin.Base.{
  All-append, subst, All, arith, true, ℕ, zero, suc, Bool, ◌≡◌, ◌≢◌, ◌∙◌, refl, sym, ap, inl, inr,
  false, List, [], ◌∷◌, ◌++◌, map, if◌then◌else◌, replicate, Bool-cases,
}
use logrin.Batcher.{State, initial, is_busy, Reach}
use logrin.Logger.Programs.{
  LogCall, count, SinkCall, takes, flushes, async_call, gather, all_calls, call_records, logged,
  async_call-all_calls,
}
use logrin.Logger.{Call, Logger, enabled}
use logrin.Record.{LogLevel, off, LogRecord}
use logrin.Sinks.OpenTelemetry.Export.{IsExportable, severity, emission}
use logrin.Sinks.OpenTelemetry.Flushed.{flush_exports-All}
use logrin.Sinks.OpenTelemetry.{
  Sdk, Setter, set_observed_timestamp, set_severity, set_body, Queued, read_later, consume_all,
}

module _ {D : Type 0} where
  -- The records among the calls of a sink.
  abbrev pub taken : List (SinkCall D) → List (LogRecord D)
  taken [] = []
  taken (takes r ∷ calls) = r ∷ taken calls
  taken (flushes ∷ calls) = taken calls

  -- What asynchronous sink `i` gets to enqueue.
  abbrev pub enqueued : ℕ → List (Call D) → List (LogRecord D)
  enqueued i calls = taken (gather (async_call i) calls)

  taken-takes : (records : List (LogRecord D)) → taken (map takes records) ≡ records
  taken-takes [] = refl
  taken-takes (r ∷ records) = ap (λ rs. r ∷ rs) (taken-takes records)

  enqueued-all_calls :
      (i : ℕ) (logger : Logger) (logs : List LogCall)
      → enqueued i (all_calls logger logs) ≡ logged (count i logger.async_sinks) logger logs
  enqueued-all_calls i logger logs =
      ap taken (async_call-all_calls i logger logs)
      ∙ taken-takes (logged (count i logger.async_sinks) logger logs)

  -- What the view of a message shows has not changed when the consumer reads it: the memory behind
  -- it lives, as it is, until then.
  abbrev pub IsAlive : Queued D → Type 0
  IsAlive q = q.message_later ≡ q.stored.message

  read_later-alive : (q : Queued D) → IsAlive q → read_later q ≡ q.stored
  unfolding read_later
  read_later-alive q alive = ap (λ m. record q.stored { message = m }) alive

  map-read_later :
      (queue : List (Queued D)) → All IsAlive queue → map read_later queue ≡ map Queued.stored queue
  map-read_later [] alive = refl
  map-read_later (q ∷ queue) alive =
      rw (read_later-alive q alive.0, map-read_later queue alive.1) refl

  replicate-IsExportable :
      (n : ℕ) (r : LogRecord D) → IsExportable r → All IsExportable (replicate n r)
  replicate-IsExportable zero r can = tt
  replicate-IsExportable (suc n) r can = (can, replicate-IsExportable n r can)

enabled-ne_off : (logger : Logger) (level : LogLevel) → enabled logger level ≡ true → level ≢ off
unfolding enabled
enabled-ne_off logger off h = absurd (ground arith)
enabled-ne_off logger _ h = λ e. absurd cc

module _ (D : Type 0) where
  call_records-IsExportable :
      (n : ℕ) (logger : Logger) (c : LogCall) → All IsExportable (call_records {D = D} n logger c)
  call_records-IsExportable n logger c = elim (Bool-cases (enabled logger c.level)) [
    | inl on ↦ rw on (replicate-IsExportable n _ (enabled-ne_off logger c.level on, tt))
    | inr silent ↦ rw silent tt
  ]

  logged-IsExportable :
      (n : ℕ) (logger : Logger) (logs : List LogCall)
      → All IsExportable (logged {D = D} n logger logs)
  logged-IsExportable n logger [] = tt
  logged-IsExportable n logger (c ∷ logs) =
      All-append IsExportable (call_records {D = D} n logger c) (logged n logger logs)
        (call_records-IsExportable n logger c) (logged-IsExportable n logger logs)

module _ {D : Type 0} (sdk : Sdk D) where
  open sdk use {Severity, Value}

  -- A log call as a record of the SDK.
  abbrev pub call_emission : LogCall → List (Setter Severity Value)
  call_emission c =
      set_observed_timestamp c.time ∷ set_severity (severity sdk c.level) ∷ set_body c.message ∷ []

  abbrev pub call_emissions : ℕ → Logger → LogCall → List (List (Setter Severity Value))
  call_emissions i logger c =
      if enabled logger c.level
      then replicate (count i logger.async_sinks) (call_emission c)
      else []

  -- The records of the enabled log calls, in their order.
  abbrev pub emissions : ℕ → Logger → List LogCall → List (List (Setter Severity Value))
  emissions i logger [] = []
  emissions i logger (c ∷ logs) = call_emissions i logger c ++ emissions i logger logs

  map-replicate :
      (n : ℕ) (r : LogRecord D) → map (emission sdk) (replicate n r) ≡ replicate n (emission sdk r)
  map-replicate zero r = refl
  map-replicate (suc n) r = ap (λ es. emission sdk r ∷ es) (map-replicate n r)

  map-append :
      (xs ys : List (LogRecord D))
      → map (emission sdk) (xs ++ ys) ≡ map (emission sdk) xs ++ map (emission sdk) ys
  map-append [] ys = refl
  map-append (x ∷ xs) ys = ap (λ es. emission sdk x ∷ es) (map-append xs ys)

  call_records-emissions :
      (i : ℕ) (logger : Logger) (c : LogCall)
      → map (emission sdk) (call_records (count i logger.async_sinks) logger c)
        ≡ call_emissions i logger c
  call_records-emissions i logger c = elim (Bool-cases (enabled logger c.level)) [
    | inl on ↦ rw on (map-replicate (count i logger.async_sinks) _)
    | inr silent ↦ rw silent refl
  ]

  logged-emissions :
      (i : ℕ) (logger : Logger) (logs : List LogCall)
      → map (emission sdk) (logged (count i logger.async_sinks) logger logs)
        ≡ emissions i logger logs
  logged-emissions i logger [] = refl
  logged-emissions i logger (c ∷ logs) =
      map-append (call_records (count i logger.async_sinks) logger c)
        (logged (count i logger.async_sinks) logger logs)
      ∙ rw (call_records-emissions i logger c, logged-emissions i logger logs) refl

  -- A program that makes log calls on a logger has exported, by the time that `Flush` of an
  -- OpenTelemetry sink returns, exactly the calls that are enabled, in their order and as often as
  -- the sink was added to the logger, each with its time, its severity and its message, and the
  -- consumer has not ended the program. This holds in every state that the threads of the sink's
  -- batcher can reach, where what was pushed is what the calls gave the sink, and the memory of
  -- each message is alive and unchanged until the consumer reads it.
  pub log_exports :
      {limit : ℕ} {spurious : Bool} (i : ℕ) (logger : Logger) (logs : List LogCall)
      (s : State (Queued D))
      → Reach limit spurious initial s
      → is_busy s ≡ false
      → map Queued.stored s.pushed ≡ enqueued i (all_calls logger logs)
      → All IsAlive s.pushed
      → consume_all sdk s.delivered
        ≡ record { emitted = emissions i logger logs; is_aborted = false }
  log_exports i logger logs s reach idle pushed alive =
      let read : map read_later s.pushed ≡ logged (count i logger.async_sinks) logger logs =
        map-read_later s.pushed alive ∙ pushed ∙ enqueued-all_calls i logger logs in
      flush_exports-All sdk s reach idle (
        subst (All IsExportable) (sym read)
          (logged-IsExportable D (count i logger.async_sinks) logger logs))
      ∙ ap (λ es. record { emitted = es; is_aborted = false })
          (ap (map (emission sdk)) read ∙ logged-emissions i logger logs)
