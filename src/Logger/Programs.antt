-- ===== src/Logger/Programs.antt =====
-- Programs of log calls on one logger: the calls that they make, and what each sink gets of them.
use logrin.Base.{
  ℕ, zero, suc, ◌≡◌, ◌∙◌, refl, sym, ap, inl, inr, List, [], ◌∷◌, ◌++◌, map, append_assoc,
  append-nil, Bytes, ◌==◌, if◌then◌else◌, replicate, Bool-cases,
}
use logrin.Logger.Emission.{delivered_record, each_sink, log_delivers}
use logrin.Logger.{
  Call, emit, enqueue, flush_sink, flush_async, Logger, enabled, destroy_entry, log, flush,
}
use logrin.Record.{LogLevel, LogRecord, SourceLocation}

-- The arguments of a call of `Logger::Log`, and the clock's time.
pub record LogCall : Type 0 where
  pub time : ℕ
  pub level : LogLevel
  pub message : Bytes
  pub location : SourceLocation

-- How often a sink is among those of a logger.
abbrev pub count : ℕ → List ℕ → ℕ
count i [] = 0
count i (j ∷ sinks) = if i == j then suc (count i sinks) else count i sinks

-- A call of one sink: `Emit` or `Enqueue`, and `Flush`.
pub data SinkCall (D : Type 0) : Type 0 where
  takes : LogRecord D → SinkCall D
  flushes : SinkCall D

module _ {D : Type 0} where
  -- The calls on the sinks that log calls make, one after the other, each entry being destroyed at
  -- the end of its statement.
  abbrev pub all_calls : Logger → List LogCall → List (Call D)
  all_calls logger [] = []
  all_calls logger (c ∷ logs) =
      destroy_entry (log logger c.time c.level c.message c.location) ++ all_calls logger logs

  -- A call if it is for sink `i`.
  abbrev pub if_same : ℕ → ℕ → SinkCall D → List (SinkCall D)
  if_same i j call = if i == j then call ∷ [] else []

  -- What sink `i`, and asynchronous sink `i`, gets of a call.
  abbrev pub sink_call : ℕ → Call D → List (SinkCall D)
  sink_call i (emit j r) = if_same i j (takes r)
  sink_call i (flush_sink j) = if_same i j flushes
  sink_call i _ = []

  abbrev pub async_call : ℕ → Call D → List (SinkCall D)
  async_call i (enqueue j r) = if_same i j (takes r)
  async_call i (flush_async j) = if_same i j flushes
  async_call i _ = []

  abbrev pub gather : (Call D → List (SinkCall D)) → List (Call D) → List (SinkCall D)
  gather get [] = []
  gather get (call ∷ calls) = get call ++ gather get calls

  -- What log calls bring to a sink that was added `n` times: each record that is enabled, so often.
  abbrev pub call_records : ℕ → Logger → LogCall → List (LogRecord D)
  call_records n logger c =
      if enabled logger c.level
      then replicate n (delivered_record logger c.time c.level c.message c.location)
      else []

  abbrev pub logged : ℕ → Logger → List LogCall → List (LogRecord D)
  logged n logger [] = []
  logged n logger (c ∷ logs) = call_records n logger c ++ logged n logger logs

  pub gather-append :
      (get : Call D → List (SinkCall D)) (a b : List (Call D))
      → gather get (a ++ b) ≡ gather get a ++ gather get b
  gather-append get [] b = refl
  gather-append get (call ∷ a) b =
      ap (λ calls. get call ++ calls) (gather-append get a b)
      ∙ sym (append_assoc (get call) (gather get a) (gather get b))

  gather-same :
      (get : Call D → List (SinkCall D)) (call : ℕ → Call D) (one : SinkCall D) (i : ℕ)
      → ((j : ℕ) → get (call j) ≡ if_same i j one)
      → (sinks : List ℕ) → gather get (map call sinks) ≡ replicate (count i sinks) one
  gather-same get call one i same [] = refl
  gather-same get call one i same (j ∷ sinks) = elim (Bool-cases (i == j)) [
    | inl here ↦ rw (same j, here, gather-same get call one i same sinks) refl
    | inr other ↦ rw (same j, other, gather-same get call one i same sinks) refl
  ]

  gather-other :
      (get : Call D → List (SinkCall D)) (call : ℕ → Call D)
      → ((j : ℕ) → get (call j) ≡ [])
      → (sinks : List ℕ) → gather get (map call sinks) ≡ []
  gather-other get call none_of [] = refl
  gather-other get call none_of (j ∷ sinks) =
      rw (none_of j, gather-other get call none_of sinks) refl

  -- What a selection takes of the two loops over the sinks.
  record Selects (i : ℕ) (get : Call D → List (SinkCall D)) (chosen : Logger → List ℕ)
      : Type 0 where
    both :
        (logger : Logger) (r : LogRecord D)
        → gather get (each_sink logger r) ≡ replicate (count i (chosen logger)) (takes r)
    at_end :
        (logger : Logger) → gather get (flush logger) ≡ replicate (count i (chosen logger)) flushes

  sink_call-Selects : (i : ℕ) → Selects i (sink_call i) (λ logger. logger.sinks)
  unfolding flush
  sink_call-Selects i = record {
    both = λ logger r.
        gather-append (sink_call i) (map (λ j. emit j r) logger.sinks) _
        ∙ rw
            (
              gather-same (sink_call i) (λ j. emit j r) (takes r) i (λ j. refl) logger.sinks,
              gather-other (sink_call i) (λ j. enqueue j r) (λ j. refl) logger.async_sinks,
            )
            (append-nil _);
    at_end = λ logger.
        gather-append (sink_call i) (map (λ j. flush_sink j) logger.sinks) _
        ∙ rw
            (
              gather-same (sink_call i) (λ j. flush_sink j) flushes i (λ j. refl) logger.sinks,
              gather-other (sink_call i) (λ j. flush_async j) (λ j. refl) logger.async_sinks,
            )
            (append-nil _);
  }

  async_call-Selects : (i : ℕ) → Selects i (async_call i) (λ logger. logger.async_sinks)
  unfolding flush
  async_call-Selects i = record {
    both = λ logger r.
        gather-append (async_call i) (map (λ j. emit j r) logger.sinks) _
        ∙ rw
            (
              gather-other (async_call i) (λ j. emit j r) (λ j. refl) logger.sinks,
              gather-same (async_call i) (λ j. enqueue j r) (takes r) i (λ j. refl)
                  logger.async_sinks,
            )
            refl;
    at_end = λ logger.
        gather-append (async_call i) (map (λ j. flush_sink j) logger.sinks) _
        ∙ rw
            (
              gather-other (async_call i) (λ j. flush_sink j) (λ j. refl) logger.sinks,
              gather-same (async_call i) (λ j. flush_async j) flushes i (λ j. refl)
                  logger.async_sinks,
            )
            refl;
  }

  map-takes-append : (a b : List (LogRecord D)) → map takes (a ++ b) ≡ map takes a ++ map takes b
  map-takes-append [] b = refl
  map-takes-append (r ∷ a) b = ap (λ xs. takes r ∷ xs) (map-takes-append a b)

  map-takes-replicate :
      (n : ℕ) (r : LogRecord D) → map takes (replicate n r) ≡ replicate n (takes r)
  map-takes-replicate zero r = refl
  map-takes-replicate (suc n) r = ap (λ xs. takes r ∷ xs) (map-takes-replicate n r)

  module _ {i : ℕ} {get : Call D → List (SinkCall D)} {chosen : Logger → List ℕ}
      (selects : Selects i get chosen) where
    gather-log :
        (logger : Logger) (c : LogCall)
        → gather get (destroy_entry (log logger c.time c.level c.message c.location))
          ≡ map takes (call_records (count i (chosen logger)) logger c)
    gather-log logger c =
        let r : LogRecord D = delivered_record logger c.time c.level c.message c.location in
        rw (log_delivers {D = D} logger c.time c.level c.message c.location)
          (elim (Bool-cases (enabled logger c.level)) [
            | inl on ↦
                rw on
                  (selects.both logger r ∙ sym (map-takes-replicate (count i (chosen logger)) r))
            | inr silent ↦ rw silent refl
          ])

    gather-all_calls :
        (logger : Logger) (logs : List LogCall)
        → gather get (all_calls logger logs)
          ≡ map takes (logged (count i (chosen logger)) logger logs)
    gather-all_calls logger [] = refl
    gather-all_calls logger (c ∷ logs) =
        gather-append get (destroy_entry (log logger c.time c.level c.message c.location))
          (all_calls logger logs)
        ∙ rw (gather-log logger c, gather-all_calls logger logs)
            (sym (
              map-takes-append (call_records (count i (chosen logger)) logger c)
                (logged (count i (chosen logger)) logger logs)))

  -- A logger with its log calls, up to its destructor.
  abbrev pub life : Logger → List LogCall → List (Call D)
  life logger logs = all_calls logger logs ++ flush logger

  -- What a sink that was added `n` times gets of that.
  abbrev pub share : ℕ → Logger → List LogCall → List (SinkCall D)
  share n logger logs = map takes (logged n logger logs) ++ replicate n flushes

  gather-life :
      {i : ℕ} {get : Call D → List (SinkCall D)} {chosen : Logger → List ℕ}
      → Selects i get chosen
      → (logger : Logger) (logs : List LogCall)
      → gather get (life logger logs) ≡ share (count i (chosen logger)) logger logs
  gather-life {get = get} selects logger logs =
      gather-append get (all_calls logger logs) (flush logger)
      ∙ rw (gather-all_calls selects logger logs, selects.at_end logger) refl

  pub sink_call-life :
      (i : ℕ) (logger : Logger) (logs : List LogCall)
      → gather (sink_call i) (life logger logs) ≡ share (count i logger.sinks) logger logs
  sink_call-life i = gather-life (sink_call-Selects i)

  pub async_call-all_calls :
      (i : ℕ) (logger : Logger) (logs : List LogCall)
      → gather (async_call i) (all_calls logger logs)
        ≡ map takes (logged (count i logger.async_sinks) logger logs)
  async_call-all_calls i = gather-all_calls (async_call-Selects i)

  pub async_call-life :
      (i : ℕ) (logger : Logger) (logs : List LogCall)
      → gather (async_call i) (life logger logs) ≡ share (count i logger.async_sinks) logger logs
  async_call-life i = gather-life (async_call-Selects i)
