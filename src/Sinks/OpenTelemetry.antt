-- ===== src/Sinks/OpenTelemetry.antt =====
-- include/logrin/Sinks/OpenTelemetry.h and src/sinks/OpenTelemetry.cc: the sink that hands records
-- to the OpenTelemetry SDK. The SDK is a parameter; a log record of the SDK is the list of the
-- calls that fill it.
pub mod Export
pub mod Flushed
pub mod Pipeline
use logrin.Base.{
  true, false, ℕ, Bool, List, [], ◌∷◌, ◌++◌, Option, none, some, Bytes, leb, if◌then◌else◌,
}
use logrin.Pattern.Runtime.{◌>>=◌}
use logrin.Record.{
  LogLevel, trace, debug, info, warning, error, fatal, off, ℤ, pos, AttributeValue, mono, bool,
  int64, uint64, double, string, LogRecord,
}

-- What the sink uses of the SDK: the severities, and the values of attributes.
pub record Sdk (D : Type 0) : Type 1 where
  pub Severity : Type 0
  pub trace_severity : Severity
  pub debug_severity : Severity
  pub info_severity : Severity
  pub warn_severity : Severity
  pub error_severity : Severity
  pub fatal_severity : Severity
  pub Value : Type 0
  pub of_bool : Bool → Value
  pub of_int64 : ℤ → Value
  pub of_double : D → Value
  pub of_string : Bytes → Value

-- The calls `SetObservedTimestamp`, `SetSeverity`, `SetBody` and `SetAttribute`.
pub data Setter (Severity Value : Type 0) : Type 0 where
  set_observed_timestamp : ℕ → Setter Severity Value
  set_severity : Severity → Setter Severity Value
  set_body : Bytes → Setter Severity Value
  set_attribute : Bytes → Value → Setter Severity Value

-- An item of the batcher's queue, which `Enqueue` fills with a copy of a record. The copy has the
-- record's own fields, but of its message only the view: `stored` is what the record showed when it
-- was pushed, and `message_later` what the view shows when the consumer reads it.
pub record Queued (D : Type 0) : Type 0 where
  pub stored : LogRecord D
  pub message_later : Bytes

-- The record as the consumer reads it. Nothing here reads the other view, the logger's name.
unfoldable pub read_later : {D : Type 0} → Queued D → LogRecord D
read_later q = record q.stored { message = q.message_later }

-- What the consumer has done: the records passed to `EmitLogRecord`, and whether it has reached an
-- assertion that fails or code that is marked unreachable, where the program ends.
pub record Exported (Severity Value : Type 0) : Type 0 where
  pub emitted : List (List (Setter Severity Value))
  pub is_aborted : Bool

-- The greatest `Int64`
abbrev pub int64_max : ℕ
int64_max = 9223372036854775807

module _ {D : Type 0} (sdk : Sdk D) where
  open sdk use {
    Severity, trace_severity, debug_severity, info_severity, warn_severity, error_severity,
    fatal_severity, Value, of_bool, of_int64, of_double, of_string,
  }

  -- `logLevelToSeverity`; `none` is its unreachable default.
  unfoldable pub level_to_severity : LogLevel → Option Severity
  level_to_severity trace = some trace_severity
  level_to_severity debug = some debug_severity
  level_to_severity info = some info_severity
  level_to_severity warning = some warn_severity
  level_to_severity error = some error_severity
  level_to_severity fatal = some fatal_severity
  level_to_severity off = none

  -- `convertLogrinAttributeValue`; `none` is its failing assertion, or its unreachable end.
  unfoldable pub convert_value : AttributeValue D → Option Value
  convert_value (bool b) = some (of_bool b)
  convert_value (int64 n) = some (of_int64 n)
  convert_value (uint64 n) = if leb n int64_max then some (of_int64 (pos n)) else none
  convert_value (double d) = some (of_double d)
  convert_value (string s) = some (of_string s)
  convert_value mono = none

  -- One round of the loop over the fields: an empty value is passed over.
  unfoldable pub convert_field : Bytes → AttributeValue D → Option (List (Setter Severity Value))
  unfolding convert_value
  convert_field key mono = some []
  convert_field key value = convert_value value >>= λ v. some (set_attribute key v ∷ [])

  -- The loop over the fields.
  unfoldable pub convert_fields :
      List (Bytes × AttributeValue D) → Option (List (Setter Severity Value))
  unfolding convert_field
  convert_fields [] = some []
  convert_fields ((key, value) ∷ rest) = convert_field key value >>= λ setters.
      convert_fields rest >>= λ others. some (setters ++ others)

  -- `logRecordToOpenTelemetry`: the calls on the new record of the SDK.
  unfoldable pub log_record_to_open_telemetry : LogRecord D → Option (List (Setter Severity Value))
  unfolding level_to_severity convert_fields
  log_record_to_open_telemetry r = do
    severity ← level_to_severity r.level
    attributes ← convert_fields r.fields
    some (
        set_observed_timestamp r.timestamp
        ∷ set_severity severity
        ∷ set_body r.message
        ∷ attributes)

  -- The consumer of the batcher: `EmitLogRecord` for each record of a batch, as it is read now.
  unfoldable pub consume : List (Queued D) → Exported Severity Value
  unfolding log_record_to_open_telemetry read_later
  consume [] = record { emitted = []; is_aborted = false }
  consume (q ∷ batch) =
      let rest = consume batch in
      elim (log_record_to_open_telemetry (read_later q)) [
        | none ↦ record { emitted = []; is_aborted = true }
        | some log ↦ record rest { emitted = log ∷ rest.emitted }
      ]

  -- The consumer's calls, batch after batch: none follows one that has ended the program.
  unfoldable pub consume_all : List (List (Queued D)) → Exported Severity Value
  unfolding consume
  consume_all [] = record { emitted = []; is_aborted = false }
  consume_all (batch ∷ batches) =
      let first = consume batch in
      let rest = consume_all batches in
      if first.is_aborted then first else record rest { emitted = first.emitted ++ rest.emitted }
