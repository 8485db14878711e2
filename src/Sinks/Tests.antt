-- ===== src/Sinks/Tests.antt =====
-- Sinks and records on which the theorems of the sinks are applied.
use logrin.Base.{
  ◌⊎◌, map, ◌++◌, replicate, List, ℕ, Bool, true, false, [], ◌∷◌, Option, none, some, Bytes, codes,
  ◌≡◌, ◌≢◌, ◌↔◌, refl,
}
use logrin.Batcher.Invariant.{concat}
use logrin.Batcher.{
  is_busy, State, initial, asleep, worker_head, Reach, here, next, push, signal_worker,
  worker_wakes, worker_consumes, worker_returns,
}
use logrin.Logger.Emission.{delivered_record}
use logrin.Logger.Programs.{LogCall, count, logged, life}
use logrin.Logger.{enabled, Logger, destroy_entry, log}
use logrin.Pattern.Color
use logrin.Pattern.Directive
use logrin.Pattern.Error.{Result, ok}
use logrin.Pattern.Formatter
use logrin.Pattern.Formatter.{Config, Formatter, parse_formatter, format}
use logrin.Pattern.Parser
use logrin.Pattern.Parser.Keywords
use logrin.Pattern.Parser.{default_config}
use logrin.Pattern.Runtime.Plain.{plain}
use logrin.Record.{LogRecord, SourceLocation, bool, uint64, info, debug, error}
use logrin.Logger.Sinks.{AsyncSink, States, default_flush, deliver}
use logrin.Sinks.Console.Life.{console_sink, printed, life_writes}
use logrin.Sinks.Console.Streams.{with_stream-handle}
use logrin.Sinks.Console.Switches.{
  Use, switch, print, flush, run_uses, effects, made_console-effects,
}
use logrin.Sinks.Console.{
  Descriptors, Output, flush_handle, stdout, stderr, close_handle, Console, new_console,
  with_stream,
}
use logrin.Sinks.OpenTelemetry.Pipeline.{emissions, log_exports}
use logrin.Sinks.OpenTelemetry.Export.{IsExportable, record-IsExportable}
use logrin.Sinks.OpenTelemetry.Flushed.{HandsOverAll, EndsAtFirst, exports_so_far}
use logrin.Sinks.OpenTelemetry.{Sdk, Queued, read_later, log_record_to_open_telemetry, consume_all}

-- A descriptor is its handle.
abbrev unix : Descriptors
unix = record { Descriptor = ℕ; of_handle = λ h. h; is_valid = λ d. true; handle = λ d. d }

abbrev console : Console ℕ Bool
console = record { formatter = none; descriptor = 1; stream = stdout }

with_stream-handle_example :
    (true ≡ true)
    × ((with_stream unix stderr console).0.descriptor ≡ 2)
    × ((with_stream unix stderr console).0.formatter ≡ none)
    × ((with_stream unix stderr console).1 ≡ close_handle 1 ∷ [])
with_stream-handle_example = with_stream-handle unix (λ h. (refl, refl)) stderr console

abbrev spoken : LogRecord Bool
spoken = record {
  timestamp = 5;
  level = info;
  message = codes "hello";
  fields = [];
  logger = codes "main";
  location = record { file = []; function = []; line = 0; column = 0 };
}

-- A console that is switched away and back.
abbrev visits : List (Use Bool)
visits = print spoken ∷ switch stderr ∷ print spoken ∷ switch stdout ∷ print spoken ∷ flush ∷ []

made_console-effects_example :
    run_uses unix
      (λ n. codes "0")
      (λ r. none)
      (new_console unix (some (λ r. some (codes "hi"))) stdout)
      visits
    ≡ some (effects unix (λ n. codes "0") (λ r. none) (λ r. codes "hi") stdout visits)
made_console-effects_example =
    made_console-effects unix (λ n. codes "0") (λ r. none) (λ h. (refl, refl))
      (λ r. some (codes "hi")) (λ r. codes "hi") (λ r. refl) stdout visits

abbrev sdk : Sdk ℕ
sdk = record {
  Severity = ℕ;
  trace_severity = 1;
  debug_severity = 5;
  info_severity = 9;
  warn_severity = 13;
  error_severity = 17;
  fatal_severity = 21;
  Value = ℕ;
  of_bool = λ b. 0;
  of_int64 = λ n. 1;
  of_double = λ d. d;
  of_string = λ s. 2;
}

abbrev exported : LogRecord ℕ
exported = record {
  timestamp = 5;
  level = info;
  message = codes "hello";
  fields = (codes "ok", bool true) ∷ (codes "size", uint64 12) ∷ [];
  logger = codes "main";
  location = record { file = []; function = []; line = 0; column = 0 };
}

record-IsExportable_example :
    (log_record_to_open_telemetry sdk exported ≢ none) ↔ IsExportable exported
record-IsExportable_example = record-IsExportable sdk exported

-- One record is pushed and consumed, and the worker waits again. The view of its message shows the
-- given bytes when it is read.
abbrev queued : Bytes → LogRecord ℕ → Queued ℕ
queued later r = record { stored = r; message_later = later }

abbrev rested : Queued ℕ → State (Queued ℕ)
rested r = record {
  queue = [];
  running = true;
  processing = false;
  worker = asleep;
  signals = 0;
  flushing = 0;
  flush_waiting = 0;
  stop_signal = false;
  pushed = r ∷ [];
  delivered = (r ∷ []) ∷ [];
}

rested-Reach : (r : Queued ℕ) → Reach 0 false initial (rested r)
unfolding worker_head
rested-Reach r =
    next
      (next
        (next (next (next (next here (worker_wakes refl)) (push r)) (signal_worker 0 refl refl))
          (worker_wakes refl))
        (worker_consumes (r ∷ []) refl))
      (worker_returns refl)

abbrev overwritten : Queued ℕ
overwritten = queued (codes "gone") exported

exports_so_far_example :
    (behind : List (Queued ℕ)) × ((rested overwritten).pushed
      ≡ concat (rested overwritten).delivered ++ behind)
    × ((behind ≡ []) ⊎ (is_busy (rested overwritten) ≡ true))
    × (HandsOverAll sdk
          (map read_later (concat (rested overwritten).delivered))
          (consume_all sdk (rested overwritten).delivered)
        ⊎ EndsAtFirst sdk
            (map read_later (concat (rested overwritten).delivered))
            (consume_all sdk (rested overwritten).delivered))
exports_so_far_example = exports_so_far sdk (rested overwritten) (rested-Reach overwritten)

abbrev here_location : SourceLocation
here_location = record { file = codes "a.cc"; function = codes "f"; line = 1; column = 2 }

-- A call below the level, and one that is enabled.
abbrev calls : List LogCall
calls =
    record { time = 3; level = debug; message = codes "no"; location = here_location }
    ∷ record { time = 4; level = error; message = codes "yes"; location = here_location }
    ∷ []

abbrev telemetry : Logger
telemetry = record { level = info; name = codes "main"; sinks = 1 ∷ []; async_sinks = 5 ∷ [] }

abbrev yes : LogRecord ℕ
yes = delivered_record telemetry 4 error (codes "yes") here_location

log_exports_example :
    consume_all sdk (rested (queued (codes "yes") yes)).delivered
    ≡ record { emitted = emissions sdk 5 telemetry calls; is_aborted = false }
unfolding enabled log destroy_entry
log_exports_example =
    log_exports sdk 5 telemetry calls (rested (queued (codes "yes") yes))
      (rested-Reach (queued (codes "yes") yes)) refl refl (refl, tt)

abbrev layout : Bytes
layout = codes "[%n] %m"

abbrev plain_config : Config
plain_config = record {
  use_colours = none;
  level_color_map = none;
  prefix = [];
  suffix = [];
  delimiter = [];
}

abbrev formatter_of : Option (Result Formatter) → Formatter
formatter_of (some (ok f)) = f
formatter_of _ = record {
  parsed = record { segments = []; pattern = []; config = default_config };
  config = plain_config;
  prefix_marker = none;
  suffix_marker = none;
}

abbrev printer : Formatter
unfolding Formatter.parse_formatter Parser.parse Parser.step Parser.brace_step
    Keywords.try_match_keyword Directive.parse Color.parse_color_spec
printer = formatter_of (parse_formatter plain layout plain_config)

abbrev printing : ℕ → Console ℕ Bool
printing i = record { formatter = some (format plain printer); descriptor = i; stream = stdout }

abbrev logger : Logger
logger = record { level = info; name = codes "main"; sinks = 1 ∷ 2 ∷ []; async_sinks = [] }

-- An asynchronous sink that keeps its records.
abbrev keeping : ℕ → AsyncSink Bool (List (LogRecord Bool))
keeping i = record { enqueue_record = λ r rs. r ∷ rs; flush_state = default_flush }

abbrev nothing_done : States (Option (List (Output ℕ))) (List (LogRecord Bool))
nothing_done = record { sync = λ i. some []; async = λ i. [] }

life_writes_example :
    (text : LogRecord Bool → Bytes) × ((r : LogRecord Bool)
      → format plain printer r ≡ some (text r))
    × ((deliver
            (λ j. console_sink unix (λ n. codes "0") (λ r. none) (printing j))
            keeping
            (life logger calls)
            nothing_done).sync
          2
        ≡ some (
            printed unix
              (λ n. codes "0")
              (λ r. none)
              (printing 2)
              text
              (logged (count 2 logger.sinks) logger calls)
            ++ replicate (count 2 logger.sinks) (flush_handle 2)))
unfolding Formatter.parse_formatter Parser.parse Parser.step Parser.brace_step
    Keywords.try_match_keyword Directive.parse Color.parse_color_spec
life_writes_example =
    life_writes unix (λ n. codes "0") keeping printing (λ i r. none) plain layout plain_config
      printer 2 refl refl refl logger calls nothing_done [] refl
