-- ===== src/Logger.antt =====
-- include/logrin/Logger.h and src/Logger.cc: loggers and log entries. The sinks are implementations
-- of the interfaces in include/logrin/Sink.h and AsyncSink.h: a shared pointer is a number, and
-- what the program does with the sinks is the list of its calls of their methods.
pub mod Emission
pub mod Attributes
pub mod Programs
pub mod Sinks
mod Tests
use logrin.Base.{
  ℕ, Bool, true, false, not, List, [], ◌∷◌, ◌++◌, map, Option, none, some, Bytes, ◌==◌, leb,
  if◌then◌else◌,
}
use logrin.Record.{
  LogLevel, trace, debug, info, warning, error, fatal, off, severity, AttributeValue, LogRecord,
  SourceLocation, record_now, with_field,
}

-- The calls of `Sink::Emit`, `AsyncSink::Enqueue` and the two methods `Flush`.
pub data Call (D : Type 0) : Type 0 where
  emit : ℕ → LogRecord D → Call D
  enqueue : ℕ → LogRecord D → Call D
  flush_sink : ℕ → Call D
  flush_async : ℕ → Call D

pub record Logger : Type 0 where
  pub level : LogLevel
  pub name : Bytes
  pub sinks : List ℕ
  pub async_sinks : List ℕ

-- The constructor of `Logger`.
unfoldable pub new_logger : Bytes → LogLevel → List ℕ → List ℕ → Logger
new_logger name level sinks async_sinks = record {
  level = level;
  name = name;
  sinks = sinks;
  async_sinks = async_sinks;
}

-- `Logger::Enabled`
unfoldable pub enabled : Logger → LogLevel → Bool
unfolding severity
enabled logger level =
    if severity level == severity off then false else leb (severity logger.level) (severity level)

-- `Logger::WithName`, `AddSink` and `AddAsyncSink`
unfoldable pub with_name : Bytes → Logger → Logger
with_name name logger = record logger { name = name }

unfoldable pub add_sink : ℕ → Logger → Logger
add_sink sink logger = record logger { sinks = logger.sinks ++ sink ∷ [] }

unfoldable pub add_async_sink : ℕ → Logger → Logger
add_async_sink sink logger = record logger { async_sinks = logger.async_sinks ++ sink ∷ [] }

-- `LogEntry`; the null pointer is `none`.
pub record LogEntry (D : Type 0) : Type 0 where
  pub parent : Option Logger
  pub entry_record : LogRecord D
  pub emits : Bool

module _ {D : Type 0} where
  -- A default-initialised `LogRecord`.
  abbrev pub empty_record : LogRecord D
  empty_record = record {
    timestamp = 0;
    level = trace;
    message = [];
    fields = [];
    logger = [];
    location = record { file = []; function = []; line = 0; column = 0 };
  }

  -- `LogEntry::With`
  unfoldable pub entry_with : Bytes → AttributeValue D → LogEntry D → LogEntry D
  unfolding with_field
  entry_with name value e = record e { entry_record = with_field name value e.entry_record }

  -- The two loops of `~LogEntry`.
  unfoldable pub emit_to : Option Logger → LogRecord D → List (Call D)
  emit_to none r = []
  emit_to (some logger) r =
      map (λ sink. emit sink r) logger.sinks ++ map (λ sink. enqueue sink r) logger.async_sinks

  -- `~LogEntry`: the calls that it makes.
  unfoldable pub destroy_entry : LogEntry D → List (Call D)
  unfolding emit_to
  destroy_entry e = if e.emits then emit_to e.parent e.entry_record else []

  -- `Logger::Log(LogRecord)`
  unfoldable pub log_record : Logger → LogRecord D → LogEntry D
  log_record logger r = record {
    parent = some logger;
    entry_record = record r { logger = logger.name };
    emits = true;
  }

  -- `Logger::Log(LogLevel, Msg, SourceLocation)`, at the time that the clock gives.
  unfoldable pub log : Logger → ℕ → LogLevel → Bytes → SourceLocation → LogEntry D
  unfolding enabled log_record record_now
  log logger time level message location =
      if not (enabled logger level)
      then record { parent = none; entry_record = empty_record; emits = false }
      else log_record logger (record_now time level message location)

  -- `Logger::Trace`, `Debug`, `Info`, `Warn`, `Error` and `Fatal`
  unfoldable pub log_trace : Logger → ℕ → Bytes → SourceLocation → LogEntry D
  unfolding log_record record_now
  log_trace logger time message location =
      log_record logger (record_now time trace message location)

  unfoldable pub log_debug : Logger → ℕ → Bytes → SourceLocation → LogEntry D
  unfolding log_record record_now
  log_debug logger time message location =
      log_record logger (record_now time debug message location)

  unfoldable pub log_info : Logger → ℕ → Bytes → SourceLocation → LogEntry D
  unfolding log_record record_now
  log_info logger time message location = log_record logger (record_now time info message location)

  unfoldable pub log_warn : Logger → ℕ → Bytes → SourceLocation → LogEntry D
  unfolding log_record record_now
  log_warn logger time message location =
      log_record logger (record_now time warning message location)

  unfoldable pub log_error : Logger → ℕ → Bytes → SourceLocation → LogEntry D
  unfolding log_record record_now
  log_error logger time message location =
      log_record logger (record_now time error message location)

  unfoldable pub log_fatal : Logger → ℕ → Bytes → SourceLocation → LogEntry D
  unfolding log_record record_now
  log_fatal logger time message location =
      log_record logger (record_now time fatal message location)

  -- `Logger::flush`, which the destructor of `Logger` calls too.
  unfoldable pub flush : Logger → List (Call D)
  flush logger =
      map (λ sink. flush_sink sink) logger.sinks
      ++ map (λ sink. flush_async sink) logger.async_sinks
