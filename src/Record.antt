-- ===== src/Record.antt =====
-- include/logrin/LogRecord.h: levels, attribute values and log records.
pub mod Fields
use logrin.Base.{
  ℕ, Bool, List, [], ◌∷◌, ◌++◌, Option, none, some, Bytes, codes, equal, if◌then◌else◌,
}

-- The severity of a record, from the least to the greatest, and `Off`.
pub data LogLevel : Type 0 where
  trace debug info warning error fatal off : LogLevel

-- The enumerators' underlying values, which the comparisons of levels go by.
unfoldable pub severity : LogLevel → ℕ
severity trace = 0
severity debug = 1
severity info = 2
severity warning = 3
severity error = 4
severity fatal = 5
severity off = 6

-- The text that `violet::ToString` gives for a level.
unfoldable pub level_to_string : LogLevel → Bytes
level_to_string trace = codes "trace"
level_to_string debug = codes "debug"
level_to_string info = codes "info"
level_to_string warning = codes "warning"
level_to_string error = codes "error"
level_to_string fatal = codes "fatal"
level_to_string off = codes "off"

-- `negsuc n` is -(n + 1).
pub data ℤ : Type 0 where
  pos : ℕ → ℤ
  negsuc : ℕ → ℤ

-- The alternatives that `AttributeValue` holds. `D` is the type of the `double` values, with
-- which the program does not compute.
pub data AttributeValue (D : Type 0) : Type 0 where
  mono : AttributeValue D
  bool : Bool → AttributeValue D
  int64 : ℤ → AttributeValue D
  uint64 : ℕ → AttributeValue D
  double : D → AttributeValue D
  string : Bytes → AttributeValue D

module _ {D : Type 0} where
  -- `AttributeValue::As`, by the type that it is asked for.
  unfoldable pub as_bool : AttributeValue D → Option Bool
  as_bool (bool held) = some held
  as_bool _ = none

  unfoldable pub as_int64 : AttributeValue D → Option ℤ
  as_int64 (int64 held) = some held
  as_int64 _ = none

  unfoldable pub as_uint64 : AttributeValue D → Option ℕ
  as_uint64 (uint64 held) = some held
  as_uint64 _ = none

  unfoldable pub as_double : AttributeValue D → Option D
  as_double (double held) = some held
  as_double _ = none

  unfoldable pub as_string : AttributeValue D → Option Bytes
  as_string (string held) = some held
  as_string _ = none

-- `violet::SourceLocation`, as far as the program reads it.
pub record SourceLocation : Type 0 where
  pub file : Bytes
  pub function : Bytes
  pub line : ℕ
  pub column : ℕ

-- `message` and `logger` are views in the source: the bytes here are those that they show when the
-- record is passed to a sink. `Sinks.OpenTelemetry.Queued` has what is read later. `fields` lists
-- the entries of the unordered map in the order of its iteration.
pub record LogRecord (D : Type 0) : Type 0 where
  pub timestamp : ℕ
  pub level : LogLevel
  pub message : Bytes
  pub fields : List (Bytes × AttributeValue D)
  pub logger : Bytes
  pub location : SourceLocation

module _ {D : Type 0} where
  -- `Fields.find(key)`
  unfoldable pub find_field : Bytes → List (Bytes × AttributeValue D) → Option (AttributeValue D)
  find_field key [] = none
  find_field key ((name, value) ∷ rest) = if equal name key then some value else find_field key rest

  -- `Fields.emplace(name, value)`: a key that is there keeps its value.
  unfoldable pub emplace_field :
      Bytes → AttributeValue D → List (Bytes × AttributeValue D) → List (Bytes × AttributeValue D)
  unfolding find_field
  emplace_field name value fields = elim (find_field name fields) [
    | none ↦ fields ++ (name, value) ∷ []
    | some old ↦ fields
  ]

  -- `LogRecord::Now`, at the time that the clock gives.
  unfoldable pub record_now : ℕ → LogLevel → Bytes → SourceLocation → LogRecord D
  record_now time level message location = record {
    timestamp = time;
    level = level;
    message = message;
    fields = [];
    logger = [];
    location = location;
  }

  -- `LogRecord::WithLogger`
  unfoldable pub with_logger : Bytes → LogRecord D → LogRecord D
  with_logger name r = record r { logger = name }

  -- `LogRecord::With`
  unfoldable pub with_field : Bytes → AttributeValue D → LogRecord D → LogRecord D
  unfolding emplace_field
  with_field name value r = record r { fields = emplace_field name value r.fields }
