-- ===== src/Json.antt =====
-- `LogRecord::AsJson` of src/LogRecord.cc, and include/logrin/Formatter/Json.h and
-- src/formatters/Json.cc: records as JSON. The library nlohmann is a parameter.
pub mod Attributes
pub mod Members
pub mod Source
mod Tests
use logrin.Base.{
  ℕ, ◌≡◌, Bool, true, false, not, List, [], ◌∷◌, Option, none, some, Bytes, codes, equal, ltb,
  length, if◌then◌else◌,
}
use logrin.Record.{
  ℤ, pos, negsuc, level_to_string, AttributeValue, mono, bool, int64, uint64, double, string,
  SourceLocation, LogRecord,
}

-- What the program uses of `nlohmann::json`. `set key item value` is `value[key] = item`, and
-- `lookup` is `find`. The laws are its documented
-- behaviour: `null` becomes an object by the first assignment to a key, and only `null` and
-- objects take keys.
pub record JsonLibrary (D : Type 0) : Type 1 where
  pub Json : Type 0
  pub null : Json
  pub of_bool : Bool → Json
  pub of_uint : ℕ → Json
  pub of_int : ℤ → Json
  pub of_double : D → Json
  pub of_string : Bytes → Json
  pub is_null : Json → Bool
  pub is_empty : Json → Bool
  pub takes_keys : Json → Bool
  pub set : Bytes → Json → Json → Json
  pub lookup : Bytes → Json → Option Json
  pub dump : ℤ → ℕ → Bool → Json → Option Bytes
  pub null_takes_keys : takes_keys null ≡ true
  pub set_takes_keys :
      (key : Bytes) (item value : Json)
      → takes_keys value ≡ true
      → takes_keys (set key item value) ≡ true
  pub null_is_null : is_null null ≡ true
  pub bool_not_null : (b : Bool) → is_null (of_bool b) ≡ false
  pub uint_not_null : (n : ℕ) → is_null (of_uint n) ≡ false
  pub int_not_null : (n : ℤ) → is_null (of_int n) ≡ false
  pub double_not_null : (d : D) → is_null (of_double d) ≡ false
  pub string_not_null : (s : Bytes) → is_null (of_string s) ≡ false
  pub null_is_empty : is_empty null ≡ true
  pub set_not_empty :
      (key : Bytes) (item value : Json)
      → takes_keys value ≡ true
      → is_empty (set key item value) ≡ false
  pub lookup_is_null : (key : Bytes) (value : Json) → is_null value ≡ true → lookup key value ≡ none
  pub lookup_is_empty :
      (key : Bytes) (value : Json) → is_empty value ≡ true → lookup key value ≡ none
  pub lookup_set_self :
      (key : Bytes) (item value : Json)
      → takes_keys value ≡ true
      → lookup key (set key item value) ≡ some item
  pub lookup_set_other :
      (key other : Bytes) (item value : Json)
      → takes_keys value ≡ true
      → equal key other ≡ false
      → lookup other (set key item value) ≡ lookup other value

-- `Json::Config`
pub record Config : Type 0 where
  pub pretty : Bool
  pub indentation : ℤ

abbrev pub default_config : Config
default_config = record { pretty = false; indentation = pos 4 }

-- `WithIndentation`, `Pretty` and `WithPretty`
unfoldable pub with_indentation : ℤ → Config → Config
with_indentation indent c = record c { indentation = indent }

unfoldable pub set_pretty : Bool → Config → Config
set_pretty pretty c = record c { pretty = pretty }

module _ {D : Type 0} (lib : JsonLibrary D) where
  open lib use {
    Json, null, of_bool, of_uint, of_int, of_double, of_string, is_null, is_empty, set, dump,
  }

  -- `fieldValue`
  unfoldable pub field_value : AttributeValue D → Json
  field_value mono = null
  field_value (bool b) = of_bool b
  field_value (int64 n) = of_int n
  field_value (uint64 n) = of_uint n
  field_value (double d) = of_double d
  field_value (string s) = of_string s

  -- The loop over the fields, from a value of `fields` on.
  unfoldable pub add_fields : Json → List (Bytes × AttributeValue D) → Json
  unfolding field_value
  add_fields fields [] = fields
  add_fields fields ((name, field) ∷ rest) =
      add_fields
        (if not (is_null (field_value field)) then set name (field_value field) fields else fields)
        rest

  -- `src`
  unfoldable pub source_json : SourceLocation → Json
  source_json location =
      let with_file =
        if ltb 0 (length location.file)
        then set (codes "file") (of_string location.file) null
        else null in
      let with_line =
        if ltb 0 location.line
        then set (codes "line") (of_uint location.line) with_file
        else with_file in
      let with_column =
        if ltb 0 location.column
        then set (codes "column") (of_uint location.column) with_line
        else with_line in
      if ltb 0 (length location.function)
      then set (codes "function") (of_string location.function) with_column
      else with_column

  -- `log`
  unfoldable pub log_json : LogRecord D → Json
  log_json r =
      set (codes "level") (of_string (level_to_string r.level))
        (set (codes "logger") (of_string r.logger) null)

  -- The members that every record has; `time` is the text that `strftime` writes.
  unfoldable pub head_json : Bytes → LogRecord D → Json
  unfolding log_json
  head_json time r =
      set (codes "log") (log_json r) (
        set (codes "message") (of_string r.message)
          (set (codes "@timestamp") (of_string time) null))

  -- `value["source"] = src` unless `src` is empty, and the same for the attributes unless null.
  unfoldable pub add_source : Json → Json → Json
  add_source source value =
      if not (is_empty source) then set (codes "source") source value else value

  unfoldable pub add_attributes : Json → Json → Json
  add_attributes fields value =
      if not (is_null fields) then set (codes "attributes") fields value else value

  module _ (strftime_utc : ℕ → Bytes → ℕ → Bytes) where
    -- `LogRecord::AsJson`; where `strftime` writes nothing, the text is empty.
    unfoldable pub as_json : LogRecord D → Json
    unfolding head_json source_json add_fields add_source add_attributes
    as_json r = add_attributes (add_fields null r.fields) (
        add_source (source_json r.location)
          (head_json (strftime_utc 64 (codes "%Y-%m-%dT%H:%M:%SZ") r.timestamp) r))

    -- `Json::Format`; `none` where `dump` throws.
    unfoldable pub format_json : Config → LogRecord D → Option Bytes
    unfolding as_json
    format_json c r = dump (if c.pretty then c.indentation else negsuc 0) b' ' true (as_json r)
