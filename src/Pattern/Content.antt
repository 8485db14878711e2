-- ===== src/Pattern/Content.antt =====
-- src/formatters/pattern/Parser.cc: `ParsedPattern::Format*`, the text of the content directives.
pub mod Padding
pub mod Levels
use logrin.Base.{
  ℕ, ◌-◌, ◌/◌, ◌+◌, not, ◌&&◌, ◌||◌, List, [], ◌∷◌, ◌++◌, map, Option, none, some, Bytes, codes,
  equal, ◌==◌, leb, if◌then◌else◌, length, replicate, substr,
}
use logrin.Pattern.Parser.{ParsedPattern}
use logrin.Pattern.Runtime.{Runtime, ◌>>=◌}
use logrin.Pattern.Segment.{
  Alignment, no_alignment, center, right, left, SegmentKind, literal, timestamp, message, logger,
  file, function_name, line_num, column_num, thread_id, attribute, Directive, has_specification,
  has_padding, Segment,
}
use logrin.Record.{
  as_string, as_double, as_uint64, as_int64, as_bool, LogLevel, level_to_string, AttributeValue,
  LogRecord, find_field,
}

-- `std::toupper` and `std::tolower` in the "C" locale.
unfoldable pub to_upper : ℕ → ℕ
to_upper ch = if leb b'a' ch && leb ch b'z' then ch - 32 else ch

unfoldable pub to_lower : ℕ → ℕ
to_lower ch = if leb b'A' ch && leb ch b'Z' then ch + 32 else ch

-- `levelToString`
unfoldable pub level_text : LogLevel → Bytes → Bytes
unfolding equal to_upper to_lower level_to_string
level_text lvl spec =
    if equal spec (codes "upper")
    then map to_upper (level_to_string lvl)
    else if equal spec (codes "lower")
    then map to_lower (level_to_string lvl)
    else level_to_string lvl

-- The `switch` of `applyPadding`, with `total` fill characters to add.
unfoldable pub pad : Alignment → ℕ → ℕ → Bytes → Bytes → Bytes
pad left total fill content out = (out ++ content) ++ replicate total fill
pad right total fill content out = (out ++ replicate total fill) ++ content
pad center total fill content out =
    ((out ++ replicate (total / 2) fill) ++ content) ++ replicate (total - total / 2) fill
pad no_alignment total fill content out = out

-- `applyPadding`: the new value of `out`.
unfoldable pub apply_padding : Bytes → Directive → Bytes → Bytes
unfolding pad
apply_padding content d out =
    if not (has_padding d) || leb d.width (length content)
    then out ++ content
    else pad d.alignment (d.width - length content) d.fill content out

-- `str.substr(offset, count)`, which throws where the offset lies behind the end.
unfoldable pub checked_substr : Bytes → ℕ → ℕ → Option Bytes
checked_substr s offset count = if leb offset (length s) then some (substr s offset count) else none

-- The specification of a directive, or the empty text.
unfoldable pub spec_text : Bytes → Option Directive → Option Bytes
unfolding checked_substr
spec_text pattern none = some []
spec_text pattern (some d) =
    if has_specification d then checked_substr pattern d.spec_offset d.spec_length else some []

-- The text with the directive's padding, if it has any.
unfoldable pub padded : Bytes → Option Directive → Bytes → Bytes
unfolding apply_padding
padded content none out = out ++ content
padded content (some d) out = if has_padding d then apply_padding content d out else out ++ content

module _ {D : Type 0} (env : Runtime D) where
  -- The chain of tests in `FormatAttribute`, each of which asks the value for one type.
  unfoldable pub append_held : AttributeValue D → Bytes → Bytes
  unfolding as_bool as_int64 as_uint64 as_double as_string
  append_held value out = elim (as_bool value) [
    | some held ↦ out ++ (if held then codes "true" else codes "false")
    | none ↦ elim (as_int64 value) [
      | some held ↦ out ++ env.format_int64 held
      | none ↦ elim (as_uint64 value) [
        | some held ↦ out ++ env.format_uint64 held
        | none ↦ elim (as_double value) [
          | some held ↦ out ++ env.format_double held
          | none ↦ elim (as_string value) [ some held ↦ out ++ held | none ↦ out ]
        ]
      ]
    ]
  ]

  module _ (p : ParsedPattern) (s : Segment) (record_ : LogRecord D) (out : Bytes) where
    -- `FormatLiteral`
    unfoldable pub format_literal : Option Bytes
    unfolding checked_substr
    format_literal =
        checked_substr p.pattern s.text_offset s.text_length >>= λ text. some (out ++ text)

    -- `FormatTimestamp`, behind the reading of its specification.
    unfoldable pub timestamp_text : Bytes → Bytes
    unfolding equal
    timestamp_text given =
        let spec = if length given == 0 then codes "%Y-%m-%d %H:%M:%S" else given in
        if equal spec (codes "iso8601")
        then env.strftime_utc 32 (codes "%Y-%m-%dT%H:%M:%SZ") record_.timestamp
        else env.strftime_local 128 spec record_.timestamp

    unfoldable pub format_timestamp : Option Bytes
    unfolding spec_text timestamp_text
    format_timestamp = spec_text p.pattern s.directive >>= λ spec. some (out ++ timestamp_text spec)

    -- `FormatLevel`
    unfoldable pub format_level : Option Bytes
    unfolding spec_text level_text padded
    format_level = spec_text p.pattern s.directive >>= λ spec.
        some (padded (level_text record_.level spec) s.directive out)

    -- `FormatThreadId`, behind the reading of its specification.
    unfoldable pub thread_text : Bytes → Bytes
    unfolding equal
    thread_text spec =
        if equal spec (codes "hex")
        then codes "0x" ++ env.format_hex env.thread_hash
        else env.format_number env.thread_hash

    unfoldable pub format_thread_id : Option Bytes
    unfolding spec_text thread_text
    format_thread_id = spec_text p.pattern s.directive >>= λ spec. some (out ++ thread_text spec)

    -- The end of `FormatAttribute`, behind the reading of its specification.
    unfoldable pub attribute_text : Bytes → Bytes
    unfolding find_field append_held
    attribute_text key = elim (find_field key record_.fields) [
      | none ↦ out
      | some value ↦ append_held value out
    ]

    -- `FormatAttribute`
    unfoldable pub format_attribute : Option Bytes
    unfolding checked_substr attribute_text
    format_attribute = elim s.directive [
      | none ↦ some out
      | some d ↦
          if has_specification d
          then (checked_substr p.pattern d.spec_offset d.spec_length >>= λ key.
              some (attribute_text key))
          else some out
    ]

    -- The methods that use no specification, by their kinds: `FormatMessage`, `FormatLogger`,
    -- `FormatFile`, `FormatFunctionName`, `FormatLine` and `FormatColumn`.
    unfoldable pub format_message : Bytes
    format_message = out ++ record_.message

    unfoldable pub format_logger : Bytes
    unfolding padded
    format_logger = padded record_.logger s.directive out

    unfoldable pub format_file : Bytes
    format_file = out ++ record_.location.file

    unfoldable pub format_function_name : Bytes
    format_function_name = out ++ record_.location.function

    unfoldable pub format_line : Bytes
    format_line = out ++ env.format_number record_.location.line

    unfoldable pub format_column : Bytes
    format_column = out ++ env.format_number record_.location.column

  -- `ParsedPattern::FormatSegment`, by the segment's kind. Its `switch` has no case for `Level`.
  unfoldable pub dispatch_segment :
      SegmentKind → ParsedPattern → Segment → LogRecord D → Bytes → Option Bytes
  unfolding format_literal format_timestamp format_message format_logger format_file
      format_function_name format_line format_column format_thread_id format_attribute
  dispatch_segment literal p s r out = format_literal p s r out
  dispatch_segment timestamp p s r out = format_timestamp p s r out
  dispatch_segment message p s r out = some (format_message p s r out)
  dispatch_segment logger p s r out = some (format_logger p s r out)
  dispatch_segment file p s r out = some (format_file p s r out)
  dispatch_segment function_name p s r out = some (format_function_name p s r out)
  dispatch_segment line_num p s r out = some (format_line p s r out)
  dispatch_segment column_num p s r out = some (format_column p s r out)
  dispatch_segment thread_id p s r out = format_thread_id p s r out
  dispatch_segment attribute p s r out = format_attribute p s r out
  dispatch_segment _ p s r out = some out

  -- `ParsedPattern::FormatSegments`, from a list of its segments on.
  unfoldable pub format_segments : ParsedPattern → LogRecord D → List Segment → Bytes → Option Bytes
  unfolding dispatch_segment
  format_segments p r [] out = some out
  format_segments p r (s ∷ rest) out =
      dispatch_segment s.kind p s r out >>= λ out'. format_segments p r rest out'
