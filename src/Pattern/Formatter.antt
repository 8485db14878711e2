-- ===== src/Pattern/Formatter.antt =====
-- include/logrin/Formatter/Pattern.h and src/formatters/Pattern.cc: the formatter `Pattern`.
mod Parsing
unfoldable pub use Parsing.*
pub mod Segments
pub mod Rounds
pub mod Safety
pub mod Plain
pub mod Azalia
pub mod Agreement
pub mod Texts
pub mod Bodies
pub mod Markers
pub mod Shown
pub mod Rendering
mod Tests
use logrin.Base.{
  ℕ, zero, suc, Bool, true, false, not, List, [], ◌∷◌, ◌++◌, Option, none, some, Bytes, codes,
  if◌then◌else◌,
}
use logrin.Pattern.Color.Terminal.{Rgb}
use logrin.Pattern.Color.{
  parse_color_spec, LevelColorPalette, default_level_color_map, get_level_color,
}
use logrin.Pattern.Content.{
  checked_substr, format_literal, format_timestamp, format_level, format_message, format_logger,
  format_file, format_function_name, format_line, format_column, format_thread_id,
}
use logrin.Pattern.Error.{Error, ok, err}
use logrin.Pattern.Error
use logrin.Pattern.Parser.{ParsedPattern}
use logrin.Pattern.Runtime.{Runtime, ◌>>=◌}
use logrin.Pattern.Segment.{
  SegmentKind, literal, timestamp, level, message, logger, file, function_name, line_num,
  column_num, thread_id, all_attributes, attribute, foreground_color_start, background_color_start,
  level_color_start, style_end, Directive, has_specification, Segment,
}
use logrin.Record.{AttributeValue, mono, bool, int64, uint64, double, string, LogRecord, find_field}

module _ {D : Type 0} (env : Runtime D) where
  -- `isColorsEnabled`
  unfoldable pub is_colors_enabled : Option Bool → Bool
  is_colors_enabled none = env.colours_enabled
  is_colors_enabled (some value) = value

  -- `parseColorSpec(spec).Unwrap()`
  unfoldable pub unwrap_color : Bytes → Option Rgb
  unfolding parse_color_spec
  unwrap_color spec = elim (parse_color_spec env.trim spec) [ ok c ↦ some c | err _ ↦ none ]

  -- The colour that a directive with a specification stands for.
  unfoldable pub directive_color : Bytes → Directive → Option Rgb
  unfolding unwrap_color checked_substr
  directive_color pattern d =
      checked_substr pattern d.spec_offset d.spec_length >>= λ spec. unwrap_color spec

  -- `appendAttributeValue`
  unfoldable pub append_attribute_value : AttributeValue D → Bytes → Bytes
  append_attribute_value mono out = out
  append_attribute_value (bool b) out = out ++ (if b then codes "true" else codes "false")
  append_attribute_value (int64 n) out = out ++ env.format_int64 n
  append_attribute_value (uint64 n) out = out ++ env.format_uint64 n
  append_attribute_value (double d) out = out ++ env.format_double d
  append_attribute_value (string s) out = out ++ s

  module _ (p : ParsedPattern) (s : Segment) (record_ : LogRecord D) (out : Bytes) where
    -- The end of `formatAttribute`, behind the reading of its specification.
    unfoldable pub attribute_of : Bytes → Bytes
    unfolding find_field append_attribute_value
    attribute_of key = elim (find_field key record_.fields) [
      | none ↦ out
      | some value ↦ append_attribute_value value out
    ]

    -- `Pattern::formatAttribute`
    unfoldable pub format_attribute : Option Bytes
    unfolding checked_substr attribute_of
    format_attribute = elim s.directive [
      | none ↦ some out
      | some d ↦
          if not (has_specification d)
          then some out
          else (checked_substr p.pattern d.spec_offset d.spec_length >>= λ key.
              some (attribute_of key))
    ]

  module _ (self : Formatter) where
    -- `emitColour` with colours enabled, on the segment's directive.
    unfoldable pub paint_directive : Bytes → Bool → Bytes → Option Directive → Option Bytes
    unfolding directive_color
    paint_directive pattern foreground out none = some out
    paint_directive pattern foreground out (some d) =
        if not (has_specification d)
        then some out
        else (directive_color pattern d >>= λ c. some (out ++ env.paint_rgb foreground c))

    -- `emitColour`
    unfoldable pub emit_colour : ParsedPattern → Segment → Bool → Bytes → Option Bytes
    unfolding is_colors_enabled paint_directive
    emit_colour p s foreground out =
        if not (is_colors_enabled self.config.use_colours)
        then some out
        else paint_directive p.pattern foreground out s.directive

    abbrev palette : Option LevelColorPalette → LevelColorPalette
    palette none = default_level_color_map
    palette (some map) = map

    -- The colour in `emitLevelColour`: the specified one, or the one of the record's level.
    unfoldable pub level_color : Bytes → LogRecord D → Option Directive → Option Rgb
    unfolding directive_color get_level_color
    level_color pattern r none =
        some (get_level_color env.default_rgb r.level (palette self.config.level_color_map))
    level_color pattern r (some d) =
        if has_specification d
        then directive_color pattern d
        else some (get_level_color env.default_rgb r.level (palette self.config.level_color_map))

    -- `emitLevelColour`
    unfoldable pub emit_level_colour : ParsedPattern → Segment → LogRecord D → Bytes → Option Bytes
    unfolding is_colors_enabled level_color
    emit_level_colour p s r out =
        if not (is_colors_enabled self.config.use_colours)
        then some out
        else (level_color p.pattern r s.directive >>= λ c. some (out ++ env.paint_rgb true c))

    -- `emitStyle`, for the five kinds that it is called for.
    unfoldable pub emit_style : SegmentKind → Bytes → Option Bytes
    unfolding is_colors_enabled
    emit_style kind out =
        if not (is_colors_enabled self.config.use_colours)
        then some out
        else some (out ++ env.paint_style kind)

    -- `emitStyleEnd`
    unfoldable pub emit_style_end : Bytes → Option Bytes
    unfolding is_colors_enabled
    emit_style_end out =
        if not (is_colors_enabled self.config.use_colours)
        then some out
        else some (out ++ env.paint_reset)

    -- What a formatter of whole patterns has: the pattern, the record and `out`.
    abbrev PatternFormatter : Type 0
    PatternFormatter = ParsedPattern → LogRecord D → Bytes → Option Bytes

    -- A marker around an attribute: the parsed one, or its text.
    unfoldable pub format_marker :
        PatternFormatter → Option ParsedPattern → Bytes → LogRecord D → Bytes → Option Bytes
    format_marker format_pattern none text r out = some (out ++ text)
    format_marker format_pattern (some p) text r out = format_pattern p r out

    -- The loop of `formatAllAttributes`, with the variable `first`.
    unfoldable pub format_fields :
        PatternFormatter
        → LogRecord D
        → Bool
        → List (Bytes × AttributeValue D)
        → Bytes
        → Option Bytes
    unfolding format_marker append_attribute_value
    format_fields format_pattern r first [] out = some out
    format_fields format_pattern r first ((key, value) ∷ rest) out =
        let spaced = if not first then out ++ codes " " else out in
        format_marker format_pattern self.prefix_marker self.config.prefix r spaced >>= λ opened.
        let entry = append_attribute_value value ((opened ++ key) ++ self.config.delimiter) in
        format_marker format_pattern self.suffix_marker self.config.suffix r entry >>= λ closed.
        format_fields format_pattern r false rest closed

    -- `formatSegment`, by the segment's kind.
    unfoldable pub format_segment :
        PatternFormatter
        → SegmentKind
        → Segment
        → ParsedPattern
        → LogRecord D
        → Bytes
        → Option Bytes
    unfolding format_literal format_timestamp format_level format_message format_logger format_file
        format_function_name format_line format_column format_thread_id format_attribute
        format_fields emit_colour emit_level_colour emit_style emit_style_end
    format_segment format_pattern literal s p r out = format_literal env p s r out
    format_segment format_pattern timestamp s p r out = format_timestamp env p s r out
    format_segment format_pattern level s p r out = format_level env p s r out
    format_segment format_pattern message s p r out = some (format_message env p s r out)
    format_segment format_pattern logger s p r out = some (format_logger env p s r out)
    format_segment format_pattern file s p r out = some (format_file env p s r out)
    format_segment format_pattern function_name s p r out =
        some (format_function_name env p s r out)
    format_segment format_pattern line_num s p r out = some (format_line env p s r out)
    format_segment format_pattern column_num s p r out = some (format_column env p s r out)
    format_segment format_pattern thread_id s p r out = format_thread_id env p s r out
    format_segment format_pattern attribute s p r out = format_attribute p s r out
    format_segment format_pattern all_attributes s p r out =
        format_fields format_pattern r true r.fields out
    format_segment format_pattern foreground_color_start s p r out = emit_colour p s true out
    format_segment format_pattern background_color_start s p r out = emit_colour p s false out
    format_segment format_pattern level_color_start s p r out = emit_level_colour p s r out
    format_segment format_pattern style_end s p r out = emit_style_end out
    format_segment format_pattern kind s p r out = emit_style kind out

    -- The loop of `formatPattern`.
    unfoldable pub format_each :
        PatternFormatter → List Segment → ParsedPattern → LogRecord D → Bytes → Option Bytes
    unfolding format_segment
    format_each format_pattern [] p r out = some out
    format_each format_pattern (s ∷ rest) p r out =
        format_segment format_pattern s.kind s p r out >>= λ out'.
        format_each format_pattern rest p r out'

    -- `formatPattern`, which calls itself for the markers of `%A`: `depth` bounds how deep.
    unfoldable pub format_pattern : ℕ → PatternFormatter
    unfolding format_each
    format_pattern zero p r out = none
    format_pattern (suc depth) p r out = format_each (format_pattern depth) p.segments p r out

    -- `Pattern::Format`: the pattern, and the markers in it.
    unfoldable pub format : LogRecord D → Option Bytes
    unfolding format_pattern
    format r = format_pattern 2 self.parsed r []
