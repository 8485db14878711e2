-- ===== src/Pattern/Tests.antt =====
-- Patterns, configurations and records on which the theorems of the pattern formatter are applied.
use logrin.Base.{
  Bool, true, false, [], ◌∷◌, Option, none, some, Bytes, codes, ◌≡◌, refl, length, All, arith, u32,
}
use logrin.Pattern.Color
use logrin.Pattern.Directive
use logrin.Pattern.Formatter
use logrin.Pattern.Parser
use logrin.Pattern.Parser.Keywords
use logrin.Pattern.Directive.Width.{are_digits, parse_padding-digits}
use logrin.Pattern.Directive.{parse_padding, is_alignment_character, is_digit}
use logrin.Pattern.Content.Levels.{without_levels, format_segments-without_levels}
use logrin.Pattern.Content.{format_segments}
use logrin.Pattern.Content.Padding.{IsPadded, apply_padding-IsPadded}
use logrin.Pattern.Content.{apply_padding}
use logrin.Pattern.Formatter.Azalia.{azalia, azalia_formats}
use logrin.Pattern.Error.{Error, Result, ok, err}
use logrin.Pattern.Formatter.Safety.{format-Returns, parse_formatter-Returns}
use logrin.Pattern.Formatter.Segments.{Returns}
use logrin.Pattern.Formatter.{Config, Formatter, parse_formatter, format}
use logrin.Pattern.Parser.Contents.{IsAllowed, IsSound, parse-IsAllowed, parse-IsSound}
use logrin.Pattern.Parser.Loop.{run_terminates}
use logrin.Pattern.Parser.Ranges.{FitsTypes, parse-FitsTypes}
use logrin.Pattern.Parser.Nesting.{Nested, parse-Nested}
use logrin.Pattern.Parser.{default_config, ParsedPattern, State, initial, run, parse}
use logrin.Pattern.Runtime.Plain.{plain}
use logrin.Pattern.Segment.{center, Directive, default_directive}
use logrin.Record.{LogRecord, bool, info}

abbrev input : Bytes
input = codes "%bold[%L{upper:<5}]%style:end %m 100%% %A"

abbrev config : Config
config = record {
  use_colours = some true;
  level_color_map = none;
  prefix = codes "%fg{#00ff00}";
  suffix = codes "%style:end";
  delimiter = codes "=";
}

abbrev sample_record : LogRecord Bool
sample_record = record {
  timestamp = 0;
  level = info;
  message = codes "hello";
  fields = (codes "ok", bool true) ∷ [];
  logger = codes "main";
  location = record { file = codes "a.cc"; function = codes "f"; line = 1; column = 2 };
}

abbrev parsed_of : Result ParsedPattern → ParsedPattern
parsed_of (ok p) = p
parsed_of (err e) = record { segments = []; pattern = []; config = default_config }

abbrev formatter_of : Option (Result Formatter) → Formatter
formatter_of (some (ok f)) = f
formatter_of _ = record {
  parsed = parsed_of (err Error.empty_color);
  config = config;
  prefix_marker = none;
  suffix_marker = none;
}

abbrev sample_pattern : ParsedPattern
unfolding Parser.parse Parser.step Parser.brace_step Keywords.try_match_keyword Directive.parse
sample_pattern = parsed_of (parse default_config input)

abbrev sample : Formatter
unfolding Formatter.parse_formatter Parser.step Parser.brace_step Keywords.try_match_keyword
    Directive.parse Color.parse_color_spec
sample = formatter_of (parse_formatter plain input config)

sample_text : format plain sample sample_record ≡ some (codes "[[INFO ]] hello 100% <ok=true]")
unfolding Formatter.format Formatter.parse_formatter Parser.step Parser.brace_step
    Keywords.try_match_keyword Directive.parse Color.parse_color_spec
sample_text = refl

format-Returns_example : Returns (format plain sample sample_record)
unfolding Formatter.parse_formatter Parser.step Parser.brace_step Keywords.try_match_keyword
    Directive.parse Color.parse_color_spec
format-Returns_example = format-Returns plain input config sample_record refl

parse_formatter-Returns_example : Returns (parse_formatter plain input config)
parse_formatter-Returns_example = parse_formatter-Returns plain input config

parse-Nested_example : Nested false 0 sample_pattern.segments 0
unfolding Parser.parse Parser.step Parser.brace_step Keywords.try_match_keyword Directive.parse
parse-Nested_example = parse-Nested default_config input refl refl

parse-FitsTypes_example : FitsTypes sample_pattern
unfolding Parser.parse Parser.step Parser.brace_step Keywords.try_match_keyword Directive.parse
parse-FitsTypes_example = parse-FitsTypes default_config input refl

parse-IsAllowed_example : All (IsAllowed default_config) sample_pattern.segments
unfolding Parser.parse Parser.step Parser.brace_step Keywords.try_match_keyword Directive.parse
parse-IsAllowed_example = parse-IsAllowed default_config input refl

parse-IsSound_example : All (IsSound sample_pattern.pattern) sample_pattern.segments
unfolding Parser.parse Parser.step Parser.brace_step Keywords.try_match_keyword Directive.parse
parse-IsSound_example = parse-IsSound default_config input refl

run_terminates_example :
    (run 100 default_config input initial ≡ run (u32 (length input)) default_config input initial)
    × ((t : State)
        → run (u32 (length input)) default_config input initial ≡ ok t
        → t.pos ≡ length input)
run_terminates_example = run_terminates default_config input (omega arith) 100 (omega arith)

azalia_formats_example :
    (f : Formatter) × (azalia plain ≡ some f) × ((r : LogRecord Bool) → Returns (format plain f r))
azalia_formats_example = azalia_formats plain (λ s h. refl)

abbrev centred : Directive
centred = record default_directive { width = 9; alignment = center; fill = b'*' }

apply_padding-IsPadded_example :
    IsPadded
      (codes "> ")
      (codes "info")
      center
      9
      b'*'
      (apply_padding (codes "info") centred (codes "> "))
apply_padding-IsPadded_example = apply_padding-IsPadded (codes "info") centred (codes "> ")

-- `*^65548`, whose width is reduced to 12.
parse_padding-digits_example :
    parse_padding (codes "*^65548") default_directive
    ≡ ok (record default_directive { fill = b'*'; alignment = center; width = 12 })
unfolding is_alignment_character is_digit are_digits Directive.get_alignment_from_character
parse_padding-digits_example =
    parse_padding-digits b'*' b'^' b'6' (codes "5548") default_directive refl refl

format_segments-without_levels_example :
    format_segments plain sample_pattern sample_record sample_pattern.segments []
    ≡ format_segments plain sample_pattern sample_record (without_levels sample_pattern.segments) []
format_segments-without_levels_example =
    format_segments-without_levels plain sample_pattern sample_record sample_pattern.segments []
