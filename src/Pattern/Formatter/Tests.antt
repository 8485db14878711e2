-- ===== src/Pattern/Formatter/Tests.antt =====
-- Patterns on which the theorems about what a formatter prints are applied.
use logrin.Base.{
  [], ◌∷◌, List, Option, none, some, Bool, true, false, codes, contains, ◌≡◌, refl, arith,
}
use logrin.Pattern.Color
use logrin.Pattern.Content.{format_segments}
use logrin.Pattern.Directive
use logrin.Pattern.Error.{Result, ok}
use logrin.Pattern.Formatter
use logrin.Pattern.Formatter.Agreement.{is_shared, format-format_segments}
use logrin.Pattern.Formatter.Rendering.{format-print}
use logrin.Pattern.Formatter.Texts.{rendered}
use logrin.Pattern.Formatter.{Config, Formatter, is_colors_enabled, parse_formatter, format}
use logrin.Pattern.Parser
use logrin.Pattern.Parser.Items.{Item, text, percent, bare, braced, print}
use logrin.Pattern.Parser.Keywords
use logrin.Pattern.Parser.{default_config}
use logrin.Pattern.Runtime.Plain.{plain}
use logrin.Pattern.Segment.{
  attribute, underlying, level, logger, all_attributes, foreground_color_start, message,
  level_color_start, style_end,
}
use logrin.Record.{LogRecord, bool, warning}

abbrev config : Config
config = record {
  use_colours = some true;
  level_color_map = none;
  prefix = [];
  suffix = [];
  delimiter = codes "=";
}

abbrev sample_record : LogRecord Bool
sample_record = record {
  timestamp = 0;
  level = warning;
  message = codes "disk full";
  fields = (codes "free", bool false) ∷ [];
  logger = codes "db";
  location = record { file = codes "a.cc"; function = codes "f"; line = 1; column = 2 };
}

abbrev formatter_of : Option (Result Formatter) → Formatter
formatter_of (some (ok f)) = f
formatter_of _ = record {
  parsed = record { segments = []; pattern = []; config = default_config };
  config = config;
  prefix_marker = none;
  suffix_marker = none;
}

-- `%levelColor%L{upper:<8}%style:end 100%% %fg{red}%m%style:end %A free=%X{free}%n{>6}`
abbrev items : List Item
items =
    bare level_color_start
    ∷ braced level (codes "upper:<8")
    ∷ bare style_end
    ∷ text (codes " 100")
    ∷ percent
    ∷ text (codes " ")
    ∷ braced foreground_color_start (codes "red")
    ∷ bare message
    ∷ bare style_end
    ∷ text (codes " ")
    ∷ bare all_attributes
    ∷ text (codes " free=")
    ∷ braced attribute (codes "free")
    ∷ braced logger (codes ">6")
    ∷ []

abbrev sample : Formatter
unfolding Formatter.parse_formatter Parser.step Parser.brace_step Keywords.try_match_keyword
    Directive.parse Color.parse_color_spec
sample = formatter_of (parse_formatter plain (print items) config)

format-print_example :
    format plain sample sample_record ≡ some (rendered plain sample sample_record items)
unfolding Formatter.parse_formatter Parser.step Parser.brace_step Keywords.try_match_keyword
    Directive.parse Color.parse_color_spec contains Keywords.is_word_boundary Parser.is_style_start
    underlying
format-print_example =
    format-print plain items config sample_record
      (
        refl,
        (
          refl,
          (
            refl,
            (
              refl,
              (refl, (refl, (refl, (refl, (refl, (refl, (refl, (refl, (refl, (refl, tt)))))))))),
            ),
          ),
        ),
      )
      (
        (refl, refl, refl, refl),
        (
          (refl, refl, refl, refl, (_, refl, refl)),
          (
            (refl, refl, refl, refl),
            (
              (refl, omega arith, refl),
              (
                tt,
                (
                  (refl, omega arith, refl),
                  (
                    (refl, refl, refl, refl, (_, refl, refl)),
                    (
                      (refl, refl, refl, refl),
                      (
                        (refl, refl, refl, refl),
                        (
                          (refl, omega arith, refl),
                          (
                            (refl, refl, refl, refl),
                            (
                              (refl, omega arith, refl),
                              (
                                (refl, refl, refl, refl, (_, refl, refl)),
                                ((refl, refl, refl, refl, (_, refl, refl)), refl),
                              ),
                            ),
                          ),
                        ),
                      ),
                    ),
                  ),
                ),
              ),
            ),
          ),
        ),
      )
      (omega arith) (omega arith) refl

-- `%bold[%n]%style:end %m` without colours.
abbrev colorless : Formatter
unfolding Formatter.parse_formatter Parser.step Parser.brace_step Keywords.try_match_keyword
    Directive.parse Color.parse_color_spec
colorless = formatter_of (
    parse_formatter plain (codes "%bold[%n]%style:end %m")
      (record config { use_colours = some false }))

format-format_segments_example :
    format plain colorless sample_record
    ≡ format_segments plain colorless.parsed sample_record colorless.parsed.segments []
unfolding Formatter.parse_formatter Parser.step Parser.brace_step Keywords.try_match_keyword
    Directive.parse Color.parse_color_spec is_colors_enabled is_shared
format-format_segments_example =
    format-format_segments plain colorless refl sample_record
      (refl, (refl, (refl, (refl, (refl, (refl, (refl, tt)))))))
