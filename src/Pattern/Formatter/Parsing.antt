-- ===== src/Pattern/Formatter/Parsing.antt =====
-- include/logrin/Formatter/Pattern.h and src/formatters/Pattern.cc: the formatter's fields, and
-- `Pattern::Parse`.
use logrin.Base.{
  Bool, true, not, ◌||◌, List, [], ◌∷◌, Option, none, some, Bytes, ◌==◌, if◌then◌else◌, length,
}
use logrin.Pattern.Color.{parse_color_spec, LevelColorPalette}
use logrin.Pattern.Content.{checked_substr}
use logrin.Pattern.Error.{Error, Result, ok, err, in_marker_prefix, in_marker_suffix}
use logrin.Pattern.Error
use logrin.Pattern.Parser.{ParseConfig, default_config, ParsedPattern, parse, same_kind}
use logrin.Pattern.Runtime.{Runtime, ◌>>=◌, attempt}
use logrin.Pattern.Segment.{
  SegmentKind, literal, foreground_color_start, background_color_start, level_color_start, bold,
  dim, italic, underline, strikethrough, style_end, underlying, has_specification, Segment,
}

-- `Pattern::Config`; `prefix` and `suffix` are the pair `Markers`.
pub record Config : Type 0 where
  pub use_colours : Option Bool
  pub level_color_map : Option LevelColorPalette
  pub prefix : Bytes
  pub suffix : Bytes
  pub delimiter : Bytes

-- `Pattern`
pub record Formatter : Type 0 where
  pub parsed : ParsedPattern
  pub config : Config
  pub prefix_marker : Option ParsedPattern
  pub suffix_marker : Option ParsedPattern

-- `markerParseConfig`
abbrev pub marker_parse_config : ParseConfig
marker_parse_config = record {
  allowed_segments =
      literal ∷ foreground_color_start ∷ background_color_start ∷ level_color_start ∷ bold ∷ dim
      ∷ italic ∷ underline ∷ strikethrough ∷ style_end ∷ [];
  relaxed_style_nesting = true;
}

-- Whether `validateColorSpecs` looks at a segment of this kind.
unfoldable pub is_color_kind : SegmentKind → Bool
unfolding underlying
is_color_kind kind =
    (same_kind kind foreground_color_start || same_kind kind background_color_start)
    || same_kind kind level_color_start

module _ {D : Type 0} (env : Runtime D) where
  -- One round of the loop of `validateColorSpecs`. The outer `none` is an exception.
  unfoldable pub validate_segment : ParsedPattern → Segment → Option (Result (Unit {0}))
  unfolding is_color_kind checked_substr
  validate_segment p s = elim s.directive [
    | none ↦ some (ok tt)
    | some d ↦
        if not (is_color_kind s.kind) || not (has_specification d)
        then some (ok tt)
        else (checked_substr p.pattern d.spec_offset d.spec_length >>= λ spec.
            some (Error.◌>>=◌ (parse_color_spec env.trim spec) (λ _. ok tt)))
  ]

  -- `validateColorSpecs`, from a list of the pattern's segments on.
  unfoldable pub validate_color_specs : ParsedPattern → List Segment → Option (Result (Unit {0}))
  unfolding validate_segment
  validate_color_specs p [] = some (ok tt)
  validate_color_specs p (s ∷ rest) =
      attempt (validate_segment p s) λ _. validate_color_specs p rest

  -- The parser's result with the label of a marker on its error.
  abbrev pub labelled : (Error → Error) → Result ParsedPattern → Result ParsedPattern
  labelled label (ok p) = ok p
  labelled label (err e) = err (label e)

  -- A marker, parsed if it is not empty; `label` is the error that its own parser's error goes in.
  unfoldable pub parse_marker : (Error → Error) → Bytes → Option (Result (Option ParsedPattern))
  unfolding parse validate_color_specs
  parse_marker label marker =
      if length marker == 0
      then some (ok none)
      else (attempt (some (labelled label (parse marker_parse_config marker)))
          λ p. attempt (validate_color_specs p p.segments) λ _. some (ok (some p)))

  -- `Pattern::Parse`
  unfoldable pub parse_formatter : Bytes → Config → Option (Result Formatter)
  unfolding parse validate_color_specs parse_marker
  parse_formatter input config = attempt (some (parse default_config input)) λ parsed.
      attempt (validate_color_specs parsed parsed.segments) λ _.
        attempt (parse_marker in_marker_prefix config.prefix) λ prefix.
          attempt (parse_marker in_marker_suffix config.suffix) λ suffix. some (
            ok (record {
              parsed = parsed;
              config = config;
              prefix_marker = prefix;
              suffix_marker = suffix;
            }))
