-- ===== src/Pattern/Formatter/Azalia.antt =====
-- src/formatters/Pattern.cc: `Pattern::Azalia`, which unwraps the parsing of a fixed pattern.
use logrin.Base.{
  both, ◌-◌, ◌≡◌, refl, ap, inl, inr, Bool, true, false, not, ◌&&◌, ◌||◌, List, [], ◌∷◌, ◌++◌,
  Option, none, some, Bytes, codes, ◌==◌, leb, length, get_or, substr, Bool-cases, Option-cases,
  arith,
}
use logrin.Pattern.Color.{azalia_level_color_map, is_blank, parse_trimmed, parse_color_spec}
use logrin.Pattern.Content.{checked_substr}
use logrin.Pattern.Color
use logrin.Pattern.Directive
use logrin.Pattern.Error
use logrin.Pattern.Parser
use logrin.Pattern.Parser.Keywords
use logrin.Pattern.Error.{Error, Result, ok, err, in_marker_prefix, in_marker_suffix}
use logrin.Pattern.Formatter.Safety.{format-Returns}
use logrin.Pattern.Formatter.Segments.{Returns}
use logrin.Pattern.Formatter.{
  Config, Formatter, is_color_kind, marker_parse_config, validate_segment, validate_color_specs,
  parse_marker, parse_formatter, format,
}
use logrin.Pattern.Parser.{ParsedPattern, default_config, parse}
use logrin.Pattern.Runtime.{Runtime}
use logrin.Pattern.Segment
use logrin.Pattern.Segment.{has_specification, Segment}
use logrin.Record.{LogRecord}

-- The pattern, with the two quotation marks in UTF-8.
abbrev pub azalia_pattern : Bytes
azalia_pattern =
    codes "%fg{#868686}[%t{%B %d, %G - %H:%M:%S %p}]%style:end %levelColor[%L{>5}]%style:end "
    ++ codes "%fg{#483D8B}"
    ++ (194 ∷ 171 ∷ [])
    ++ codes "%n [thread %T{hex}]"
    ++ (194 ∷ 187 ∷ [])
    ++ codes "%style:end  %m    %A"

abbrev pub azalia_config : Config
azalia_config = record {
  use_colours = some true;
  level_color_map = some azalia_level_color_map;
  prefix = codes "%fg{34,34,34}%bold[";
  suffix = codes "]%style:end";
  delimiter = codes "=";
}

-- `Unwrap()`
abbrev unwrap {ℓ} : {A : Type ℓ} → Option (Result A) → Option A
unwrap (some (ok a)) = some a
unwrap (some (err e)) = none
unwrap none = none

-- `Pattern::Azalia`; `none` is the panic of `Unwrap`.
unfoldable pub azalia : {D : Type 0} → Runtime D → Option Formatter
unfolding parse_formatter
azalia env = unwrap (parse_formatter env azalia_pattern azalia_config)

-- Neither the first nor the last byte is blank.
abbrev pub is_trimmed : Bytes → Bool
is_trimmed s = not (is_blank (get_or s 0 0)) && not (is_blank (get_or s (length s - 1) 0))

abbrev is_ok {ℓ} : {A : Type ℓ} → Result A → Bool
is_ok (ok a) = true
is_ok (err e) = false

-- A text is trimmed and is a colour.
abbrev is_color : Bytes → Bool
is_color spec = is_trimmed spec && is_ok (parse_trimmed spec spec)

-- A colour's text is within the pattern.
abbrev is_color_text : Bytes → Segment.Directive → Bool
is_color_text pattern d =
    let spec = substr pattern d.spec_offset d.spec_length in
    leb d.spec_offset (length pattern) && is_color spec

abbrev is_colored : ParsedPattern → Segment → Bool
is_colored p s = elim s.directive [
  | none ↦ true
  | some d ↦ not (is_color_kind s.kind) || not (has_specification d) || is_color_text p.pattern d
]

abbrev are_colored : ParsedPattern → List Segment → Bool
are_colored p [] = true
are_colored p (s ∷ rest) = is_colored p s && are_colored p rest

-- A pattern is parsed and all its colours are such texts.
abbrev passes : Result ParsedPattern → Bool
passes (ok p) = are_colored p p.segments
passes (err e) = false

pattern_passes : passes (parse default_config azalia_pattern) ≡ true
unfolding parse Parser.step Parser.brace_step Keywords.try_match_keyword Directive.parse
    Color.parse_trimmed is_color_kind
pattern_passes = refl

prefix_passes : passes (parse marker_parse_config azalia_config.prefix) ≡ true
unfolding parse Parser.step Parser.brace_step Keywords.try_match_keyword Directive.parse
    Color.parse_trimmed is_color_kind
prefix_passes = refl

suffix_passes : passes (parse marker_parse_config azalia_config.suffix) ≡ true
unfolding parse Parser.step Parser.brace_step Keywords.try_match_keyword Directive.parse
    Color.parse_trimmed is_color_kind
suffix_passes = refl

ok_bind : {A : Type 0} (m : Result A) → is_ok m ≡ true → Error.◌>>=◌ m (λ _. ok tt) ≡ ok (tt {0})
ok_bind (ok a) h = refl
ok_bind (err e) h = ground arith

module _ {D : Type 0} (env : Runtime D)
    (trims : (s : Bytes) → is_trimmed s ≡ true → env.trim is_blank s ≡ s) where
  color_text-validated :
      (spec : Bytes)
      → is_color spec ≡ true
      → Error.◌>>=◌ (parse_color_spec env.trim spec) (λ _. ok tt) ≡ ok (tt {0})
  unfolding parse_color_spec
  color_text-validated spec h =
      let (t, o) = both (is_trimmed spec) (is_ok (parse_trimmed spec spec)) h in
      rw (trims spec t) (ok_bind (parse_trimmed spec spec) o)

  is_colored-validated :
      (p : ParsedPattern) (s : Segment)
      → is_colored p s ≡ true
      → validate_segment env p s ≡ some (ok tt)
  unfolding validate_segment checked_substr
  is_colored-validated p s h = elim (Option-cases s.directive) [
    | inl e ↦ rw e refl
    | inr (d, e) ↦ elim (Bool-cases (not (is_color_kind s.kind) || not (has_specification d))) [
      | inl other ↦ rw (e, other) refl
      | inr painted ↦
          let (inside, fine) =
            both (leb d.spec_offset (length p.pattern))
              (is_color (substr p.pattern d.spec_offset d.spec_length)) (rw (e, painted) at h) in
          rw (e, painted, inside) (ap some (color_text-validated _ fine))
    ]
  ]

  are_colored-validated :
      (p : ParsedPattern) (segments : List Segment)
      → are_colored p segments ≡ true
      → validate_color_specs env p segments ≡ some (ok tt)
  unfolding validate_color_specs
  are_colored-validated p [] h = refl
  are_colored-validated p (s ∷ rest) h =
      let (first, others) = both (is_colored p s) (are_colored p rest) h in
      rw (is_colored-validated p s first) (are_colored-validated p rest others)

  -- A pattern that passes is validated.
  passes-validated :
      (r : Result ParsedPattern)
      → passes r ≡ true
      → (p : ParsedPattern) × (r ≡ ok p) × (validate_color_specs env p p.segments ≡ some (ok tt))
  passes-validated (ok p) h = (p, refl, are_colored-validated p p.segments h)
  passes-validated (err e) h = ground arith

  parse_marker-passes :
      (label : Error → Error) (marker : Bytes)
      → length marker == 0 ≡ false
      → passes (parse marker_parse_config marker) ≡ true
      → (p : ParsedPattern) × (parse_marker env label marker ≡ some (ok (some p)))
  unfolding parse_marker
  parse_marker-passes label marker filled h =
      let (p, e, v) = passes-validated (parse marker_parse_config marker) h in
      (p, rw (filled, e, v) refl)

  azalia-Returns :
      (f : Formatter) × (parse_formatter env azalia_pattern azalia_config ≡ some (ok f))
  unfolding parse_formatter
  azalia-Returns =
      let (p, e, v) = passes-validated (parse default_config azalia_pattern) pattern_passes in
      let (prefix, e2) =
        parse_marker-passes in_marker_prefix azalia_config.prefix refl prefix_passes in
      let (suffix, e3) =
        parse_marker-passes in_marker_suffix azalia_config.suffix refl suffix_passes in
      (
        record {
          parsed = p;
          config = azalia_config;
          prefix_marker = some prefix;
          suffix_marker = some suffix;
        },
        rw (e, v, e2, e3) refl,
      )

  -- `Pattern::Azalia` does not panic, and its formatter formats every record, where `Trim` leaves
  -- a text alone that neither begins nor ends with a blank.
  pub azalia_formats :
      (f : Formatter) × (azalia env ≡ some f) × ((r : LogRecord D) → Returns (format env f r))
  unfolding azalia
  azalia_formats =
      let (f, e) = azalia-Returns in
      (f, rw e refl, λ r. format-Returns env azalia_pattern azalia_config r e)
