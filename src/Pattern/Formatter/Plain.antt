-- ===== src/Pattern/Formatter/Plain.antt =====
-- What the formatter makes of text.
use logrin.Base.{
  some-injective, ℕ, ◌<◌, ◌≡◌, ◌∙◌, refl, sym, ap, true, false, [], ◌∷◌, some, Bytes, leb, length,
  take, contains, arith,
}
use logrin.Pattern.Content.{checked_substr, format_literal}
use logrin.Pattern.Error.{ok, in_marker_prefix, in_marker_suffix, ok-injective}
use logrin.Pattern.Formatter.{
  Config, Formatter, parse_formatter, parse_marker, validate_color_specs, format_segment,
  format_each, format_pattern, format,
}
use logrin.Pattern.Parser.Plain.{whole, parse-plain}
use logrin.Pattern.Parser.{ParsedPattern, default_config, parse}
use logrin.Pattern.Runtime.{Runtime, attempt-eq-ok}
use logrin.Record.{LogRecord}

pub take-all : (xs : Bytes) → take (length xs) xs ≡ xs
take-all [] = refl
take-all (x ∷ xs) = ap (◌∷◌ x) (take-all xs)

pub leb-zero : (n : ℕ) → leb 0 n ≡ true
leb-zero n = ground arith

-- The result for the empty pattern.
abbrev nothing : ParsedPattern
nothing = record { segments = []; pattern = []; config = default_config }

parse-nil : parse default_config [] ≡ ok nothing
unfolding parse
parse-nil = refl

field_config : {f g : Formatter} → some (ok f) ≡ some (ok g) → f.config ≡ g.config
field_config e = ground arith

field_parsed : {f g : Formatter} → some (ok f) ≡ some (ok g) → f.parsed ≡ g.parsed
field_parsed e = ground arith

module _ {D : Type 0} (env : Runtime D) where
  -- The pattern of a formatter is what `Parse` makes of the input.
  pub parse_formatter-parsed :
      (input : Bytes) (config : Config) {f : Formatter}
      → parse_formatter env input config ≡ some (ok f)
      → parse default_config input ≡ ok f.parsed
  unfolding parse_formatter
  parse_formatter-parsed input config h =
      let (parsed, e, h1) = attempt-eq-ok (some (parse default_config input)) _ h in
      let (_, fine, h2) = attempt-eq-ok (validate_color_specs env parsed parsed.segments) _ h1 in
      let (prefix, e2, h3) = attempt-eq-ok (parse_marker env in_marker_prefix config.prefix) _ h2 in
      let (suffix, e3, h4) = attempt-eq-ok (parse_marker env in_marker_suffix config.suffix) _ h3 in
      some-injective e ∙ ap (λ p. ok p) (field_parsed h4)

  pub parse_formatter-config :
      (input : Bytes) (config : Config) {f : Formatter}
      → parse_formatter env input config ≡ some (ok f)
      → f.config ≡ config
  unfolding parse_formatter
  parse_formatter-config input config h =
      let (parsed, e, h1) = attempt-eq-ok (some (parse default_config input)) _ h in
      let (_, fine, h2) = attempt-eq-ok (validate_color_specs env parsed parsed.segments) _ h1 in
      let (prefix, e2, h3) = attempt-eq-ok (parse_marker env in_marker_prefix config.prefix) _ h2 in
      let (suffix, e3, h4) = attempt-eq-ok (parse_marker env in_marker_suffix config.suffix) _ h3 in
      sym (field_config h4)

  format-whole :
      (f : Formatter) (input : Bytes) (r : LogRecord D)
      → format_pattern env f 2
          (record { segments = whole input ∷ []; pattern = input; config = default_config })
          r
          []
        ≡ some input
  unfolding format_pattern format_each format_segment format_literal checked_substr
  format-whole f input r = rw (leb-zero (length input), take-all input) refl

  -- Text is printed as it is: a formatter for a pattern that has no `%` and is shorter than 65536
  -- bytes formats every record as that pattern.
  pub format-plain :
      (input : Bytes) (config : Config) {f : Formatter} (r : LogRecord D)
      → contains input b'%' ≡ false
      → length input < 65536
      → parse_formatter env input config ≡ some (ok f)
      → format env f r ≡ some input
  unfolding format format_pattern
  format-plain [] config {f} r plain short h =
      rw (ok-injective (sym (parse_formatter-parsed [] config h) ∙ parse-nil)) refl
  format-plain (c ∷ input) config {f} r plain short h =
      rw
        (ok-injective (
          sym (parse_formatter-parsed (c ∷ input) config h)
          ∙ parse-plain default_config (c ∷ input) plain short (omega arith)))
        (format-whole f (c ∷ input) r)
