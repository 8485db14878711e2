-- ===== src/Pattern/Formatter/Markers.antt =====
-- What `%A` prints, and the markers around each field where they are plain text.
use logrin.Base.{
  ◌≡◌, ◌∙◌, refl, sym, ap, inl, inr, Bool, true, false, not, List, [], ◌∷◌, ◌++◌, append_assoc,
  append-nil, Option, some, Bytes, codes, length, contains, if◌then◌else◌, Bool-cases, ◌==◌, arith,
  subst, ◌<◌,
}
use logrin.Pattern.Formatter.{append_attribute_value}
use logrin.Pattern.Content.{format_literal, checked_substr}
use logrin.Pattern.Parser.Plain.{whole, parse-plain}
use logrin.Pattern.Formatter.Plain.{take-all, leb-zero}
use logrin.Pattern.Formatter.Safety.{labelled-ok, ok_inside}
use logrin.Pattern.Error.{in_marker_prefix, in_marker_suffix, ok-injective, Error, ok}
use logrin.Pattern.Formatter.Texts.{fields_text, is_plain}
use logrin.Pattern.Formatter.{
  Config, Formatter, marker_parse_config, parse_marker, parse_formatter, format_marker,
  format_fields, format_pattern, format_each, format_segment, labelled, validate_color_specs,
}
use logrin.Pattern.Parser.{ParsedPattern, default_config, parse}
use logrin.Pattern.Runtime.{Runtime, attempt-eq-ok}
use logrin.Record.{AttributeValue, mono, LogRecord}

module _ {D : Type 0} (env : Runtime D) (self : Formatter) (r : LogRecord D) where
  pub append_attribute_value-append :
      (value : AttributeValue D) (out : Bytes)
      → append_attribute_value env value out ≡ out ++ append_attribute_value env value []
  unfolding append_attribute_value
  append_attribute_value-append mono out = sym (append-nil out)
  append_attribute_value-append _ out = refl

  -- The markers are printed as they are.
  abbrev pub PrintsMarkers : (ParsedPattern → LogRecord D → Bytes → Option Bytes) → Type 0
  PrintsMarkers f =
      (out : Bytes)
      → (format_marker env self f self.prefix_marker self.config.prefix r out
          ≡ some (out ++ self.config.prefix))
        × (format_marker env self f self.suffix_marker self.config.suffix r out
            ≡ some (out ++ self.config.suffix))

  spaced :
      (first : Bool) (out : Bytes)
      → (if not first then out ++ codes " " else out) ≡ out ++ (if first then [] else codes " ")
  spaced true out = sym (append-nil out)
  spaced false out = refl

  pub fields-shown :
      (f : ParsedPattern → LogRecord D → Bytes → Option Bytes) (first : Bool)
      (fields : List (Bytes × AttributeValue D)) (out : Bytes)
      → PrintsMarkers f
      → format_fields env self f r first fields out
        ≡ some (out ++ fields_text env self r first fields)
  unfolding format_fields
  fields-shown f first [] out markers = ap (λ xs. some xs) (sym (append-nil out))
  fields-shown f first ((key, value) ∷ rest) out markers =
      rw
        (
          spaced first out,
          (markers (out ++ (if first then [] else codes " "))).0,
          append_attribute_value-append value _,
          (markers _).1,
          fields-shown f false rest _ markers,
        )
        (ap (λ xs. some xs) (simp append_assoc))

  -- A pattern that is text only.
  format_pattern-whole :
      (marker out : Bytes)
      → format_pattern env self 1
          (record { segments = whole marker ∷ []; pattern = marker; config = default_config })
          r
          out
        ≡ some (out ++ marker)
  unfolding format_pattern format_each format_segment format_literal checked_substr
  format_pattern-whole marker out = rw (leb-zero (length marker), take-all marker) refl

  is_plain-parts :
      (marker : Bytes)
      → is_plain marker ≡ true
      → (contains marker b'%' ≡ false) × (length marker < 65536)
  is_plain-parts marker h = ground arith

  length-nil : (xs : Bytes) → length xs == 0 ≡ true → xs ≡ []
  length-nil [] h = refl
  length-nil (c ∷ xs) h = absurd (ground arith)

  -- A marker that is plain text is printed as it is.
  marker-shown :
      (label : Error → Error) (marker : Bytes) (m : Option ParsedPattern) (out : Bytes)
      → is_plain marker ≡ true
      → parse_marker env label marker ≡ some (ok m)
      → format_marker env self (format_pattern env self 1) m marker r out ≡ some (out ++ marker)
  unfolding format_marker parse_marker
  marker-shown label marker m out plain parsed = elim (Bool-cases (length marker == 0)) [
    | inl empty ↦
        subst
          (λ m.
            format_marker env self (format_pattern env self 1) m marker r out
            ≡ some (out ++ marker))
          (ok_inside (rw empty at parsed)) refl
    | inr full ↦
        let (text, short) = is_plain-parts marker plain in
        let (p, e, h) =
          attempt-eq-ok (some (labelled env label (parse marker_parse_config marker))) _
            (rw full at parsed) in
        let (_, fine, g) = attempt-eq-ok (validate_color_specs env p p.segments) _ h in
        let whole_p : p
            ≡ record { segments = whole marker ∷ []; pattern = marker; config = default_config } =
          ok-injective (
            sym (labelled-ok env label _ e)
            ∙ parse-plain marker_parse_config marker text short (ground arith)) in
        subst
          (λ m.
            format_marker env self (format_pattern env self 1) m marker r out
            ≡ some (out ++ marker))
          (ok_inside g) (rw whole_p (format_pattern-whole marker out))
  ]

module _ {D : Type 0} (env : Runtime D) where
  -- A formatter prints its markers as they are where they are plain text.
  pub parse_formatter-PrintsMarkers :
      (input : Bytes) (config : Config) (r : LogRecord D) {f : Formatter}
      → parse_formatter env input config ≡ some (ok f)
      → is_plain config.prefix ≡ true
      → is_plain config.suffix ≡ true
      → PrintsMarkers env f r (format_pattern env f 1)
  unfolding parse_formatter
  parse_formatter-PrintsMarkers input config r {f} h prefix_plain suffix_plain out =
      let (parsed, e, h1) = attempt-eq-ok (some (parse default_config input)) _ h in
      let (_, fine, h2) = attempt-eq-ok (validate_color_specs env parsed parsed.segments) _ h1 in
      let (prefix, e2, h3) = attempt-eq-ok (parse_marker env in_marker_prefix config.prefix) _ h2 in
      let (suffix, e3, h4) = attempt-eq-ok (parse_marker env in_marker_suffix config.suffix) _ h3 in
      subst (λ f. PrintsMarkers env f r (format_pattern env f 1)) (ok_inside h4)
        (λ out. (
          marker-shown env _ r in_marker_prefix config.prefix prefix out prefix_plain e2,
          marker-shown env _ r in_marker_suffix config.suffix suffix out suffix_plain e3,
        ))
        out
