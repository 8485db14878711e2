-- ===== src/Pattern/Formatter/Safety.antt =====
-- `Pattern::Parse` and `Pattern::Format` neither throw nor panic: every offset that they take
-- from a segment stands in its pattern, every colour that is unwrapped has been validated, and
-- the markers of `%A` hold no `%A` again.
use logrin.Base.{
  some-injective, length, not, ◌==◌, ◌||◌, subst, ◌≡◌, refl, ◌≢◌, inl, inr, List, [], ◌∷◌, Option,
  none, some, Bytes, All, Bool-cases, Option-cases, arith,
}
use logrin.Pattern.Error
use logrin.Pattern.Color.{parse_color_spec}
use logrin.Pattern.Error.{Error, in_marker_prefix, in_marker_suffix, Result, ok, err}
use logrin.Pattern.Formatter.Rounds.{format_each-Returns}
use logrin.Pattern.Formatter.Segments.{
  checked_substr-Returns, Returns, attempt-Returns, IsReady, ReturnsOn,
}
use logrin.Pattern.Formatter.{
  labelled, Config, Formatter, marker_parse_config, is_color_kind, validate_segment,
  validate_color_specs, parse_marker, parse_formatter, format_pattern, format,
}
use logrin.Pattern.Parser.Contents.{SpecInside, IsSound, IsAllowed, parse-IsSound, parse-IsAllowed}
use logrin.Pattern.Parser.{ParsedPattern, default_config, contains_kind, parse}
use logrin.Pattern.Runtime.{Runtime, attempt-eq-ok}
use logrin.Pattern.Segment.{all_attributes, underlying, has_specification, Segment}
use logrin.Record.{LogRecord}

pub ok_inside {ℓ} : {A : Type ℓ} {a b : A} → some (ok a) ≡ some (ok b) → a ≡ b
ok_inside e = ground arith

module _ {D : Type 0} (env : Runtime D) where
  validate_color_specs-All :
      (p : ParsedPattern) (segments : List Segment)
      → All (IsSound p.pattern) segments
      → validate_color_specs env p segments ≡ some (ok tt)
      → All (IsReady env p) segments
  unfolding validate_color_specs
  validate_color_specs-All p [] sound h = tt
  validate_color_specs-All p (s ∷ rest) sound h =
      let (_, now, later) =
        attempt-eq-ok (validate_segment env p s) (λ _. validate_color_specs env p rest) h in
      (record { sound = sound.0; validated = now }, validate_color_specs-All p rest sound.1 later)

  validate_segment-Returns :
      (p : ParsedPattern) (s : Segment) → IsSound p.pattern s → Returns (validate_segment env p s)
  unfolding validate_segment
  validate_segment-Returns p s v = elim (Option-cases s.directive) [
    | inl bare ↦ (ok tt, rw (bare, validate_segment))
    | inr (d, e) ↦ elim (Bool-cases (not (is_color_kind s.kind) || not (has_specification d))) [
      | inl skip ↦ (ok tt, ground arith)
      | inr colour ↦
          let inside = subst (SpecInside p.pattern) e v.spec_inside in
          let (spec, cut) =
            checked_substr-Returns p.pattern d.spec_offset d.spec_length (omega arith) in
          (Error.◌>>=◌ (parse_color_spec env.trim spec) (λ _. ok tt), ground arith)
    ]
  ]

  validate_color_specs-Returns :
      (p : ParsedPattern) (segments : List Segment)
      → All (IsSound p.pattern) segments
      → Returns (validate_color_specs env p segments)
  unfolding validate_color_specs
  validate_color_specs-Returns p [] v = (ok tt, refl)
  validate_color_specs-Returns p (s ∷ rest) v =
      attempt-Returns (validate_segment env p s) (λ _. validate_color_specs env p rest)
        (validate_segment-Returns p s v.0) (λ _ _. validate_color_specs-Returns p rest v.1)

  -- A marker that was parsed: ready to be formatted, and without `%A`.
  abbrev IsMarker : Option ParsedPattern → Type 0
  IsMarker none = Unit {0}
  IsMarker (some p) = All (IsReady env p) p.segments × All (λ s. s.kind ≢ all_attributes) p.segments

  allowed-ne_all : (s : Segment) → IsAllowed marker_parse_config s → s.kind ≢ all_attributes
  unfolding contains_kind underlying
  allowed-ne_all s (inl k) e = ground arith
  allowed-ne_all s (inr (inl empty)) e = ground arith
  allowed-ne_all s (inr (inr found)) e = absurd (ground arith)

  All-map :
      {P Q : Segment → Type 0}
      → ((s : Segment) → P s → Q s)
      → (segments : List Segment) → All P segments
      → All Q segments
  All-map f [] h = tt
  All-map f (s ∷ rest) h = (f s h.0, All-map f rest h.1)

  pub labelled-ok :
      (label : Error → Error) (r : Result ParsedPattern) {p : ParsedPattern}
      → some (labelled env label r) ≡ some (ok p)
      → r ≡ ok p
  labelled-ok label (ok q) h = ground arith
  labelled-ok label (err e) h = absurd (ground arith)

  parse_marker-Returns :
      (label : Error → Error) (marker : Bytes) → Returns (parse_marker env label marker)
  unfolding parse_marker
  parse_marker-Returns label marker = elim (Bool-cases (length marker == 0)) [
    | inl empty ↦ rw empty (ok none, refl)
    | inr given ↦ rw given (
        attempt-Returns (some (labelled env label (parse marker_parse_config marker))) _ (_, refl)
          λ p e.
            attempt-Returns (validate_color_specs env p p.segments) _
              (validate_color_specs-Returns p p.segments
                (parse-IsSound marker_parse_config marker (labelled-ok label _ e)))
              λ _ _. (ok (some p), refl))
  ]

  parse_marker-IsMarker :
      (label : Error → Error) (marker : Bytes) (m : Option ParsedPattern)
      → parse_marker env label marker ≡ some (ok m)
      → IsMarker m
  unfolding parse_marker
  parse_marker-IsMarker label marker m h = elim (Bool-cases (length marker == 0)) [
    | inl empty ↦ subst IsMarker (ok_inside (rw empty at h)) tt
    | inr given ↦
        let (p, e, f) =
          attempt-eq-ok (some (labelled env label (parse marker_parse_config marker))) _
            (rw given at h) in
        let (_, fine, g) = attempt-eq-ok (validate_color_specs env p p.segments) _ f in
        let parsed = labelled-ok label _ e in
        subst IsMarker (ok_inside g) (
          validate_color_specs-All p p.segments (parse-IsSound marker_parse_config marker parsed)
              fine,
          All-map allowed-ne_all p.segments (parse-IsAllowed marker_parse_config marker parsed),
        )
  ]

  -- The parts of a formatter that `Pattern::Parse` returns.
  record IsFormatter (f : Formatter) : Type 0 where
    pattern_ready : All (IsReady env f.parsed) f.parsed.segments
    prefix_ready : IsMarker f.prefix_marker
    suffix_ready : IsMarker f.suffix_marker

  -- `Pattern::Parse` never throws: it returns a formatter or an error, for every pattern and
  -- configuration.
  pub parse_formatter-Returns :
      (input : Bytes) (config : Config) → Returns (parse_formatter env input config)
  unfolding parse_formatter
  parse_formatter-Returns input config =
      attempt-Returns (some (parse default_config input)) _ (_, refl)
        λ parsed e.
          attempt-Returns (validate_color_specs env parsed parsed.segments) _
            (validate_color_specs-Returns parsed parsed.segments
              (parse-IsSound default_config input (some-injective e)))
            λ _ _.
              attempt-Returns (parse_marker env in_marker_prefix config.prefix) _
                (parse_marker-Returns in_marker_prefix config.prefix)
                λ _ _.
                  attempt-Returns (parse_marker env in_marker_suffix config.suffix) _
                    (parse_marker-Returns in_marker_suffix config.suffix) λ _ _. (_, refl)

  parse_formatter-IsFormatter :
      (input : Bytes) (config : Config) {f : Formatter}
      → parse_formatter env input config ≡ some (ok f)
      → IsFormatter f
  unfolding parse_formatter
  parse_formatter-IsFormatter input config h =
      let (parsed, e, h1) = attempt-eq-ok (some (parse default_config input)) _ h in
      let (_, fine, h2) = attempt-eq-ok (validate_color_specs env parsed parsed.segments) _ h1 in
      let (prefix, e2, h3) = attempt-eq-ok (parse_marker env in_marker_prefix config.prefix) _ h2 in
      let (suffix, e3, h4) = attempt-eq-ok (parse_marker env in_marker_suffix config.suffix) _ h3 in
      subst IsFormatter (ok_inside h4) (record {
        pattern_ready =
            validate_color_specs-All parsed parsed.segments
              (parse-IsSound default_config input (some-injective e)) fine;
        prefix_ready = parse_marker-IsMarker in_marker_prefix config.prefix prefix e2;
        suffix_ready = parse_marker-IsMarker in_marker_suffix config.suffix suffix e3;
      })

  pub parse_formatter-IsReady :
      (input : Bytes) (config : Config) {f : Formatter}
      → parse_formatter env input config ≡ some (ok f)
      → All (IsReady env f.parsed) f.parsed.segments
  parse_formatter-IsReady input config h =
      (parse_formatter-IsFormatter input config h).pattern_ready

  marker-ReturnsOn :
      (self : Formatter) (m : Option ParsedPattern)
      → IsMarker m
      → ReturnsOn env self (format_pattern env self 1) m
  unfolding format_pattern
  marker-ReturnsOn self none v = tt
  marker-ReturnsOn self (some p) v = λ r out.
      format_each-Returns env self (format_pattern env self 0) p.segments p r out v.0
        (All-map (λ s no e. absurd (no e)) p.segments v.1)

  -- A formatter that `Pattern::Parse` has returned formats every record: no offset is out of
  -- range, no colour that is unwrapped is an error, and the formatting of the markers does not
  -- come back to `%A`.
  pub format-Returns :
      (input : Bytes) (config : Config) {f : Formatter} (r : LogRecord D)
      → parse_formatter env input config ≡ some (ok f)
      → Returns (format env f r)
  unfolding format format_pattern
  format-Returns input config {f} r h =
      let v = parse_formatter-IsFormatter input config h in
      format_each-Returns env f (format_pattern env f 1) f.parsed.segments f.parsed r []
        v.pattern_ready
        (All-map
          (λ s _ _. (
            marker-ReturnsOn f f.prefix_marker v.prefix_ready,
            marker-ReturnsOn f f.suffix_marker v.suffix_ready,
          ))
          f.parsed.segments v.pattern_ready)
