-- ===== src/Pattern/Parser/Contents.antt =====
-- What each segment of a parsed pattern holds.
use logrin.Base.{
  ap, ℕ, ◌+◌, ◌-◌, ◌≤◌, ◌<◌, ◌≡◌, refl, ◌⊎◌, inl, inr, subst, true, false, not, ◌&&◌, List, [], ◌∷◌,
  Option, none, some, Bytes, ◌==◌, length, length-drop, drop, substr, get_or, ltb, u32, All,
  Bool-cases, arith,
}
use logrin.Pattern.Directive.Spec.{parse-SpecWithin, length-take_le}
use logrin.Pattern.Error.{ok, ok-injective}
use logrin.Pattern.Parser.Built.{Span, Added, text, directed, Built-All}
use logrin.Pattern.Parser.Invariant.{parse-IsParsed}
use logrin.Pattern.Parser.Tokens.{read_body-eq}
use logrin.Pattern.Parser.{
  ParseConfig, ParsedPattern, contains_kind, scan_braces, read_directive, check_specification,
  parse, specified,
}
use logrin.Pattern.Segment.{
  SegmentKind, literal, attribute, foreground_color_start, background_color_start, underlying,
  Directive, Segment, get_segment_capability,
}

-- The set of allowed segments, where it is not empty, holds the kind. Literals pass always.
abbrev pub IsAllowed : ParseConfig → Segment → Type 0
IsAllowed config segment =
    (segment.kind ≡ literal)
    ⊎ (config.allowed_segments ≡ [])
    ⊎ (contains_kind config.allowed_segments segment.kind ≡ true)

not_refused :
    (allowed : List SegmentKind) (kind : SegmentKind)
    → (not (length allowed == 0) && not (contains_kind allowed kind)) ≡ false
    → (allowed ≡ []) ⊎ (contains_kind allowed kind ≡ true)
not_refused [] kind h = inl refl
not_refused (k ∷ ks) kind h = inr (ground arith)

-- Every segment of a parsed pattern is a literal or of a kind that the configuration allows.
pub parse-IsAllowed :
    (config : ParseConfig) (input : Bytes) {p : ParsedPattern}
    → parse config input ≡ ok p
    → All (IsAllowed config) p.segments
parse-IsAllowed config input e =
    Built-All (IsAllowed config) allowed (parse-IsParsed config input e).1.built
  where
    allowed :
        (d e : ℕ) (segment : Segment) → Added config input d segment e → IsAllowed config segment
    allowed d e segment (text k _ _ _ _) = inl k
    allowed d e segment (directed _ _ _ _ accepted _ _ _ _ _) =
        inr (not_refused config.allowed_segments segment.kind accepted)

-- The kinds whose directive must have a specification.
abbrev pub NeedsSpec : SegmentKind → Type 0
NeedsSpec kind =
    (kind ≡ attribute) ⊎ (kind ≡ foreground_color_start) ⊎ (kind ≡ background_color_start)

-- The specification, where there is a directive, stands in the pattern.
abbrev pub SpecInside : Bytes → Option Directive → Type 0
SpecInside input none = Unit {0}
SpecInside input (some d) = d.spec_offset + d.spec_length ≤ length input

-- What the formatting code relies on: a literal's text stands in the pattern, a specification
-- too, and `%X`, `%fg` and `%bg` have one.
pub record IsSound (input : Bytes) (segment : Segment) : Type 0 where
  pub text_inside : segment.text_offset ≤ length input
  pub literal_span : segment.kind ≡ literal → Span input segment
  pub spec_inside : SpecInside input segment.directive
  pub spec_given : NeedsSpec segment.kind → specified segment.directive ≡ true

length-substr_le :
    (input : Bytes) (start count : ℕ)
    → start ≤ length input
    → start + length (substr input start count) ≤ length input
length-substr_le input start count h =
    omega (arith, length-take_le count (drop start input), length-drop start input)

read_directive-SpecInside :
    (input : Bytes) (pos : ℕ) (kind : SegmentKind) {d : Option Directive} {after : ℕ}
    → pos ≤ length input
    → read_directive input pos kind ≡ ok (d, after)
    → SpecInside input d
unfolding read_directive
read_directive-SpecInside input pos kind {d} {after} h e =
    elim (Bool-cases (ltb pos (u32 (length input)) && get_or input pos 0 == b'{')) [
      | inl braced ↦
          let below : pos < u32 (length input) = ground arith in
          let start = u32 (pos + 1) in
          let (found, parsed, f) = read_body-eq input start kind scanned (rw braced at e) in
          let within =
            parse-SpecWithin (substr input start (scanned.0 - 1 - start)) start kind parsed in
          let body = length-substr_le input start (scanned.0 - 1 - start) (omega arith) in
          subst (SpecInside input) (ap (λ (r : Option Directive × ℕ). r.0) f)
            (omega (arith, within, body))
      | inr plain ↦
          subst (SpecInside input)
            (ap (λ (r : Option Directive × ℕ). r.0) (ok-injective (rw plain at e))) tt
    ]
  where
    scanned : ℕ × ℕ
    scanned = scan_braces (u32 (length input)) input (u32 (length input)) (u32 (pos + 1)) 1

check_specification-NeedsSpec :
    (kind : SegmentKind) (d : Option Directive)
    → check_specification kind d ≡ ok tt
    → NeedsSpec kind
    → specified d ≡ true
unfolding check_specification underlying get_segment_capability
check_specification-NeedsSpec attribute d e n = ground arith
check_specification-NeedsSpec foreground_color_start d e n = ground arith
check_specification-NeedsSpec background_color_start d e n = ground arith
check_specification-NeedsSpec _ d e n = ground arith

Added-IsSound :
    {config : ParseConfig} {input : Bytes} (d e : ℕ) (segment : Segment)
    → Added config input d segment e
    → IsSound input segment
Added-IsSound d e segment (text k bare _ _ span) = record {
  text_inside = span.starts;
  literal_span = λ _. span;
  spec_inside = rw bare tt;
  spec_given = λ n. ground arith;
}
Added-IsSound {config} {input} d e segment
      (directed pos after named at_start _ inside read checked _ _) =
    record {
      text_inside = omega arith;
      literal_span = λ k. absurd (named k);
      spec_inside = read_directive-SpecInside input pos segment.kind inside read;
      spec_given = check_specification-NeedsSpec segment.kind segment.directive checked;
    }

-- Every segment of a parsed pattern is sound: a literal's text and a directive's specification
-- stand within the pattern, and `%X`, `%fg` and `%bg` have a specification. The whole span of a
-- literal is within the pattern, and not empty, where the pattern is shorter than 65536 bytes.
pub parse-IsSound :
    (config : ParseConfig) (input : Bytes) {p : ParsedPattern}
    → parse config input ≡ ok p
    → All (IsSound p.pattern) p.segments
parse-IsSound config input {p} e =
    let (depth, v) = parse-IsParsed config input e in
    rw v.pattern_is (Built-All (IsSound input) Added-IsSound v.built)
