-- ===== src/Pattern/Parser/Ranges.antt =====
-- The segments that `Parse` returns hold values of their fields' types.
use logrin.Base.{
  ap, ℕ, ◌+◌, ◌-◌, ◌≤◌, ◌<◌, ◌≡◌, inl, inr, subst, ◌&&◌, List, [], ◌∷◌, Option, none, some, Bytes,
  ◌==◌, length, substr, get_or, ltb, u32, All, Bool-cases, arith,
}
use logrin.Pattern.Directive.Ranges.{InRange, parse-InRange}
use logrin.Pattern.Error.{ok, ok-injective}
use logrin.Pattern.Parser.Built.{Added, text, directed, Built-All}
use logrin.Pattern.Parser.Invariant.{parse-IsParsed}
use logrin.Pattern.Parser.Nesting.{parse-length}
use logrin.Pattern.Parser.Tokens.{read_body-eq}
use logrin.Pattern.Parser.{ParseConfig, ParsedPattern, scan_braces, read_directive, parse}
use logrin.Pattern.Segment.{SegmentKind, Directive, Segment}

-- The directive, where there is one, has its offset, its length and its width in 16 bits.
abbrev pub DirectiveFits : Option Directive → Type 0
DirectiveFits none = Unit {0}
DirectiveFits (some d) = InRange d

-- The two numbers of the text fit in 16 bits.
abbrev pub TextFits : Segment → Type 0
TextFits segment =
    (segment.text_offset < 65536) × (segment.text_length < 65536) × DirectiveFits segment.directive

read_directive-DirectiveFits :
    (input : Bytes) (pos : ℕ) (kind : SegmentKind) {d : Option Directive} {after : ℕ}
    → read_directive input pos kind ≡ ok (d, after)
    → DirectiveFits d
unfolding read_directive
read_directive-DirectiveFits input pos kind {d} {after} e =
    elim (Bool-cases (ltb pos (u32 (length input)) && get_or input pos 0 == b'{')) [
      | inl braced ↦
          let start = u32 (pos + 1) in
          let (found, parsed, f) = read_body-eq input start kind scanned (rw braced at e) in
          subst DirectiveFits (ap (λ (r : Option Directive × ℕ). r.0) f)
            (parse-InRange (substr input start (scanned.0 - 1 - start)) start kind parsed)
      | inr plain ↦
          subst DirectiveFits
            (ap (λ (r : Option Directive × ℕ). r.0) (ok-injective (rw plain at e))) tt
    ]
  where
    scanned : ℕ × ℕ
    scanned = scan_braces (u32 (length input)) input (u32 (length input)) (u32 (pos + 1)) 1

Added-TextFits :
    {config : ParseConfig} {input : Bytes} (d e : ℕ) (segment : Segment)
    → Added config input d segment e
    → TextFits segment
Added-TextFits d e segment (text k bare _ _ span) = (span.fits.0, span.fits.1, rw bare tt)
Added-TextFits {input = input} d e segment (directed pos after _ at_start _ _ read _ _ _) =
    (omega arith, omega arith, read_directive-DirectiveFits input pos segment.kind read)

-- A segment whose numbers are values of their types, in a list of segments that fits its array.
abbrev pub FitsTypes : ParsedPattern → Type 0
FitsTypes p =
    (length p.segments ≤ 64) × All TextFits p.segments × All (λ s. s.depth < 256) p.segments

All-lt :
    (segments : List Segment) → All (λ s. s.depth ≤ 64) segments → All (λ s. s.depth < 256) segments
All-lt [] h = tt
All-lt (s ∷ segments) h = (omega (arith, h.0), All-lt segments (h.1))

-- What `Parse` returns is well typed, for every pattern and configuration: the segments fit their
-- array of 64, the offset and the length of each text, and of each specification, and each width
-- fit in 16 bits, and each depth in 8 bits.
pub parse-FitsTypes :
    (config : ParseConfig) (input : Bytes) {p : ParsedPattern}
    → parse config input ≡ ok p
    → FitsTypes p
parse-FitsTypes config input {p} e =
    let (room, depths) = parse-length config input e in
    (
      room,
      Built-All TextFits Added-TextFits (parse-IsParsed config input e).1.built,
      All-lt p.segments depths,
    )
