-- ===== src/Pattern/Formatter/Bodies.antt =====
-- What a segment with a body in braces prints: its specification is the first part of the body.
use logrin.Base.{
  some-injective, zero, suc, ℕ, ◌+◌, ◌-◌, ◌/◌, ◌≤◌, ◌<◌, ◌≡◌, ◌∙◌, refl, sym, ap, inl, inr, Bool,
  true, false, not, [], ◌∷◌, ◌++◌, append_assoc, append-nil, some, Bytes, length, take, u16, leb,
  le→leb, ltb, replicate, Bool-cases, arith, subst,
}
use logrin.Pattern.Color.Terminal.{Rgb}
use logrin.Pattern.Color.{parse_color_spec}
use logrin.Pattern.Content.{apply_padding, pad, padded, checked_substr, spec_text}
use logrin.Pattern.Error.{Result, ok, err, Result-cases}
use logrin.Pattern.Formatter.Segments.{Returns, CanUnwrap}
use logrin.Pattern.Formatter.Texts.{aligned, filled_up, when_colored, painted_in, given_color, part}
use logrin.Pattern.Formatter.{
  level_color_start, Segment, Formatter, directive_color, unwrap_color, is_colors_enabled,
  paint_directive, emit_colour, emit_level_colour, level_color,
}
use logrin.Pattern.Parser.Items.{At}
use logrin.Pattern.Parser.{ParsedPattern}
use logrin.Pattern.Runtime.{Runtime}
use logrin.Pattern.Segment.{
  is_no_alignment, Alignment, no_alignment, center, right, left, Directive, has_specification,
  has_padding,
}
use logrin.Record.{LogRecord}

take-front : (n : ℕ) (front rest : Bytes) → n ≤ length front → take n (front ++ rest) ≡ take n front
take-front zero front rest h = refl
take-front (suc n) [] rest h = absurd (omega arith)
take-front (suc n) (c ∷ front) rest h = ap (λ xs. c ∷ xs) (take-front n front rest (omega arith))

-- A directive with a specification at the start of the body that stands in the pattern there.
pub record Stands (pattern : Bytes) (start : ℕ) (body : Bytes) (d : Directive) : Type 0 where
  pub rest : Bytes
  pub at : At pattern start (body ++ rest)
  pub short : length pattern < 65536
  pub within : d.spec_length ≤ length body
  pub offset : 0 < d.spec_length → d.spec_offset ≡ u16 start

module _ {pattern : Bytes} {start : ℕ} {body : Bytes} {d : Directive}
    (s : Stands pattern start body d) where
  pub checked_substr-spec :
      has_specification d ≡ true
      → checked_substr pattern d.spec_offset d.spec_length ≡ some (take d.spec_length body)
  unfolding checked_substr
  checked_substr-spec has =
      let fits : start + length (body ++ s.rest) ≡ length pattern = s.at.ends in
      let offset : d.spec_offset ≡ start = s.offset (ground arith) ∙ omega arith in
      rw
        (
          offset,
          le→leb start (length pattern) (omega arith),
          s.at.behind,
          take-front d.spec_length body s.rest s.within,
        )
        refl

  pub spec_text-spec : spec_text pattern (some d) ≡ some (take d.spec_length body)
  unfolding spec_text
  spec_text-spec = elim (Bool-cases (has_specification d)) [
    | inl has ↦ rw has (checked_substr-spec has)
    | inr bare ↦
        let zero_length : d.spec_length ≡ 0 = ground arith in
        rw bare (ap (λ n. some (take n body)) (sym zero_length))
  ]

sub_zero : (m n : ℕ) → leb m n ≡ true → m - n ≡ 0
sub_zero m n h = ground arith

no_fill : (content : Bytes) (fill : ℕ) (a : Alignment) → aligned a 0 fill content ≡ content
no_fill content fill no_alignment = refl
no_fill content fill left = append-nil content
no_fill content fill right = refl
no_fill content fill center = append-nil content

pad-aligned :
    (a : Alignment) (n fill : ℕ) (content out : Bytes)
    → not (is_no_alignment a) ≡ true
    → pad a n fill content out ≡ out ++ aligned a n fill content
unfolding pad
pad-aligned no_alignment n fill content out h = absurd (ground arith)
pad-aligned left n fill content out h = append_assoc out content (replicate n fill)
pad-aligned right n fill content out h = append_assoc out (replicate n fill) content
pad-aligned center n fill content out h =
    append_assoc (out ++ replicate (n / 2) fill) content (replicate (n - n / 2) fill)
    ∙ append_assoc out (replicate (n / 2) fill) (content ++ replicate (n - n / 2) fill)

unaligned : (a : Alignment) → not (is_no_alignment a) ≡ false → a ≡ no_alignment
unaligned a h = ground arith

pub padded-filled :
    (content : Bytes) (d : Directive) (out : Bytes)
    → padded content (some d) out ≡ out ++ filled_up d content
unfolding padded apply_padding
padded-filled content d out = elim (Bool-cases (has_padding d)) [
  | inl has ↦ elim (Bool-cases (leb d.width (length content))) [
    | inl full ↦
        rw (has, full, sub_zero d.width (length content) full, no_fill content d.fill d.alignment)
          refl
    | inr narrow ↦
        rw (has, narrow) (pad-aligned d.alignment (d.width - length content) d.fill content out has)
  ]
  | inr bare ↦ rw (bare, unaligned d.alignment bare) refl
]

-- The first bytes of a body, and whether there are any.
pub data SpecCases (n : ℕ) (body : Bytes) : Type 0 where
  no_spec : ltb 0 n ≡ false → take n body ≡ [] → SpecCases n body
  with_spec : (c : ℕ) (spec : Bytes) → ltb 0 n ≡ true → take n body ≡ c ∷ spec → SpecCases n body

pub spec_cases : (n : ℕ) (body : Bytes) → n ≤ length body → SpecCases n body
spec_cases zero body within = no_spec refl refl
spec_cases (suc n) [] within = absurd (omega arith)
spec_cases (suc n) (c ∷ body) within = with_spec c (take n body) (ground arith) refl

module _ {D : Type 0} (env : Runtime D) (self : Formatter) where
  -- A colour that can be unwrapped is painted.
  directive_color-text :
      (pattern : Bytes) (start : ℕ) (body : Bytes) (d : Directive)
      → Stands pattern start body d
      → has_specification d ≡ true
      → Returns (directive_color env pattern d)
      → (c : Rgb) × (directive_color env pattern d ≡ some c)
        × (parse_color_spec env.trim (take d.spec_length body) ≡ ok c)
  unfolding directive_color unwrap_color
  directive_color-text pattern start body d s has (c, e) =
      let unwraps : unwrap_color env (take d.spec_length body) ≡ some c =
        rw (checked_substr-spec s has) at e in
      elim (Result-cases (parse_color_spec env.trim (take d.spec_length body))) [
        | inl (_, failed) ↦ absurd (ground (arith, rw (failed, unwrap_color) at unwraps))
        | inr (c', parsed) ↦
            (c, e, parsed ∙ ap (λ c. ok c) (some-injective (rw (parsed, unwrap_color) at unwraps)))
      ]

  painted_in-off :
      (r : LogRecord D) (foreground : Bool) (color : Result Rgb)
      → is_colors_enabled env self.config.use_colours ≡ false
      → painted_in env self r foreground color ≡ []
  painted_in-off r foreground (ok c) off = rw off refl
  painted_in-off r foreground (err e) off = refl

  when_colored-off :
      (r : LogRecord D) (sequence : Bytes)
      → is_colors_enabled env self.config.use_colours ≡ false
      → when_colored env self r sequence ≡ []
  when_colored-off r sequence off = rw off refl

  pub emit_colour-text :
      (p : ParsedPattern) (s : Segment) (r : LogRecord D) (start : ℕ) (body out : Bytes)
      (d : Directive) (foreground : Bool)
      → s.directive ≡ some d
      → Stands p.pattern start body d
      → CanUnwrap env p.pattern s.directive
      → emit_colour env self p s foreground out
        ≡ some (out ++ given_color env self r foreground [] (take d.spec_length body))
  unfolding emit_colour paint_directive
  emit_colour-text p s r start body out d foreground e stands can =
      elim (spec_cases d.spec_length body stands.within) [
        | no_spec bare nothing ↦ elim (Bool-cases (is_colors_enabled env self.config.use_colours)) [
          | inl on ↦
              rw (on, e, paint_directive, bare, nothing) (ap (λ xs. some xs) (sym (append-nil out)))
          | inr off ↦ rw (off, nothing) (ap (λ xs. some xs) (sym (append-nil out)))
        ]
        | with_spec c spec has is ↦
            let (color, unwraps, parsed) =
              directive_color-text p.pattern start body d stands has
                (subst (CanUnwrap env p.pattern) e can has) in
            let reads : parse_color_spec env.trim (c ∷ spec) ≡ ok color = rw is at parsed in
            elim (Bool-cases (is_colors_enabled env self.config.use_colours)) [
              | inl on ↦ rw (on, e, paint_directive, has, unwraps, is, reads, on) refl
              | inr off ↦
                  rw
                    (
                      off,
                      is,
                      painted_in-off r foreground (parse_color_spec env.trim (c ∷ spec)) off,
                    )
                    (ap (λ xs. some xs) (sym (append-nil out)))
            ]
      ]

  pub emit_level_colour-text :
      (p : ParsedPattern) (s : Segment) (r : LogRecord D) (start : ℕ) (body out : Bytes)
      (d : Directive)
      → s.directive ≡ some d
      → Stands p.pattern start body d
      → CanUnwrap env p.pattern s.directive
      → emit_level_colour env self p s r out
        ≡ some (
            out
            ++ given_color env self r true
                (part env self r level_color_start)
                (take d.spec_length body))
  unfolding emit_level_colour level_color
  emit_level_colour-text p s r start body out d e stands can =
      elim (spec_cases d.spec_length body stands.within) [
        | no_spec bare nothing ↦ elim (Bool-cases (is_colors_enabled env self.config.use_colours)) [
          | inl on ↦ rw (on, e, level_color, bare, nothing) refl
          | inr off ↦ rw (off, nothing) (ap (λ xs. some xs) (sym (append-nil out)))
        ]
        | with_spec c spec has is ↦
            let (color, unwraps, parsed) =
              directive_color-text p.pattern start body d stands has
                (subst (CanUnwrap env p.pattern) e can has) in
            let reads : parse_color_spec env.trim (c ∷ spec) ≡ ok color = rw is at parsed in
            elim (Bool-cases (is_colors_enabled env self.config.use_colours)) [
              | inl on ↦ rw (on, e, level_color, has, unwraps, is, reads, on) refl
              | inr off ↦
                  rw (off, is, painted_in-off r true (parse_color_spec env.trim (c ∷ spec)) off)
                    (ap (λ xs. some xs) (sym (append-nil out)))
            ]
      ]
