-- ===== src/Pattern/Formatter/Segments.antt =====
-- Each part of a formatted pattern returns: the offsets that it takes from a segment stand in the
-- pattern, and a colour that is unwrapped has been validated.
use logrin.Base.{
  not, sym, ℕ, ◌≤◌, ◌≡◌, refl, inl, inr, Bool, true, false, List, [], ◌∷◌, ◌++◌, Option, none, some,
  Bytes, leb, length, if◌then◌else◌, Bool-cases, Option-cases, arith, subst,
}
use logrin.Pattern.Color.{parse_color_spec}
use logrin.Pattern.Content.{checked_substr, spec_text}
use logrin.Pattern.Formatter.{attribute_of, format_attribute}
use logrin.Pattern.Error.{Result, ok, err, Result-cases}
use logrin.Pattern.Formatter.{
  level_color, paint_directive, Formatter, is_color_kind, validate_segment, unwrap_color,
  directive_color, is_colors_enabled, emit_colour, emit_level_colour, emit_style, emit_style_end,
  format_marker, format_fields,
}
use logrin.Pattern.Parser.Contents.{IsSound, SpecInside}
use logrin.Pattern.Parser.{ParsedPattern}
use logrin.Pattern.Runtime.{Runtime, attempt, ◌>>=◌}
use logrin.Pattern.Segment.{SegmentKind, Directive, has_specification, Segment}
use logrin.Record.{LogRecord, AttributeValue}

-- The code returns a value.
abbrev pub Returns {ℓ} : {A : Type ℓ} → Option A → Type ℓ
Returns {A = A} m = (a : A) × (m ≡ some a)

module _ {ℓ κ} {A : Type ℓ} {B : Type κ} where
  pub Returns-bind :
      (m : Option A) (f : A → Option B)
      → Returns m
      → ((a : A) → m ≡ some a → Returns (f a))
      → Returns (m >>= f)
  Returns-bind none f h k = absurd (ground (arith, h.1))
  Returns-bind (some a) f h k = k a refl

pub attempt-Returns {ℓ κ} :
    {A : Type ℓ} {B : Type κ} (m : Option (Result A)) (f : A → Option (Result B))
    → Returns m
    → ((a : A) → m ≡ some (ok a) → Returns (f a))
    → Returns (attempt m f)
attempt-Returns none f h k = absurd (ground (arith, h.1))
attempt-Returns (some (err e)) f h k = (err e, refl)
attempt-Returns (some (ok a)) f h k = k a refl

Returns-if {ℓ} :
    {A : Type ℓ} (b : Bool) (x y : Option A)
    → (b ≡ true → Returns x)
    → (b ≡ false → Returns y)
    → Returns (if b then x else y)
Returns-if true x y h k = h refl
Returns-if false x y h k = k refl

pub checked_substr-Returns :
    (s : Bytes) (offset count : ℕ) → offset ≤ length s → Returns (checked_substr s offset count)
unfolding checked_substr
checked_substr-Returns s offset count h =
    Returns-if (leb offset (length s)) _ _ (λ _. (_, refl)) (λ e. absurd (ground arith))

spec_text-Returns :
    (pattern : Bytes) (d : Option Directive) → SpecInside pattern d → Returns (spec_text pattern d)
unfolding spec_text
spec_text-Returns pattern none h = ([], refl)
spec_text-Returns pattern (some d) h =
    Returns-if (has_specification d) _ _
      (λ _. checked_substr-Returns pattern d.spec_offset d.spec_length (omega arith))
      (λ _. ([], refl))

module _ {D : Type 0} (env : Runtime D) where
  -- A colour that was validated can be unwrapped.
  directive_color-Returns :
      (p : ParsedPattern) (s : Segment) (d : Directive)
      → s.directive ≡ some d
      → is_color_kind s.kind ≡ true
      → has_specification d ≡ true
      → validate_segment env p s ≡ some (ok tt)
      → Returns (directive_color env p.pattern d)
  unfolding directive_color unwrap_color validate_segment
  directive_color-Returns p s d e k h v =
      elim (Option-cases (checked_substr p.pattern d.spec_offset d.spec_length)) [
        | inl thrown ↦ absurd (ground arith)
        | inr (spec, cut) ↦ elim (Result-cases (parse_color_spec env.trim spec)) [
          | inl (_, failed) ↦ absurd (ground arith)
          | inr (c, parsed) ↦ (c, ground arith)
        ]
      ]

  -- What `Pattern::Parse` has established of a segment before it formats.
  pub record IsReady (p : ParsedPattern) (s : Segment) : Type 0 where
    pub sound : IsSound p.pattern s
    pub validated : validate_segment env p s ≡ some (ok tt)

  -- The rest of a directive's case, for its specification.
  inside :
      (p : ParsedPattern) (s : Segment) (d : Directive)
      → s.directive ≡ some d
      → IsReady p s
      → d.spec_offset ≤ length p.pattern
  inside p s d e v = let h = subst (SpecInside p.pattern) e v.sound.spec_inside in omega arith

  pub content-Returns :
      {A : Type 0} (p : ParsedPattern) (s : Segment) (f : Bytes → A)
      → IsReady p s
      → Returns (spec_text p.pattern s.directive >>= λ spec. some (f spec))
  content-Returns p s f v =
      Returns-bind _ _ (spec_text-Returns p.pattern s.directive v.sound.spec_inside)
        λ spec _. (f spec, refl)

  pub format_attribute-Returns :
      (p : ParsedPattern) (s : Segment) (r : LogRecord D) (out : Bytes)
      → IsReady p s
      → Returns (format_attribute env p s r out)
  unfolding format_attribute
  format_attribute-Returns p s r out v = elim (Option-cases s.directive) [
    | inl bare ↦ (out, rw (bare, format_attribute))
    | inr (d, e) ↦
        rw (e, format_attribute)
          (Returns-if (not (has_specification d)) _ _ (λ _. (out, refl))
            (λ _.
              Returns-bind (checked_substr p.pattern d.spec_offset d.spec_length)
                (λ key. some (attribute_of env p s r out key))
                (checked_substr-Returns p.pattern d.spec_offset d.spec_length (inside p s d e v))
                λ key _. (_, refl)))
  ]

  -- Where a directive has a specification, its colour can be unwrapped.
  abbrev pub CanUnwrap : Bytes → Option Directive → Type 0
  CanUnwrap pattern none = Unit {0}
  CanUnwrap pattern (some d) = has_specification d ≡ true → Returns (directive_color env pattern d)

  pub IsReady-CanUnwrap :
      (p : ParsedPattern) (s : Segment)
      → is_color_kind s.kind ≡ true
      → IsReady p s
      → CanUnwrap p.pattern s.directive
  IsReady-CanUnwrap p s k v = elim (Option-cases s.directive) [
    | inl bare ↦ subst (CanUnwrap p.pattern) (sym bare) tt
    | inr (d, e) ↦
        subst (CanUnwrap p.pattern) (sym e) λ h. directive_color-Returns p s d e k h v.validated
  ]

  module _ (self : Formatter) where
    paint_directive-Returns :
        (pattern : Bytes) (foreground : Bool) (out : Bytes) (d : Option Directive)
        → CanUnwrap pattern d
        → Returns (paint_directive env self pattern foreground out d)
    unfolding paint_directive
    paint_directive-Returns pattern foreground out none h = (out, refl)
    paint_directive-Returns pattern foreground out (some d) h =
        elim (Bool-cases (has_specification d)) [
          | inl given ↦ rw given (
              Returns-bind (directive_color env pattern d)
                (λ c. some (out ++ env.paint_rgb foreground c)) (h given) λ c _. (_, refl))
          | inr bare ↦ rw bare (out, refl)
        ]

    level_color-Returns :
        (pattern : Bytes) (r : LogRecord D) (d : Option Directive)
        → CanUnwrap pattern d
        → Returns (level_color env self pattern r d)
    unfolding level_color
    level_color-Returns pattern r none h = (_, refl)
    level_color-Returns pattern r (some d) h = elim (Bool-cases (has_specification d)) [
      | inl given ↦ rw given (h given)
      | inr bare ↦ rw bare (_, refl)
    ]

    pub emit_colour-Returns :
        (p : ParsedPattern) (s : Segment) (foreground : Bool) (out : Bytes)
        → CanUnwrap p.pattern s.directive
        → Returns (emit_colour env self p s foreground out)
    unfolding emit_colour
    emit_colour-Returns p s foreground out h =
        elim (Bool-cases (is_colors_enabled env self.config.use_colours)) [
          | inl on ↦ rw on (paint_directive-Returns p.pattern foreground out s.directive h)
          | inr plain ↦ rw plain (out, refl)
        ]

    pub emit_level_colour-Returns :
        (p : ParsedPattern) (s : Segment) (r : LogRecord D) (out : Bytes)
        → CanUnwrap p.pattern s.directive
        → Returns (emit_level_colour env self p s r out)
    unfolding emit_level_colour
    emit_level_colour-Returns p s r out h =
        elim (Bool-cases (is_colors_enabled env self.config.use_colours)) [
          | inl on ↦ rw on (
              Returns-bind (level_color env self p.pattern r s.directive)
                (λ c. some (out ++ env.paint_rgb true c))
                (level_color-Returns p.pattern r s.directive h) λ c _. (_, refl))
          | inr plain ↦ rw plain (out, refl)
        ]

    pub emit_style-Returns :
        (kind : SegmentKind) (out : Bytes) → Returns (emit_style env self kind out)
    unfolding emit_style
    emit_style-Returns kind out =
        elim (Bool-cases (is_colors_enabled env self.config.use_colours)) [
          | inl on ↦ rw on (_, refl)
          | inr plain ↦ rw plain (out, refl)
        ]

    pub emit_style_end-Returns : (out : Bytes) → Returns (emit_style_end env self out)
    unfolding emit_style_end
    emit_style_end-Returns out = elim (Bool-cases (is_colors_enabled env self.config.use_colours)) [
      | inl on ↦ rw on (_, refl)
      | inr plain ↦ rw plain (out, refl)
    ]

    -- A formatter of patterns that returns on the markers.
    abbrev pub ReturnsOn :
        (ParsedPattern → LogRecord D → Bytes → Option Bytes) → Option ParsedPattern → Type 0
    ReturnsOn f none = Unit {0}
    ReturnsOn f (some p) = (r : LogRecord D) (out : Bytes) → Returns (f p r out)

    format_marker-Returns :
        (f : ParsedPattern → LogRecord D → Bytes → Option Bytes) (marker : Option ParsedPattern)
        (text : Bytes) (r : LogRecord D) (out : Bytes)
        → ReturnsOn f marker
        → Returns (format_marker env self f marker text r out)
    unfolding format_marker
    format_marker-Returns f none text r out h = (_, refl)
    format_marker-Returns f (some p) text r out h = h r out

    pub format_fields-Returns :
        (f : ParsedPattern → LogRecord D → Bytes → Option Bytes) (r : LogRecord D) (first : Bool)
        (fields : List (Bytes × AttributeValue D)) (out : Bytes)
        → ReturnsOn f self.prefix_marker
        → ReturnsOn f self.suffix_marker
        → Returns (format_fields env self f r first fields out)
    unfolding format_fields
    format_fields-Returns f r first [] out h k = (out, refl)
    format_fields-Returns f r first ((key, value) ∷ rest) out h k =
        Returns-bind (format_marker env self f self.prefix_marker self.config.prefix r _) _
          (format_marker-Returns f self.prefix_marker self.config.prefix r _ h)
          λ opened _.
            Returns-bind (format_marker env self f self.suffix_marker self.config.suffix r _) _
              (format_marker-Returns f self.suffix_marker self.config.suffix r _ k)
              λ closed _. format_fields-Returns f r false rest closed h k
