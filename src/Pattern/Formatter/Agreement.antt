-- ===== src/Pattern/Formatter/Agreement.antt =====
-- src/formatters/Pattern.cc and src/formatters/pattern/Parser.cc: the two switches over the kinds
-- of segments, in `Pattern::Format` and in `ParsedPattern::FormatSegments`.
use logrin.Base.{
  ◌≡◌, refl, ap, inl, inr, Bool, true, false, List, [], ◌∷◌, Option, some, Bytes, arith, All,
  Bool-cases, Option-cases,
}
use logrin.Pattern.Content.Levels.{same_bind}
use logrin.Pattern.Content
use logrin.Pattern.Content.{
  checked_substr, append_held, attribute_text, dispatch_segment, format_segments,
}
use logrin.Pattern.Formatter
use logrin.Pattern.Formatter.{
  Formatter, is_colors_enabled, emit_colour, emit_level_colour, emit_style, emit_style_end,
  append_attribute_value, attribute_of, format_segment, format_each, format_pattern, format,
}
use logrin.Pattern.Parser.{ParsedPattern}
use logrin.Pattern.Runtime.{Runtime}
use logrin.Pattern.Segment.{
  SegmentKind, literal, timestamp, level, message, logger, file, function_name, line_num,
  column_num, thread_id, all_attributes, attribute, has_specification, Segment,
}
use logrin.Record.{AttributeValue, mono, bool, int64, uint64, double, string, LogRecord, find_field}

-- Neither `%L` nor `%A`.
unfoldable pub is_shared : SegmentKind → Bool
is_shared level = false
is_shared all_attributes = false
is_shared _ = true

module _ {D : Type 0} (env : Runtime D) where
  append_attribute_value-append_held :
      (value : AttributeValue D) (out : Bytes)
      → append_attribute_value env value out ≡ append_held env value out
  unfolding append_attribute_value append_held
  append_attribute_value-append_held mono out = refl
  append_attribute_value-append_held (bool b) out = refl
  append_attribute_value-append_held (int64 n) out = refl
  append_attribute_value-append_held (uint64 n) out = refl
  append_attribute_value-append_held (double d) out = refl
  append_attribute_value-append_held (string s) out = refl

  attribute_of-attribute_text :
      (p : ParsedPattern) (s : Segment) (r : LogRecord D) (out key : Bytes)
      → attribute_of env p s r out key ≡ attribute_text env p s r out key
  unfolding attribute_of attribute_text
  attribute_of-attribute_text p s r out key = elim (Option-cases (find_field key r.fields)) [
    | inl missing ↦ rw (missing, attribute_of, attribute_text) refl
    | inr (value, found) ↦
        rw (found, attribute_of, attribute_text) (append_attribute_value-append_held value out)
  ]

  -- The methods for `%X` of the two classes agree.
  format_attribute-same :
      (s : Segment) (p : ParsedPattern) (r : LogRecord D) (out : Bytes)
      → Formatter.format_attribute env p s r out ≡ Content.format_attribute env p s r out
  unfolding Formatter.format_attribute Content.format_attribute
  format_attribute-same s p r out = elim (Option-cases s.directive) [
    | inl bare ↦ rw (bare, Formatter.format_attribute, Content.format_attribute) refl
    | inr (d, e) ↦ elim (Bool-cases (has_specification d)) [
      | inl has ↦
          rw (e, has, Formatter.format_attribute, Content.format_attribute)
            (same_bind (checked_substr p.pattern d.spec_offset d.spec_length) _ _
              λ key. ap (λ t. some t) (attribute_of-attribute_text p s r out key))
      | inr empty ↦ rw (e, empty, Formatter.format_attribute, Content.format_attribute) refl
    ]
  ]

module _ {D : Type 0} (env : Runtime D) (self : Formatter)
    (disabled : is_colors_enabled env self.config.use_colours ≡ false) where
  format_segment-dispatch_segment :
      (f : ParsedPattern → LogRecord D → Bytes → Option Bytes) (kind : SegmentKind) (s : Segment)
      (p : ParsedPattern) (r : LogRecord D) (out : Bytes)
      → is_shared kind ≡ true
      → format_segment env self f kind s p r out ≡ dispatch_segment env kind p s r out
  unfolding is_shared format_segment dispatch_segment emit_colour emit_level_colour emit_style
      emit_style_end
  format_segment-dispatch_segment f literal s p r out h = refl
  format_segment-dispatch_segment f timestamp s p r out h = refl
  format_segment-dispatch_segment f level s p r out h = ground arith
  format_segment-dispatch_segment f message s p r out h = refl
  format_segment-dispatch_segment f logger s p r out h = refl
  format_segment-dispatch_segment f file s p r out h = refl
  format_segment-dispatch_segment f function_name s p r out h = refl
  format_segment-dispatch_segment f line_num s p r out h = refl
  format_segment-dispatch_segment f column_num s p r out h = refl
  format_segment-dispatch_segment f thread_id s p r out h = refl
  format_segment-dispatch_segment f all_attributes s p r out h = ground arith
  format_segment-dispatch_segment f attribute s p r out h = format_attribute-same env s p r out
  format_segment-dispatch_segment f _ s p r out h = rw disabled refl

  format_each-format_segments :
      (f : ParsedPattern → LogRecord D → Bytes → Option Bytes) (segments : List Segment)
      (p : ParsedPattern) (r : LogRecord D) (out : Bytes)
      → All (λ s. is_shared s.kind ≡ true) segments
      → format_each env self f segments p r out ≡ format_segments env p r segments out
  unfolding format_each format_segments
  format_each-format_segments f [] p r out shared = refl
  format_each-format_segments f (s ∷ rest) p r out shared =
      rw (format_segment-dispatch_segment f s.kind s p r out shared.0) (
        same_bind (dispatch_segment env s.kind p s r out) _ _
          λ o. format_each-format_segments f rest p r o shared.1)

  -- The two renderers agree: with colours disabled, `Pattern::Format` of a pattern without `%L`
  -- and `%A` gives what `ParsedPattern::FormatSegments` gives on an empty text, an exception for
  -- an exception.
  pub format-format_segments :
      (r : LogRecord D)
      → All (λ s. is_shared s.kind ≡ true) self.parsed.segments
      → format env self r ≡ format_segments env self.parsed r self.parsed.segments []
  unfolding format format_pattern
  format-format_segments r shared =
      format_each-format_segments _ self.parsed.segments self.parsed r [] shared
