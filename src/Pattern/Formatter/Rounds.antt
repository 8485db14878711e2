-- ===== src/Pattern/Formatter/Rounds.antt =====
-- The loop of `formatPattern` returns on segments that are ready.
use logrin.Base.{◌≡◌, refl, true, false, List, [], ◌∷◌, Option, Bytes, All}
use logrin.Pattern.Formatter.Segments.{
  checked_substr-Returns, Returns, Returns-bind, content-Returns, format_attribute-Returns, IsReady,
  IsReady-CanUnwrap, emit_colour-Returns, emit_level_colour-Returns, emit_style-Returns,
  emit_style_end-Returns, ReturnsOn, format_fields-Returns,
}
use logrin.Pattern.Formatter.{Formatter, is_color_kind, format_segment, format_each}
use logrin.Pattern.Content.{format_literal, format_timestamp, format_level, format_thread_id}
use logrin.Pattern.Parser.{ParsedPattern}
use logrin.Pattern.Runtime.{Runtime}
use logrin.Pattern.Segment.{
  SegmentKind, literal, timestamp, level, message, logger, file, function_name, line_num,
  column_num, thread_id, all_attributes, attribute, foreground_color_start, background_color_start,
  level_color_start, bold, dim, italic, underline, strikethrough, style_end, Segment,
}
use logrin.Record.{LogRecord}

module _ {D : Type 0} (env : Runtime D) where
  module _ (self : Formatter) (f : ParsedPattern → LogRecord D → Bytes → Option Bytes) where
    -- `formatSegment` returns on a segment that is ready, if the markers are formatted wherever
    -- the segment is `%A`.
    format_segment-Returns :
        (kind : SegmentKind) (s : Segment) (p : ParsedPattern) (r : LogRecord D) (out : Bytes)
        → s.kind ≡ kind
        → IsReady env p s
        → (kind ≡ all_attributes
            → ReturnsOn env self f self.prefix_marker × ReturnsOn env self f self.suffix_marker)
        → Returns (format_segment env self f kind s p r out)
    unfolding format_segment is_color_kind format_literal format_timestamp format_level
        format_thread_id
    format_segment-Returns literal s p r out e v m =
        Returns-bind _ _
          (checked_substr-Returns p.pattern s.text_offset s.text_length v.sound.text_inside)
          λ text _. (_, refl)
    format_segment-Returns timestamp s p r out e v m = content-Returns env p s _ v
    format_segment-Returns level s p r out e v m = content-Returns env p s _ v
    format_segment-Returns message s p r out e v m = (_, refl)
    format_segment-Returns logger s p r out e v m = (_, refl)
    format_segment-Returns file s p r out e v m = (_, refl)
    format_segment-Returns function_name s p r out e v m = (_, refl)
    format_segment-Returns line_num s p r out e v m = (_, refl)
    format_segment-Returns column_num s p r out e v m = (_, refl)
    format_segment-Returns thread_id s p r out e v m = content-Returns env p s _ v
    format_segment-Returns attribute s p r out e v m = format_attribute-Returns env p s r out v
    format_segment-Returns all_attributes s p r out e v m =
        format_fields-Returns env self f r true r.fields out (m refl).0 (m refl).1
    format_segment-Returns foreground_color_start s p r out e v m =
        emit_colour-Returns env self p s true out (IsReady-CanUnwrap env p s (rw e refl) v)
    format_segment-Returns background_color_start s p r out e v m =
        emit_colour-Returns env self p s false out (IsReady-CanUnwrap env p s (rw e refl) v)
    format_segment-Returns level_color_start s p r out e v m =
        emit_level_colour-Returns env self p s r out (IsReady-CanUnwrap env p s (rw e refl) v)
    format_segment-Returns bold s p r out e v m = emit_style-Returns env self bold out
    format_segment-Returns dim s p r out e v m = emit_style-Returns env self dim out
    format_segment-Returns italic s p r out e v m = emit_style-Returns env self italic out
    format_segment-Returns underline s p r out e v m = emit_style-Returns env self underline out
    format_segment-Returns strikethrough s p r out e v m =
        emit_style-Returns env self strikethrough out
    format_segment-Returns style_end s p r out e v m = emit_style_end-Returns env self out

    -- So it is for the loop, over segments that are ready, and of which `%A` is one only where
    -- the markers are formatted.
    pub format_each-Returns :
        (segments : List Segment) (p : ParsedPattern) (r : LogRecord D) (out : Bytes)
        → All (IsReady env p) segments
        → All
            (λ s.
              s.kind ≡ all_attributes
              → ReturnsOn env self f self.prefix_marker × ReturnsOn env self f self.suffix_marker)
            segments
        → Returns (format_each env self f segments p r out)
    unfolding format_each
    format_each-Returns [] p r out v m = (out, refl)
    format_each-Returns (s ∷ rest) p r out v m =
        Returns-bind (format_segment env self f s.kind s p r out) _
          (format_segment-Returns s.kind s p r out refl v.0 m.0)
          λ next _. format_each-Returns rest p r next v.1 m.1
