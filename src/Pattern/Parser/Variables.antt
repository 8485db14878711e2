-- ===== src/Pattern/Parser/Variables.antt =====
-- include/logrin/Formatter/Pattern/Parser.h and src/formatters/pattern/Parser.cc: the configuration
-- of the parser, its result, and the variables of its loop.
use logrin.Base.{
  ℕ, ◌+◌, ◌-◌, Bool, true, false, ◌&&◌, ◌||◌, List, [], ◌∷◌, ◌++◌, none, Bytes, ◌==◌, ltb, leb,
  if◌then◌else◌, length, u16, u32,
}
use logrin.Pattern.Error.{Result, ok, err, too_many_segments}
use logrin.Pattern.Segment.{
  SegmentKind, literal, foreground_color_start, background_color_start, level_color_start, bold,
  dim, italic, underline, strikethrough, underlying, Segment,
}

-- The set `AllowedSegments` as a list; the empty set allows all kinds.
pub record ParseConfig : Type 0 where
  pub allowed_segments : List SegmentKind
  pub relaxed_style_nesting : Bool

abbrev pub default_config : ParseConfig
default_config = record { allowed_segments = []; relaxed_style_nesting = false }

-- `segments` holds the first `Count` entries of the array, so its length is `Count`.
pub record ParsedPattern : Type 0 where
  pub segments : List Segment
  pub pattern : Bytes
  pub config : ParseConfig

-- `result.Segments.size()`
abbrev pub capacity : ℕ
capacity = 64

-- The variables of the loop in `Parse`: `in`, `literalStart`, `inLiteral`, `depth` and the segments.
pub record State : Type 0 where
  pub pos : ℕ
  pub literal_start : ℕ
  pub in_literal : Bool
  pub depth : ℕ
  pub segments : List Segment

abbrev pub initial : State
initial = record { pos = 0; literal_start = 0; in_literal = false; depth = 0; segments = [] }

unfoldable pub is_style_start : SegmentKind → Bool
is_style_start foreground_color_start = true
is_style_start background_color_start = true
is_style_start level_color_start = true
is_style_start bold = true
is_style_start dim = true
is_style_start italic = true
is_style_start underline = true
is_style_start strikethrough = true
is_style_start _ = false

abbrev pub same_kind : SegmentKind → SegmentKind → Bool
same_kind a b = underlying a == underlying b

-- `AllowedSegments.contains(kind)`
unfoldable pub contains_kind : List SegmentKind → SegmentKind → Bool
unfolding underlying
contains_kind [] kind = false
contains_kind (k ∷ ks) kind = same_kind k kind || contains_kind ks kind

-- `result.Segments[result.Count++] = segment`, behind its bounds check.
unfoldable pub append_segment : Segment → State → Result State
append_segment segment s =
    if leb capacity (length s.segments)
    then err too_many_segments
    else ok (record s { segments = s.segments ++ segment ∷ [] })

-- `flushLiteral(end)`
unfoldable pub flush_literal : ℕ → State → Result State
unfolding append_segment
flush_literal end s =
    let flushed = record s { in_literal = false } in
    if s.in_literal && ltb s.literal_start end
    then append_segment
        (record {
          kind = literal;
          text_offset = u16 s.literal_start;
          text_length = u16 (u32 (end + 4294967296 - s.literal_start));
          directive = none;
          depth = s.depth;
        })
        flushed
    else ok flushed
