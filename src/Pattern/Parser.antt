-- ===== src/Pattern/Parser.antt =====
-- src/formatters/pattern/Parser.cc and include/logrin/Formatter/Pattern/Parser.h: the parser.
-- The children prove its properties.
pub mod Keywords
mod Variables
mod Reading
unfoldable pub use Variables.*
unfoldable pub use Reading.*
pub mod Tokens
pub mod Built
pub mod Invariant
pub mod Loop
pub mod Contents
pub mod Nesting
pub mod Ranges
pub mod Plain
pub mod Names
pub mod Items
pub mod Braces
pub mod Steps
pub mod Runs
pub mod RoundTrip
mod Tests
use logrin.Base.{
  ℕ, zero, suc, ◌+◌, ◌-◌, Bool, true, false, not, ◌&&◌, ◌||◌, Option, none, some, Bytes, ◌==◌, ltb,
  leb, if◌then◌else◌, length, get_or, u8, u16, u32,
}
use logrin.Pattern.Directive
use logrin.Pattern.Error.{
  Result, ok, err, ◌>>=◌, ◌>>◌, unknown_directive, segment_not_allowed, attribute_needs_key,
  color_needs_spec, unmatched_style_end, unclosed_styles,
}
use logrin.Pattern.Segment.{
  SegmentKind, literal, attribute, foreground_color_start, background_color_start, style_end,
  underlying, SegmentCapability, spec_only, get_segment_capability, Directive, has_specification,
  kind_to_string,
}

abbrev pub is_spec_only : SegmentCapability → Bool
is_spec_only spec_only = true
is_spec_only _ = false

abbrev pub specified : Option Directive → Bool
specified none = false
specified (some d) = has_specification d

-- `%X`, `%fg` and `%bg` need a specification.
unfoldable pub check_specification : SegmentKind → Option Directive → Result (Unit {0})
unfolding get_segment_capability underlying
check_specification kind d =
    if (is_spec_only (get_segment_capability kind) || same_kind kind attribute) && not (specified d)
    then if same_kind kind attribute
      then err attribute_needs_key
      else if same_kind kind foreground_color_start || same_kind kind background_color_start
      then err color_needs_spec
      else ok tt
    else ok tt

-- The nesting depth after a directive, in 8 bits.
unfoldable pub next_depth : Bool → SegmentKind → ℕ → Result ℕ
unfolding is_style_start underlying
next_depth relaxed kind depth =
    if is_style_start kind
    then ok (u8 (depth + 1))
    else if same_kind kind style_end
    then if depth == 0
      then if not relaxed then err unmatched_style_end else ok depth
      else ok (depth - 1)
    else ok depth

-- The rest of the loop's body for a directive, with `in` behind its name.
unfoldable pub step_directive : ParseConfig → Bytes → SegmentKind → State → Result State
unfolding append_segment check_specification next_depth read_directive contains_kind
step_directive config input kind s =
    let refused =
      not (length config.allowed_segments == 0)
      && not (contains_kind config.allowed_segments kind) in
    if refused then err (segment_not_allowed (kind_to_string kind)) else do
      r ← read_directive input s.pos kind
      check_specification kind r.0
      depth ← next_depth config.relaxed_style_nesting kind s.depth
      append_segment
          (record { kind = kind; text_offset = 0; text_length = 0; directive = r.0; depth = depth })
          (record s { pos = r.1; literal_start = r.1; depth = depth })

-- The case `'%'`, an escaped percent sign; `pos` is behind it.
unfoldable pub step_percent : ℕ → State → Result State
unfolding append_segment
step_percent pos s =
    append_segment
      (record {
        kind = literal;
        text_offset = u16 (pos - 1);
        text_length = 1;
        directive = none;
        depth = s.depth;
      })
      (record s { pos = pos; literal_start = pos })

-- A byte that starts no directive.
unfoldable pub step_literal : State → State
step_literal s = record s {
  pos = u32 (s.pos + 1);
  literal_start = if s.in_literal then s.literal_start else s.pos;
  in_literal = true;
}

unfoldable pub step_token : ParseConfig → Bytes → Token → State → Result State
unfolding step_directive step_percent
step_token config input (directive kind pos) s =
    step_directive config input kind (record s { pos = pos })
step_token config input (percent pos) s = step_percent pos s
step_token config input (unknown spec) s = err (unknown_directive spec)

-- One round of the loop.
unfoldable pub step : ParseConfig → Bytes → State → Result State
unfolding flush_literal step_literal step_token read_token
step config input s =
    if not (get_or input s.pos 0 == b'%') || leb (u32 (length input)) (u32 (s.pos + 1))
    then ok (step_literal s)
    else flush_literal s.pos s >>= step_token config input (read_token input s.pos)

-- `while (in < len)`, on fuel.
unfoldable pub run : ℕ → ParseConfig → Bytes → State → Result State
run zero config input s = ok s
run (suc fuel) config input s =
    let rest = step config input s >>= run fuel config input in
    if ltb s.pos (u32 (length input)) then rest else ok s

-- What `Parse` does behind the loop.
unfoldable pub finish : ParseConfig → Bytes → State → Result ParsedPattern
unfolding flush_literal
finish config input s = flush_literal (u32 (length input)) s >>= λ t.
    if not (t.depth == 0) && not config.relaxed_style_nesting
    then err (unclosed_styles t.depth)
    else ok (record { segments = t.segments; pattern = input; config = default_config })

-- `Parse`. A round moves `in` forward, so the length of the input is fuel enough.
unfoldable pub parse : ParseConfig → Bytes → Result ParsedPattern
unfolding run finish
parse config input = run (u32 (length input)) config input initial >>= finish config input
