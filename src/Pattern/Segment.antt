-- ===== src/Pattern/Segment.antt =====
-- include/logrin/Formatter/Pattern/Segment.h: the data of a parsed pattern.
use logrin.Base.{ℕ, Bool, true, false, not, Option, Bytes, codes, ltb}

-- `Alignment`; the source's `None` is `no_alignment`.
pub data Alignment : Type 0 where
  no_alignment center right left : Alignment

pub data SegmentKind : Type 0 where
  literal timestamp level message logger file function_name line_num column_num : SegmentKind
  thread_id all_attributes attribute : SegmentKind
  foreground_color_start background_color_start level_color_start : SegmentKind
  bold dim italic underline strikethrough style_end : SegmentKind

-- The enumerators' underlying values, which `==` compares.
unfoldable pub underlying : SegmentKind → ℕ
underlying literal = 0
underlying timestamp = 1
underlying level = 2
underlying message = 3
underlying logger = 4
underlying file = 5
underlying function_name = 6
underlying line_num = 7
underlying column_num = 8
underlying thread_id = 9
underlying all_attributes = 10
underlying attribute = 11
underlying foreground_color_start = 12
underlying background_color_start = 13
underlying level_color_start = 14
underlying bold = 15
underlying dim = 16
underlying italic = 17
underlying underline = 18
underlying strikethrough = 19
underlying style_end = 20

-- The source's `None` is `no_capability`.
pub data SegmentCapability : Type 0 where
  no_capability spec_only padding_only spec_and_padding : SegmentCapability

unfoldable pub get_segment_capability : SegmentKind → SegmentCapability
get_segment_capability timestamp = spec_only
get_segment_capability attribute = spec_only
get_segment_capability foreground_color_start = spec_only
get_segment_capability background_color_start = spec_only
get_segment_capability level_color_start = spec_only
get_segment_capability logger = padding_only
get_segment_capability level = spec_and_padding
get_segment_capability thread_id = spec_and_padding
get_segment_capability _ = no_capability

pub record Directive : Type 0 where
  pub spec_offset : ℕ
  pub spec_length : ℕ
  pub width : ℕ
  pub alignment : Alignment
  pub fill : ℕ

-- A default-initialised `Directive`.
abbrev pub default_directive : Directive
default_directive = record {
  spec_offset = 0;
  spec_length = 0;
  width = 0;
  alignment = no_alignment;
  fill = b' ';
}

abbrev pub has_specification : Directive → Bool
has_specification d = ltb 0 d.spec_length

abbrev pub is_no_alignment : Alignment → Bool
is_no_alignment no_alignment = true
is_no_alignment _ = false

abbrev pub has_padding : Directive → Bool
has_padding d = not (is_no_alignment d.alignment)

-- A span of the pattern, and the directive that follows it. `text_offset` and `text_length` are
-- the pair `Text`.
pub record Segment : Type 0 where
  pub kind : SegmentKind
  pub text_offset : ℕ
  pub text_length : ℕ
  pub directive : Option Directive
  pub depth : ℕ

-- The text that `violet::ToString` gives for a kind.
unfoldable pub kind_to_string : SegmentKind → Bytes
kind_to_string literal = codes "literal"
kind_to_string timestamp = codes "timestamp (%t)"
kind_to_string level = codes "level (%L)"
kind_to_string message = codes "message (%m)"
kind_to_string logger = codes "logger name (%n)"
kind_to_string file = codes "source file (%f)"
kind_to_string function_name = codes "function name (%F)"
kind_to_string line_num = codes "line number (%l)"
kind_to_string column_num = codes "column number (%c)"
kind_to_string thread_id = codes "thread id (%T)"
kind_to_string all_attributes = codes "all attributes (%A)"
kind_to_string attribute = codes "attribute (%X)"
kind_to_string foreground_color_start = codes "foreground colour: start (%fg)"
kind_to_string background_color_start = codes "background colour: start (%bg)"
kind_to_string level_color_start = codes "level colour: start (%levelColor)"
kind_to_string bold = codes "bold (%bold)"
kind_to_string dim = codes "dim (%dim)"
kind_to_string italic = codes "italic (%italic)"
kind_to_string underline = codes "underline (%underline)"
kind_to_string strikethrough = codes "strikethrough (%strikethrough)"
kind_to_string style_end = codes "style end (%style:end)"
