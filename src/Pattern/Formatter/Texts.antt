-- ===== src/Pattern/Formatter/Texts.antt =====
-- The text that a written pattern stands for, for a record.
use logrin.Pattern.Directive
use logrin.Pattern.Error.{Result, ok, err}
use logrin.Pattern.Color.Terminal.{Rgb}
use logrin.Base.{
  not, ◌&&◌, contains, ltb, ℕ, ◌-◌, ◌/◌, length, replicate, take, none, Bool, true, false, List, [],
  ◌∷◌, ◌++◌, Option, some, Bytes, codes, if◌then◌else◌, equal,
}
use logrin.Pattern.Color.{get_level_color, parse_color_spec}
use logrin.Pattern.Formatter.{append_attribute_value}
use logrin.Pattern.Content.{level_text}
use logrin.Pattern.Formatter.{Config, Formatter, palette, is_colors_enabled, format}
use logrin.Pattern.Parser.Items.{Item, text, percent, bare, braced}
use logrin.Pattern.Runtime.{Runtime}
use logrin.Pattern.Segment.{
  Alignment, no_alignment, center, right, left, Directive, SegmentKind, literal, timestamp, level,
  message, logger, file, function_name, line_num, column_num, thread_id, all_attributes, attribute,
  foreground_color_start, background_color_start, level_color_start, bold, dim, italic, underline,
  strikethrough, style_end,
}
use logrin.Record.{AttributeValue, find_field, LogRecord, level_to_string}

-- A text that is no pattern: it has no `%`, and its length fits in 16 bits.
abbrev pub is_plain : Bytes → Bool
is_plain bytes = not (contains bytes b'%') && ltb (length bytes) 65536

-- A directive that prints a part of the record, or a style, without a body. `%A` is one where the
-- markers are plain text.
abbrev pub is_part : Config → SegmentKind → Bool
is_part config literal = false
is_part config all_attributes = is_plain config.prefix && is_plain config.suffix
is_part config attribute = false
is_part config foreground_color_start = false
is_part config background_color_start = false
is_part config _ = true

-- Any item, but for `%A` with markers that are patterns.
abbrev pub is_simple : Config → Item → Bool
is_simple config (text t) = true
is_simple config percent = true
is_simple config (bare kind) = is_part config kind
is_simple config (braced kind body) = true

-- A content with `n` fill characters where the alignment has them.
abbrev pub aligned : Alignment → ℕ → ℕ → Bytes → Bytes
aligned no_alignment n fill content = content
aligned left n fill content = content ++ replicate n fill
aligned right n fill content = replicate n fill ++ content
aligned center n fill content = replicate (n / 2) fill ++ (content ++ replicate (n - n / 2) fill)

-- A content, filled up to the width of a directive.
abbrev pub filled_up : Directive → Bytes → Bytes
filled_up d content = aligned d.alignment (d.width - length content) d.fill content

module _ {D : Type 0} (env : Runtime D) (self : Formatter) (r : LogRecord D) where
  abbrev pub when_colored : Bytes → Bytes
  when_colored sequence = if is_colors_enabled env self.config.use_colours then sequence else []

  -- The fields with their names, each in the markers, with spaces between them.
  abbrev pub fields_text : Bool → List (Bytes × AttributeValue D) → Bytes
  fields_text first [] = []
  fields_text first ((key, value) ∷ rest) =
      (if first then [] else codes " ")
      ++ (self.config.prefix
          ++ (key
              ++ (self.config.delimiter
                  ++ (append_attribute_value env value []
                      ++ (self.config.suffix ++ fields_text false rest)))))

  -- The part of the record that a directive stands for, or the terminal sequence.
  abbrev pub part : SegmentKind → Bytes
  part timestamp = env.strftime_local 128 (codes "%Y-%m-%d %H:%M:%S") r.timestamp
  part level = level_to_string r.level
  part message = r.message
  part logger = r.logger
  part file = r.location.file
  part function_name = r.location.function
  part line_num = env.format_number r.location.line
  part column_num = env.format_number r.location.column
  part thread_id = env.format_number env.thread_hash
  part all_attributes = fields_text true r.fields
  part level_color_start = when_colored (
      env.paint_rgb true
        (get_level_color env.default_rgb r.level (palette env self self.config.level_color_map)))
  part style_end = when_colored env.paint_reset
  part bold = when_colored (env.paint_style bold)
  part dim = when_colored (env.paint_style dim)
  part italic = when_colored (env.paint_style italic)
  part underline = when_colored (env.paint_style underline)
  part strikethrough = when_colored (env.paint_style strikethrough)
  part _ = []

  -- The value of a field, or nothing where the record has no such field.
  abbrev pub field_text : Option (AttributeValue D) → Bytes
  field_text none = []
  field_text (some value) = append_attribute_value env value []

  -- The time in a format of its own, or in the usual one.
  abbrev pub time_text : Bytes → Bytes
  time_text [] = env.strftime_local 128 (codes "%Y-%m-%d %H:%M:%S") r.timestamp
  time_text (c ∷ format) =
      if equal (c ∷ format) (codes "iso8601")
      then env.strftime_utc 32 (codes "%Y-%m-%dT%H:%M:%SZ") r.timestamp
      else env.strftime_local 128 (c ∷ format) r.timestamp

  -- The value of the field of that name.
  abbrev pub named_field : Bytes → Bytes
  named_field [] = []
  named_field (c ∷ key) = field_text (find_field (c ∷ key) r.fields)

  -- The number of the thread, in either base.
  abbrev pub thread_number : Bytes → Bytes
  thread_number base =
      if equal base (codes "hex")
      then codes "0x" ++ env.format_hex env.thread_hash
      else env.format_number env.thread_hash

  -- The terminal sequence of a colour that is given.
  abbrev pub painted_in : Bool → Result Rgb → Bytes
  painted_in foreground (ok c) = when_colored (env.paint_rgb foreground c)
  painted_in foreground (err e) = []

  -- What a colour of this text paints.
  abbrev pub color_text : Bool → Bytes → Bytes
  color_text foreground color = painted_in foreground (parse_color_spec env.trim color)

  -- The same for a specification, or another text where there is none.
  abbrev pub given_color : Bool → Bytes → Bytes → Bytes
  given_color foreground other [] = other
  given_color foreground other (c ∷ color) = color_text foreground (c ∷ color)

  -- What a directive with a body stands for: its specification, and how it is filled up.
  abbrev pub specified_part : SegmentKind → Bytes → Directive → Bytes
  specified_part timestamp format d = time_text format
  specified_part level letters d = filled_up d (level_text r.level letters)
  specified_part logger spec d = filled_up d r.logger
  specified_part thread_id base d = thread_number base
  specified_part attribute key d = named_field key
  specified_part foreground_color_start color d = given_color true [] color
  specified_part background_color_start color d = given_color false [] color
  specified_part level_color_start color d = given_color true (part level_color_start) color
  specified_part _ spec d = []

  -- The body as `Directive::Parse` reads it; the specification is its first part.
  abbrev pub read_part : SegmentKind → Bytes → Result Directive → Bytes
  read_part kind body (ok d) = specified_part kind (take d.spec_length body) d
  read_part kind body (err e) = []

  abbrev pub rendered_item : Item → Bytes
  rendered_item (text t) = t
  rendered_item percent = codes "%"
  rendered_item (bare kind) = part kind
  rendered_item (braced kind body) = read_part kind body (Directive.parse body 0 kind)

  abbrev pub rendered : List Item → Bytes
  rendered [] = []
  rendered (i ∷ items) = rendered_item i ++ rendered items
