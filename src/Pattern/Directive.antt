-- ===== src/Pattern/Directive.antt =====
-- src/formatters/pattern/Segment.cc: `Directive::Parse` and the padding grammar.
pub mod Spec
pub mod Position
pub mod Ranges
pub mod Width
use logrin.Base.{
  ℕ, suc, ◌+◌, ◌-◌, ◌*◌, Bool, true, false, not, ◌&&◌, ◌||◌, [], ◌∷◌, none, some, Bytes, ◌==◌, leb,
  if◌then◌else◌, length, get_or, take, drop, contains, rfind, u16,
}
use logrin.Pattern.Error.{
  Result, ok, err, ◌>>=◌, no_specification_accepted, no_format_accepted, bad_width_character,
  alignment_needs_width,
}
use logrin.Pattern.Segment.{
  Alignment, no_alignment, center, right, left, SegmentKind, SegmentCapability, no_capability,
  spec_only, padding_only, spec_and_padding, get_segment_capability, Directive, default_directive,
  is_no_alignment,
}

unfoldable pub is_alignment_character : ℕ → Bool
is_alignment_character ch = ch == b'<' || ch == b'>' || ch == b'^'

unfoldable pub is_digit : ℕ → Bool
is_digit ch = leb b'0' ch && leb ch b'9'

unfoldable pub get_alignment_from_character : ℕ → Alignment
get_alignment_from_character ch =
    if ch == b'<'
    then left
    else if ch == b'>'
    then right
    else if ch == b'^'
    then center
    else no_alignment

-- What the first bytes of the padding set, and where the width begins: `pos` in `parsePadding`.
unfoldable pub padding_prefix : Bytes → Directive → Directive × ℕ
unfolding is_alignment_character get_alignment_from_character
padding_prefix input d =
    let first = get_or input 0 0 in
    let second = get_or input 1 0 in
    if leb 2 (length input) && is_alignment_character second
    then (record d { fill = first; alignment = get_alignment_from_character second }, 2)
    else if is_alignment_character first
    then (record d { alignment = get_alignment_from_character first }, 1)
    else if first == b'0' && leb 2 (length input)
    then (record d { fill = b'0'; alignment = right }, 1)
    else (d, 0)

-- The loop over the digits from `pos` on: the width, in 16 bits, and `hasDigits`.
unfoldable pub parse_width : ℕ → Bool → Bytes → Result (ℕ × Bool)
unfolding is_digit
parse_width width has_digits [] = ok (width, has_digits)
parse_width width has_digits (ch ∷ rest) =
    let next = parse_width (u16 (width * 10 + (ch - b'0'))) true rest in
    if not (is_digit ch) then err (bad_width_character ch) else next

-- The end of `parsePadding`, after the loop.
unfoldable pub finish_padding : Directive → ℕ → Bool → Result Directive
finish_padding d width has_digits =
    if not has_digits && not (is_no_alignment d.alignment)
    then err alignment_needs_width
    else if has_digits && is_no_alignment d.alignment
    then ok (record d { alignment = right; width = width })
    else ok (record d { width = width })

-- `parsePadding`, which updates the directive in place.
unfoldable pub parse_padding : Bytes → Directive → Result Directive
unfolding padding_prefix parse_width finish_padding
parse_padding [] d = ok d
parse_padding (ch ∷ rest) d =
    let (d', pos) = padding_prefix (ch ∷ rest) d in
    parse_width 0 false (drop pos (ch ∷ rest)) >>= λ w. finish_padding d' w.0 w.1

abbrev pub set_spec : ℕ → ℕ → Directive → Directive
set_spec offset size d = record d { spec_offset = u16 offset; spec_length = u16 size }

-- With no `:` in it, a body that looks like padding is padding.
unfoldable pub looks_like_padding : Bytes → Bool
unfolding is_alignment_character is_digit
looks_like_padding input =
    let first = get_or input 0 0 in
    not (length input == 0)
    && (is_alignment_character first
        || is_digit first
        || (leb 2 (length input) && is_alignment_character (get_or input 1 0)))

-- A directive with the part before the colon as its specification, if there is any.
unfoldable pub spec_before : Bytes → ℕ → Directive
spec_before spec offset =
    if not (length spec == 0)
    then set_spec offset (length spec) default_directive
    else default_directive

-- The part behind the colon.
unfoldable pub padding_after : Bytes → Directive → Result Directive
unfolding parse_padding
padding_after padding d = if not (length padding == 0) then parse_padding padding d else ok d

-- The case `SpecAndPadding`, split at the last `:`.
unfoldable pub parse_spec_and_padding : Bytes → ℕ → Result Directive
unfolding looks_like_padding rfind spec_before padding_after
parse_spec_and_padding input offset = elim (rfind input b':') [
  | none ↦
      if looks_like_padding input
      then parse_padding input default_directive
      else ok (set_spec offset (length input) default_directive)
  | some colon ↦ padding_after (drop (suc colon) input) (spec_before (take colon input) offset)
]

-- The `switch` on the capability, for a body that is not empty.
unfoldable pub parse_body : SegmentCapability → Bytes → ℕ → Result Directive
unfolding parse_padding contains parse_spec_and_padding
parse_body no_capability input offset = err (no_specification_accepted input)
parse_body spec_only input offset = ok (set_spec offset (length input) default_directive)
parse_body padding_only input offset =
    if contains input b':' then err no_format_accepted else parse_padding input default_directive
parse_body spec_and_padding input offset = parse_spec_and_padding input offset

-- Whether the capability is `None`.
abbrev pub is_no_capability : SegmentCapability → Bool
is_no_capability no_capability = true
is_no_capability _ = false

-- `Directive::Parse`.
unfoldable pub parse : Bytes → ℕ → SegmentKind → Result Directive
unfolding parse_body get_segment_capability
parse input offset kind =
    let capability = get_segment_capability kind in
    if is_no_capability capability
    then err (no_specification_accepted input)
    else if length input == 0
    then ok default_directive
    else parse_body capability input offset
