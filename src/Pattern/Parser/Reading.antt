-- ===== src/Pattern/Parser/Reading.antt =====
-- src/formatters/pattern/Parser.cc: what `Parse` reads behind a `%`, the directive's name and its body.
use logrin.Base.{
  ℕ, zero, suc, ◌+◌, ◌-◌, not, ◌&&◌, Option, none, some, Bytes, ◌==◌, ltb, if◌then◌else◌, length,
  get_or, drop, substr, u32,
}
use logrin.Pattern.Directive
use logrin.Pattern.Error.{Result, ok, err, ◌>>=◌, unterminated_brace}
use logrin.Pattern.Segment.{
  SegmentKind, timestamp, level, message, logger, file, function_name, line_num, column_num,
  thread_id, all_attributes, attribute, Directive,
}
use logrin.Pattern.Parser.Keywords.{try_match_keyword}

-- The `switch` on the byte behind a `%` that starts no keyword; `none` is its default.
unfoldable pub spec_kind : ℕ → Option SegmentKind
spec_kind c =
    if c == b'L'
    then some level
    else if c == b'm'
    then some message
    else if c == b'T'
    then some thread_id
    else if c == b't'
    then some timestamp
    else if c == b'n'
    then some logger
    else if c == b'f'
    then some file
    else if c == b'l'
    then some line_num
    else if c == b'c'
    then some column_num
    else if c == b'F'
    then some function_name
    else if c == b'A'
    then some all_attributes
    else if c == b'X'
    then some attribute
    else none

-- What stands behind a `%`, with the position after it. The enumerator 255, which `kind` holds
-- before this, is always replaced or left by a return, so no case models the check for it.
pub data Token : Type 0 where
  directive : SegmentKind → ℕ → Token
  percent : ℕ → Token
  unknown : ℕ → Token

unfoldable pub spec_token : ℕ → ℕ → Token
unfolding spec_kind
spec_token spec after = elim (spec_kind spec) [
  | some kind ↦ directive kind after
  | none ↦ unknown spec
]

unfoldable pub read_token : Bytes → ℕ → Token
unfolding spec_token
read_token input pos =
    let (kw_len, kw_kind) = try_match_keyword (drop (pos + 1) input) in
    let spec = get_or input (pos + 1) 0 in
    let after = u32 (pos + 2) in
    if ltb 0 kw_len
    then directive kw_kind (u32 (pos + (1 + kw_len)))
    else if spec == b'%'
    then percent after
    else spec_token spec after

-- `braceDepth` behind one more byte; the loop runs only while it is not 0.
unfoldable pub brace_step : ℕ → ℕ → ℕ
brace_step c brace_depth =
    if c == b'{' then u32 (brace_depth + 1) else if c == b'}' then brace_depth - 1 else brace_depth

-- The loop for the matching `}`: from `ending` and `braceDepth` to their final values.
unfoldable pub scan_braces : ℕ → Bytes → ℕ → ℕ → ℕ → ℕ × ℕ
scan_braces zero input len ending brace_depth = (ending, brace_depth)
scan_braces (suc fuel) input len ending brace_depth =
    let next = brace_step (get_or input ending 0) brace_depth in
    let rest = scan_braces fuel input len (u32 (ending + 1)) next in
    if ltb ending len && ltb 0 brace_depth then rest else (ending, brace_depth)

-- The body of the braces, once the loop has stopped at `(ending, braceDepth)`.
unfoldable pub read_body : Bytes → ℕ → SegmentKind → ℕ × ℕ → Result (Option Directive × ℕ)
read_body input start kind (ending, brace_depth) =
    if not (brace_depth == 0)
    then err unterminated_brace
    else (Directive.parse (substr input start (ending - 1 - start)) start kind >>= λ d.
        ok (some d, ending))

-- The optional `{...}` at `pos`, with the position behind it.
unfoldable pub read_directive : Bytes → ℕ → SegmentKind → Result (Option Directive × ℕ)
unfolding read_body scan_braces
read_directive input pos kind =
    let len = u32 (length input) in
    let start = u32 (pos + 1) in
    if ltb pos len && get_or input pos 0 == b'{'
    then read_body input start kind (scan_braces len input len start 1)
    else ok (none, pos)
