-- ===== src/Pattern/Parser/Built.antt =====
-- What the loop of `Parse` can append, as a relation: every segment list that it builds is
-- derived from the empty one, a segment at a time. The properties of a parsed pattern are
-- inductions over such a derivation.
use logrin.Base.{
  All-append, All, ℕ, ◌+◌, ◌≤◌, ◌<◌, ◌≡◌, ◌≢◌, Bool, false, not, ◌&&◌, List, [], ◌∷◌, ◌++◌, none,
  Bytes, ◌==◌, length,
}
use logrin.Pattern.Error.{ok}
use logrin.Pattern.Parser.{
  ParseConfig, capacity, read_directive, check_specification, next_depth, contains_kind,
}
use logrin.Pattern.Segment.{SegmentKind, literal, Segment}

-- The span of a literal segment lies in the pattern. The offset and the length are kept in 16
-- bits, so the whole span is right only in a pattern that is short enough.
pub record Span (input : Bytes) (segment : Segment) : Type 0 where
  pub fits : (segment.text_offset < 65536) × (segment.text_length < 65536)
  pub starts : segment.text_offset ≤ length input
  pub ends : length input < 65536 → segment.text_offset + segment.text_length ≤ length input
  pub filled : length input < 65536 → 0 < segment.text_length

-- The kind passes the set of allowed segments.
abbrev pub is_refused : ParseConfig → SegmentKind → Bool
is_refused config kind =
    not (length config.allowed_segments == 0) && not (contains_kind config.allowed_segments kind)

-- The parser at depth `d` may append `segment`, and is then at depth `e`.
pub data Added (config : ParseConfig) (input : Bytes) (d : ℕ) (segment : Segment) (e : ℕ)
    : Type 0 where
  text :
      segment.kind ≡ literal
      → segment.directive ≡ none
      → segment.depth ≡ d
      → e ≡ d
      → Span input segment
      → Added config input d segment e
  directed :
      (pos after : ℕ)
      → segment.kind ≢ literal
      → (segment.text_offset ≡ 0) × (segment.text_length ≡ 0)
      → is_refused config segment.kind ≡ false
      → pos ≤ length input
      → read_directive input pos segment.kind ≡ ok (segment.directive, after)
      → check_specification segment.kind segment.directive ≡ ok tt
      → next_depth config.relaxed_style_nesting segment.kind d ≡ ok e
      → segment.depth ≡ e
      → Added config input d segment e

pub data Built (config : ParseConfig) (input : Bytes) : ℕ → List Segment → Type 0 where
  empty : Built config input 0 []
  add :
      {d e : ℕ} {segments : List Segment} {segment : Segment}
      → Built config input d segments
      → length segments < capacity
      → Added config input d segment e
      → Built config input e (segments ++ segment ∷ [])

-- What holds of every segment that may be appended holds of every segment of the pattern.
pub Built-All {ℓ} :
    {config : ParseConfig} {input : Bytes} (P : Segment → Type ℓ)
    → ((d e : ℕ) (segment : Segment) → Added config input d segment e → P segment)
    → {d : ℕ} {segments : List Segment} → Built config input d segments
    → All P segments
Built-All P each empty = tt
Built-All P each (add {d} {e} {segments = xs} {segment = x} b room a) =
    All-append P xs (x ∷ []) (Built-All P each b) (each d e x a, tt)
