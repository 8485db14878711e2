-- ===== src/Pattern/Content/Levels.antt =====
-- src/formatters/pattern/Parser.cc: `ParsedPattern::FormatSegments` on `%L`.
use logrin.Base.{
  ◌≡◌, refl, inl, inr, Bool, true, false, List, [], ◌∷◌, Option, none, some, Bytes, if◌then◌else◌,
  Bool-cases, arith,
}
use logrin.Pattern.Content.{dispatch_segment, format_segments}
use logrin.Pattern.Parser.{ParsedPattern}
use logrin.Pattern.Runtime.{Runtime, ◌>>=◌}
use logrin.Pattern.Segment.{SegmentKind, level, Segment}
use logrin.Record.{LogRecord}

unfoldable pub is_level : SegmentKind → Bool
is_level level = true
is_level _ = false

-- The segments that are no `%L`.
unfoldable pub without_levels : List Segment → List Segment
unfolding is_level
without_levels [] = []
without_levels (s ∷ rest) =
    let others = without_levels rest in if is_level s.kind then others else s ∷ others

pub same_bind :
    (m : Option Bytes) (f g : Bytes → Option Bytes)
    → ((o : Bytes) → f o ≡ g o)
    → (m >>= f) ≡ (m >>= g)
same_bind none f g h = refl
same_bind (some o) f g h = h o

module _ {D : Type 0} (env : Runtime D) where
  dispatch_segment-level :
      (kind : SegmentKind) (p : ParsedPattern) (s : Segment) (r : LogRecord D) (out : Bytes)
      → is_level kind ≡ true
      → dispatch_segment env kind p s r out ≡ some out
  unfolding dispatch_segment is_level
  dispatch_segment-level level p s r out h = refl
  dispatch_segment-level _ p s r out h = ground arith

  -- `FormatSegments` leaves out every `%L`: it writes what it would write without those segments.
  pub format_segments-without_levels :
      (p : ParsedPattern) (r : LogRecord D) (segments : List Segment) (out : Bytes)
      → format_segments env p r segments out ≡ format_segments env p r (without_levels segments) out
  unfolding format_segments without_levels
  format_segments-without_levels p r [] out = refl
  format_segments-without_levels p r (s ∷ rest) out = elim (Bool-cases (is_level s.kind)) [
    | inl dropped ↦
        rw (dropped, dispatch_segment-level s.kind p s r out dropped)
          (format_segments-without_levels p r rest out)
    | inr kept ↦ rw kept (
        same_bind (dispatch_segment env s.kind p s r out) _ _
          (λ o. format_segments-without_levels p r rest o))
  ]
