-- ===== src/Pattern/Parser/Nesting.antt =====
-- The style nesting of a parsed pattern: `depth` in `Parse`, and `Segment::Depth`.
use logrin.Base.{
  ℕ, u8, sym, zero, suc, All, All-append, ◌+◌, ◌≤◌, ◌<◌, ◌≡◌, refl, ◌≢◌, subst, Bool, true, false,
  List, [], ◌∷◌, ◌++◌, Bytes, ◌⊎◌, length, length-append, arith,
}
use logrin.Pattern.Error.{ok, ok-injective, err-ne-ok}
use logrin.Pattern.Parser.Built.{Added, text, directed, Built, empty, add}
use logrin.Pattern.Parser.Invariant.{parse-IsParsed}
use logrin.Pattern.Parser.{ParseConfig, ParsedPattern, capacity, is_style_start, next_depth, parse}
use logrin.Pattern.Segment.{
  foreground_color_start, background_color_start, level_color_start, bold, dim, italic, underline,
  strikethrough, SegmentKind, literal, style_end, underlying, Segment,
}

-- How a segment of this kind moves between levels. Only a relaxed pattern may end a style at
-- level 0, which stays there.
pub data Level (relaxed : Bool) (kind : SegmentKind) (d e : ℕ) : Type 0 where
  opens : is_style_start kind ≡ true → e ≡ suc d → Level relaxed kind d e
  closes : kind ≡ style_end → d ≡ suc e → Level relaxed kind d e
  ignored : kind ≡ style_end → relaxed ≡ true → d ≡ 0 → e ≡ 0 → Level relaxed kind d e
  keeps : is_style_start kind ≡ false → kind ≢ style_end → e ≡ d → Level relaxed kind d e

-- The segments lead from level `d` to level `e`, and each records the level behind it.
pub data Nested (relaxed : Bool) (d : ℕ) : List Segment → ℕ → Type 0 where
  nil : Nested relaxed d [] d
  snoc :
      {segments : List Segment} (segment : Segment) {e f : ℕ}
      → Nested relaxed d segments e
      → Level relaxed segment.kind e f
      → segment.depth ≡ f
      → Nested relaxed d (segments ++ segment ∷ []) f

opened : (d : ℕ) {e : ℕ} → d < 255 → ok (u8 (d + 1)) ≡ ok e → e ≡ suc d
opened d h q = ground arith

ended :
    (relaxed : Bool) (d e : ℕ) → next_depth relaxed style_end d ≡ ok e → Level relaxed style_end d e
unfolding next_depth
ended true zero e q = ignored refl refl refl (ground arith)
ended false zero e q = absurd (err-ne-ok q)
ended relaxed (suc d) e q = closes refl (ground arith)

next_depth-Level :
    (relaxed : Bool) (kind : SegmentKind) (d e : ℕ)
    → d < 255
    → next_depth relaxed kind d ≡ ok e
    → Level relaxed kind d e
unfolding next_depth is_style_start underlying
next_depth-Level relaxed foreground_color_start d e h q = opens refl (opened d h q)
next_depth-Level relaxed background_color_start d e h q = opens refl (opened d h q)
next_depth-Level relaxed level_color_start d e h q = opens refl (opened d h q)
next_depth-Level relaxed bold d e h q = opens refl (opened d h q)
next_depth-Level relaxed dim d e h q = opens refl (opened d h q)
next_depth-Level relaxed italic d e h q = opens refl (opened d h q)
next_depth-Level relaxed underline d e h q = opens refl (opened d h q)
next_depth-Level relaxed strikethrough d e h q = opens refl (opened d h q)
next_depth-Level relaxed style_end d e h q = ended relaxed d e q
next_depth-Level relaxed _ d e h q = keeps refl (λ p. cc) (sym (ok-injective q))

Level-le : {relaxed : Bool} {kind : SegmentKind} {d e : ℕ} → Level relaxed kind d e → e ≤ suc d
Level-le (opens _ q) = omega arith
Level-le (closes _ q) = omega arith
Level-le (ignored _ _ _ q) = omega arith
Level-le (keeps _ _ q) = omega arith

text-Level :
    (relaxed : Bool) (segment : Segment) {d e : ℕ}
    → segment.kind ≡ literal
    → e ≡ d
    → Level relaxed segment.kind d e
unfolding is_style_start
text-Level relaxed segment k q = keeps (rw k refl) (λ p. ground arith) q

Added-Level :
    {config : ParseConfig} {input : Bytes} {d e : ℕ} (segment : Segment)
    → Added config input d segment e
    → d < 255
    → Level config.relaxed_style_nesting segment.kind d e × (segment.depth ≡ e)
Added-Level {config} segment (text k _ p q _) h =
    (text-Level config.relaxed_style_nesting segment k q, omega arith)
Added-Level {config} {d = d} {e = e} segment (directed _ _ _ _ _ _ _ _ nested p) h =
    (next_depth-Level config.relaxed_style_nesting segment.kind d e h nested, p)

Built-length :
    {config : ParseConfig} {input : Bytes} {d : ℕ} {segments : List Segment}
    → Built config input d segments
    → (length segments ≤ capacity) × (d ≤ length segments)
Built-length empty = omega arith
Built-length (add {segments = xs} {segment = x} b room a) =
    let (_, below) = Built-length b in
    let count = length-append xs (x ∷ []) in
    let step = Level-le (Added-Level x a (omega arith)).0 in omega arith

-- The segments that are built lead from level 0 to the depth that the parser holds.
Built-Nested :
    {config : ParseConfig} {input : Bytes} {d : ℕ} {segments : List Segment}
    → Built config input d segments
    → Nested config.relaxed_style_nesting 0 segments d
Built-Nested empty = nil
Built-Nested (add {segment = x} b room a) =
    let below = (Built-length b).1 in
    let (l, q) = Added-Level x a (omega arith) in snoc x (Built-Nested b) l q

closed_depth :
    {relaxed : Bool} {depth : ℕ} → relaxed ≡ false → (relaxed ≡ true) ⊎ (depth ≡ 0) → depth ≡ 0
closed_depth h c = ground arith

Built-depths :
    {config : ParseConfig} {input : Bytes} {d : ℕ} {segments : List Segment}
    → Built config input d segments
    → All (λ s. s.depth ≤ 64) segments
Built-depths empty = tt
Built-depths (add {segments = xs} {segment = x} b room a) =
    let below = (Built-length b).1 in
    let (l, q) = Added-Level x a (omega arith) in
    let step = Level-le l in
    All-append (λ s. s.depth ≤ 64) xs (x ∷ []) (Built-depths b) (omega arith, tt)

-- A pattern that is parsed with strict nesting has balanced styles: its segments lead from
-- level 0 back to level 0, never end a style that is not open, and each of them records the
-- number of styles that are open behind it.
pub parse-Nested :
    (config : ParseConfig) (input : Bytes) {p : ParsedPattern}
    → config.relaxed_style_nesting ≡ false
    → parse config input ≡ ok p
    → Nested false 0 p.segments 0
parse-Nested config input {p} strict e =
    let (depth, v) = parse-IsParsed config input e in
    subst (λ d. Nested false 0 p.segments d) (closed_depth strict v.closed)
      (subst (λ r. Nested r 0 p.segments depth) strict (Built-Nested v.built))

-- A parsed pattern fits the array of 64 segments, and each segment's depth is at most the
-- number of segments, so the depth never wraps in its 8 bits.
pub parse-length :
    (config : ParseConfig) (input : Bytes) {p : ParsedPattern}
    → parse config input ≡ ok p
    → (length p.segments ≤ 64) × All (λ s. s.depth ≤ 64) p.segments
parse-length config input e =
    let (depth, v) = parse-IsParsed config input e in
    ((Built-length v.built).0, Built-depths v.built)
