-- ===== src/Pattern/Parser/Braces.antt =====
-- The body of a directive in braces, as the parser finds its end.
use logrin.Base.{
  ℕ, zero, suc, ◌+◌, ◌-◌, ◌≤◌, ◌<◌, ◌≡◌, ◌∙◌, refl, ap, Bool, true, false, ◌&&◌, [], ◌∷◌, ◌++◌,
  none, some, Bytes, ◌==◌, ltb, length, length-append, get_or, contains, u32, lt→ltb, arith,
}
use logrin.Pattern.Directive
use logrin.Pattern.Error.{ok}
use logrin.Pattern.Parser.Items.{At, take-append, At-now, At-first, At-lt, At-append}
use logrin.Pattern.Parser.{brace_step, scan_braces, read_body, read_directive}
use logrin.Pattern.Segment.{SegmentKind, Directive}

pub never : (b : Bool) → b && false ≡ false
never true = refl
never false = refl

brace_step-plain :
    (c : ℕ) (body : Bytes) (depth : ℕ)
    → contains (c ∷ body) b'{' ≡ false
    → contains (c ∷ body) b'}' ≡ false
    → (brace_step c depth ≡ depth) × (contains body b'{' ≡ false) × (contains body b'}' ≡ false)
unfolding contains brace_step
brace_step-plain c body depth o e = (ground arith, ground arith, ground arith)

module _ (input : Bytes) (short : length input < 65536) where
  scan_braces-closed :
      (fuel ending : ℕ) → scan_braces fuel input (length input) ending 0 ≡ (ending, 0)
  unfolding scan_braces
  scan_braces-closed zero ending = refl
  scan_braces-closed (suc fuel) ending = rw (never (ltb ending (length input))) refl

  -- The search stops behind the brace that closes the body.
  scan_braces-body :
      (fuel ending : ℕ) (body rest : Bytes)
      → At input ending (body ++ b'}' ∷ rest)
      → contains body b'{' ≡ false
      → contains body b'}' ≡ false
      → length input ≤ ending + fuel
      → scan_braces fuel input (length input) ending 1 ≡ (ending + length body + 1, 0)
  unfolding scan_braces brace_step
  scan_braces-body zero ending body rest a o e f =
      absurd (omega (arith, a.ends, length-append body (b'}' ∷ rest)))
  scan_braces-body (suc fuel) ending [] rest a o e f =
      let next : u32 (ending + 1) ≡ ending + 0 + 1 = omega (arith, a.ends) in
      rw
        (
          lt→ltb ending (length input) (At-lt a),
          At-first a,
          scan_braces-closed fuel (u32 (ending + 1)),
          next,
        )
        refl
  scan_braces-body (suc fuel) ending (c ∷ body) rest a o e f =
      let next : u32 (ending + 1) ≡ ending + 1 = omega (arith, a.ends) in
      let (same, opens, closes) = brace_step-plain c body 1 o e in
      rw (lt→ltb ending (length input) (At-lt a), At-first a, same, next)
        (scan_braces-body fuel (ending + 1) body rest (At-append (c ∷ []) (body ++ b'}' ∷ rest) a)
            opens closes (omega arith)
          ∙ ap (λ n. (n, 0)) (omega arith))

  pub short_length : u32 (length input) ≡ length input
  short_length = omega arith

  pub read_directive-bare :
      (pos : ℕ) (kind : SegmentKind) (rest : Bytes)
      → At input pos rest
      → get_or rest 0 0 == b'{' ≡ false
      → read_directive input pos kind ≡ ok (none, pos)
  unfolding read_directive
  read_directive-bare pos kind rest a h =
      rw (At-now a, h, never (ltb pos (u32 (length input)))) refl

  pub read_directive-braced :
      (pos : ℕ) (kind : SegmentKind) (body rest : Bytes) (d : Directive)
      → At input pos (b'{' ∷ (body ++ b'}' ∷ rest))
      → contains body b'{' ≡ false
      → contains body b'}' ≡ false
      → Directive.parse body (pos + 1) kind ≡ ok d
      → read_directive input pos kind ≡ ok (some d, pos + 1 + length body + 1)
  unfolding read_directive read_body
  read_directive-braced pos kind body rest d a o e parsed =
      let inner : At input (pos + 1) (body ++ b'}' ∷ rest) =
        At-append (b'{' ∷ []) (body ++ b'}' ∷ rest) a in
      let start : u32 (pos + 1) ≡ pos + 1 = omega (arith, a.ends) in
      let size : pos + 1 + length body + 1 - 1 - (pos + 1) ≡ length body = omega arith in
      rw
        (
          short_length,
          lt→ltb pos (length input) (At-lt a),
          At-first a,
          start,
          scan_braces-body (length input) (pos + 1) body rest inner o e (omega arith),
          size,
          inner.behind,
          take-append body (b'}' ∷ rest),
          parsed,
        )
        refl
