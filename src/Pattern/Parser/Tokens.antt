-- ===== src/Pattern/Parser/Tokens.antt =====
-- The positions that the parser reads on from lie in the pattern.
use logrin.Base.{
  ℕ, zero, suc, ◌+◌, ◌-◌, u32, substr, ◌≤◌, ◌<◌, ◌≡◌, ◌≢◌, subst, inl, inr, ◌&&◌, Option, some,
  Bytes, ◌==◌, ltb, length, get_or, drop, length-drop, Bool-cases, Option-cases, arith,
}
use logrin.Pattern.Directive
use logrin.Pattern.Error.{ok, bind-eq-ok, ok-injective, err-ne-ok}
use logrin.Pattern.Parser.Keywords.{
  try_match_keyword, try_match_keyword-ne_literal, try_match_keyword-le,
}
use logrin.Pattern.Parser.{
  spec_token, spec_kind, Token, directive, percent, unknown, read_token, scan_braces, read_body,
  read_directive,
}
use logrin.Pattern.Segment.{SegmentKind, literal, Directive}

module _ (input : Bytes) where
  pub scan_braces-le :
      (fuel ending depth : ℕ)
      → ending ≤ length input
      → (scan_braces fuel input (u32 (length input)) ending depth).0 ≤ length input
  unfolding scan_braces
  scan_braces-le zero ending depth h = h
  scan_braces-le (suc fuel) ending depth h =
      elim (Bool-cases (ltb ending (u32 (length input)) && ltb 0 depth)) [
        | inl more ↦
            let below : ending < u32 (length input) = ground arith in
            rw more (scan_braces-le fuel _ _ (omega arith))
        | inr stop ↦ rw stop h
      ]

  pub read_body-eq :
      (start : ℕ) (kind : SegmentKind) (scanned : ℕ × ℕ) {r : Option Directive × ℕ}
      → read_body input start kind scanned ≡ ok r
      → (d : Directive) × (Directive.parse (substr input start (scanned.0 - 1 - start)) start kind
          ≡ ok d)
        × ((some d, scanned.0) ≡ r)
  unfolding read_body
  read_body-eq start kind (ending, depth) e = elim (Bool-cases (depth == 0)) [
    | inl closed ↦
        let (d, parsed, f) =
          bind-eq-ok (Directive.parse (substr input start (ending - 1 - start)) start kind)
            (λ d. ok (some d, ending)) (rw closed at e) in
        (d, parsed, ok-injective f)
    | inr unclosed ↦ absurd (err-ne-ok (rw unclosed at e))
  ]

  pub read_directive-le :
      (pos : ℕ) (kind : SegmentKind) {r : Option Directive × ℕ}
      → pos ≤ length input
      → read_directive input pos kind ≡ ok r
      → r.1 ≤ length input
  unfolding read_directive
  read_directive-le pos kind h e =
      elim (Bool-cases (ltb pos (u32 (length input)) && get_or input pos 0 == b'{')) [
        | inl braced ↦
            let below : pos < u32 (length input) = ground arith in
            let (_, _, f) = read_body-eq (u32 (pos + 1)) kind scanned (rw braced at e) in
            subst (λ (r : Option Directive × ℕ). r.1 ≤ length input) f
              (scan_braces-le (u32 (length input)) (u32 (pos + 1)) 1 (omega arith))
        | inr plain ↦
            subst (λ (r : Option Directive × ℕ). r.1 ≤ length input) (ok-injective (rw plain at e))
              h
      ]
    where
      scanned : ℕ × ℕ
      scanned = scan_braces (u32 (length input)) input (u32 (length input)) (u32 (pos + 1)) 1

  next_pos-le :
      (pos n : ℕ)
      → n ≤ length (drop (pos + 1) input)
      → pos < length input
      → u32 (pos + (1 + n)) ≤ length input
  next_pos-le pos n h k = omega (arith, length-drop (pos + 1) input)

  abbrev pub TokenFits : Token → Type 0
  TokenFits (directive kind pos) = (kind ≢ literal) × (pos ≤ length input)
  TokenFits (percent pos) = (0 < pos) × (pos ≤ length input)
  TokenFits (unknown spec) = Unit {0}

  spec_kind-ne_literal : (c : ℕ) {kind : SegmentKind} → spec_kind c ≡ some kind → kind ≢ literal
  unfolding spec_kind
  spec_kind-ne_literal c e p = ground arith

  spec_token-TokenFits : (c after : ℕ) → after ≤ length input → TokenFits (spec_token c after)
  unfolding spec_token
  spec_token-TokenFits c after h = elim (Option-cases (spec_kind c)) [
    | inl other ↦ rw (other, spec_token) tt
    | inr (kind, known) ↦ rw (known, spec_token) (spec_kind-ne_literal c known, h)
  ]

  pub read_token-TokenFits :
      (pos : ℕ) → pos + 2 ≤ length input → pos + 2 < 4294967296 → TokenFits (read_token input pos)
  unfolding read_token
  read_token-TokenFits pos h k =
      let rest = drop (pos + 1) input in
      let ends = next_pos-le pos (try_match_keyword rest).0 (try_match_keyword-le rest) in
      elim (Bool-cases (ltb 0 (try_match_keyword rest).0)) [
        | inl found ↦
            rw found (try_match_keyword-ne_literal rest (λ z. ground arith), ends (omega arith))
        | inr missing ↦ elim (Bool-cases (get_or input (pos + 1) 0 == b'%')) [
          | inl escaped ↦ rw (missing, escaped) (omega arith, omega arith)
          | inr other ↦
              rw (missing, other)
                (spec_token-TokenFits (get_or input (pos + 1) 0) (u32 (pos + 2)) (omega arith))
        ]
      ]
