-- ===== src/Pattern/Parser/Plain.antt =====
-- Patterns without directives.
use logrin.Base.{
  lt→ltb, ℕ, zero, suc, ◌+◌, ◌-◌, ◌<◌, ◌≡◌, ◌∙◌, refl, ap, true, false, [], ◌∷◌, none, Bytes, ◌==◌,
  length, get_or, contains, u16, u32, arith,
}
use logrin.Pattern.Error.{ok}
use logrin.Pattern.Parser.{
  ParseConfig, default_config, State, initial, step_literal, step, run, flush_literal,
  append_segment, finish, parse,
}
use logrin.Pattern.Segment.{literal, Segment}

get_or-contains :
    (input : Bytes) (i : ℕ) → contains input b'%' ≡ false → get_or input i 0 == b'%' ≡ false
unfolding contains
get_or-contains [] i h = refl
get_or-contains (c ∷ input) zero h = ground arith
get_or-contains (c ∷ input) (suc i) h = get_or-contains input i (ground arith)

-- The loop's state within a text that began the pattern.
abbrev within : ℕ → State
within pos = record { pos = pos; literal_start = 0; in_literal = true; depth = 0; segments = [] }

-- The segment for a whole pattern that is text.
abbrev pub whole : Bytes → Segment
whole input = record {
  kind = literal;
  text_offset = 0;
  text_length = length input;
  directive = none;
  depth = 0;
}

module _ (config : ParseConfig) (input : Bytes) (plain : contains input b'%' ≡ false) where
  step-plain : (s : State) → step config input s ≡ ok (step_literal s)
  unfolding step
  step-plain s = rw (get_or-contains input s.pos plain) refl

  module _ (short : length input < 65536) where
    small : u32 (length input) ≡ length input
    small = omega arith

    step-within :
        (pos : ℕ) → pos < length input → step config input (within pos) ≡ ok (within (pos + 1))
    unfolding step_literal
    step-within pos h = step-plain (within pos) ∙ ap (λ n. ok (within n)) (omega arith)

    run-within :
        (fuel pos : ℕ)
        → pos + fuel ≡ length input
        → run fuel config input (within pos) ≡ ok (within (length input))
    unfolding run
    run-within zero pos h = ap (λ n. ok (within n)) (omega arith)
    run-within (suc fuel) pos h =
        rw (small, lt→ltb pos (length input) (omega arith), step-within pos (omega arith))
          (run-within fuel (pos + 1) (omega arith))

    run-plain :
        (fuel : ℕ)
        → fuel ≡ length input
        → 0 < length input
        → run fuel config input initial ≡ ok (within (length input))
    unfolding run step_literal
    run-plain zero e h = absurd (omega arith)
    run-plain (suc fuel) e h =
        rw (small, lt→ltb 0 (length input) h, step-plain initial) (run-within fuel 1 (omega arith))

    spanned : u16 (u32 (length input + 4294967296 - 0)) ≡ length input
    spanned = omega arith

    -- A pattern that is not empty, has no `%` and is shorter than 65536 bytes is parsed, with any
    -- configuration, to a single literal that spans it.
    pub parse-plain :
        0 < length input
        → parse config input
          ≡ ok (record { segments = whole input ∷ []; pattern = input; config = default_config })
    unfolding parse finish flush_literal append_segment
    parse-plain h =
        rw (run-plain (u32 (length input)) small h, small, lt→ltb 0 (length input) h, spanned) refl
