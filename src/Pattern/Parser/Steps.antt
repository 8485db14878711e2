-- ===== src/Pattern/Parser/Steps.antt =====
-- The rounds of the parser's loop on the items of a pattern.
use logrin.Base.{
  ℕ, suc, ◌+◌, ◌-◌, ◌≤◌, ◌<◌, ◌≡◌, ◌∙◌, refl, ap, inl, inr, Bool, true, false, not, ◌||◌, List, [],
  ◌∷◌, ◌++◌, Option, none, some, Bytes, leb, length, length-append, u16, u32, Bool-cases, lt→ltb,
  arith,
}
use logrin.Pattern.Error.{ok, ◌>>=◌, bind-ok}
use logrin.Pattern.Parser.Braces.{never}
use logrin.Pattern.Parser.Items.{
  needs_specification, is_open, depth_after, At, At-first, At-get_or, At-append,
}
use logrin.Pattern.Parser.Names.{name, separates, name-positive, read_token-name}
use logrin.Pattern.Parser.{
  read_token, step_token, get_segment_capability, is_spec_only, directive, default_config, State,
  is_style_start, same_kind, append_segment, flush_literal, read_directive, check_specification,
  next_depth, step_directive, step,
}
use logrin.Pattern.Segment.{
  get_segment_capability, SegmentKind, literal, attribute, foreground_color_start,
  background_color_start, style_end, Directive, has_specification, Segment,
}

abbrev pub at : ℕ → ℕ → Bool → ℕ → List Segment → State
at pos start in_text depth segments = record {
  pos = pos;
  literal_start = start;
  in_literal = in_text;
  depth = depth;
  segments = segments;
}

abbrev pub span : ℕ → ℕ → ℕ → Segment
span start size depth = record {
  kind = literal;
  text_offset = start;
  text_length = size;
  directive = none;
  depth = depth;
}

-- The segments with the text that the loop is in.
abbrev pub held : Bool → ℕ → ℕ → ℕ → List Segment → List Segment
held true start pos depth segments = segments ++ span start (pos - start) depth ∷ []
held false start pos depth segments = segments

pub append_segment-room :
    (segment : Segment) (s : State)
    → length s.segments < 64
    → append_segment segment s ≡ ok (record s { segments = s.segments ++ segment ∷ [] })
unfolding append_segment
append_segment-room segment s h = elim (Bool-cases (leb 64 (length s.segments))) [
  | inl full ↦ absurd (ground arith)
  | inr room ↦ rw room refl
]

pub flush-held :
    (pos start : ℕ) (in_text : Bool) (depth : ℕ) (segments : List Segment)
    → (in_text ≡ true → start < pos)
    → pos < 65536
    → length (held in_text start pos depth segments) ≤ 64
    → flush_literal pos (at pos start in_text depth segments)
      ≡ ok (at pos start false depth (held in_text start pos depth segments))
unfolding flush_literal
flush-held pos start false depth segments h small room = refl
flush-held pos start true depth segments h small room =
    let start_small : u16 start ≡ start = omega (arith, h refl) in
    let size_small : u16 (u32 (pos + 4294967296 - start)) ≡ pos - start = omega (arith, h refl) in
    rw (lt→ltb start pos (h refl)) (
      append_segment-room _ (at pos start false depth segments)
        (omega (arith, length-append segments (span start (pos - start) depth ∷ [])))
      ∙ rw (start_small, size_small) refl)

pub check-bare :
    (kind : SegmentKind) → needs_specification kind ≡ false → check_specification kind none ≡ ok tt
unfolding check_specification
check-bare attribute h = ground arith
check-bare foreground_color_start h = ground arith
check-bare background_color_start h = ground arith
check-bare _ h = refl

pub check-given :
    (kind : SegmentKind) (d : Directive)
    → not (needs_specification kind) || has_specification d ≡ true
    → check_specification kind (some d) ≡ ok tt
unfolding check_specification
check-given kind d h = elim (Bool-cases (has_specification d)) [
  | inl given ↦
      rw (given, never (is_spec_only (get_segment_capability kind) || same_kind kind attribute))
        refl
  | inr empty ↦ rw empty (check-bare kind (ground arith))
]

next_depth-open :
    (kind : SegmentKind) (depth : ℕ)
    → is_open kind depth ≡ true
    → depth < 255
    → next_depth false kind depth ≡ ok (depth_after kind depth)
unfolding next_depth is_style_start
next_depth-open kind depth h small = elim (Bool-cases (is_style_start kind)) [
  | inl begins ↦ rw begins (ap ok (omega arith))
  | inr other ↦ elim (Bool-cases (same_kind kind style_end)) [
    | inl closes ↦ rw (other, closes) (ground arith)
    | inr neither ↦ rw (other, neither) refl
  ]
]

module _ (input : Bytes) (short : length input < 65536) where
  le-none : (a b : ℕ) → b < a → leb a b ≡ false
  le-none a b h = ground arith

  pub step-sign :
      (s : State) (rest : Bytes)
      → At input s.pos (b'%' ∷ rest)
      → 0 < length rest
      → step default_config input s
        ≡ (flush_literal s.pos s >>= step_token default_config input (read_token input s.pos))
  unfolding step
  step-sign s rest a more =
      let later : leb (u32 (length input)) (u32 (s.pos + 1)) ≡ false =
        le-none _ _ (omega (arith, a.ends)) in
      rw (At-first a, later) refl

  step_directive-ok :
      (kind : SegmentKind) (s : State) (body : Option Directive) (after : ℕ)
      → read_directive input s.pos kind ≡ ok (body, after)
      → check_specification kind body ≡ ok tt
      → is_open kind s.depth ≡ true
      → s.depth < 255
      → length s.segments < 64
      → step_directive default_config input kind s
        ≡ ok (record s {
          pos = after;
          literal_start = after;
          depth = depth_after kind s.depth;
          segments =
              s.segments
              ++ record {
                kind = kind;
                text_offset = 0;
                text_length = 0;
                directive = body;
                depth = depth_after kind s.depth;
              }
                ∷ [];
        })
  unfolding step_directive
  step_directive-ok kind s body after reads checks opened small room =
      bind-ok _ _ reads
      ∙ (bind-ok _ _ checks
          ∙ (bind-ok _ _ (next_depth-open kind s.depth opened small)
              ∙ append_segment-room _
                  (record s {
                    pos = after;
                    literal_start = after;
                    depth = depth_after kind s.depth;
                  })
                  room))

  -- The round on a directive, once its body has been read.
  pub step-directive :
      (pos start : ℕ) (in_text : Bool) (depth : ℕ) (segments : List Segment) (kind : SegmentKind)
      (rest : Bytes) (body : Option Directive) (after : ℕ)
      → At input pos (b'%' ∷ (name kind ++ rest))
      → separates kind rest ≡ true
      → read_directive input (pos + suc (length (name kind))) kind ≡ ok (body, after)
      → check_specification kind body ≡ ok tt
      → is_open kind depth ≡ true
      → depth < 255
      → (in_text ≡ true → start < pos)
      → length (held in_text start pos depth segments) < 64
      → step default_config input (at pos start in_text depth segments)
        ≡ ok (
            at after after false (depth_after kind depth) (
              held in_text start pos depth segments
              ++ record {
                kind = kind;
                text_offset = 0;
                text_length = 0;
                directive = body;
                depth = depth_after kind depth;
              }
                ∷ []))
  unfolding step_token
  step-directive pos start in_text depth segments kind rest body after a sep reads checks opened
        small begun room =
      let named : At input (pos + 1) (name kind ++ rest) =
        At-append (b'%' ∷ []) (name kind ++ rest) a in
      let total : length (name kind ++ rest) ≡ length (name kind) + length rest =
        length-append (name kind) rest in
      let positive : 0 < length (name kind) = name-positive kind rest sep in
      let before : State = at pos start false depth (held in_text start pos depth segments) in
      let token : read_token input pos ≡ directive kind (pos + suc (length (name kind))) =
        read_token-name kind rest input pos sep named.behind (At-get_or a 1)
        ∙ ap (directive kind) (omega (arith, a.ends)) in
      step-sign (at pos start in_text depth segments) (name kind ++ rest) a (omega arith)
      ∙ (bind-ok _ _ (
            flush-held pos start in_text depth segments begun (omega (arith, a.ends)) (omega arith))
          ∙ (ap (λ t. step_token default_config input t before) token
              ∙ step_directive-ok kind (record before { pos = pos + suc (length (name kind)) }) body
                  after reads checks opened small room))
