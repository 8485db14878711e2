-- ===== src/Pattern/Parser/Runs.antt =====
-- The parser's loop on the items of a pattern.
use logrin.Base.{
  subst, ℕ, zero, suc, ◌+◌, ◌-◌, ◌≤◌, ◌<◌, ◌≡◌, ◌∙◌, refl, sym, ap, Bool, true, false, List, [],
  ◌∷◌, ◌++◌, append_assoc, none, some, Bytes, ◌==◌, ltb, length, length-append, contains, u16, u32,
  lt→ltb, arith,
}
use logrin.Pattern.Directive
use logrin.Pattern.Error.{ok, bind-ok}
use logrin.Pattern.Parser.Braces.{short_length, read_directive-bare, read_directive-braced}
use logrin.Pattern.Parser.Items.{
  Item, text, percent, bare, braced, print_item, item_depth, piece, Fits, is_text, At, At-first,
  At-lt, At-get_or, At-append,
}
use logrin.Pattern.Parser.Keywords.{try_match_keyword, match_keyword}
use logrin.Pattern.Parser.Names.{name, separates-brace}
use logrin.Pattern.Parser.Steps.{
  at, span, held, flush-held, append_segment-room, check-bare, check-given, step-sign,
  step-directive,
}
use logrin.Pattern.Parser.{
  Token, default_config, State, read_token, step_percent, step_token, step_literal, step, run,
}
use logrin.Pattern.Segment.{SegmentKind, Segment}

module _ (input : Bytes) (short : length input < 65536) where
  read_token-percent :
      (pos : ℕ) (rest : Bytes)
      → At input pos (b'%' ∷ b'%' ∷ rest)
      → read_token input pos ≡ Token.percent (pos + 2)
  unfolding read_token try_match_keyword match_keyword
  read_token-percent pos rest a =
      let second : At input (pos + 1) (b'%' ∷ rest) = At-append (b'%' ∷ []) (b'%' ∷ rest) a in
      let after : u32 (pos + 2) ≡ pos + 2 = omega (arith, a.ends) in
      rw (second.behind, At-get_or a 1, after) refl

  step-percent :
      (pos start : ℕ) (in_text : Bool) (depth : ℕ) (segments : List Segment) (rest : Bytes)
      → At input pos (b'%' ∷ b'%' ∷ rest)
      → (in_text ≡ true → start < pos)
      → length (held in_text start pos depth segments) < 64
      → step default_config input (at pos start in_text depth segments)
        ≡ ok (
            at
              (pos + 2)
              (pos + 2)
              false
              depth
              (held in_text start pos depth segments ++ span (pos + 1) 1 depth ∷ []))
  unfolding step_token step_percent
  step-percent pos start in_text depth segments rest a begun room =
      let before : State = at pos start false depth (held in_text start pos depth segments) in
      let offset : u16 (pos + 2 - 1) ≡ pos + 1 = omega (arith, a.ends) in
      step-sign input short (at pos start in_text depth segments) (b'%' ∷ rest) a (omega arith)
      ∙ (bind-ok _ _ (
            flush-held pos start in_text depth segments begun (omega (arith, a.ends)) (omega arith))
          ∙ (ap (λ t. step_token default_config input t before) (read_token-percent pos rest a)
              ∙ rw offset (
                  append_segment-room (span (pos + 1) 1 depth)
                    (record before { pos = pos + 2; literal_start = pos + 2 }) room)))

  pub run-step :
      (fuel : ℕ) (s : State) {t : State}
      → s.pos < length input
      → step default_config input s ≡ ok t
      → run (suc fuel) default_config input s ≡ run fuel default_config input t
  unfolding run
  run-step fuel s below e = rw (short_length input short, lt→ltb s.pos (length input) below, e) refl

  pub step-byte :
      (s : State) (c : ℕ) (rest : Bytes)
      → At input s.pos (c ∷ rest)
      → c == b'%' ≡ false
      → step default_config input s ≡ ok (step_literal s)
  unfolding step
  step-byte s c rest a h = rw (At-first a, h) refl

  -- The loop within a text, up to its end.
  pub run-text :
      (fuel pos start depth : ℕ) (segments : List Segment) (t rest : Bytes)
      → At input pos (t ++ rest)
      → contains t b'%' ≡ false
      → length input ≤ pos + fuel
      → (left : ℕ) × (length input ≤ pos + length t + left)
        × (run fuel default_config input (at pos start true depth segments)
            ≡ run left default_config input (at (pos + length t) start true depth segments))
  unfolding contains step_literal
  run-text fuel pos start depth segments [] rest a h f = (
    fuel,
    omega arith,
    ap (λ n. run fuel default_config input (at n start true depth segments)) (omega arith),
  )
  run-text zero pos start depth segments (c ∷ t) rest a h f = absurd (omega (arith, At-lt a))
  run-text (suc fuel) pos start depth segments (c ∷ t) rest a h f =
      let next : u32 (pos + 1) ≡ pos + 1 = omega (arith, a.ends) in
      let (left, enough, rests) =
        run-text fuel (pos + 1) start depth segments t rest (At-append (c ∷ []) (t ++ rest) a)
          (ground arith) (omega arith) in
      (
        left,
        omega arith,
        run-step fuel (at pos start true depth segments) (At-lt a)
              (step-byte _ c (t ++ rest) a (ground arith))
            ∙ (ap (λ n. run fuel default_config input (at n start true depth segments)) next
                ∙ (rests
                    ∙ ap (λ n. run left default_config input (at n start true depth segments))
                        (omega arith))),
      )

  braced-append :
      (kind : SegmentKind) (body rest : Bytes)
      → print_item (braced kind body) ++ rest ≡ b'%' ∷ (name kind ++ b'{' ∷ (body ++ b'}' ∷ rest))
  braced-append kind body rest =
      ap (λ xs. b'%' ∷ xs)
        (append_assoc (name kind) (b'{' ∷ (body ++ b'}' ∷ [])) rest
          ∙ ap (λ xs. name kind ++ b'{' ∷ xs) (append_assoc body (b'}' ∷ []) rest))

  braced-length :
      (kind : SegmentKind) (body : Bytes)
      → length (print_item (braced kind body)) ≡ length (name kind) + length body + 3
  braced-length kind body = omega (
    arith,
    length-append (name kind) (b'{' ∷ (body ++ b'}' ∷ [])),
    length-append body (b'}' ∷ []),
  )

  -- The round on an item that is no text.
  pub piece-step :
      (i : Item) (pos start : ℕ) (in_text : Bool) (depth : ℕ) (segments : List Segment)
      (rest : Bytes)
      → is_text i ≡ false
      → At input pos (print_item i ++ rest)
      → Fits in_text pos depth i rest
      → depth < 255
      → (in_text ≡ true → start < pos)
      → length (held in_text start pos depth segments) < 64
      → step default_config input (at pos start in_text depth segments)
        ≡ ok (
            at
              (pos + length (print_item i))
              (pos + length (print_item i))
              false
              (item_depth depth i)
              (held in_text start pos depth segments ++ piece pos depth i ∷ []))
  piece-step (text t) pos start in_text depth segments rest e a fits small begun room =
      absurd (ground arith)
  piece-step percent pos start in_text depth segments rest e a fits small begun room =
      step-percent pos start in_text depth segments rest a begun room
  piece-step (bare kind) pos start in_text depth segments rest e a (sep, no_brace, no_spec, opened)
        small begun room =
      step-directive input short pos start in_text depth segments kind rest none
        (pos + suc (length (name kind))) a sep
        (read_directive-bare input short (pos + suc (length (name kind))) kind rest
          (At-append (b'%' ∷ name kind) rest a) no_brace)
        (check-bare kind no_spec) opened small begun room
  piece-step (braced kind body) pos start in_text depth segments rest e a
        (sep, opens, closes, opened, (d, parsed, given)) small begun room =
      let here : At input pos (b'%' ∷ (name kind ++ b'{' ∷ (body ++ b'}' ∷ rest))) =
        subst (At input pos) (braced-append kind body rest) a in
      let inner : At input (pos + suc (length (name kind))) (b'{' ∷ (body ++ b'}' ∷ rest)) =
        At-append (b'%' ∷ name kind) (b'{' ∷ (body ++ b'}' ∷ rest)) here in
      let read : Directive.parse body (pos + suc (length (name kind)) + 1) kind ≡ ok d =
        ap (λ n. Directive.parse body n kind) (omega arith) ∙ parsed in
      let width : pos + suc (length (name kind)) + 1 + length body + 1
          ≡ pos + length (print_item (braced kind body)) =
        omega (arith, braced-length kind body) in
      rw (parsed, sym width)
        (step-directive input short pos start in_text depth segments kind
          (b'{' ∷ (body ++ b'}' ∷ rest)) (some d) _ here
          (separates-brace kind (body ++ b'}' ∷ rest) sep)
          (read_directive-braced input short (pos + suc (length (name kind))) kind body rest d inner
            opens closes read)
          (check-given kind d given) opened small begun room)

  not-below : (a b : ℕ) → a ≡ b → ltb a b ≡ false
  not-below a b e = ground arith

  pub run-end :
      (fuel : ℕ) (s : State) → s.pos ≡ length input → run fuel default_config input s ≡ ok s
  unfolding run
  run-end zero s e = refl
  run-end (suc fuel) s e = rw (short_length input short, not-below s.pos (length input) e) refl
