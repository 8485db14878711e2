-- ===== src/Pattern/Parser/Invariant.antt =====
-- The loop of `Parse` builds its segments by the relation `Built`, and so does a parsed pattern.
use logrin.Base.{
  ℕ, zero, suc, ◌+◌, ◌-◌, u16, u32, ◌≤◌, ◌<◌, ◌≡◌, refl, ◌≢◌, subst, ◌⊎◌, inl, inr, true, false,
  not, ◌&&◌, ◌||◌, [], ◌∷◌, ◌++◌, none, Bytes, ◌==◌, ltb, ltb→lt, leb, length, get_or, Bool-cases,
  arith,
}
use logrin.Pattern.Error.{ok, bind-eq-ok, ok-injective, err-ne-ok}
use logrin.Pattern.Parser.Tokens.{read_directive-le, TokenFits, read_token-TokenFits}
use logrin.Pattern.Parser.{
  ParseConfig, ParsedPattern, State, capacity, initial, append_segment, flush_literal, Token,
  directive, percent, unknown, step_directive, step_percent, step_literal, step_token, step, run,
  finish, parse, default_config,
}
use logrin.Pattern.Segment.{SegmentKind, literal, Segment}
use logrin.Pattern.Parser.Built.{is_refused, Span, Added, text, directed, Built, empty, add}

-- The loop's invariant.
pub record Inv (config : ParseConfig) (input : Bytes) (s : State) : Type 0 where
  pub in_input : s.pos ≤ length input
  pub literal_in_input : s.literal_start ≤ length input
  pub built : Built config input s.depth s.segments

module _ (config : ParseConfig) (input : Bytes) where
  flushed-Span :
      (start end depth : ℕ)
      → start < end
      → end ≤ length input
      → Span input (record {
        kind = literal;
        text_offset = u16 start;
        text_length = u16 (u32 (end + 4294967296 - start));
        directive = none;
        depth = depth;
      })
  flushed-Span start end depth h k = record {
    fits = (omega arith, omega arith);
    starts = omega arith;
    ends = λ small. omega arith;
    filled = λ small. omega arith;
  }

  pub append_segment-eq :
      (segment : Segment) (s : State) {t : State}
      → append_segment segment s ≡ ok t
      → (length s.segments < capacity) × (t ≡ record s { segments = s.segments ++ segment ∷ [] })
  unfolding append_segment
  append_segment-eq segment s h = elim (Bool-cases (leb capacity (length s.segments))) [
    | inl full ↦ ground arith
    | inr room ↦ ground arith
  ]

  append_segment-Inv :
      (segment : Segment) (s : State) {t : State} {d : ℕ}
      → s.pos ≤ length input
      → s.literal_start ≤ length input
      → Built config input d s.segments
      → Added config input d segment s.depth
      → append_segment segment s ≡ ok t
      → Inv config input t
  append_segment-Inv segment s p l b a h =
      let (room, e) = append_segment-eq segment s h in
      rw e (record { in_input = p; literal_in_input = l; built = add b room a })

  flush_literal-Inv :
      (end : ℕ) (s : State) {t : State}
      → Inv config input s
      → end ≤ length input
      → flush_literal end s ≡ ok t
      → Inv config input t
  unfolding flush_literal
  flush_literal-Inv end s v h e = elim (Bool-cases (s.in_literal && ltb s.literal_start end)) [
    | inl flush ↦
        append_segment-Inv _ _ v.in_input v.literal_in_input v.built
          (text refl refl refl refl (flushed-Span s.literal_start end s.depth (ground arith) h))
          (rw flush at e)
    | inr skip ↦
        rw (← ok-injective (rw skip at e))
          (record { in_input = v.in_input; literal_in_input = v.literal_in_input; built = v.built })
  ]

  step_percent-Inv :
      (pos : ℕ) (s : State) {t : State}
      → Inv config input s
      → 0 < pos
      → pos ≤ length input
      → step_percent pos s ≡ ok t
      → Inv config input t
  unfolding step_percent
  step_percent-Inv pos s v p h e =
      append_segment-Inv _ _ h h v.built
        (text refl refl refl refl (record {
          fits = (omega arith, omega arith);
          starts = omega arith;
          ends = λ small. omega arith;
          filled = λ small. omega arith;
        }))
        e

  step_directive-Inv :
      (kind : SegmentKind) (s : State) {t : State}
      → Inv config input s
      → kind ≢ literal
      → step_directive config input kind s ≡ ok t
      → Inv config input t
  unfolding step_directive
  step_directive-Inv kind s v named e = elim (Bool-cases (is_refused config kind)) [
    | inl refused ↦ absurd (err-ne-ok (rw refused at e))
    | inr accepted ↦
        let (r, read, e1) = bind-eq-ok _ _ (rw accepted at e) in
        let (_, checked, e2) = bind-eq-ok _ _ e1 in
        let (depth, nested, e3) = bind-eq-ok _ _ e2 in
        let after = read_directive-le input s.pos kind v.in_input read in
        append_segment-Inv _ _ after after v.built
          (directed s.pos r.1 named (refl, refl) accepted v.in_input read checked nested refl) e3
  ]

  step_token-Inv :
      (token : Token) (s : State) {t : State}
      → Inv config input s
      → TokenFits input token
      → step_token config input token s ≡ ok t
      → Inv config input t
  unfolding step_token
  step_token-Inv (directive kind pos) s v f e =
      step_directive-Inv kind (record s { pos = pos })
        (record { in_input = f.1; literal_in_input = v.literal_in_input; built = v.built }) f.0 e
  step_token-Inv (percent pos) s v f e = step_percent-Inv pos s v f.0 f.1 e
  step_token-Inv (unknown spec) s v f e = absurd (err-ne-ok e)

  pub flush_literal-pos :
      (end : ℕ) (s : State) {t : State} → flush_literal end s ≡ ok t → t.pos ≡ s.pos
  unfolding flush_literal append_segment
  flush_literal-pos end s e = ground arith

  pub step_room :
      (s : State)
      → (not (get_or input s.pos 0 == b'%') || leb (u32 (length input)) (u32 (s.pos + 1))) ≡ false
      → u32 (s.pos + 1) < u32 (length input)
  step_room s h = ground arith

  pub step-Inv :
      (s : State) {t : State}
      → s.pos < u32 (length input)
      → Inv config input s
      → step config input s ≡ ok t
      → Inv config input t
  unfolding step step_literal
  step-Inv s below v e =
      elim (Bool-cases
        (not (get_or input s.pos 0 == b'%') || leb (u32 (length input)) (u32 (s.pos + 1)))) [
          | inl plain ↦ rw (← ok-injective (rw plain at e)) (record {
            in_input = omega arith;
            literal_in_input = ground (arith, v.literal_in_input, v.in_input);
            built = v.built;
          })
          | inr start ↦
              let (q, flushed, f) = bind-eq-ok _ _ (rw start at e) in
              let room : u32 (s.pos + 1) < u32 (length input) = step_room s start in
              step_token-Inv _ q (flush_literal-Inv s.pos s v v.in_input flushed)
                (read_token-TokenFits input s.pos (omega arith) (omega arith)) f
        ]

  pub run-Inv :
      (fuel : ℕ) (s : State) {t : State}
      → Inv config input s
      → run fuel config input s ≡ ok t
      → Inv config input t
  unfolding run
  run-Inv zero s v e = rw (← ok-injective e) v
  run-Inv (suc fuel) s v e = elim (Bool-cases (ltb s.pos (u32 (length input)))) [
    | inl more ↦
        let (q, stepped, f) = bind-eq-ok _ _ (rw more at e) in
        run-Inv fuel q (step-Inv s (ltb→lt _ _ more) v stepped) f
    | inr done ↦ rw (← ok-injective (rw done at e)) v
  ]

  pub initial-Inv : Inv config input initial
  initial-Inv = record { in_input = omega arith; literal_in_input = omega arith; built = empty }

  -- What a parsed pattern is, from the derivation of its segments at some depth.
  pub record IsParsed (p : ParsedPattern) (depth : ℕ) : Type 0 where
    pub built : Built config input depth p.segments
    pub closed : (config.relaxed_style_nesting ≡ true) ⊎ (depth ≡ 0)
    pub pattern_is : p.pattern ≡ input
    pub config_is : p.config ≡ default_config

  closed_at :
      (depth : ℕ)
      → (not (depth == 0) && not config.relaxed_style_nesting) ≡ false
      → (config.relaxed_style_nesting ≡ true) ⊎ (depth ≡ 0)
  closed_at depth h = ground arith

  finish-IsParsed :
      (s : State) {p : ParsedPattern}
      → Inv config input s
      → finish config input s ≡ ok p
      → (depth : ℕ) × IsParsed p depth
  unfolding finish
  finish-IsParsed s v e =
      let (t, flushed, g) = bind-eq-ok (flush_literal (u32 (length input)) s) _ e in
      let w = flush_literal-Inv (u32 (length input)) s v (omega arith) flushed in
      elim (Bool-cases (not (t.depth == 0) && not config.relaxed_style_nesting)) [
        | inl unclosed ↦ absurd (err-ne-ok (rw unclosed at g))
        | inr fine ↦
            subst (λ (p : ParsedPattern). (depth : ℕ) × IsParsed p depth)
              (ok-injective (rw fine at g))
              (
                t.depth,
                record {
                  built = w.built;
                  closed = closed_at t.depth fine;
                  pattern_is = refl;
                  config_is = refl;
                },
              )
      ]

  -- The segments of a parsed pattern are derived, at the depth that the end of `Parse` tests.
  pub parse-IsParsed :
      {p : ParsedPattern} → parse config input ≡ ok p → (depth : ℕ) × IsParsed p depth
  unfolding parse
  parse-IsParsed e =
      let (s, ran, f) =
        bind-eq-ok (run (u32 (length input)) config input initial) (finish config input) e in
      finish-IsParsed s
        (run-Inv (u32 (length input)) initial
          (record { in_input = omega arith; literal_in_input = omega arith; built = empty }) ran)
        f
