-- ===== src/Pattern/Parser/Loop.antt =====
-- The loops of `Parse` end: each round of the outer one moves `in` forward, so the fuel, which is
-- the length of the input, is never used up before the loop's own test stops it.
use logrin.Base.{
  ℕ, zero, suc, ◌+◌, ◌≤◌, ◌<◌, ◌≡◌, sym, refl, inl, inr, subst, false, not, ◌&&◌, ◌||◌, Option,
  Bytes, ◌==◌, ltb, leb, ltb→lt, length, length-drop, drop, get_or, u32, Bool-cases, Option-cases,
  arith,
}
use logrin.Pattern.Error.{ok, bind-eq-ok, ok-injective, err-ne-ok, Result-cases}
use logrin.Pattern.Parser.Built.{is_refused}
use logrin.Pattern.Parser.Invariant.{
  initial-Inv, step_room, Inv, step-Inv, append_segment-eq, flush_literal-pos,
}
use logrin.Pattern.Parser.Keywords.{try_match_keyword, try_match_keyword-le}
use logrin.Pattern.Parser.Tokens.{read_body-eq, TokenFits, read_token-TokenFits}
use logrin.Pattern.Parser.{
  ParseConfig, State, Token, directive, percent, unknown, read_token, spec_kind, spec_token,
  brace_step, scan_braces, read_directive, check_specification, next_depth, step_directive,
  step_percent, step_literal, step_token, step, run, initial,
}
use logrin.Pattern.Segment.{SegmentKind, Directive}

module _ (config : ParseConfig) (input : Bytes) (short : length input < 4294967296) where
  scan_braces-ge :
      (fuel ending depth : ℕ)
      → ending ≤ (scan_braces fuel input (u32 (length input)) ending depth).0
  unfolding scan_braces
  scan_braces-ge zero ending depth = omega arith
  scan_braces-ge (suc fuel) ending depth =
      elim (Bool-cases (ltb ending (u32 (length input)) && ltb 0 depth)) [
        | inl more ↦
            let below : ending < u32 (length input) = ground arith in
            rw more (
              omega (
                arith,
                scan_braces-ge fuel (u32 (ending + 1)) (brace_step (get_or input ending 0) depth),
              ))
        | inr stop ↦ rw stop (omega arith)
      ]

  abbrev IsAhead : ℕ → Token → Type 0
  IsAhead pos (directive kind after) = pos < after
  IsAhead pos (percent after) = pos < after
  IsAhead pos (unknown spec) = Unit {0}

  read_token-IsAhead : (pos : ℕ) → pos + 2 ≤ length input → IsAhead pos (read_token input pos)
  unfolding read_token spec_token
  read_token-IsAhead pos h =
      let rest = drop (pos + 1) input in
      let fits = try_match_keyword-le rest in
      let left = length-drop (pos + 1) input in
      elim (Bool-cases (ltb 0 (try_match_keyword rest).0)) [
        | inl found ↦ rw found (omega arith)
        | inr missing ↦ elim (Bool-cases (get_or input (pos + 1) 0 == b'%')) [
          | inl escaped ↦ rw (missing, escaped) (omega arith)
          | inr other ↦ elim (Option-cases (spec_kind (get_or input (pos + 1) 0))) [
            | inl strange ↦ rw (missing, other, strange, spec_token) tt
            | inr (kind, known) ↦ rw (missing, other, known, spec_token) (omega arith)
          ]
        ]
      ]

  read_directive-ge :
      (pos : ℕ) (kind : SegmentKind) {r : Option Directive × ℕ}
      → pos ≤ length input
      → read_directive input pos kind ≡ ok r
      → pos ≤ r.1
  unfolding read_directive
  read_directive-ge pos kind h e =
      let len = u32 (length input) in
      let start = u32 (pos + 1) in
      elim (Bool-cases (ltb pos len && get_or input pos 0 == b'{')) [
        | inl braced ↦
            let below : pos < length input = ground arith in
            let (_, _, f) =
              read_body-eq input start kind (scan_braces len input len start 1) (rw braced at e) in
            subst (λ (r : Option Directive × ℕ). pos ≤ r.1) f
              (omega (arith, scan_braces-ge len start 1))
        | inr plain ↦
            subst (λ (r : Option Directive × ℕ). pos ≤ r.1) (ok-injective (rw plain at e))
              (omega arith)
      ]

  step_directive-ge :
      (kind : SegmentKind) (s : State) {t : State}
      → s.pos ≤ length input
      → step_directive config input kind s ≡ ok t
      → s.pos ≤ t.pos
  unfolding step_directive
  step_directive-ge kind s h e = elim (Bool-cases (is_refused config kind)) [
    | inl refused ↦ absurd (err-ne-ok (rw refused at e))
    | inr accepted ↦
        let (r, read, e1) = bind-eq-ok _ _ (rw accepted at e) in
        let (_, _, e2) = bind-eq-ok (check_specification kind r.0) _ e1 in
        let (_, _, e3) = bind-eq-ok (next_depth config.relaxed_style_nesting kind s.depth) _ e2 in
        let (_, q) = append_segment-eq config input _ _ e3 in
        rw q (read_directive-ge s.pos kind h read)
  ]

  step_token-gt :
      (token : Token) (s : State) {t : State}
      → IsAhead s.pos token
      → TokenFits input token
      → step_token config input token s ≡ ok t
      → s.pos < t.pos
  unfolding step_token step_percent
  step_token-gt (directive kind pos) s a f e =
      omega (arith, step_directive-ge kind (record s { pos = pos }) f.1 e)
  step_token-gt (percent pos) s a f e = let (_, q) = append_segment-eq config input _ _ e in rw q a
  step_token-gt (unknown spec) s a f e = absurd (err-ne-ok e)

  step-gt :
      (s : State) {t : State} → s.pos < length input → step config input s ≡ ok t → s.pos < t.pos
  unfolding step step_literal
  step-gt s below e =
      elim (Bool-cases
        (not (get_or input s.pos 0 == b'%') || leb (u32 (length input)) (u32 (s.pos + 1)))) [
          | inl plain ↦ rw (← ok-injective (rw plain at e)) (omega arith)
          | inr start ↦
              let (q, flushed, f) = bind-eq-ok _ _ (rw start at e) in
              let kept = flush_literal-pos config input s.pos s flushed in
              let room = step_room config input s start in
              let ahead = read_token-IsAhead s.pos (omega arith) in
              let fits = read_token-TokenFits input s.pos (omega arith) (omega arith) in
              let further = step_token-gt (read_token input s.pos) q (rw kept ahead) fits f in
              rw (← kept) further
        ]

  run-done : (fuel : ℕ) (s : State) → length input ≤ s.pos → run fuel config input s ≡ ok s
  unfolding run
  run-done zero s h = refl
  run-done (suc fuel) s h =
      let stop : ltb s.pos (u32 (length input)) ≡ false = ground arith in rw stop

  run-agree :
      (fuel fuel' : ℕ) (s : State)
      → length input ≤ s.pos + fuel
      → length input ≤ s.pos + fuel'
      → Inv config input s
      → run fuel config input s ≡ run fuel' config input s
  unfolding run
  run-agree zero fuel' s h k v = sym (run-done fuel' s (omega arith))
  run-agree (suc fuel) zero s h k v = run-done (suc fuel) s (omega arith)
  run-agree (suc fuel) (suc fuel') s h k v = elim (Bool-cases (ltb s.pos (u32 (length input)))) [
    | inr done ↦ rw done
    | inl more ↦ elim (Result-cases (step config input s)) [
      | inl (_, failed) ↦ rw (more, failed)
      | inr (t, stepped) ↦
          let below = ltb→lt s.pos (u32 (length input)) more in
          let further = step-gt s (omega arith) stepped in
          rw (more, stepped)
            (run-agree fuel fuel' t (omega arith) (omega arith)
              (step-Inv config input s below v stepped))
    ]
  ]

  run-ends :
      (fuel : ℕ) (s : State) {t : State}
      → length input ≤ s.pos + fuel
      → Inv config input s
      → run fuel config input s ≡ ok t
      → t.pos ≡ length input
  unfolding run
  run-ends zero s h v e = rw (← ok-injective e) (omega (arith, v.in_input))
  run-ends (suc fuel) s h v e = elim (Bool-cases (ltb s.pos (u32 (length input)))) [
    | inr done ↦ rw (← ok-injective (rw done at e)) (ground (arith, v.in_input))
    | inl more ↦
        let (q, stepped, f) = bind-eq-ok (step config input s) _ (rw more at e) in
        let below = ltb→lt s.pos (u32 (length input)) more in
        let further = step-gt s (omega arith) stepped in
        run-ends fuel q (omega arith) (step-Inv config input s below v stepped) f
  ]

  -- The loop of `Parse` ends by its own test, for every input shorter than 2^32 bytes: any
  -- amount of fuel from the length of the input on gives the same result, and where no error is
  -- returned the loop has stopped exactly at the end of the input.
  pub run_terminates :
      (fuel : ℕ)
      → length input ≤ fuel
      → (run fuel config input initial ≡ run (u32 (length input)) config input initial)
        × ((t : State)
            → run (u32 (length input)) config input initial ≡ ok t
            → t.pos ≡ length input)
  run_terminates fuel h =
      let start = initial-Inv config input in
      (
        run-agree fuel (u32 (length input)) initial (omega arith) (omega arith) start,
        λ t. run-ends (u32 (length input)) initial {t = t} (omega arith) start,
      )
