-- ===== src/Pattern/Parser/RoundTrip.antt =====
-- A pattern that is written from items is parsed to the segments of the items.
use logrin.Base.{
  ℕ, zero, suc, ◌+◌, ◌-◌, ◌≤◌, ◌<◌, ◌≡◌, ◌∙◌, refl, sym, ap, Bool, true, false, List, [], ◌∷◌, ◌++◌,
  append_assoc, append-nil, Bytes, length, length-append, contains, u32, arith,
}
use logrin.Pattern.Error.{Result, ok, ◌>>=◌, bind-ok}
use logrin.Pattern.Parser.Items.{
  Item, text, percent, bare, braced, print_item, print, item_depth, piece, pieces, Fits, is_text,
  IsPattern, At, At-lt, At-append,
}
use logrin.Pattern.Parser.Steps.{at, span, held, flush-held}
use logrin.Pattern.Parser.{
  ParsedPattern, default_config, State, flush_literal, step_literal, run, finish, parse,
}
use logrin.Pattern.Segment.{Segment}
use logrin.Pattern.Parser.Runs.{run-step, step-byte, run-text, piece-step, run-end}

module _ (input : Bytes) (short : length input < 65536) where
  depth_after-le : (i : Item) (depth : ℕ) → item_depth depth i ≤ suc depth
  depth_after-le (text t) depth = omega arith
  depth_after-le percent depth = omega arith
  depth_after-le (bare kind) depth = ground arith
  depth_after-le (braced kind body) depth = ground arith

  finish-held :
      (pos start : ℕ) (in_text : Bool) (segments : List Segment)
      → pos ≡ length input
      → (in_text ≡ true → start < pos)
      → length (held in_text start pos 0 segments) ≤ 64
      → finish default_config input (at pos start in_text 0 segments)
        ≡ ok (record {
          segments = held in_text start pos 0 segments;
          pattern = input;
          config = default_config;
        })
  unfolding finish
  finish-held pos start in_text segments end begun room = bind-ok _ _ (
      ap (λ n. flush_literal n (at pos start in_text 0 segments)) (omega arith)
      ∙ flush-held pos start in_text 0 segments begun (omega arith) room)

  -- What `Parse` makes of the rest of a pattern, from any place between two of its items.
  abbrev outcome : ℕ → State → Result ParsedPattern
  outcome fuel s = run fuel default_config input s >>= finish default_config input

  abbrev result : List Segment → Result ParsedPattern
  result segments = ok (record { segments = segments; pattern = input; config = default_config })

  print_item-positive : (i : Item) → is_text i ≡ false → 0 < length (print_item i)
  print_item-positive (text t) e = absurd (ground arith)
  print_item-positive percent e = omega arith
  print_item-positive (bare kind) e = omega arith
  print_item-positive (braced kind body) e = omega arith

  room-after :
      (segments : List Segment) (segment : Segment) (items : List Item)
      → length segments + suc (length items) ≤ 64
      → length (segments ++ segment ∷ []) + length items ≤ 64
  room-after segments segment items h = omega (arith, length-append segments (segment ∷ []))

  depth-within :
      (segments : List Segment) (i : Item) (pos depth : ℕ)
      → depth ≤ length segments
      → item_depth depth i ≤ length (segments ++ piece pos depth i ∷ [])
  depth-within segments i pos depth h =
      omega (arith, depth_after-le i depth, length-append segments (piece pos depth i ∷ []))

  -- An item that is no text, once the items behind it are known.
  piece-outcome :
      (i : Item) (items : List Item) (fuel pos start depth : ℕ) (in_text : Bool)
      (segments : List Segment)
      → is_text i ≡ false
      → At input pos (print_item i ++ print items)
      → Fits in_text pos depth i (print items)
      → length input ≤ pos + fuel
      → (in_text ≡ true → start < pos)
      → length (held in_text start pos depth segments) < 64
      → depth < 255
      → ((left : ℕ)
          → length input ≤ pos + length (print_item i) + left
          → outcome left (
              at
                (pos + length (print_item i))
                (pos + length (print_item i))
                false
                (item_depth depth i)
                (held in_text start pos depth segments ++ piece pos depth i ∷ []))
            ≡ result (
                (held in_text start pos depth segments ++ piece pos depth i ∷ [])
                ++ pieces (pos + length (print_item i)) (item_depth depth i) items))
      → outcome fuel (at pos start in_text depth segments)
        ≡ result (held in_text start pos depth segments ++ pieces pos depth (i ∷ items))
  piece-outcome i items zero pos start depth in_text segments e a fits f begun room small others =
      absurd
        (omega (arith, a.ends, print_item-positive i e, length-append (print_item i) (print items)))
  piece-outcome i items (suc fuel) pos start depth in_text segments e a fits f begun room small
        others =
      ap (λ m. m >>= finish default_config input)
        (run-step input short fuel (at pos start in_text depth segments)
          (omega
            (arith, a.ends, print_item-positive i e, length-append (print_item i) (print items)))
          (piece-step input short i pos start in_text depth segments (print items) e a fits small
            begun room))
      ∙ (others fuel (omega (arith, print_item-positive i e))
          ∙ ap result
              (append_assoc (held in_text start pos depth segments) (piece pos depth i ∷ []) _))

  -- The loop on a text, from its first byte to its end.
  text-outcome :
      (c : ℕ) (t rest : Bytes) (fuel pos start depth : ℕ) (segments : List Segment)
      → At input pos (c ∷ (t ++ rest))
      → contains (c ∷ t) b'%' ≡ false
      → length input ≤ pos + suc fuel
      → (left : ℕ) × (length input ≤ pos + suc (length t) + left)
        × (outcome (suc fuel) (at pos start false depth segments)
            ≡ outcome left (at (pos + suc (length t)) pos true depth segments))
  unfolding contains step_literal
  text-outcome c t rest fuel pos start depth segments a h f =
      let next : u32 (pos + 1) ≡ pos + 1 = omega (arith, a.ends) in
      let (left, enough, rests) =
        run-text input short fuel (pos + 1) pos depth segments t rest
          (At-append (c ∷ []) (t ++ rest) a) (ground arith) (omega arith) in
      (
        left,
        omega arith,
        ap (λ m. m >>= finish default_config input)
            (run-step input short fuel (at pos start false depth segments) (At-lt a)
                (step-byte input short _ c (t ++ rest) a (ground arith))
              ∙ (ap (λ n. run fuel default_config input (at n pos true depth segments)) next
                  ∙ (rests
                      ∙ ap (λ n. run left default_config input (at n pos true depth segments))
                          (omega arith)))),
      )

  items-outcome :
      (items : List Item) (fuel pos start depth : ℕ) (in_text : Bool) (segments : List Segment)
      → At input pos (print items)
      → IsPattern in_text pos depth items
      → length input ≤ pos + fuel
      → (in_text ≡ true → start < pos)
      → length (held in_text start pos depth segments) + length items ≤ 64
      → depth ≤ length (held in_text start pos depth segments)
      → outcome fuel (at pos start in_text depth segments)
        ≡ result (held in_text start pos depth segments ++ pieces pos depth items)
  items-outcome [] fuel pos start depth in_text segments a closed f begun room small =
      let end : pos ≡ length input = omega (arith, a.ends) in
      rw closed (
        bind-ok _ _ (run-end input short fuel (at pos start in_text 0 segments) end)
        ∙ (finish-held pos start in_text segments end begun
              (omega (arith, ap (λ n. length (held in_text start pos n segments)) closed))
            ∙ ap result (sym (append-nil (held in_text start pos 0 segments)))))
  items-outcome (text [] ∷ items) fuel pos start depth in_text segments a (fits, others) f begun
        room small =
      absurd (omega (arith, fits.1))
  items-outcome (text (c ∷ t) ∷ items) zero pos start depth in_text segments a (fits, others) f
        begun room small =
      absurd (omega (arith, a.ends))
  items-outcome (text (c ∷ t) ∷ items) (suc fuel) pos start depth true segments a (fits, others) f
        begun room small =
      absurd (ground arith)
  items-outcome (text (c ∷ t) ∷ items) (suc fuel) pos start depth false segments a (fits, others) f
        begun room small =
      let (left, enough, same) =
        text-outcome c t (print items) fuel pos start depth segments a fits.2 f in
      let size : pos + suc (length t) - pos ≡ suc (length t) = omega arith in
      same
      ∙ (items-outcome items left (pos + suc (length t)) pos depth true segments
            (At-append (c ∷ t) (print items) a) others enough (λ e. omega arith)
            (room-after segments (span pos (pos + suc (length t) - pos) depth) items room)
            (omega
              (arith, length-append segments (span pos (pos + suc (length t) - pos) depth ∷ [])))
          ∙ (ap result (append_assoc segments (span pos (pos + suc (length t) - pos) depth ∷ []) _)
              ∙ ap
                  (λ n.
                    result
                      (segments ++ span pos n depth ∷ pieces (pos + suc (length t)) depth items))
                  size))
  items-outcome (percent ∷ items) fuel pos start depth in_text segments a (fits, others) f begun
        room small =
      piece-outcome percent items fuel pos start depth in_text segments refl a fits f begun
        (omega arith) (omega arith)
        λ left enough.
          items-outcome items left _ _ _ false _ (At-append (print_item percent) (print items) a)
            others enough (λ e. absurd (ground arith))
            (room-after (held in_text start pos depth segments) (piece pos depth percent) items
              room)
            (depth-within (held in_text start pos depth segments) percent pos depth small)
  items-outcome (bare kind ∷ items) fuel pos start depth in_text segments a (fits, others) f begun
        room small =
      piece-outcome (bare kind) items fuel pos start depth in_text segments refl a fits f begun
        (omega arith) (omega arith)
        λ left enough.
          items-outcome items left _ _ _ false _
            (At-append (print_item (bare kind)) (print items) a) others enough
            (λ e. absurd (ground arith))
            (room-after (held in_text start pos depth segments) (piece pos depth (bare kind)) items
              room)
            (depth-within (held in_text start pos depth segments) (bare kind) pos depth small)
  items-outcome (braced kind body ∷ items) fuel pos start depth in_text segments a (fits, others) f
        begun room small =
      piece-outcome (braced kind body) items fuel pos start depth in_text segments refl a fits f
        begun (omega arith) (omega arith)
        λ left enough.
          items-outcome items left _ _ _ false _
            (At-append (print_item (braced kind body)) (print items) a) others enough
            (λ e. absurd (ground arith))
            (room-after (held in_text start pos depth segments) (piece pos depth (braced kind body))
              items room)
            (depth-within (held in_text start pos depth segments) (braced kind body) pos depth
              small)

-- A pattern that is written from at most 64 items and is shorter than 65536 bytes is parsed to the
-- segments of the items, each with its kind, its place in the pattern, what `Directive::Parse`
-- makes of its body, and its depth. No two texts may stand side by side, and a text is not empty
-- and has no `%`. A keyword ends at a word boundary, no `g` stands behind `%f` and no `e` behind
-- `%l`, and no `{` behind a directive without a body. A body has no braces and is one that
-- `Directive::Parse` accepts; `%X`, `%fg` and `%bg` have one with a specification. The styles are
-- nested.
pub parse-print :
    (items : List Item)
    → IsPattern false 0 0 items
    → length (print items) < 65536
    → length items ≤ 64
    → parse default_config (print items)
      ≡ ok (record { segments = pieces 0 0 items; pattern = print items; config = default_config })
unfolding parse
parse-print items h short few =
    items-outcome (print items) short items (u32 (length (print items))) 0 0 0 false []
      (record { behind = refl; ends = omega arith }) h (omega arith) (λ e. absurd (ground arith))
      (omega arith) (omega arith)
