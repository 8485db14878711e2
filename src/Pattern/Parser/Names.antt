-- ===== src/Pattern/Parser/Names.antt =====
-- src/formatters/pattern/Parser.cc: the names of directives, as they are written and as the
-- parser reads them.
use logrin.Base.{
  lt→ltb, inr, ◌⊎◌, inl, ◌<◌, ℕ, suc, ◌+◌, ◌≡◌, ◌∙◌, refl, Bool, true, false, not, [], ◌∷◌, ◌++◌,
  Bytes, codes, ◌==◌, leb, if◌then◌else◌, length, get_or, drop, starts_with, u32, arith,
}
use logrin.Pattern.Parser.Keywords.{is_word_boundary, match_keyword, try_match_keyword}
use logrin.Pattern.Parser.{directive, percent, spec_token, read_token}
use logrin.Pattern.Segment.{
  SegmentKind, literal, timestamp, level, message, logger, file, function_name, line_num,
  column_num, thread_id, all_attributes, attribute, foreground_color_start, background_color_start,
  level_color_start, bold, dim, italic, underline, strikethrough, style_end,
}

-- What stands behind the `%` of a directive.
abbrev pub name : SegmentKind → Bytes
name literal = []
name level = codes "L"
name message = codes "m"
name thread_id = codes "T"
name timestamp = codes "t"
name logger = codes "n"
name file = codes "f"
name line_num = codes "l"
name column_num = codes "c"
name function_name = codes "F"
name all_attributes = codes "A"
name attribute = codes "X"
name foreground_color_start = codes "fg"
name background_color_start = codes "bg"
name level_color_start = codes "levelColor"
name bold = codes "bold"
name dim = codes "dim"
name italic = codes "italic"
name underline = codes "underline"
name strikethrough = codes "strikethrough"
name style_end = codes "style:end"

-- A condition on the text behind a name under which the parser takes no more and no less than the
-- name: a keyword ends at a word boundary, and `%f` and `%l` do not begin a keyword.
abbrev pub separates : SegmentKind → Bytes → Bool
separates literal rest = false
separates file rest = not (get_or rest 0 0 == b'g')
separates line_num rest = not (get_or rest 0 0 == b'e')
separates level rest = true
separates message rest = true
separates thread_id rest = true
separates timestamp rest = true
separates logger rest = true
separates column_num rest = true
separates function_name rest = true
separates all_attributes rest = true
separates attribute rest = true
separates _ rest = is_word_boundary rest 0

differ : (a b : ℕ) → not (b == a) ≡ true → a == b ≡ false
differ a b h = ground arith

leb-suc : (a b : ℕ) → leb (suc a) (suc b) ≡ leb a b
leb-suc a b = ground arith

boundary-shift :
    (c n : ℕ) (rest : Bytes) → is_word_boundary (c ∷ rest) (suc n) ≡ is_word_boundary rest n
unfolding is_word_boundary
boundary-shift c n rest = rw (leb-suc (length rest) n) refl

boundary-append :
    (front rest : Bytes) → is_word_boundary (front ++ rest) (length front) ≡ is_word_boundary rest 0
boundary-append [] rest = refl
boundary-append (c ∷ front) rest =
    boundary-shift c (length front) (front ++ rest) ∙ boundary-append front rest

-- The name of a keyword is found in the table.
keyword-found :
    (kind : SegmentKind) (rest : Bytes)
    → is_word_boundary (name kind ++ rest) (length (name kind)) ≡ true
    → 1 < length (name kind)
    → try_match_keyword (name kind ++ rest) ≡ (length (name kind), kind)
unfolding try_match_keyword match_keyword starts_with
keyword-found foreground_color_start rest h l = rw h refl
keyword-found background_color_start rest h l = rw h refl
keyword-found level_color_start rest h l = rw h refl
keyword-found bold rest h l = rw h refl
keyword-found dim rest h l = rw h refl
keyword-found italic rest h l = rw h refl
keyword-found underline rest h l = rw h refl
keyword-found strikethrough rest h l = rw h refl
keyword-found style_end rest h l = rw h refl
keyword-found _ rest h l = absurd (omega arith)

letter-alone :
    (kind : SegmentKind) (rest : Bytes)
    → separates kind rest ≡ true
    → length (name kind) ≡ 1
    → (try_match_keyword (name kind ++ rest)).0 ≡ 0
unfolding try_match_keyword match_keyword starts_with
letter-alone file [] h l = refl
letter-alone file (c ∷ rest) h l = rw (differ b'g' c h) refl
letter-alone line_num [] h l = refl
letter-alone line_num (c ∷ rest) h l = rw (differ b'e' c h) refl
letter-alone level rest h l = refl
letter-alone message rest h l = refl
letter-alone thread_id rest h l = refl
letter-alone timestamp rest h l = refl
letter-alone logger rest h l = refl
letter-alone column_num rest h l = refl
letter-alone function_name rest h l = refl
letter-alone all_attributes rest h l = refl
letter-alone attribute rest h l = refl
letter-alone _ rest h l = absurd (omega arith)

letter-token :
    (kind : SegmentKind) (rest : Bytes) (after : ℕ)
    → length (name kind) ≡ 1
    → (if get_or (name kind ++ rest) 0 0 == b'%'
        then percent after
        else spec_token (get_or (name kind ++ rest) 0 0) after)
      ≡ directive kind after
unfolding spec_token
letter-token level rest after l = refl
letter-token message rest after l = refl
letter-token thread_id rest after l = refl
letter-token timestamp rest after l = refl
letter-token logger rest after l = refl
letter-token file rest after l = refl
letter-token line_num rest after l = refl
letter-token column_num rest after l = refl
letter-token function_name rest after l = refl
letter-token all_attributes rest after l = refl
letter-token attribute rest after l = refl
letter-token _ rest after l = absurd (omega arith)

-- A name has one letter, or is a keyword that a word boundary follows.
name-cases :
    (kind : SegmentKind) (rest : Bytes)
    → separates kind rest ≡ true
    → (length (name kind) ≡ 1) ⊎ ((1 < length (name kind)) × (is_word_boundary rest 0 ≡ true))
name-cases literal rest h = absurd (ground arith)
name-cases level rest h = inl refl
name-cases message rest h = inl refl
name-cases thread_id rest h = inl refl
name-cases timestamp rest h = inl refl
name-cases logger rest h = inl refl
name-cases file rest h = inl refl
name-cases line_num rest h = inl refl
name-cases column_num rest h = inl refl
name-cases function_name rest h = inl refl
name-cases all_attributes rest h = inl refl
name-cases attribute rest h = inl refl
name-cases foreground_color_start rest h = inr (omega arith, h)
name-cases background_color_start rest h = inr (omega arith, h)
name-cases level_color_start rest h = inr (omega arith, h)
name-cases bold rest h = inr (omega arith, h)
name-cases dim rest h = inr (omega arith, h)
name-cases italic rest h = inr (omega arith, h)
name-cases underline rest h = inr (omega arith, h)
name-cases strikethrough rest h = inr (omega arith, h)
name-cases style_end rest h = inr (omega arith, h)

-- A directive's name is read as its kind, where the text that follows leaves it alone.
pub read_token-name :
    (kind : SegmentKind) (rest input : Bytes) (pos : ℕ)
    → separates kind rest ≡ true
    → drop (pos + 1) input ≡ name kind ++ rest
    → get_or input (pos + 1) 0 ≡ get_or (name kind ++ rest) 0 0
    → read_token input pos ≡ directive kind (u32 (pos + (1 + length (name kind))))
unfolding read_token spec_token
read_token-name kind rest input pos h behind first = elim (name-cases kind rest h) [
  | inl letter ↦
      rw (behind, letter-alone kind rest h letter, first, letter)
        (letter-token kind rest (u32 (pos + 2)) letter)
  | inr (long, edge) ↦
      rw
        (
          behind,
          keyword-found kind rest (boundary-append (name kind) rest ∙ edge) long,
          lt→ltb 0 (length (name kind)) (omega arith),
        )
        refl
]

pub name-positive :
    (kind : SegmentKind) (rest : Bytes) → separates kind rest ≡ true → 0 < length (name kind)
name-positive kind rest h = elim (name-cases kind rest h) [
  | inl letter ↦ omega arith
  | inr (long, edge) ↦ omega arith
]

leb-suc_zero : (n : ℕ) → leb (suc n) 0 ≡ false
leb-suc_zero n = ground arith

brace-boundary : (rest : Bytes) → is_word_boundary (b'{' ∷ rest) 0 ≡ true
unfolding is_word_boundary
brace-boundary rest = rw (leb-suc_zero (length rest)) refl

pub separates-brace :
    (kind : SegmentKind) (rest : Bytes)
    → separates kind (b'{' ∷ []) ≡ true
    → separates kind (b'{' ∷ rest) ≡ true
separates-brace literal rest h = h
separates-brace foreground_color_start rest h = brace-boundary rest
separates-brace background_color_start rest h = brace-boundary rest
separates-brace level_color_start rest h = brace-boundary rest
separates-brace bold rest h = brace-boundary rest
separates-brace dim rest h = brace-boundary rest
separates-brace italic rest h = brace-boundary rest
separates-brace underline rest h = brace-boundary rest
separates-brace strikethrough rest h = brace-boundary rest
separates-brace style_end rest h = brace-boundary rest
separates-brace _ rest h = refl
