-- ===== src/Pattern/Parser/Keywords.antt =====
-- src/formatters/pattern/Parser.cc: the keyword table, `isWordBoundary` and `tryMatchKeyword`.
use logrin.Base.{
  ℕ, ◌≤◌, ◌≢◌, All, refl, Bool-cases, inl, inr, ◌||◌, ◌&&◌, Bool, List, [], ◌∷◌, Bytes, codes, ◌==◌,
  leb, if◌then◌else◌, length, get_or, starts_with, starts_with-length, arith,
}
use logrin.Pattern.Segment.{
  SegmentKind, literal, foreground_color_start, background_color_start, level_color_start, bold,
  dim, italic, underline, strikethrough, style_end,
}

pub record Keyword : Type 0 where
  pub name : Bytes
  pub kind : SegmentKind

abbrev keyword : Bytes → SegmentKind → Keyword
keyword name kind = record { name = name; kind = kind }

-- `kKeywords`
abbrev pub keywords : List Keyword
keywords =
    keyword (codes "strikethrough") strikethrough
    ∷ keyword (codes "levelColor") level_color_start
    ∷ keyword (codes "style:end") style_end
    ∷ keyword (codes "underline") underline
    ∷ keyword (codes "italic") italic
    ∷ keyword (codes "bold") bold
    ∷ keyword (codes "dim") dim
    ∷ keyword (codes "fg") foreground_color_start
    ∷ keyword (codes "bg") background_color_start
    ∷ []

unfoldable pub is_word_boundary : Bytes → ℕ → Bool
is_word_boundary rest end =
    let ch = get_or rest end 0 in
    leb (length rest) end
    || (ch == b'{'
        || ch == b'%'
        || ch == b' '
        || ch == b'\t'
        || ch == b'\n'
        || ch == b'['
        || ch == b']'
        || ch == b'('
        || ch == b')'
        || ch == b'}'
        || ch == b':')

-- The loop over the table.
unfoldable pub match_keyword : List Keyword → Bytes → ℕ × SegmentKind
unfolding is_word_boundary starts_with
match_keyword [] rest = (0, literal)
match_keyword (kw ∷ kws) rest =
    if starts_with kw.name rest && is_word_boundary rest (length kw.name)
    then (length kw.name, kw.kind)
    else match_keyword kws rest

unfoldable pub try_match_keyword : Bytes → ℕ × SegmentKind
unfolding match_keyword
try_match_keyword = match_keyword keywords

match_keyword-le : (kws : List Keyword) (rest : Bytes) → (match_keyword kws rest).0 ≤ length rest
unfolding match_keyword
match_keyword-le [] rest = omega arith
match_keyword-le (kw ∷ kws) rest =
    ground (arith, match_keyword-le kws rest, starts_with-length kw.name rest)

pub try_match_keyword-le : (rest : Bytes) → (try_match_keyword rest).0 ≤ length rest
unfolding try_match_keyword
try_match_keyword-le = match_keyword-le keywords

match_keyword-ne_literal :
    (kws : List Keyword) (rest : Bytes)
    → All (λ kw. kw.kind ≢ literal) kws
    → (match_keyword kws rest).0 ≢ 0
    → (match_keyword kws rest).1 ≢ literal
unfolding match_keyword
match_keyword-ne_literal [] rest a h = absurd (h refl)
match_keyword-ne_literal (kw ∷ kws) rest a h =
    elim (Bool-cases (starts_with kw.name rest && is_word_boundary rest (length kw.name))) [
      | inl hit ↦ rw hit a.0
      | inr miss ↦ rw miss (match_keyword-ne_literal kws rest a.1 (rw miss at h))
    ]

-- A keyword that is found stands for a directive.
pub try_match_keyword-ne_literal :
    (rest : Bytes) → (try_match_keyword rest).0 ≢ 0 → (try_match_keyword rest).1 ≢ literal
unfolding try_match_keyword
try_match_keyword-ne_literal rest = match_keyword-ne_literal keywords rest (
  (λ e. cc),
  (
    (λ e. cc),
    ((λ e. cc), ((λ e. cc), ((λ e. cc), ((λ e. cc), ((λ e. cc), ((λ e. cc), ((λ e. cc), tt))))))),
  ),
)
