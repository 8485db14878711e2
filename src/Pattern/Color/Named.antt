-- ===== src/Pattern/Color/Named.antt =====
-- The names of the CSS colours.
use mathlib.Core.List.{Memᴰ}
use logrin.Base.{
  both, ℕ, suc, ◌≡◌, ◌∙◌, refl, sym, ap, subst, Bool, true, false, ◌&&◌, List, [], ◌∷◌, map, Bytes,
  ◌==◌, length, arith, contains, ltb, leb, ◌||◌,
}
use logrin.Pattern.Color.Css.{NamedColor, css_colors}
use logrin.Pattern.Color.Terminal.{Rgb}
use logrin.Pattern.Color.{
  to_lower_ascii, equal_lower, equals_ignore_case, find_color, is_blank, parse_trimmed,
  parse_color_spec,
}
use logrin.Pattern.Error.{Result, ok, err}

-- The same text, but for the case of ASCII letters.
abbrev pub SameLetters : Bytes → Bytes → Type 0
SameLetters a b = map to_lower_ascii a ≡ map to_lower_ascii b

equal_lower-same : (a b name : Bytes) → SameLetters a b → equal_lower a name ≡ equal_lower b name
unfolding equal_lower
equal_lower-same [] [] name h = refl
equal_lower-same [] (y ∷ b) name h = ground arith
equal_lower-same (x ∷ a) [] name h = ground arith
equal_lower-same (x ∷ a) (y ∷ b) [] h = refl
equal_lower-same (x ∷ a) (y ∷ b) (z ∷ name) h = ground (arith, equal_lower-same a b name)

length-same : (a b : Bytes) → SameLetters a b → length a ≡ length b
length-same [] [] h = refl
length-same [] (y ∷ b) h = ground arith
length-same (x ∷ a) [] h = ground arith
length-same (x ∷ a) (y ∷ b) h = ap suc (length-same a b (ground arith))

find_color-same :
    (colors : List NamedColor) (spec a b : Bytes)
    → SameLetters a b
    → find_color colors spec a ≡ find_color colors spec b
unfolding find_color equals_ignore_case
find_color-same [] spec a b h = refl
find_color-same (c ∷ colors) spec a b h =
    rw (length-same a b h, equal_lower-same a b c.name h, find_color-same colors spec a b h) refl

abbrev same_color : Rgb → Rgb → Bool
same_color c d = c.red == d.red && (c.green == d.green && c.blue == d.blue)

same_color-eq : (c d : Rgb) → same_color c d ≡ true → c ≡ d
same_color-eq c d h = ground arith

abbrev is_letter : ℕ → Bool
is_letter ch = (leb b'A' ch && leb ch b'Z') || (leb b'a' ch && leb ch b'z')

abbrev are_letters : Bytes → Bool
are_letters [] = true
are_letters (ch ∷ rest) = is_letter ch && are_letters rest

-- A name is a word, and stands for its own colour.
abbrev gives : Rgb → Result Rgb → Bool
gives color (ok found) = same_color found color
gives color (err e) = false

abbrev is_own : List NamedColor → Bytes → NamedColor → Bool
is_own colors spec c =
    ltb 0 (length c.name) && (are_letters c.name && gives c.color (find_color colors spec c.name))

abbrev are_own : List NamedColor → Bytes → List NamedColor → Bool
are_own colors spec [] = true
are_own colors spec (c ∷ rest) = is_own colors spec c && are_own colors spec rest

css_colors-own : (spec : Bytes) → are_own css_colors spec css_colors ≡ true
unfolding find_color equals_ignore_case css_colors
css_colors-own spec = refl

own-of :
    (colors all : List NamedColor) (spec : Bytes) (c : NamedColor)
    → Memᴰ c colors
    → are_own all spec colors ≡ true
    → is_own all spec c ≡ true
own-of [] all spec c m h = elim m [ ]
own-of (x ∷ colors) all spec c (Memᴰ.head e) h =
    subst (λ d. is_own all spec d ≡ true) (sym e)
      (both (is_own all spec x) (are_own all spec colors) h).0
own-of (x ∷ colors) all spec c (Memᴰ.tail m) h =
    own-of colors all spec c m (both (is_own all spec x) (are_own all spec colors) h).1

letter_no_hash :
    (x y : ℕ) → to_lower_ascii x ≡ to_lower_ascii y → is_letter y ≡ true → x == b'#' ≡ false
unfolding to_lower_ascii
letter_no_hash x y h l = ground arith

letter_no_comma :
    (x y : ℕ) → to_lower_ascii x ≡ to_lower_ascii y → is_letter y ≡ true → x == b',' ≡ false
unfolding to_lower_ascii
letter_no_comma x y h l = ground arith

contains-letters : (a b : Bytes) → SameLetters a b → are_letters b ≡ true → contains a b',' ≡ false
unfolding contains
contains-letters [] b h l = refl
contains-letters (x ∷ a) [] h l = ground arith
contains-letters (x ∷ a) (y ∷ b) h l =
    rw (letter_no_comma x y (ground arith) (ground arith))
      (contains-letters a b (ground arith) (ground arith))

gives-ok : (color : Rgb) (r : Result Rgb) → gives color r ≡ true → r ≡ ok color
gives-ok color (ok found) h = ap (λ c. ok c) (same_color-eq found color h)
gives-ok color (err e) h = ground arith

word-trimmed :
    (spec text name : Bytes)
    → SameLetters text name
    → ltb 0 (length name) ≡ true
    → are_letters name ≡ true
    → parse_trimmed spec text ≡ find_color css_colors spec text
unfolding parse_trimmed
word-trimmed spec [] [] h f l = ground arith
word-trimmed spec [] (y ∷ name) h f l = ground arith
word-trimmed spec (x ∷ text) [] h f l = ground arith
word-trimmed spec (x ∷ text) (y ∷ name) h f l =
    rw
      (letter_no_hash x y (ground arith) (ground arith), contains-letters (x ∷ text) (y ∷ name) h l)
      refl

-- Every name of the table, in upper or lower case letters, is parsed to the colour that stands
-- beside it.
pub parse_color_spec-named :
    (trim : (ℕ → Bool) → Bytes → Bytes) (spec : Bytes) (c : NamedColor)
    → Memᴰ c css_colors
    → SameLetters (trim is_blank spec) c.name
    → parse_color_spec trim spec ≡ ok c.color
unfolding parse_color_spec
parse_color_spec-named trim spec c m h =
    let own = own-of css_colors css_colors spec c m (css_colors-own spec) in
    let (given, word) = both (ltb 0 (length c.name)) _ own in
    let (letters, found) = both (are_letters c.name) _ word in
    word-trimmed spec (trim is_blank spec) c.name h given letters
    ∙ find_color-same css_colors spec (trim is_blank spec) c.name h
    ∙ gives-ok c.color (find_color css_colors spec c.name) found
