-- ===== src/Pattern/Directive/Width.antt =====
-- src/formatters/pattern/Segment.cc: the widths that `parsePadding` reads.
use logrin.Base.{
  both, ℕ, suc, ◌+◌, ◌-◌, ◌*◌, ◌≡◌, refl, Bool, true, false, ◌&&◌, [], ◌∷◌, Bytes, leb, length, u16,
  arith,
}
use logrin.Pattern.Directive.{
  is_alignment_character, is_digit, get_alignment_from_character, padding_prefix, parse_width,
  finish_padding, parse_padding,
}
use logrin.Pattern.Error.{ok}
use logrin.Pattern.Segment.{Directive, is_no_alignment}

-- The number that decimal digits write, behind the digits of `value`.
abbrev pub decimal : ℕ → Bytes → ℕ
decimal value [] = value
decimal value (ch ∷ rest) = decimal (value * 10 + (ch - b'0')) rest

unfoldable pub are_digits : Bytes → Bool
unfolding is_digit
are_digits [] = true
are_digits (ch ∷ rest) = is_digit ch && are_digits rest

pub u16-mul_add : (value k : ℕ) → u16 (u16 value * 10 + k) ≡ u16 (value * 10 + k)
u16-mul_add value k = omega arith

parse_width-more :
    (value : ℕ) (digits : Bytes)
    → are_digits digits ≡ true
    → parse_width (u16 value) true digits ≡ ok (u16 (decimal value digits), true)
unfolding parse_width are_digits
parse_width-more value [] h = refl
parse_width-more value (ch ∷ digits) h =
    let (first, others) = both (is_digit ch) (are_digits digits) h in
    rw (first, u16-mul_add value (ch - b'0'))
      (parse_width-more (value * 10 + (ch - b'0')) digits others)

parse_width-digits :
    (ch : ℕ) (digits : Bytes)
    → are_digits (ch ∷ digits) ≡ true
    → parse_width 0 false (ch ∷ digits) ≡ ok (u16 (decimal 0 (ch ∷ digits)), true)
unfolding parse_width are_digits
parse_width-digits ch digits h =
    let (first, others) = both (is_digit ch) (are_digits digits) h in
    rw first (parse_width-more (0 + (ch - b'0')) digits others)

aligned :
    (ch : ℕ)
    → is_alignment_character ch ≡ true
    → is_no_alignment (get_alignment_from_character ch) ≡ false
unfolding is_alignment_character get_alignment_from_character
aligned ch h = ground arith

leb-two : (n : ℕ) → leb 2 (suc (suc n)) ≡ true
leb-two n = ground arith

prefix-aligned :
    (fill ch : ℕ) (rest : Bytes) (d : Directive)
    → is_alignment_character ch ≡ true
    → padding_prefix (fill ∷ ch ∷ rest) d
      ≡ (record d { fill = fill; alignment = get_alignment_from_character ch }, 2)
unfolding padding_prefix
prefix-aligned fill ch rest d a = rw (leb-two (length rest), a) refl

-- A fill character, an alignment and digits are read as that fill, that alignment and the number
-- that the digits write, reduced to 16 bits, whatever the directive was before.
pub parse_padding-digits :
    (fill ch digit : ℕ) (digits : Bytes) (d : Directive)
    → is_alignment_character ch ≡ true
    → are_digits (digit ∷ digits) ≡ true
    → parse_padding (fill ∷ ch ∷ digit ∷ digits) d
      ≡ ok (record d {
        fill = fill;
        alignment = get_alignment_from_character ch;
        width = u16 (decimal 0 (digit ∷ digits));
      })
unfolding parse_padding finish_padding
parse_padding-digits fill ch digit digits d a h =
    rw
      (prefix-aligned fill ch (digit ∷ digits) d a, parse_width-digits digit digits h, aligned ch a)
      refl
