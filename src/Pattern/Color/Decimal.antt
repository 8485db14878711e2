-- ===== src/Pattern/Color/Decimal.antt =====
-- src/formatters/Pattern.cc: colours as three decimal numbers.
use logrin.Base.{
  ◌<◌, sym, append-nil, both, ℕ, suc, ◌+◌, ◌-◌, ◌*◌, ◌≤◌, ◌≡◌, ◌∙◌, refl, ap, Bool, true, false,
  List, [], ◌∷◌, ◌++◌, Bytes, ◌==◌, ltb, length, contains, u8, u16, arith,
}
use logrin.Pattern.Color.Terminal.{rgb}
use logrin.Pattern.Color.{
  is_blank, skip_blanks, read_value, read_components, finish_components, parse_trimmed,
}
use logrin.Pattern.Directive.Width.{u16-mul_add, decimal, are_digits}
use logrin.Pattern.Directive.{is_digit}
use logrin.Pattern.Error.{ok, bind-ok}

-- The text behind the digits, which does not go on with a digit.
abbrev stops : Bytes → Bool
stops [] = true
stops (ch ∷ rest) = ch == b','

is_digit-comma : (ch : ℕ) → ch == b',' ≡ true → is_digit ch ≡ false
unfolding is_digit
is_digit-comma ch h = ground arith

is_digit-blank : (ch : ℕ) → is_digit ch ≡ true → is_blank ch ≡ false
unfolding is_digit
is_digit-blank ch h = ground arith

is_digit-hash : (ch : ℕ) → is_digit ch ≡ true → ch == b'#' ≡ false
unfolding is_digit
is_digit-hash ch h = ground arith

read_value-stop :
    (value : ℕ) (given : Bool) (rest : Bytes)
    → stops rest ≡ true
    → read_value value given rest ≡ (value, given, rest)
unfolding read_value is_digit
read_value-stop value given [] h = refl
read_value-stop value given (ch ∷ rest) h = rw (is_digit-comma ch h) refl

read_value-more :
    (value : ℕ) (digits rest : Bytes)
    → are_digits digits ≡ true
    → stops rest ≡ true
    → read_value (u16 value) true (digits ++ rest) ≡ (u16 (decimal value digits), true, rest)
unfolding read_value are_digits
read_value-more value [] rest h s = read_value-stop (u16 value) true rest s
read_value-more value (ch ∷ digits) rest h s =
    let (first, others) = both (is_digit ch) (are_digits digits) h in
    rw (first, u16-mul_add value (ch - b'0'))
      (read_value-more (value * 10 + (ch - b'0')) digits rest others s)

read_value-digits :
    (ch : ℕ) (digits rest : Bytes)
    → are_digits (ch ∷ digits) ≡ true
    → stops rest ≡ true
    → read_value 0 false (skip_blanks (ch ∷ (digits ++ rest)))
      ≡ (u16 (decimal 0 (ch ∷ digits)), true, rest)
unfolding read_value skip_blanks are_digits
read_value-digits ch digits rest h s =
    let (first, others) = both (is_digit ch) (are_digits digits) h in
    rw (is_digit-blank ch first, first) (read_value-more (0 + (ch - b'0')) digits rest others s)

contains-comma : (digits rest : Bytes) → contains (digits ++ b',' ∷ rest) b',' ≡ true
unfolding contains
contains-comma [] rest = refl
contains-comma (ch ∷ digits) rest = ground (arith, contains-comma digits rest)

not-over : (n : ℕ) → n ≤ 255 → ltb 255 n ≡ false
not-over n h = ground arith

fits-byte : (n : ℕ) → n ≤ 255 → u8 n ≡ n
fits-byte n h = omega arith

-- One component, up to the comma behind it or the end.
component-comma :
    (n : ℕ) (spec : Bytes) (components : List ℕ) (ch : ℕ) (digits more : Bytes)
    → are_digits (ch ∷ digits) ≡ true
    → u16 (decimal 0 (ch ∷ digits)) ≤ 255
    → read_components (suc n) spec components (ch ∷ (digits ++ b',' ∷ more))
      ≡ read_components n spec (components ++ u16 (decimal 0 (ch ∷ digits)) ∷ []) more
unfolding read_components skip_blanks
component-comma n spec components ch digits more h small =
    let read = read_value-digits ch digits (b',' ∷ more) h refl in
    rw
      (
        read,
        ap (λ t. t.0) read,
        not-over (u16 (decimal 0 (ch ∷ digits))) small,
        fits-byte (u16 (decimal 0 (ch ∷ digits))) small,
      )
      refl

component-end :
    (n : ℕ) (spec : Bytes) (components : List ℕ) (ch : ℕ) (digits : Bytes)
    → are_digits (ch ∷ digits) ≡ true
    → u16 (decimal 0 (ch ∷ digits)) ≤ 255
    → read_components (suc n) spec components (ch ∷ digits)
      ≡ ok (components ++ u16 (decimal 0 (ch ∷ digits)) ∷ [], [])
unfolding read_components skip_blanks
component-end n spec components ch digits h small =
    let read =
      ap (λ xs. read_value 0 false (skip_blanks (ch ∷ xs))) (sym (append-nil digits))
      ∙ read_value-digits ch digits [] h refl in
    rw
      (
        read,
        ap (λ t. t.0) read,
        not-over (u16 (decimal 0 (ch ∷ digits))) small,
        fits-byte (u16 (decimal 0 (ch ∷ digits))) small,
      )
      refl

-- The component that digits stand for: their number, reduced to 16 bits.
abbrev pub component : Bytes → ℕ
component digits = u16 (decimal 0 digits)

-- Digits that stand for a component.
pub record IsComponent (digits : Bytes) : Type 0 where
  pub some_digits : 0 < length digits
  pub all_digits : are_digits digits ≡ true
  pub in_range : component digits ≤ 255

abbrev pub last_comma : Bool → Bytes
last_comma true = b',' ∷ []
last_comma false = []

read_last :
    (spec : Bytes) (components : List ℕ) (ch : ℕ) (digits : Bytes) (comma : Bool)
    → IsComponent (ch ∷ digits)
    → read_components 1 spec components (ch ∷ (digits ++ last_comma comma))
      ≡ ok (components ++ component (ch ∷ digits) ∷ [], [])
unfolding read_components
read_last spec components ch digits true v =
    component-comma 0 spec components ch digits [] v.all_digits v.in_range
read_last spec components ch digits false v =
    ap (λ xs. read_components 1 spec components (ch ∷ xs)) (append-nil digits)
    ∙ component-end 0 spec components ch digits v.all_digits v.in_range

first-not_hash : (ch : ℕ) (digits : Bytes) → are_digits (ch ∷ digits) ≡ true → ch == b'#' ≡ false
unfolding are_digits
first-not_hash ch digits h = is_digit-hash ch (both (is_digit ch) (are_digits digits) h).0

-- Three numbers in decimal digits with commas between them are the colour of the three
-- components, each the number reduced to 16 bits, where these are at most 255. A further comma at
-- the end changes nothing.
pub parse_trimmed-decimal :
    (spec red green blue : Bytes) (comma : Bool)
    → IsComponent red
    → IsComponent green
    → IsComponent blue
    → parse_trimmed spec (red ++ b',' ∷ (green ++ b',' ∷ (blue ++ last_comma comma)))
      ≡ ok (rgb (component red) (component green) (component blue))
unfolding parse_trimmed finish_components skip_blanks
parse_trimmed-decimal spec [] green blue comma r g b = absurd (omega (arith, r.some_digits))
parse_trimmed-decimal spec (x ∷ xs) [] blue comma r g b = absurd (omega (arith, g.some_digits))
parse_trimmed-decimal spec (x ∷ xs) (y ∷ ys) [] comma r g b = absurd (omega (arith, b.some_digits))
parse_trimmed-decimal spec (x ∷ xs) (y ∷ ys) (z ∷ zs) comma r g b =
    rw
      (
        first-not_hash x xs r.all_digits,
        contains-comma (x ∷ xs) (y ∷ (ys ++ b',' ∷ z ∷ (zs ++ last_comma comma))),
      )
      (bind-ok _ _ (
        component-comma 2 spec [] x xs (y ∷ (ys ++ b',' ∷ z ∷ (zs ++ last_comma comma)))
          r.all_digits r.in_range
        ∙ (component-comma 1 spec (component (x ∷ xs) ∷ []) y ys (z ∷ (zs ++ last_comma comma))
              g.all_digits g.in_range
            ∙ read_last spec (component (x ∷ xs) ∷ component (y ∷ ys) ∷ []) z zs comma b)))
