-- ===== src/Pattern/Color/Hex.antt =====
-- src/formatters/Pattern.cc: hexadecimal colours, printed and parsed.
use logrin.Base.{
  both, ℕ, zero, suc, ◌+◌, ◌-◌, ◌/◌, ◌%◌, ◌<◌, ◌≡◌, refl, ap, subst, inl, inr, Bool, true, false,
  ◌&&◌, [], ◌∷◌, ◌++◌, Bytes, ◌==◌, ltb, if◌then◌else◌, Bool-cases, arith,
}
use logrin.Pattern.Color.Terminal.{rgb}
use logrin.Pattern.Color.{parse_hex_digit, hex_byte, parse_hex}
use logrin.Pattern.Error.{Result, ok, err}

-- The digit for a number below 16, in lower case.
abbrev pub hex_digit : ℕ → ℕ
hex_digit n = if ltb n 10 then b'0' + n else b'a' + (n - 10)

-- A byte as two digits.
abbrev pub hex_text : ℕ → Bytes
hex_text n = hex_digit (n / 16) ∷ hex_digit (n % 16) ∷ []

abbrev holds_below : ℕ → (ℕ → Bool) → Bool
holds_below zero test = true
holds_below (suc n) test = test n && holds_below n test

holds_at :
    (bound : ℕ) (test : ℕ → Bool) (n : ℕ)
    → holds_below bound test ≡ true
    → n < bound
    → test n ≡ true
holds_at zero test n h below = absurd (omega arith)
holds_at (suc bound) test n h below = elim (Bool-cases (n == bound)) [
  | inl last ↦
      subst (λ k. test k ≡ true) (ground arith) (both (test bound) (holds_below bound test) h).0
  | inr other ↦
      holds_at bound test n (both (test bound) (holds_below bound test) h).1 (ground arith)
]

abbrev joins : ℕ → Bool
joins n = hex_byte (n / 16) (n % 16) == n

joins_all : holds_below 256 joins ≡ true
unfolding hex_byte
joins_all = refl

hex_byte-halves : (n : ℕ) → n < 256 → hex_byte (n / 16) (n % 16) ≡ n
hex_byte-halves n h = ground (arith, holds_at 256 joins n joins_all h)

abbrev gives : ℕ → Result ℕ → Bool
gives n (ok m) = m == n
gives n (err e) = false

gives-ok : (n : ℕ) (r : Result ℕ) → gives n r ≡ true → r ≡ ok n
gives-ok n (ok m) h = ap (λ k. ok k) (ground arith)
gives-ok n (err e) h = ground arith

digits_all : holds_below 16 (λ n. gives n (parse_hex_digit (hex_digit n))) ≡ true
unfolding parse_hex_digit
digits_all = refl

parse_hex_digit-hex_digit : (n : ℕ) → n < 16 → parse_hex_digit (hex_digit n) ≡ ok n
parse_hex_digit-hex_digit n h =
    gives-ok n _ (holds_at 16 (λ k. gives k (parse_hex_digit (hex_digit k))) n digits_all h)

-- A colour that is printed as six hexadecimal digits is parsed to itself.
pub parse_hex-hex_text :
    (red green blue : ℕ)
    → red < 256
    → green < 256
    → blue < 256
    → parse_hex (hex_text red ++ hex_text green ++ hex_text blue) ≡ ok (rgb red green blue)
unfolding parse_hex
parse_hex-hex_text red green blue r g b =
    rw
      (
        parse_hex_digit-hex_digit (red / 16) (omega arith),
        parse_hex_digit-hex_digit (red % 16) (omega arith),
        parse_hex_digit-hex_digit (green / 16) (omega arith),
        parse_hex_digit-hex_digit (green % 16) (omega arith),
        parse_hex_digit-hex_digit (blue / 16) (omega arith),
        parse_hex_digit-hex_digit (blue % 16) (omega arith),
        hex_byte-halves red r,
        hex_byte-halves green g,
        hex_byte-halves blue b,
      )
      refl
