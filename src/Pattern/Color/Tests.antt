-- ===== src/Pattern/Color/Tests.antt =====
-- Colour specifications on which the theorems of the colours are applied.
use mathlib.Core.List.Memᴰ
use logrin.Base.{ℕ, true, ◌++◌, arith, Bool, ◌≡◌, refl, Bytes, codes}
use logrin.Pattern.Color.Css.{NamedColor, css_colors}
use logrin.Pattern.Color.Hex.{hex_text, parse_hex-hex_text}
use logrin.Pattern.Color.Decimal.{IsComponent, parse_trimmed-decimal}
use logrin.Pattern.Color.Named.{parse_color_spec-named}
use logrin.Pattern.Color.Terminal.{rgb}
use logrin.Pattern.Color.{to_lower_ascii, parse_hex, parse_color_spec, parse_trimmed}
use logrin.Pattern.Directive.Width.{are_digits}
use logrin.Pattern.Directive.{is_digit}
use logrin.Pattern.Error.{ok}

abbrev identity : (ℕ → Bool) → Bytes → Bytes
identity p s = s

abbrev alice_blue : NamedColor
alice_blue = record { name = codes "aliceblue"; color = rgb 240 248 255 }

parse_color_spec-named_example :
    parse_color_spec identity (codes "AliceBLUE") ≡ ok (rgb 240 248 255)
unfolding css_colors to_lower_ascii
parse_color_spec-named_example =
    parse_color_spec-named identity (codes "AliceBLUE") alice_blue (Memᴰ.head refl) refl

parse_hex-hex_text_example :
    parse_hex (hex_text 72 ++ hex_text 61 ++ hex_text 139) ≡ ok (rgb 72 61 139)
parse_hex-hex_text_example = parse_hex-hex_text 72 61 139 (omega arith) (omega arith) (omega arith)

-- `65539,20,255,`, whose first number is reduced to 3.
red-IsComponent : IsComponent (codes "65539")
unfolding are_digits is_digit
red-IsComponent = record { some_digits = omega arith; all_digits = refl; in_range = omega arith }

green-IsComponent : IsComponent (codes "20")
unfolding are_digits is_digit
green-IsComponent = record { some_digits = omega arith; all_digits = refl; in_range = omega arith }

blue-IsComponent : IsComponent (codes "255")
unfolding are_digits is_digit
blue-IsComponent = record { some_digits = omega arith; all_digits = refl; in_range = omega arith }

parse_trimmed-decimal_example :
    parse_trimmed (codes "65539,20,255,") (codes "65539,20,255,") ≡ ok (rgb 3 20 255)
parse_trimmed-decimal_example =
    parse_trimmed-decimal (codes "65539,20,255,") (codes "65539") (codes "20") (codes "255") true
      red-IsComponent green-IsComponent blue-IsComponent
