-- ===== src/Pattern/Color.antt =====
-- src/formatters/Pattern.cc: colour specifications and level palettes.
pub mod Terminal
pub mod Css
pub mod Named
pub mod Decimal
pub mod Hex
mod Tests
use Prim.Native.Nat.{bit_or}
use logrin.Base.{
  ℕ, zero, suc, ◌+◌, ◌-◌, ◌*◌, Bool, true, false, not, ◌&&◌, ◌||◌, List, [], ◌∷◌, ◌++◌, Bytes, ◌==◌,
  ltb, leb, if◌then◌else◌, length, contains, u8, u16,
}
use logrin.Pattern.Error.{
  Result, ok, err, ◌>>=◌, ◌>>◌, bad_hex_digit, empty_color, bad_hex_length, expected_number,
  component_out_of_range, component_count, trailing_content, unknown_color,
}
use logrin.Record.{LogLevel, trace, debug, info, warning, error, fatal, severity}
use Css.{NamedColor, css_colors}
use Terminal.{Rgb, rgb}

unfoldable pub to_lower_ascii : ℕ → ℕ
to_lower_ascii ch = if leb b'A' ch && leb ch b'Z' then ch + 32 else ch

-- The loop of `equalsIgnoreCase`, on texts of the same length.
unfoldable pub equal_lower : Bytes → Bytes → Bool
unfolding to_lower_ascii
equal_lower (x ∷ xs) (y ∷ ys) =
    if not (to_lower_ascii x == to_lower_ascii y) then false else equal_lower xs ys
equal_lower _ _ = true

unfoldable pub equals_ignore_case : Bytes → Bytes → Bool
unfolding equal_lower
equals_ignore_case lhs rhs = if not (length lhs == length rhs) then false else equal_lower lhs rhs

unfoldable pub parse_hex_digit : ℕ → Result ℕ
parse_hex_digit ch =
    if leb b'0' ch && leb ch b'9'
    then ok (u8 (ch - b'0'))
    else if leb b'a' ch && leb ch b'f'
    then ok (u8 (10 + (ch - b'a')))
    else if leb b'A' ch && leb ch b'F'
    then ok (u8 (10 + (ch - b'A')))
    else err (bad_hex_digit ch)

-- `static_cast<UInt8>((hi << 4) | lo)`
unfoldable pub hex_byte : ℕ → ℕ → ℕ
hex_byte hi lo = u8 (bit_or (hi * 16) lo)

-- What follows the `#`.
unfoldable pub parse_hex : Bytes → Result Rgb
unfolding parse_hex_digit hex_byte
parse_hex (a ∷ b ∷ c ∷ d ∷ e ∷ f ∷ []) = do
  red_hi ← parse_hex_digit a
  red_lo ← parse_hex_digit b
  green_hi ← parse_hex_digit c
  green_lo ← parse_hex_digit d
  blue_hi ← parse_hex_digit e
  blue_lo ← parse_hex_digit f
  ok (rgb (hex_byte red_hi red_lo) (hex_byte green_hi green_lo) (hex_byte blue_hi blue_lo))
parse_hex (a ∷ b ∷ c ∷ []) = do
  red ← parse_hex_digit a
  green ← parse_hex_digit b
  blue ← parse_hex_digit c
  ok (rgb (hex_byte red red) (hex_byte green green) (hex_byte blue blue))
parse_hex _ = err bad_hex_length

abbrev pub is_blank : ℕ → Bool
is_blank ch = ch == b' ' || ch == b'\t'

unfoldable pub skip_blanks : Bytes → Bytes
skip_blanks [] = []
skip_blanks (ch ∷ rest) = if is_blank ch then skip_blanks rest else ch ∷ rest

-- The digits of a component: the value, in 16 bits, `hasDigits`, and what follows.
unfoldable pub read_value : ℕ → Bool → Bytes → ℕ × Bool × Bytes
read_value value has_digits [] = (value, has_digits, [])
read_value value has_digits (ch ∷ rest) =
    let next = read_value (u16 (value * 10 + (ch - b'0'))) true rest in
    if leb b'0' ch && leb ch b'9' then next else (value, has_digits, ch ∷ rest)

-- The loop over the components, with at most `n` to come: the components, and what follows.
unfoldable pub read_components : ℕ → Bytes → List ℕ → Bytes → Result (List ℕ × Bytes)
unfolding skip_blanks read_value
read_components zero spec components rest = ok (components, rest)
read_components (suc n) spec components rest =
    let (value, has_digits, behind) = read_value 0 false (skip_blanks rest) in
    let filled = components ++ u8 value ∷ [] in
    if not has_digits
    then err (expected_number spec)
    else if ltb 255 value
    then err component_out_of_range
    else elim (skip_blanks behind) [
      | [] ↦ ok (filled, [])
      | ch ∷ more ↦
          let next = read_components n spec filled more in
          if ch == b',' then next else ok (filled, ch ∷ more)
    ]

-- The checks behind that loop.
unfoldable pub finish_components : Bytes → List ℕ × Bytes → Result Rgb
unfolding skip_blanks
finish_components spec (r ∷ g ∷ b ∷ [], rest) =
    if not (length (skip_blanks rest) == 0) then err trailing_content else ok (rgb r g b)
finish_components spec _ = err (component_count spec)

-- The loop over the named colours.
unfoldable pub find_color : List NamedColor → Bytes → Bytes → Result Rgb
unfolding equals_ignore_case
find_color [] spec trimmed = err (unknown_color spec)
find_color (named ∷ rest) spec trimmed =
    if equals_ignore_case trimmed named.name then ok named.color else find_color rest spec trimmed

-- `parseColorSpec` behind its call of `Trim`.
unfoldable pub parse_trimmed : Bytes → Bytes → Result Rgb
unfolding parse_hex read_components finish_components find_color css_colors contains
parse_trimmed spec [] = err empty_color
parse_trimmed spec (ch ∷ rest) =
    if ch == b'#'
    then parse_hex rest
    else if contains (ch ∷ rest) b','
    then read_components 3 spec [] (ch ∷ rest) >>= finish_components spec
    else find_color css_colors spec (ch ∷ rest)

-- `parseColorSpec`. `trim` is `violet::strings::Trim`: it takes the predicate of the bytes to drop.
unfoldable pub parse_color_spec : ((ℕ → Bool) → Bytes → Bytes) → Bytes → Result Rgb
unfolding parse_trimmed
parse_color_spec trim spec = parse_trimmed spec (trim is_blank spec)

abbrev pub LevelColorPalette : Type 0
LevelColorPalette = List (LogLevel × Rgb)

-- `kDefaultLevelColorMap`
abbrev pub default_level_color_map : LevelColorPalette
default_level_color_map =
    (trace, rgb 102 178 178)
    ∷ (debug, rgb 162 224 162)
    ∷ (info, rgb 48 48 105)
    ∷ (warning, rgb 239 239 184)
    ∷ (error, rgb 193 50 50)
    ∷ (fatal, rgb 193 50 50)
    ∷ []

-- `kAzaliaLevelColorMap`
abbrev pub azalia_level_color_map : LevelColorPalette
azalia_level_color_map =
    (trace, rgb 163 182 138)
    ∷ (debug, rgb 148 224 232)
    ∷ (info, rgb 178 157 243)
    ∷ (warning, rgb 243 243 134)
    ∷ (error, rgb 153 75 104)
    ∷ (fatal, rgb 153 75 104)
    ∷ []

-- `getLevelColor`; `fallback` is the default-initialised `RGB`.
unfoldable pub get_level_color : Rgb → LogLevel → LevelColorPalette → Rgb
unfolding severity
get_level_color fallback level [] = fallback
get_level_color fallback level ((lvl, color) ∷ rest) =
    if severity lvl == severity level then color else get_level_color fallback level rest
