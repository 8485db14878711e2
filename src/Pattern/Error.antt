-- ===== src/Pattern/Error.antt =====
-- include/logrin/Formatter/Pattern/Error.h: the errors of the pattern parser. The program's `Error`
-- holds a message; here each message is a constructor, with the values that it prints, and
-- `to_string` is its text.
use logrin.Base.{ℕ, ◌≡◌, refl, ap, ◌⊎◌, inl, inr, ◌++◌, ◌∷◌, Bytes, codes}

-- `kind_name` is the text of the segment kind that `segment_not_allowed` prints.
pub data Error : Type 0 where
  too_many_segments : Error
  unknown_directive : (spec : ℕ) → Error
  segment_not_allowed : (kind_name : Bytes) → Error
  unterminated_brace : Error
  attribute_needs_key : Error
  color_needs_spec : Error
  unmatched_style_end : Error
  unclosed_styles : (depth : ℕ) → Error
  no_specification_accepted : (body : Bytes) → Error
  no_format_accepted : Error
  bad_width_character : (ch : ℕ) → Error
  alignment_needs_width : Error
  bad_hex_digit : (ch : ℕ) → Error
  empty_color : Error
  bad_hex_length : Error
  expected_number : (spec : Bytes) → Error
  component_out_of_range : Error
  component_count : (spec : Bytes) → Error
  trailing_content : Error
  unknown_color : (spec : Bytes) → Error
  in_marker_prefix : Error → Error
  in_marker_suffix : Error → Error

-- `Error::ToString`: the text that the `error` or `errfmt` of that message makes, in
-- src/formatters/pattern/Parser.cc, src/formatters/pattern/Segment.cc or src/formatters/Pattern.cc.
unfoldable pub to_string : (ℕ → Bytes) → Error → Bytes
to_string format_number too_many_segments = codes "pattern exceeds maximum segment count (64)"
to_string format_number (unknown_directive spec) =
    codes "unknown format directive: [%" ++ (spec ∷ codes "]")
to_string format_number (segment_not_allowed kind_name) =
    codes "segment [" ++ (kind_name ++ codes "] is not allowed")
to_string format_number unterminated_brace = codes "unterminated `{' in format directive"
to_string format_number attribute_needs_key =
    codes "%X format directive requires a key spec (e.g., `%X{request.id}`)"
to_string format_number color_needs_spec = codes "%fg/%bg requires a spec (e.g., `%fg{red}`)"
to_string format_number unmatched_style_end = codes "`%style:end` with no matching style directive"
to_string format_number (unclosed_styles depth) =
    codes "pattern has "
    ++ (format_number depth ++ codes " unclosed style directive(s); missing `%style:end`")
to_string format_number (no_specification_accepted body) =
    codes "directive with specification [" ++ (body ++ codes "] does not accept a specification")
to_string format_number no_format_accepted =
    codes "directive does not accept a format specification; use padding syntax (e.g., `%n{<20}`)"
to_string format_number (bad_width_character ch) =
    codes "invalid character [" ++ (ch ∷ codes "] in width specifier")
to_string format_number alignment_needs_width = codes "padding alignment requires a width"
to_string format_number (bad_hex_digit ch) = codes "invalid hexadecimal digit [" ++ (ch ∷ codes "]")
to_string format_number empty_color = codes "empty colour spec"
to_string format_number bad_hex_length = codes "hex color must be #RGB or #RRGGBB"
to_string format_number (expected_number spec) =
    codes "expected numeric value in RGB spec [" ++ (spec ++ codes "]")
to_string format_number component_out_of_range = codes "RGB component out of range (0..=255)"
to_string format_number (component_count spec) =
    codes "RGB spec requires exactly 3 components [" ++ (spec ++ codes "]")
to_string format_number trailing_content = codes "unexpected trailing content in RGB spec"
to_string format_number (unknown_color spec) = codes "unknown color spec: [" ++ (spec ++ codes "]")
to_string format_number (in_marker_prefix e) =
    codes "in marker prefix: " ++ to_string format_number e
to_string format_number (in_marker_suffix e) =
    codes "in marker suffix: " ++ to_string format_number e

-- `violet::Result<T, Error>`.
pub data Result {ℓ} (A : Type ℓ) : Type ℓ where
  err : Error → Result A
  ok : A → Result A

infixl 5 ◌>>=◌ ◌>>◌
-- `VIOLET_TRY`: an error leaves the function, a value goes on.
abbrev pub ◌>>=◌ {ℓ κ} : {A : Type ℓ} {B : Type κ} → Result A → (A → Result B) → Result B
err e >>= next = err e
ok value >>= next = next value

-- `VIOLET_TRY_VOID`
abbrev pub ◌>>◌ {ℓ} : {B : Type ℓ} → Result (Unit {0}) → Result B → Result B
first >> second = first >>= λ done. second

pub bind-eq-ok {ℓ κ} :
    {A : Type ℓ} {B : Type κ} (m : Result A) (next : A → Result B) {y : B}
    → (m >>= next) ≡ ok y
    → (x : A) × (m ≡ ok x) × (next x ≡ ok y)
bind-eq-ok (err e) next h = cc
bind-eq-ok (ok value) next h = (value, refl, h)

pub bind-ok {ℓ κ} :
    {A : Type ℓ} {B : Type κ} (m : Result A) (next : A → Result B) {x : A}
    → m ≡ ok x
    → (m >>= next) ≡ next x
bind-ok m next h = ap (λ r. r >>= next) h

pub Result-cases {ℓ} :
    {A : Type ℓ} (r : Result A) → ((e : Error) × (r ≡ err e)) ⊎ ((a : A) × (r ≡ ok a))
Result-cases (ok a) = inr (a, refl)
Result-cases (err e) = inl (e, refl)

pub ok-injective {ℓ} : {A : Type ℓ} {a b : A} → ok a ≡ ok b → a ≡ b
ok-injective e = cc

pub err-ne-ok {ℓ} : {A : Type ℓ} {e : Error} {a : A} → err e ≡ ok a → ⊥
err-ne-ok h = cc
