-- ===== src/Pattern/Directive/Ranges.antt =====
-- The fields of a directive that `Directive::Parse` returns are values of their types.
use logrin.Base.{
  true, ℕ, suc, ◌<◌, ◌≡◌, ◌+◌, ◌-◌, ◌*◌, inl, inr, Bool, false, [], ◌∷◌, Bytes, length, take, drop,
  rfind, contains, u16, subst, Bool-cases, Option-cases, arith,
}
use logrin.Pattern.Directive.{
  padding_prefix, parse_width, finish_padding, parse_padding, set_spec, spec_before, padding_after,
  looks_like_padding, parse_spec_and_padding, parse_body, parse,
}
use logrin.Pattern.Error.{ok, bind-eq-ok, ok-injective, err-ne-ok}
use logrin.Pattern.Segment.{
  SegmentKind, SegmentCapability, no_capability, spec_only, padding_only, spec_and_padding,
  get_segment_capability, Directive, default_directive,
}

abbrev pub InRange : Directive → Type 0
InRange d = (d.spec_offset < 65536) × (d.spec_length < 65536) × (d.width < 65536)

parse_width-lt :
    (width : ℕ) (has_digits : Bool) (input : Bytes) {w : ℕ × Bool}
    → width < 65536
    → parse_width width has_digits input ≡ ok w
    → w.0 < 65536
unfolding parse_width
parse_width-lt width has_digits [] h e = ground arith
parse_width-lt width has_digits (ch ∷ rest) {w} h e =
    ground (arith, parse_width-lt (u16 (width * 10 + (ch - b'0'))) true rest {w = w})

padding_prefix-InRange :
    (input : Bytes) (d : Directive) → InRange d → InRange (padding_prefix input d).0
unfolding padding_prefix
padding_prefix-InRange input d h = ground arith

finish_padding-InRange :
    (d : Directive) (width : ℕ) (has_digits : Bool) {e : Directive}
    → InRange d
    → width < 65536
    → finish_padding d width has_digits ≡ ok e
    → InRange e
unfolding finish_padding
finish_padding-InRange d width has_digits h w e = ground arith

parse_padding-InRange :
    (input : Bytes) (d : Directive) {e : Directive}
    → InRange d
    → parse_padding input d ≡ ok e
    → InRange e
unfolding parse_padding
parse_padding-InRange [] d h e = subst InRange (ok-injective e) h
parse_padding-InRange (ch ∷ rest) d h e =
    let (d', pos) = padding_prefix (ch ∷ rest) d in
    let (w, read, f) =
      bind-eq-ok (parse_width 0 false (drop pos (ch ∷ rest))) (λ w. finish_padding d' w.0 w.1) e in
    finish_padding-InRange d' w.0 w.1 (padding_prefix-InRange (ch ∷ rest) d h)
      (parse_width-lt 0 false (drop pos (ch ∷ rest)) (omega arith) read) f

padding_after-InRange :
    (padding : Bytes) (d : Directive) {e : Directive}
    → InRange d
    → padding_after padding d ≡ ok e
    → InRange e
unfolding padding_after
padding_after-InRange padding d {e} h f = ground (arith, parse_padding-InRange padding d {e = e})

default-InRange : InRange default_directive
default-InRange = omega arith

set_spec-InRange : (offset size : ℕ) → InRange (set_spec offset size default_directive)
set_spec-InRange offset size = omega arith

spec_before-InRange : (spec : Bytes) (offset : ℕ) → InRange (spec_before spec offset)
unfolding spec_before
spec_before-InRange spec offset = ground arith

split-InRange :
    (input : Bytes) (offset : ℕ) {d : Directive}
    → parse_spec_and_padding input offset ≡ ok d
    → InRange d
unfolding parse_spec_and_padding
split-InRange input offset {d} h = elim (Option-cases (rfind input b':')) [
  | inl whole ↦ elim (Bool-cases (looks_like_padding input)) [
    | inl padding ↦
        parse_padding-InRange input default_directive default-InRange
          (rw (whole, parse_spec_and_padding, padding) at h)
    | inr spec ↦
        subst InRange (ok-injective (rw (whole, parse_spec_and_padding, spec) at h))
          (set_spec-InRange offset (length input))
  ]
  | inr (colon, split) ↦
      padding_after-InRange (drop (suc colon) input) (spec_before (take colon input) offset)
        (spec_before-InRange (take colon input) offset) (rw (split, parse_spec_and_padding) at h)
]

body-InRange :
    (capability : SegmentCapability) (input : Bytes) (offset : ℕ) {d : Directive}
    → parse_body capability input offset ≡ ok d
    → InRange d
unfolding parse_body
body-InRange no_capability input offset h = absurd (err-ne-ok h)
body-InRange spec_only input offset h =
    subst InRange (ok-injective h) (set_spec-InRange offset (length input))
body-InRange padding_only input offset h = elim (Bool-cases (contains input b':')) [
  | inl colon ↦ absurd (err-ne-ok (rw colon at h))
  | inr plain ↦ parse_padding-InRange input default_directive default-InRange (rw plain at h)
]
body-InRange spec_and_padding input offset h = split-InRange input offset h

-- The offset, the length and the width of a directive fit in their 16 bits.
pub parse-InRange :
    (input : Bytes) (offset : ℕ) (kind : SegmentKind) {d : Directive}
    → parse input offset kind ≡ ok d
    → InRange d
unfolding parse
parse-InRange input offset kind {d} h =
    let body = body-InRange (get_segment_capability kind) input offset {d = d} in
    ground (arith, body)
