-- ===== src/Pattern/Directive/Spec.antt =====
-- Where the specification that `Directive::Parse` records lies.
use logrin.Base.{
  ℕ, zero, suc, ◌≤◌, ◌≡◌, ◌∙◌, inl, inr, Bool, false, [], ◌∷◌, Bytes, length, take, drop, subst,
  contains, rfind, Bool-cases, Option-cases, arith,
}
use logrin.Pattern.Directive.{
  padding_prefix, parse_width, finish_padding, parse_padding, set_spec, spec_before, padding_after,
  looks_like_padding, parse_spec_and_padding, parse_body, parse,
}
use logrin.Pattern.Error.{ok, bind-eq-ok, ok-injective, err-ne-ok}
use logrin.Pattern.Segment.{
  SegmentKind, SegmentCapability, no_capability, spec_only, padding_only, spec_and_padding,
  get_segment_capability, Directive, default_directive,
}

-- The two directives have the same specification.
abbrev pub SameSpec : Directive → Directive → Type 0
SameSpec d e = (d.spec_offset ≡ e.spec_offset) × (d.spec_length ≡ e.spec_length)

-- The specification stands within the `count` bytes from `offset` on.
abbrev pub SpecWithin : ℕ → ℕ → Directive → Type 0
SpecWithin offset count d = (d.spec_offset ≤ offset) × (d.spec_length ≤ count)

padding_prefix-SameSpec : (input : Bytes) (d : Directive) → SameSpec (padding_prefix input d).0 d
unfolding padding_prefix
padding_prefix-SameSpec input d = ground arith

finish_padding-SameSpec :
    (d : Directive) (width : ℕ) (has_digits : Bool) {e : Directive}
    → finish_padding d width has_digits ≡ ok e
    → SameSpec e d
unfolding finish_padding
finish_padding-SameSpec d width has_digits h = ground arith

pub parse_padding-SameSpec :
    (input : Bytes) (d : Directive) {e : Directive} → parse_padding input d ≡ ok e → SameSpec e d
unfolding parse_padding
parse_padding-SameSpec [] d h = ground arith
parse_padding-SameSpec (ch ∷ rest) d h =
    let (d', pos) = padding_prefix (ch ∷ rest) d in
    let (w, _, f) =
      bind-eq-ok (parse_width 0 false (drop pos (ch ∷ rest))) (λ w. finish_padding d' w.0 w.1) h in
    let p = padding_prefix-SameSpec (ch ∷ rest) d in
    let q = finish_padding-SameSpec d' w.0 w.1 f in (q.0 ∙ p.0, q.1 ∙ p.1)

pub length-take_le : (n : ℕ) (xs : Bytes) → length (take n xs) ≤ length xs
length-take_le zero xs = omega arith
length-take_le (suc n) [] = omega arith
length-take_le (suc n) (x ∷ xs) = omega (arith, length-take_le n xs)

padded-SpecWithin :
    (offset count : ℕ) (input : Bytes) (d : Directive) {e : Directive}
    → SpecWithin offset count d
    → parse_padding input d ≡ ok e
    → SpecWithin offset count e
padded-SpecWithin offset count input d w h = omega (arith, parse_padding-SameSpec input d h)

set_spec-SpecWithin :
    (offset size : ℕ) → SpecWithin offset size (set_spec offset size default_directive)
set_spec-SpecWithin offset size = omega arith

spec_before-SpecWithin :
    (spec : Bytes) (offset : ℕ) → SpecWithin offset (length spec) (spec_before spec offset)
unfolding spec_before
spec_before-SpecWithin spec offset = ground arith

padding_after-SpecWithin :
    (offset count : ℕ) (padding : Bytes) (d : Directive) {e : Directive}
    → SpecWithin offset count d
    → padding_after padding d ≡ ok e
    → SpecWithin offset count e
unfolding padding_after
padding_after-SpecWithin offset count padding d {e} w h =
    ground (arith, padded-SpecWithin offset count padding d {e = e})

split-SpecWithin :
    (input : Bytes) (offset : ℕ) {d : Directive}
    → parse_spec_and_padding input offset ≡ ok d
    → SpecWithin offset (length input) d
unfolding parse_spec_and_padding
split-SpecWithin input offset {d} h = elim (Option-cases (rfind input b':')) [
  | inl whole ↦ elim (Bool-cases (looks_like_padding input)) [
    | inl padding ↦
        padded-SpecWithin offset (length input) input default_directive (omega arith)
          (rw (whole, parse_spec_and_padding, padding) at h)
    | inr spec ↦
        subst (SpecWithin offset (length input))
          (ok-injective (rw (whole, parse_spec_and_padding, spec) at h))
          (set_spec-SpecWithin offset (length input))
  ]
  | inr (colon, split) ↦
      let before = spec_before-SpecWithin (take colon input) offset in
      let shorter = length-take_le colon input in
      padding_after-SpecWithin offset (length input) (drop (suc colon) input)
        (spec_before (take colon input) offset) (omega arith)
        (rw (split, parse_spec_and_padding) at h)
]

body-SpecWithin :
    (capability : SegmentCapability) (input : Bytes) (offset : ℕ) {d : Directive}
    → parse_body capability input offset ≡ ok d
    → SpecWithin offset (length input) d
unfolding parse_body
body-SpecWithin no_capability input offset h = absurd (err-ne-ok h)
body-SpecWithin spec_only input offset h = ground arith
body-SpecWithin padding_only input offset h = elim (Bool-cases (contains input b':')) [
  | inl colon ↦ absurd (err-ne-ok (rw colon at h))
  | inr plain ↦
      padded-SpecWithin offset (length input) input default_directive (omega arith) (rw plain at h)
]
body-SpecWithin spec_and_padding input offset h = split-SpecWithin input offset h

-- The specification that is recorded for a body lies within that body.
pub parse-SpecWithin :
    (input : Bytes) (offset : ℕ) (kind : SegmentKind) {d : Directive}
    → parse input offset kind ≡ ok d
    → SpecWithin offset (length input) d
unfolding parse
parse-SpecWithin input offset kind {d} h =
    let body = body-SpecWithin (get_segment_capability kind) input offset {d = d} in
    ground (arith, body)
