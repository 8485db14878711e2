-- ===== src/Pattern/Directive/Position.antt =====
-- What `Directive::Parse` reads does not depend on where the body stands, but for the offset of the
-- specification.
use logrin.Base.{
  ℕ, suc, ◌<◌, ◌≡◌, ◌∙◌, refl, sym, ap, inl, inr, Bool, false, not, [], ◌∷◌, Bytes, ◌==◌, length,
  take, drop, contains, rfind, u16, Bool-cases, Option-cases, arith,
}
use logrin.Pattern.Directive.{
  is_no_capability, padding_prefix, parse_width, finish_padding, parse_padding, set_spec,
  spec_before, padding_after, looks_like_padding, parse_spec_and_padding, parse_body, parse,
}
use logrin.Pattern.Directive.Spec.{parse_padding-SameSpec}
use logrin.Pattern.Error.{Result, ok, err, ◌>>=◌, ok-injective, err-ne-ok}
use logrin.Pattern.Segment.{
  SegmentKind, SegmentCapability, no_capability, spec_only, padding_only, spec_and_padding,
  get_segment_capability, Directive, default_directive,
}

-- The directive with its specification at another offset.
abbrev pub place : ℕ → Directive → Directive
place o d = record d { spec_offset = o }

abbrev pub place_result : ℕ → Result Directive → Result Directive
place_result o (ok d) = ok (place o d)
place_result o (err e) = err e

padding_prefix-place :
    (o : ℕ) (input : Bytes) (d : Directive)
    → padding_prefix input (place o d)
      ≡ (place o (padding_prefix input d).0, (padding_prefix input d).1)
unfolding padding_prefix
padding_prefix-place o input d = ground arith

finish_padding-place :
    (o : ℕ) (d : Directive) (width : ℕ) (has_digits : Bool)
    → finish_padding (place o d) width has_digits
      ≡ place_result o (finish_padding d width has_digits)
unfolding finish_padding
finish_padding-place o d width has_digits = ground arith

place-bind :
    (o : ℕ) (d : Directive) (w : Result (ℕ × Bool))
    → (w >>= λ w. finish_padding (place o d) w.0 w.1)
      ≡ place_result o (w >>= λ w. finish_padding d w.0 w.1)
place-bind o d (ok w) = finish_padding-place o d w.0 w.1
place-bind o d (err e) = refl

parse_padding-place :
    (o : ℕ) (input : Bytes) (d : Directive)
    → parse_padding input (place o d) ≡ place_result o (parse_padding input d)
unfolding parse_padding
parse_padding-place o [] d = refl
parse_padding-place o (ch ∷ rest) d =
    let prefix = padding_prefix (ch ∷ rest) d in
    rw (padding_prefix-place o (ch ∷ rest) d)
      (place-bind o prefix.0 (parse_width 0 false (drop prefix.1 (ch ∷ rest))))

padding_after-place :
    (o : ℕ) (padding : Bytes) (d : Directive)
    → padding_after padding (place o d) ≡ place_result o (padding_after padding d)
unfolding padding_after
padding_after-place o padding d = elim (Bool-cases (not (length padding == 0))) [
  | inl some_padding ↦ rw some_padding (parse_padding-place o padding d)
  | inr no_padding ↦ rw no_padding refl
]

-- The result at a position, by the one at the position 0.
abbrev pub Placed : ℕ → Result Directive → Result Directive → Type 0
Placed start r r0 =
    (o : ℕ) × (r ≡ place_result o r0)
    × ((d : Directive) → r ≡ ok d → 0 < d.spec_length → o ≡ u16 start)

parse_padding-Placed :
    (start : ℕ) (input : Bytes)
    → Placed start (parse_padding input default_directive) (parse_padding input default_directive)
parse_padding-Placed start input = (
  0,
  parse_padding-place 0 input default_directive,
  λ d h more. absurd (omega (arith, (parse_padding-SameSpec input default_directive h).1)),
)

padding_after-Placed :
    (start : ℕ) (padding : Bytes)
    → Placed start
        (padding_after padding default_directive)
        (padding_after padding default_directive)
unfolding padding_after
padding_after-Placed start padding = elim (Bool-cases (not (length padding == 0))) [
  | inl some_padding ↦ rw some_padding (parse_padding-Placed start padding)
  | inr no_padding ↦
      rw no_padding
        (0, refl, λ d h more. absurd (omega (arith, ap (λ e. e.spec_length) (ok-injective h))))
]

split-Placed :
    (start : ℕ) (input : Bytes)
    → Placed start (parse_spec_and_padding input start) (parse_spec_and_padding input 0)
unfolding parse_spec_and_padding spec_before
split-Placed start input = elim (Option-cases (rfind input b':')) [
  | inl whole ↦ elim (Bool-cases (looks_like_padding input)) [
    | inl padding ↦ rw (whole, parse_spec_and_padding, padding) (parse_padding-Placed start input)
    | inr spec ↦ rw (whole, parse_spec_and_padding, spec) (u16 start, refl, λ d h more. refl)
  ]
  | inr (colon, split) ↦
      rw (split, parse_spec_and_padding)
        (elim (Bool-cases (not (length (take colon input) == 0))) [
          | inl before ↦
              rw (before, spec_before)
                (
                  u16 start,
                  padding_after-place (u16 start) (drop (suc colon) input)
                      (set_spec 0 (length (take colon input)) default_directive),
                  λ d h more. refl,
                )
          | inr nothing ↦
              rw (nothing, spec_before) (padding_after-Placed start (drop (suc colon) input))
        ])
]

body-Placed :
    (capability : SegmentCapability) (start : ℕ) (input : Bytes)
    → Placed start (parse_body capability input start) (parse_body capability input 0)
unfolding parse_body
body-Placed no_capability start input = (u16 start, refl, λ d h more. refl)
body-Placed spec_only start input = (u16 start, refl, λ d h more. refl)
body-Placed padding_only start input = elim (Bool-cases (contains input b':')) [
  | inl colon ↦ rw colon (u16 start, refl, λ d h more. refl)
  | inr plain ↦ rw plain (parse_padding-Placed start input)
]
body-Placed spec_and_padding start input = split-Placed start input

parse-Placed :
    (input : Bytes) (start : ℕ) (kind : SegmentKind)
    → Placed start (parse input start kind) (parse input 0 kind)
unfolding parse
parse-Placed input start kind = elim (Bool-cases (is_no_capability (get_segment_capability kind))) [
  | inl none_accepted ↦ rw none_accepted (u16 start, refl, λ d h more. refl)
  | inr accepted ↦ elim (Bool-cases (length input == 0)) [
    | inl empty ↦
        rw (accepted, empty)
          (0, refl, λ d h more. absurd (omega (arith, ap (λ e. e.spec_length) (ok-injective h))))
    | inr full ↦ rw (accepted, full) (body-Placed (get_segment_capability kind) start input)
  ]
]

placed-ok :
    (o : ℕ) (r : Result Directive) {d : Directive}
    → ok d ≡ place_result o r
    → (read : Directive) × (r ≡ ok read) × (d ≡ place o read)
placed-ok o (ok read) h = (read, refl, ok-injective h)
placed-ok o (err e) h = absurd (err-ne-ok (sym h))

-- The directive of a body that stands at a position is the one that the body makes alone, with its
-- specification, if it has one, at that position.
pub parse-place :
    (input : Bytes) (start : ℕ) (kind : SegmentKind) {d : Directive}
    → parse input start kind ≡ ok d
    → (o : ℕ) × (read : Directive) × (parse input 0 kind ≡ ok read)
      × (d ≡ place o read)
      × (0 < read.spec_length → o ≡ u16 start)
parse-place input start kind {d} h =
    let (o, same, at) = parse-Placed input start kind in
    let (read, alone, e) = placed-ok o (parse input 0 kind) (sym h ∙ same) in
    (o, read, alone, e, λ more. at d h (rw e more))
