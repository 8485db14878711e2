-- ===== src/Pattern/Content/Padding.antt =====
-- src/formatters/pattern/Parser.cc: where `applyPadding` puts the fill characters.
use logrin.Base.{
  ◌≢◌, ℕ, ◌+◌, ◌-◌, ◌/◌, ◌≤◌, ◌≡◌, refl, sym, ap, inl, inr, true, ◌++◌, Bytes, leb, if◌then◌else◌,
  length, replicate, append-nil, Bool-cases, arith,
}
use logrin.Pattern.Content.{pad, apply_padding}
use logrin.Pattern.Segment.{Alignment, no_alignment, center, right, left, Directive}

-- The sides that an alignment allows, for the numbers of fill characters before and behind.
abbrev pub Sides : Alignment → ℕ → ℕ → Type 0
Sides no_alignment before behind = (before ≡ 0) × (behind ≡ 0)
Sides center before behind = (before ≤ behind) × (behind ≤ before + 1)
Sides right before behind = behind ≡ 0
Sides left before behind = before ≡ 0

-- A content behind `out`, with so many fill characters before and behind it.
abbrev pub filled : Bytes → ℕ → ℕ → Bytes → ℕ → Bytes
filled out fill before content behind =
    ((out ++ replicate before fill) ++ content) ++ replicate behind fill

-- How many characters an aligned content is short of the width.
abbrev pub missing : Alignment → ℕ → Bytes → ℕ
missing no_alignment width content = 0
missing _ width content = width - length content

-- The result of a padding of the content behind `out`.
pub record IsPadded (out content : Bytes) (alignment : Alignment) (width fill : ℕ) (result : Bytes)
    : Type 0 where
  pub before : ℕ
  pub behind : ℕ
  pub text : result ≡ filled out fill before content behind
  pub total : before + behind ≡ missing alignment width content
  pub sides : Sides alignment before behind

bare : (out content : Bytes) (fill : ℕ) → out ++ content ≡ filled out fill 0 content 0
bare out content fill = simp (append-nil out, append-nil (out ++ content))

unpadded :
    (out content : Bytes) (alignment : Alignment) (width fill : ℕ)
    → missing alignment width content ≡ 0
    → IsPadded out content alignment width fill (out ++ content)
unpadded out content no_alignment width fill h = record {
  before = 0;
  behind = 0;
  text = bare out content fill;
  total = sym h;
  sides = (refl, refl);
}
unpadded out content center width fill h = record {
  before = 0;
  behind = 0;
  text = bare out content fill;
  total = sym h;
  sides = (omega arith, omega arith);
}
unpadded out content right width fill h = record {
  before = 0;
  behind = 0;
  text = bare out content fill;
  total = sym h;
  sides = refl;
}
unpadded out content left width fill h = record {
  before = 0;
  behind = 0;
  text = bare out content fill;
  total = sym h;
  sides = refl;
}

leb-missing :
    (width : ℕ) (content : Bytes) → leb width (length content) ≡ true → width - length content ≡ 0
leb-missing width content h = ground arith

pad-IsPadded :
    (alignment : Alignment) (width fill : ℕ) (content out : Bytes)
    → alignment ≢ no_alignment
    → IsPadded out content alignment width fill
        (pad alignment (width - length content) fill content out)
unfolding pad
pad-IsPadded no_alignment width fill content out h = absurd (h refl)
pad-IsPadded center width fill content out h =
    let total = width - length content in
    record {
      before = total / 2;
      behind = total - total / 2;
      text = refl;
      total = omega arith;
      sides = (omega arith, omega arith);
    }
pad-IsPadded right width fill content out h = record {
  before = width - length content;
  behind = 0;
  text = sym (append-nil _);
  total = omega arith;
  sides = refl;
}
pad-IsPadded left width fill content out h = record {
  before = 0;
  behind = width - length content;
  text = ap (λ o. (o ++ content) ++ replicate (width - length content) fill) (sym (append-nil out));
  total = omega arith;
  sides = refl;
}

missing_le :
    (alignment : Alignment) (width : ℕ) (content : Bytes)
    → missing alignment width content ≤ width - length content
missing_le no_alignment width content = omega arith
missing_le center width content = omega arith
missing_le right width content = omega arith
missing_le left width content = omega arith

aligned :
    (alignment : Alignment) (width fill : ℕ) (content out : Bytes)
    → alignment ≢ no_alignment
    → IsPadded out content alignment width fill (
        if leb width (length content)
        then out ++ content
        else pad alignment (width - length content) fill content out)
aligned alignment width fill content out h = elim (Bool-cases (leb width (length content))) [
  | inl wide ↦ rw wide (
      unpadded out content alignment width fill
        (omega (arith, missing_le alignment width content, leb-missing width content wide)))
  | inr narrow ↦ rw narrow (pad-IsPadded alignment width fill content out h)
]

padding_by :
    (content : Bytes) (d : Directive) (out : Bytes) (alignment : Alignment)
    → d.alignment ≡ alignment
    → IsPadded out content alignment d.width d.fill (apply_padding content d out)
unfolding apply_padding
padding_by content d out no_alignment e =
    rw e (unpadded out content no_alignment d.width d.fill refl)
padding_by content d out center e = rw e (aligned center d.width d.fill content out (ground arith))
padding_by content d out right e = rw e (aligned right d.width d.fill content out (ground arith))
padding_by content d out left e = rw e (aligned left d.width d.fill content out (ground arith))

-- The content stands once in the result of `applyPadding`, with fill characters around it that
-- make up what it is short of the width: behind it for `<`, before it for `>`, on both sides for
-- `^`, where the odd one goes behind, and none without an alignment.
pub apply_padding-IsPadded :
    (content : Bytes) (d : Directive) (out : Bytes)
    → IsPadded out content d.alignment d.width d.fill (apply_padding content d out)
apply_padding-IsPadded content d out = padding_by content d out d.alignment refl
