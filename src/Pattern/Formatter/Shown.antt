-- ===== src/Pattern/Formatter/Shown.antt =====
-- Each segment of a written pattern is printed as the text that it stands for.
use logrin.Base.{
  Bool, take, subst, Option-cases, suc, length-append, ◌==◌, ℕ, ◌+◌, ◌<◌, ◌≡◌, ◌∙◌, refl, sym, ap,
  inl, inr, true, false, List, [], ◌∷◌, ◌++◌, append_assoc, append-nil, Option, some, Bytes, length,
  All, if◌then◌else◌, Bool-cases, arith, not, equal, le→leb,
}
use logrin.Pattern.Content.{
  level_text, thread_text, format_level, format_logger, format_thread_id, timestamp_text,
  format_timestamp, checked_substr, format_literal,
}
use logrin.Pattern.Formatter.{attribute_of, format_attribute}
use logrin.Pattern.Error.{ok, err-ne-ok}
use logrin.Pattern.Directive.Position.{place, parse-place}
use logrin.Pattern.Directive.Spec.{parse-SpecWithin}
use logrin.Pattern.Formatter.Markers.{append_attribute_value-append, PrintsMarkers, fields-shown}
use logrin.Pattern.Formatter.Bodies.{
  Stands, checked_substr-spec, spec_text-spec, padded-filled, no_spec, with_spec, spec_cases,
  emit_colour-text, emit_level_colour-text,
}
use logrin.Pattern.Formatter.Segments.{IsReady, CanUnwrap, IsReady-CanUnwrap}
use logrin.Pattern.Directive
use logrin.Pattern.Formatter.{
  is_color_kind, Formatter, is_colors_enabled, format_segment, format_each,
}
use logrin.Pattern.Parser.Items.{
  Fits, IsPattern, is_text, directive_of, Item, text, percent, bare, braced, print_item, print,
  item_depth, piece, pieces, At, At-append, take-append,
}
use logrin.Pattern.Parser.{ParsedPattern}
use logrin.Pattern.Parser.Names.{name}
use logrin.Pattern.Runtime.{Runtime}
use logrin.Pattern.Segment.{
  level, logger, thread_id, underlying, Directive, SegmentKind, literal, timestamp, all_attributes,
  attribute, foreground_color_start, background_color_start, level_color_start, bold, dim, italic,
  underline, strikethrough, style_end, Segment,
}
use logrin.Record.{find_field, LogRecord}
use logrin.Pattern.Formatter.Texts.{
  is_part, is_simple, time_text, named_field, when_colored, part, field_text, specified_part,
  rendered_item, rendered,
}

module _ {D : Type 0} (env : Runtime D) (self : Formatter) (r : LogRecord D) where
  format_literal-text :
      (p : ParsedPattern) (s : Segment) (t rest out : Bytes)
      → At p.pattern s.text_offset (t ++ rest)
      → s.text_length ≡ length t
      → format_literal env p s r out ≡ some (out ++ t)
  unfolding format_literal checked_substr
  format_literal-text p s t rest out a h =
      rw
        (
          le→leb s.text_offset (length p.pattern) (omega (arith, a.ends)),
          h,
          a.behind,
          take-append t rest,
        )
        refl

  painted :
      (sequence out : Bytes)
      → (if not (is_colors_enabled env self.config.use_colours)
          then some out
          else some (out ++ sequence))
        ≡ some (out ++ when_colored env self r sequence)
  painted sequence out = elim (Bool-cases (is_colors_enabled env self.config.use_colours)) [
    | inl on ↦ rw on refl
    | inr plain ↦ rw plain (ap (λ xs. some xs) (sym (append-nil out)))
  ]

  part-shown :
      (f : ParsedPattern → LogRecord D → Bytes → Option Bytes) (kind : SegmentKind) (depth : ℕ)
      (p : ParsedPattern) (out : Bytes)
      → is_part self.config kind ≡ true
      → (is_part self.config all_attributes ≡ true → PrintsMarkers env self r f)
      → format_segment env self f kind (piece 0 depth (bare kind)) p r out
        ≡ some (out ++ part env self r kind)
  unfolding format_segment equal
  part-shown f literal depth p out h markers = absurd (ground arith)
  part-shown f all_attributes depth p out h markers =
      fields-shown env self r f true r.fields out (markers h)
  part-shown f attribute depth p out h markers = absurd (ground arith)
  part-shown f foreground_color_start depth p out h markers = absurd (ground arith)
  part-shown f background_color_start depth p out h markers = absurd (ground arith)
  part-shown f level_color_start depth p out h markers = painted _ out
  part-shown f style_end depth p out h markers = painted env.paint_reset out
  part-shown f bold depth p out h markers = painted (env.paint_style bold) out
  part-shown f dim depth p out h markers = painted (env.paint_style dim) out
  part-shown f italic depth p out h markers = painted (env.paint_style italic) out
  part-shown f underline depth p out h markers = painted (env.paint_style underline) out
  part-shown f strikethrough depth p out h markers = painted (env.paint_style strikethrough) out
  part-shown f _ depth p out h markers = refl

  attribute_of-text :
      (p : ParsedPattern) (s : Segment) (key out : Bytes)
      → attribute_of env p s r out key ≡ out ++ field_text env self r (find_field key r.fields)
  unfolding attribute_of
  attribute_of-text p s key out = elim (Option-cases (find_field key r.fields)) [
    | inl missing ↦ rw (missing, attribute_of) (sym (append-nil out))
    | inr (value, found) ↦
        rw (found, attribute_of) (append_attribute_value-append env self r value out)
  ]

  timestamp_text-time :
      (p : ParsedPattern) (s : Segment) (out spec : Bytes)
      → timestamp_text env p s r out spec ≡ time_text env self r spec
  unfolding timestamp_text
  timestamp_text-time p s out [] = refl
  timestamp_text-time p s out (c ∷ spec) =
      let full : suc (length spec) == 0 ≡ false = ground arith in rw full refl

  attribute-shown :
      (p : ParsedPattern) (s : Segment) (start : ℕ) (body out : Bytes) (d : Directive)
      → s.directive ≡ some d
      → Stands p.pattern start body d
      → format_attribute env p s r out
        ≡ some (out ++ named_field env self r (take d.spec_length body))
  unfolding format_attribute
  attribute-shown p s start body out d e stands =
      elim (spec_cases d.spec_length body stands.within) [
        | no_spec empty nothing ↦
            rw (e, format_attribute, empty, nothing) (ap (λ xs. some xs) (sym (append-nil out)))
        | with_spec c spec has is ↦
            let cut = checked_substr-spec stands has in
            rw (e, format_attribute, has, cut, is)
              (ap (λ xs. some xs) (attribute_of-text p s (c ∷ spec) out))
      ]

  -- A directive with a body prints what its specification and its padding say.
  body-shown :
      (f : ParsedPattern → LogRecord D → Bytes → Option Bytes) (kind : SegmentKind)
      (p : ParsedPattern) (s : Segment) (start o : ℕ) (body out : Bytes) (read : Directive)
      → s.directive ≡ some (place o read)
      → Directive.parse body 0 kind ≡ ok read
      → Stands p.pattern start body (place o read)
      → (is_color_kind kind ≡ true → CanUnwrap env p.pattern s.directive)
      → format_segment env self f kind s p r out
        ≡ some (out ++ specified_part env self r kind (take read.spec_length body) read)
  unfolding format_segment format_timestamp format_level format_logger format_thread_id thread_text
      is_color_kind underlying Directive.parse
  body-shown f timestamp p s start o body out read e alone stands can =
      rw (e, spec_text-spec stands)
        (ap (λ t. some (out ++ t)) (timestamp_text-time p s out (take read.spec_length body)))
  body-shown f level p s start o body out read e alone stands can =
      rw (e, spec_text-spec stands)
        (ap (λ t. some t)
          (padded-filled (level_text r.level (take read.spec_length body)) read out))
  body-shown f logger p s start o body out read e alone stands can =
      rw e (ap (λ t. some t) (padded-filled r.logger read out))
  body-shown f thread_id p s start o body out read e alone stands can =
      rw (e, spec_text-spec stands) refl
  body-shown f attribute p s start o body out read e alone stands can =
      attribute-shown p s start body out (place o read) e stands
  body-shown f foreground_color_start p s start o body out read e alone stands can =
      emit_colour-text env self p s r start body out (place o read) true e stands (can refl)
  body-shown f background_color_start p s start o body out read e alone stands can =
      emit_colour-text env self p s r start body out (place o read) false e stands (can refl)
  body-shown f level_color_start p s start o body out read e alone stands can =
      emit_level_colour-text env self p s r start body out (place o read) e stands (can refl)
  body-shown f _ p s start o body out read e alone stands can = absurd (err-ne-ok alone)

  -- The body of a directive behind its name and the brace.
  body-At :
      (p : ParsedPattern) (pos : ℕ) (word body rest : Bytes)
      → At p.pattern pos ((b'%' ∷ (word ++ b'{' ∷ (body ++ b'}' ∷ []))) ++ rest)
      → At p.pattern (pos + length word + 2) (body ++ b'}' ∷ rest)
  body-At p pos word body rest a =
      let front : Bytes = b'%' ∷ (word ++ b'{' ∷ []) in
      let same : (word ++ b'{' ∷ (body ++ b'}' ∷ [])) ++ rest
          ≡ (word ++ b'{' ∷ []) ++ (body ++ b'}' ∷ rest) =
        simp (append_assoc word, append_assoc body) in
      let behind : pos + length front ≡ pos + length word + 2 =
        omega (arith, length-append word (b'{' ∷ [])) in
      subst (λ n. At p.pattern n (body ++ b'}' ∷ rest)) behind
        (At-append front (body ++ b'}' ∷ rest) (subst (λ xs. At p.pattern pos (b'%' ∷ xs)) same a))

  item-shown :
      (f : ParsedPattern → LogRecord D → Bytes → Option Bytes) (i : Item) (in_text : Bool)
      (pos depth : ℕ) (p : ParsedPattern) (rest out : Bytes)
      → length p.pattern < 65536
      → is_simple self.config i ≡ true
      → Fits in_text pos depth i rest
      → IsReady env p (piece pos depth i)
      → At p.pattern pos (print_item i ++ rest)
      → (is_part self.config all_attributes ≡ true → PrintsMarkers env self r f)
      → format_segment env self f (piece pos depth i).kind (piece pos depth i) p r out
        ≡ some (out ++ rendered_item env self r i)
  unfolding format_segment
  item-shown f (text t) in_text pos depth p rest out short h fits ready a markers =
      format_literal-text p (piece pos depth (text t)) t rest out a refl
  item-shown f percent in_text pos depth p rest out short h fits ready a markers =
      format_literal-text p (piece pos depth percent) (b'%' ∷ []) rest out
        (At-append (b'%' ∷ []) (b'%' ∷ rest) a) refl
  item-shown f (bare kind) in_text pos depth p rest out short h fits ready a markers =
      part-shown f kind depth p out h markers
  item-shown f (braced kind body) in_text pos depth p rest out short h fits ready a markers =
      let start : ℕ = pos + length (name kind) + 2 in
      let (d, parsed, needs) = fits.4 in
      let (o, read, alone, placed, at) = parse-place body start kind parsed in
      let s = piece pos depth (braced kind body) in
      let within = parse-SpecWithin body 0 kind alone in
      rw alone (
        body-shown f kind p s start o body out read
          (ap directive_of (parsed ∙ ap (λ d. ok d) placed)) alone
          (record {
            rest = b'}' ∷ rest;
            at = body-At p pos (name kind) body rest a;
            short = short;
            within = within.1;
            offset = at;
          })
          (λ color. IsReady-CanUnwrap env p s color ready))

  pub items-shown :
      (f : ParsedPattern → LogRecord D → Bytes → Option Bytes) (items : List Item) (in_text : Bool)
      (pos depth : ℕ) (p : ParsedPattern) (out : Bytes)
      → length p.pattern < 65536
      → All (λ i. is_simple self.config i ≡ true) items
      → IsPattern in_text pos depth items
      → All (IsReady env p) (pieces pos depth items)
      → At p.pattern pos (print items)
      → (is_part self.config all_attributes ≡ true → PrintsMarkers env self r f)
      → format_each env self f (pieces pos depth items) p r out
        ≡ some (out ++ rendered env self r items)
  unfolding format_each
  items-shown f [] in_text pos depth p out short h fits ready a markers =
      ap (λ xs. some xs) (sym (append-nil out))
  items-shown f (i ∷ items) in_text pos depth p out short h fits ready a markers =
      rw (item-shown f i in_text pos depth p (print items) out short h.0 fits.0 ready.0 a markers) (
        items-shown f items (is_text i) (pos + length (print_item i)) (item_depth depth i) p
          (out ++ rendered_item env self r i) short h.1 fits.1 ready.1
          (At-append (print_item i) (print items) a) markers
        ∙ ap (λ xs. some xs)
            (append_assoc out (rendered_item env self r i) (rendered env self r items)))
