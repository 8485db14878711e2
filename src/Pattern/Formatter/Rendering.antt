-- ===== src/Pattern/Formatter/Rendering.antt =====
-- From a pattern that is written from items to the text of a record: `Pattern::Parse` and
-- `Pattern::Format` together.
use logrin.Pattern.Formatter.Markers.{PrintsMarkers, parse_formatter-PrintsMarkers}
use logrin.Pattern.Segment.{all_attributes}
use logrin.Base.{
  subst, Bool, ◌&&◌, ◌≤◌, ◌<◌, ◌≡◌, ◌∙◌, refl, sym, true, false, List, [], some, length, All, arith,
}
use logrin.Pattern.Error.{ok, ok-injective}
use logrin.Pattern.Formatter.Safety.{parse_formatter-IsReady}
use logrin.Pattern.Formatter.Segments.{IsReady}
use logrin.Pattern.Formatter.Plain.{parse_formatter-parsed, parse_formatter-config}
use logrin.Pattern.Formatter.{Config, Formatter, parse_formatter, format_pattern, format}
use logrin.Pattern.Parser.Items.{Item, print, pieces, IsPattern}
use logrin.Pattern.Parser.RoundTrip.{parse-print}
use logrin.Pattern.Parser.{default_config}
use logrin.Pattern.Runtime.{Runtime}
use logrin.Record.{LogRecord}
use logrin.Pattern.Formatter.Shown.{items-shown}
use logrin.Pattern.Formatter.Texts.{is_simple, is_part, rendered}

both : {a b : Bool} → a && b ≡ true → (a ≡ true) × (b ≡ true)
both h = ground arith

-- What is printed: a formatter for a pattern that is written from texts, escaped percent signs and
-- directives gives for every record the texts as they are and, in the places of the directives,
-- the parts of the record: the time in the given format, the level in the given letters and the
-- logger's name, both filled up to the given width, the value of the named field or nothing if
-- there is none, for `%A` the fields with their names between the markers, and the terminal
-- sequences of the styles and colours if colours are enabled. The pattern is shorter than 65536
-- bytes, has at most 64 items and meets the conditions under which it is read back as it is
-- written, and if it has a `%A` the markers are plain text.
pub format-print :
    {D : Type 0} (env : Runtime D) (items : List Item) (config : Config) {f : Formatter}
    (r : LogRecord D)
    → All (λ i. is_simple config i ≡ true) items
    → IsPattern false 0 0 items
    → length (print items) < 65536
    → length items ≤ 64
    → parse_formatter env (print items) config ≡ some (ok f)
    → format env f r ≡ some (rendered env f r items)
unfolding format format_pattern
format-print env items config {f} r simple h short few parsed =
    let e : f.parsed
        ≡ record { segments = pieces 0 0 items; pattern = print items; config = default_config } =
      ok-injective (
        sym (parse_formatter-parsed env (print items) config parsed)
        ∙ parse-print items h short few) in
    let ready : All (IsReady env f.parsed) f.parsed.segments =
      parse_formatter-IsReady env (print items) config parsed in
    let same : f.config ≡ config = parse_formatter-config env (print items) config parsed in
    let markers : is_part f.config all_attributes ≡ true
        → PrintsMarkers env f r (format_pattern env f 1) =
      λ h.
        let (prefix, suffix) = both (rw same at h) in
        parse_formatter-PrintsMarkers env (print items) config r parsed prefix suffix in
    rw e (
      items-shown env f r (format_pattern env f 1) items false 0 0 _ [] short
        (subst (λ c. All (λ i. is_simple c i ≡ true) items) (sym same) simple) h (rw e at ready)
        (record { behind = refl; ends = omega arith }) markers)
