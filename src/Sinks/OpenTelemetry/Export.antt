-- ===== src/Sinks/OpenTelemetry/Export.antt =====
-- src/sinks/OpenTelemetry.cc: which records can be handed to the SDK, and as what.
use logrin.Base.{
  le→leb, ◌≤◌, ◌≡◌, ◌≢◌, ◌↔◌, refl, List, [], ◌∷◌, ◌++◌, Option, none, some, Bytes, All, arith,
}
use logrin.Pattern.Runtime.{◌>>=◌}
use logrin.Record.{
  pos, LogLevel, trace, debug, info, warning, error, off, AttributeValue, mono, bool, int64, uint64,
  double, string, LogRecord,
}
use logrin.Sinks.OpenTelemetry.{
  set_body, set_severity, set_attribute, set_observed_timestamp, Sdk, Setter, int64_max,
  level_to_severity, convert_field, convert_fields, log_record_to_open_telemetry,
}

module _ {D : Type 0} where
  -- A value that the SDK has a type for: no unsigned number above the greatest `Int64`.
  abbrev pub Fits : AttributeValue D → Type 0
  Fits (uint64 n) = n ≤ int64_max
  Fits mono = Unit {0}
  Fits (bool b) = Unit {0}
  Fits (int64 n) = Unit {0}
  Fits (double d) = Unit {0}
  Fits (string s) = Unit {0}

  -- The level is not `Off`, and every field fits.
  abbrev pub IsExportable : LogRecord D → Type 0
  IsExportable r =
      (r.level ≢ off) × All (λ (field : Bytes × AttributeValue D). Fits field.1) r.fields

-- Two steps in a row give a result exactly if each of them does.
two_steps {ℓ κ μ} :
    {A : Type ℓ} {B : Type κ} {C : Type μ} (m : Option A) (n : Option B) (f : A → B → C)
    → ((m >>= λ a. n >>= λ b. some (f a b)) ≢ none) ↔ ((m ≢ none) × (n ≢ none))
two_steps none n f = (λ h. absurd (h refl), λ h e. h.0 refl)
two_steps (some a) none f = (λ h. absurd (h refl), λ h e. h.1 refl)
two_steps (some a) (some b) f = (λ h. (ground arith, ground arith), λ h e. ground arith)

module _ {D : Type 0} (sdk : Sdk D) where
  open sdk use {
    Severity, trace_severity, debug_severity, info_severity, warn_severity, error_severity,
    fatal_severity, Value, of_bool, of_int64, of_double, of_string,
  }

  level_to_severity-ne_none :
      (level : LogLevel) → (level_to_severity sdk level ≢ none) ↔ (level ≢ off)
  unfolding level_to_severity
  level_to_severity-ne_none off = (λ h. absurd (h refl), λ h. absurd (h refl))
  level_to_severity-ne_none _ = (λ h e. ground arith, λ h e. ground arith)

  convert_field-ne_none :
      (key : Bytes) (value : AttributeValue D) → (convert_field sdk key value ≢ none) ↔ Fits value
  unfolding convert_field
  convert_field-ne_none key (uint64 n) = ground arith
  convert_field-ne_none key _ = (λ _. tt, λ _ e. ground arith)

  convert_fields-ne_none :
      (fields : List (Bytes × AttributeValue D))
      → (convert_fields sdk fields ≢ none)
        ↔ All (λ (field : Bytes × AttributeValue D). Fits field.1) fields
  unfolding convert_fields
  convert_fields-ne_none [] = (λ _. tt, λ _ e. ground arith)
  convert_fields-ne_none ((key, value) ∷ rest) =
      let steps =
        two_steps (convert_field sdk key value) (convert_fields sdk rest) (λ a b. a ++ b) in
      let here = convert_field-ne_none key value in
      let there = convert_fields-ne_none rest in
      (
        (λ h. (here.0 (steps.0 h).0, there.0 (steps.0 h).1)),
        (λ h. steps.1 (here.1 h.0, there.1 h.1)),
      )

  -- A record is handed to the SDK exactly if its level is not `Off` and it has no unsigned number
  -- above the greatest `Int64` among its fields; any other record stops the program.
  pub record-IsExportable :
      (r : LogRecord D) → (log_record_to_open_telemetry sdk r ≢ none) ↔ IsExportable r
  unfolding log_record_to_open_telemetry
  record-IsExportable r =
      let steps = two_steps (level_to_severity sdk r.level) (convert_fields sdk r.fields) (λ s a.
        Setter.set_observed_timestamp r.timestamp
        ∷ Setter.set_severity s
        ∷ Setter.set_body r.message
        ∷ a) in
      let level = level_to_severity-ne_none r.level in
      let fields = convert_fields-ne_none r.fields in
      (
        (λ h. (level.0 (steps.0 h).0, fields.0 (steps.0 h).1)),
        (λ h. steps.1 (level.1 h.0, fields.1 h.1)),
      )

  -- The severity that the SDK has for a level; it has none for `Off`.
  abbrev pub severity : LogLevel → Severity
  severity trace = trace_severity
  severity debug = debug_severity
  severity info = info_severity
  severity warning = warn_severity
  severity error = error_severity
  severity _ = fatal_severity

  -- A field as an attribute of the SDK, which has no unsigned numbers.
  abbrev pub attribute : Bytes → AttributeValue D → List (Setter Severity Value)
  attribute key mono = []
  attribute key (bool b) = set_attribute key (of_bool b) ∷ []
  attribute key (int64 n) = set_attribute key (of_int64 n) ∷ []
  attribute key (uint64 n) = set_attribute key (of_int64 (pos n)) ∷ []
  attribute key (double d) = set_attribute key (of_double d) ∷ []
  attribute key (string s) = set_attribute key (of_string s) ∷ []

  abbrev pub attributes : List (Bytes × AttributeValue D) → List (Setter Severity Value)
  attributes [] = []
  attributes ((key, value) ∷ rest) = attribute key value ++ attributes rest

  -- A record of the SDK with a record's time, severity, text and those fields that have a value.
  abbrev pub emission : LogRecord D → List (Setter Severity Value)
  emission r =
      set_observed_timestamp r.timestamp
      ∷ set_severity (severity r.level)
      ∷ set_body r.message
      ∷ attributes r.fields

  level_to_severity-severity :
      (level : LogLevel) → level ≢ off → level_to_severity sdk level ≡ some (severity level)
  unfolding level_to_severity
  level_to_severity-severity off h = absurd (h refl)
  level_to_severity-severity _ h = refl

  convert_field-attribute :
      (key : Bytes) (value : AttributeValue D)
      → Fits value
      → convert_field sdk key value ≡ some (attribute key value)
  unfolding convert_field
  convert_field-attribute key (uint64 n) fits = rw (le→leb n int64_max fits) refl
  convert_field-attribute key _ fits = refl

  convert_fields-attributes :
      (fields : List (Bytes × AttributeValue D))
      → All (λ (field : Bytes × AttributeValue D). Fits field.1) fields
      → convert_fields sdk fields ≡ some (attributes fields)
  unfolding convert_fields
  convert_fields-attributes [] fit = refl
  convert_fields-attributes ((key, value) ∷ rest) fit =
      rw (convert_field-attribute key value fit.0, convert_fields-attributes rest fit.1) refl

  pub log_record_to_open_telemetry-emission :
      (r : LogRecord D) → IsExportable r → log_record_to_open_telemetry sdk r ≡ some (emission r)
  unfolding log_record_to_open_telemetry
  log_record_to_open_telemetry-emission r can =
      rw (level_to_severity-severity r.level can.0, convert_fields-attributes r.fields can.1) refl
