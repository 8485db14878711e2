-- ===== src/Logger/Emission.antt =====
-- What a log call makes the sinks do.
use logrin.Base.{
  ℕ, ◌≡◌, ◌≢◌, ◌∙◌, sym, refl, ap, inl, inr, Bool, true, false, List, [], ◌∷◌, ◌++◌, map, Option,
  none, some, Bytes, if◌then◌else◌, equal, equal_iff, Bool-cases, Option-cases, arith,
}
use logrin.Logger.{
  Call, emit, enqueue, Logger, enabled, LogEntry, entry_with, destroy_entry, log, log_trace,
  log_debug, log_info, log_warn, log_error, log_fatal,
}
use logrin.Record.{
  LogLevel, trace, debug, info, warning, error, fatal, off, AttributeValue, LogRecord,
  SourceLocation, with_field, find_field, emplace_field,
}

module _ {D : Type 0} where
  -- The record that a sink receives.
  abbrev pub delivered_record : Logger → ℕ → LogLevel → Bytes → SourceLocation → LogRecord D
  delivered_record logger time level message location = record {
    timestamp = time;
    level = level;
    message = message;
    fields = [];
    logger = logger.name;
    location = location;
  }

  -- `Emit` on every sink in order, then `Enqueue` on every asynchronous sink.
  abbrev pub each_sink : Logger → LogRecord D → List (Call D)
  each_sink logger r =
      map (λ sink. emit sink r) logger.sinks ++ map (λ sink. enqueue sink r) logger.async_sinks

  -- The method for a level: `Trace` for `Trace`, and so on. There is none for `Off`.
  unfoldable pub log_method : LogLevel → Logger → ℕ → Bytes → SourceLocation → LogEntry D
  unfolding log_trace log_debug log_info log_warn log_error log_fatal log
  log_method trace logger time message location = log_trace logger time message location
  log_method debug logger time message location = log_debug logger time message location
  log_method info logger time message location = log_info logger time message location
  log_method warning logger time message location = log_warn logger time message location
  log_method error logger time message location = log_error logger time message location
  log_method fatal logger time message location = log_fatal logger time message location
  log_method off logger time message location = log logger time off message location

  -- `Log` with a level delivers, when its entry is destroyed, one record to every sink in order
  -- and then to every asynchronous sink, if the level is enabled, and makes no call otherwise.
  -- The record has the given time, level, message and location, and the name of the logger.
  pub log_delivers :
      (logger : Logger) (time : ℕ) (level : LogLevel) (message : Bytes) (location : SourceLocation)
      → destroy_entry (log logger time level message location) ≡ (
          if enabled logger level
          then each_sink logger (delivered_record logger time level message location)
          else [])
  unfolding log destroy_entry
  log_delivers logger time level message location = elim (Bool-cases (enabled logger level)) [
    | inl on ↦ rw on
    | inr silent ↦ rw silent
  ]

  method_delivers :
      (logger : Logger) (time : ℕ) (level : LogLevel) (message : Bytes) (location : SourceLocation)
      → level ≢ off
      → destroy_entry (log_method level logger time message location)
        ≡ each_sink logger (delivered_record logger time level message location)
  unfolding log_method destroy_entry
  method_delivers logger time off message location h = absurd (h refl)
  method_delivers logger time _ message location h = refl

  each_sink-ne_nil :
      (logger : Logger) (r : LogRecord D) → logger.sinks ≢ [] → each_sink logger r ≢ []
  each_sink-ne_nil logger r h e = filled logger.sinks h e
    where
      filled :
          (sinks : List ℕ)
          → sinks ≢ []
          → map (λ sink. emit sink r) sinks ++ map (λ sink. enqueue sink r) logger.async_sinks ≢ []
      filled [] h e = h refl
      filled (x ∷ xs) h e = ground arith

  -- The methods `Trace` to `Fatal` do not look at the logger's level: on a logger with a sink,
  -- and for a level that is not enabled, the method makes calls where `Log` with that level
  -- makes none.
  pub method_ignores_level :
      (logger : Logger) (time : ℕ) (level : LogLevel) (message : Bytes) (location : SourceLocation)
      → level ≢ off
      → enabled logger level ≡ false
      → logger.sinks ≢ []
      → (destroy_entry (log_method level logger time message location) ≢ [])
        × (destroy_entry (log {D = D} logger time level message location) ≡ [])
  method_ignores_level logger time level message location named disabled sinks = (
    (λ e.
        each_sink-ne_nil logger _ sinks
          (sym (method_delivers logger time level message location named) ∙ e)),
    log_delivers logger time level message location ∙ rw disabled refl,
  )

  -- The first of two lookups that finds something.
  abbrev pub or_else :
      Option (AttributeValue D) → Option (AttributeValue D) → Option (AttributeValue D)
  or_else none other = other
  or_else (some value) other = some value

  or_else_assoc :
      (a b c : Option (AttributeValue D)) → or_else (or_else a b) c ≡ or_else a (or_else b c)
  or_else_assoc none b c = refl
  or_else_assoc (some value) b c = refl

  or_else-none : (a : Option (AttributeValue D)) → or_else a none ≡ a
  or_else-none none = refl
  or_else-none (some value) = refl

  pick :
      (b : Bool) (value : AttributeValue D) (o : Option (AttributeValue D))
      → or_else (if b then some value else none) o ≡ (if b then some value else o)
  pick true value o = refl
  pick false value o = refl

  -- The attributes of some calls of `With`, in order.
  unfoldable pub attach : List (Bytes × AttributeValue D) → LogEntry D → LogEntry D
  unfolding entry_with
  attach [] e = e
  attach ((name, value) ∷ rest) e = attach rest (entry_with name value e)

  find_field-append :
      (key name : Bytes) (value : AttributeValue D) (fields : List (Bytes × AttributeValue D))
      → find_field key (fields ++ (name, value) ∷ [])
        ≡ or_else (find_field key fields) (if equal name key then some value else none)
  unfolding find_field
  find_field-append key name value [] = refl
  find_field-append key name value ((n, v) ∷ rest) =
      ground (arith, find_field-append key name value rest)

  find_field-emplace :
      (key name : Bytes) (value : AttributeValue D) (fields : List (Bytes × AttributeValue D))
      → find_field key (emplace_field name value fields)
        ≡ or_else (find_field key fields) (if equal name key then some value else none)
  unfolding emplace_field
  find_field-emplace key name value fields = elim (Option-cases (find_field name fields)) [
    | inl fresh ↦ rw (fresh, emplace_field) (find_field-append key name value fields)
    | inr (old, found) ↦ elim (Bool-cases (equal name key)) [
      | inl same ↦ ground (arith, equal_iff name key)
      | inr other ↦ ground arith
    ]
  ]

  -- A chain of calls of `With` keeps the first value that is given for a name: a lookup in the
  -- entry's fields finds what the entry had before, or else the value of the first call of
  -- `With` for that name.
  pub find_field-attach :
      (key : Bytes) (attributes : List (Bytes × AttributeValue D)) (e : LogEntry D)
      → find_field key (attach attributes e).entry_record.fields
        ≡ or_else (find_field key e.entry_record.fields) (find_field key attributes)
  unfolding attach entry_with with_field find_field
  find_field-attach key [] e = sym (or_else-none (find_field key e.entry_record.fields))
  find_field-attach key ((name, value) ∷ rest) e =
      find_field-attach key rest (entry_with name value e)
      ∙ ap (λ o. or_else o (find_field key rest))
          (find_field-emplace key name value e.entry_record.fields)
      ∙ or_else_assoc (find_field key e.entry_record.fields)
          (if equal name key then some value else none) (find_field key rest)
      ∙ ap (or_else (find_field key e.entry_record.fields)) (pick (equal name key) value _)
