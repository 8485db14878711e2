-- ===== src/Logger/Attributes.antt =====
-- include/logrin/Logger.h, src/Logger.cc and include/logrin/LogRecord.h: attributes that are
-- attached to an entry, from the calls of `With` to what the sinks receive.
use logrin.Base.{
  ◌≡◌, ◌∙◌, refl, sym, ap, inl, inr, ℕ, List, [], ◌∷◌, Bytes, if◌then◌else◌, Bool-cases,
}
use logrin.Logger.Emission.{delivered_record, each_sink, attach, find_field-attach}
use logrin.Logger.{Logger, enabled, LogEntry, entry_with, emit_to, destroy_entry, log_record, log}
use logrin.Record.Fields.{IsDistinct, with_field-IsDistinct}
use logrin.Record.{
  LogLevel, AttributeValue, LogRecord, SourceLocation, find_field, emplace_field, with_field,
  record_now,
}

module _ {D : Type 0} where
  abbrev emplaced :
      List (Bytes × AttributeValue D)
      → List (Bytes × AttributeValue D)
      → List (Bytes × AttributeValue D)
  emplaced [] fields = fields
  emplaced ((name, value) ∷ rest) fields = emplaced rest (emplace_field name value fields)

  -- A record with other fields.
  abbrev pub with_fields : List (Bytes × AttributeValue D) → LogRecord D → LogRecord D
  with_fields fields r = record r { fields = fields }

  attach-emplaced :
      (attributes : List (Bytes × AttributeValue D)) (e : LogEntry D)
      → attach attributes e ≡ record e {
        entry_record = with_fields (emplaced attributes e.entry_record.fields) e.entry_record;
      }
  unfolding attach entry_with with_field
  attach-emplaced [] e = refl
  attach-emplaced ((name, value) ∷ rest) e = attach-emplaced rest (entry_with name value e)

  emplaced-IsDistinct :
      (attributes : List (Bytes × AttributeValue D)) (r : LogRecord D)
      → IsDistinct r.fields
      → IsDistinct (emplaced attributes r.fields)
  unfolding with_field
  emplaced-IsDistinct [] r distinct = distinct
  emplaced-IsDistinct ((name, value) ∷ rest) r distinct =
      emplaced-IsDistinct rest (with_field name value r)
        (with_field-IsDistinct name value r distinct)

  find_field-emplaced :
      (key : Bytes) (attributes : List (Bytes × AttributeValue D)) (e : LogEntry D)
      → e.entry_record.fields ≡ []
      → find_field key (emplaced attributes []) ≡ find_field key attributes
  unfolding find_field
  find_field-emplaced key attributes e none_yet =
      sym (ap (λ fields. find_field key (emplaced attributes fields)) none_yet)
      ∙ sym (ap (λ entry. find_field key entry.entry_record.fields) (attach-emplaced attributes e))
      ∙ find_field-attach key attributes e
      ∙ rw none_yet refl

  destroy_entry-attach :
      (logger : Logger) (time : ℕ) (level : LogLevel) (message : Bytes) (location : SourceLocation)
      (attributes : List (Bytes × AttributeValue D))
      → destroy_entry (attach attributes (log logger time level message location)) ≡ (
          if enabled logger level
          then each_sink logger (
              with_fields
                (emplaced attributes [])
                (delivered_record logger time level message location))
          else [])
  unfolding log log_record record_now destroy_entry emit_to
  destroy_entry-attach logger time level message location attributes =
      ap destroy_entry (attach-emplaced attributes (log logger time level message location))
      ∙ elim (Bool-cases (enabled logger level)) [
        | inl on ↦ rw on refl
        | inr silent ↦ rw silent refl
      ]

  -- Attributes that are attached to the entry of a log call, by a chain of calls of `With`, reach
  -- the sinks: where the level is enabled, each sink in order and then each asynchronous sink gets
  -- one record with the call's time, level, message and location and the logger's name, in whose
  -- fields no name stands twice, each name has the value of the first call of `With` for it, and
  -- no other name is found. Where the level is not enabled no sink gets a call.
  pub attributes_reach :
      (logger : Logger) (time : ℕ) (level : LogLevel) (message : Bytes) (location : SourceLocation)
      (attributes : List (Bytes × AttributeValue D))
      → (fields : List (Bytes × AttributeValue D)) × IsDistinct fields
        × ((key : Bytes) → find_field key fields ≡ find_field key attributes)
        × (destroy_entry (attach attributes (log logger time level message location)) ≡ (
            if enabled logger level
            then each_sink logger
                (with_fields fields (delivered_record logger time level message location))
            else []))
  unfolding log_record record_now
  attributes_reach logger time level message location attributes = (
    emplaced attributes [],
    emplaced-IsDistinct attributes (delivered_record logger time level message location) tt,
    (λ key.
        find_field-emplaced key attributes
          (log_record logger (record_now time level message location)) refl),
    destroy_entry-attach logger time level message location attributes,
  )
