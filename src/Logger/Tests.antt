-- ===== src/Logger/Tests.antt =====
-- Loggers and entries on which the theorems of the logger are applied.
use logrin.Base.{ℕ, true, false, List, [], ◌∷◌, Bytes, codes, ◌≡◌, ◌≢◌, refl, arith}
use logrin.Logger.Attributes.{with_fields, attributes_reach}
use logrin.Record.Fields.{IsDistinct}
use logrin.Logger.Emission.{attach, each_sink, delivered_record, log_method, method_ignores_level}
use logrin.Logger.Programs.{LogCall, count, life, share}
use logrin.Logger.Sinks.{
  Sink, AsyncSink, default_flush, States, deliver, act, act_async, life_reaches,
}
use logrin.Logger.{Logger, enabled, destroy_entry, log}
use logrin.Record.{find_field, LogRecord, AttributeValue, bool, SourceLocation, info, warning}

abbrev quiet : Logger
quiet = record { level = warning; name = codes "main"; sinks = 1 ∷ 2 ∷ []; async_sinks = 3 ∷ [] }

abbrev here : SourceLocation
here = record { file = codes "a.cc"; function = codes "f"; line = 1; column = 2 }

-- Sinks that keep what they get, and forget it when they are flushed.
abbrev keeping : ℕ → Sink ℕ (List (LogRecord ℕ))
keeping i = record { emit_record = λ r rs. r ∷ rs; flush_state = λ rs. [] }

abbrev keeping_async : ℕ → AsyncSink ℕ (List (LogRecord ℕ))
keeping_async i = record { enqueue_record = λ r rs. r ∷ rs; flush_state = default_flush }

abbrev logs : List LogCall
logs =
    record { time = 9; level = warning; message = codes "hi"; location = here }
    ∷ record { time = 10; level = info; message = codes "no"; location = here }
    ∷ []

abbrev empty : States (List (LogRecord ℕ)) (List (LogRecord ℕ))
empty = record { sync = λ i. []; async = λ i. [] }

life_reaches_example :
    ((deliver keeping keeping_async (life quiet logs) empty).sync 2
      ≡ act (keeping 2) (share (count 2 quiet.sinks) quiet logs) [])
    × ((deliver keeping keeping_async (life quiet logs) empty).async 2
        ≡ act_async (keeping_async 2) (share (count 2 quiet.async_sinks) quiet logs) [])
life_reaches_example = life_reaches keeping keeping_async 2 quiet logs empty

method_ignores_level_example :
    (destroy_entry (log_method {D = ℕ} info quiet 9 (codes "hi") here) ≢ [])
    × (destroy_entry (log {D = ℕ} quiet 9 info (codes "hi") here) ≡ [])
unfolding enabled
method_ignores_level_example =
    method_ignores_level quiet 9 info (codes "hi") here (ground arith) refl (ground arith)

abbrev attributes : List (Bytes × AttributeValue ℕ)
attributes = (codes "a", bool true) ∷ (codes "b", bool false) ∷ (codes "a", bool false) ∷ []

attributes_reach_example :
    (fields : List (Bytes × AttributeValue ℕ)) × IsDistinct fields
    × ((key : Bytes) → find_field key fields ≡ find_field key attributes)
    × (destroy_entry (attach attributes (log quiet 9 warning (codes "hi") here))
        ≡ each_sink quiet (with_fields fields (delivered_record quiet 9 warning (codes "hi") here)))
unfolding enabled
attributes_reach_example = attributes_reach quiet 9 warning (codes "hi") here attributes
