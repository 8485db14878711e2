-- ===== src/Sinks/OpenTelemetry/Flushed.antt =====
-- include/logrin/detail/Batcher.h and src/sinks/OpenTelemetry.cc: what the consumer has handed to
-- the SDK, at any time and when `Flush` returns.
use logrin.Base.{
  append-nil, sym, subst, inr, true, inl, ◌⊎◌, Bool-cases, Option-cases, map, if◌then◌else◌, ℕ, ◌≡◌,
  ◌∙◌, refl, ap, Bool, false, List, [], ◌∷◌, ◌++◌, none, All,
}
use logrin.Batcher.Delivery.{Reach-Inv, flush_delivers}
use logrin.Batcher.Invariant.{concat, in_flight}
use logrin.Batcher.{State, initial, is_busy, Reach}
use logrin.Record.{LogRecord}
use logrin.Sinks.OpenTelemetry.{
  read_later, Exported, Queued, Sdk, Setter, log_record_to_open_telemetry, consume, consume_all,
}
use logrin.Sinks.OpenTelemetry.Export.{
  IsExportable, record-IsExportable, emission, log_record_to_open_telemetry-emission,
}

module _ {D : Type 0} (sdk : Sdk D) where
  open sdk use {Severity, Value}

  -- Each of the records has been handed over whole, in their order, and the program goes on.
  abbrev pub HandsOverAll : List (LogRecord D) → Exported Severity Value → Type 0
  HandsOverAll records result =
      All IsExportable records
      × (result ≡ record { emitted = map (emission sdk) records; is_aborted = false })

  -- The records in front of the first that cannot be exported have been handed over whole, in
  -- their order, and the program has ended at that one.
  abbrev pub EndsAtFirst : List (LogRecord D) → Exported Severity Value → Type 0
  EndsAtFirst records result =
      (front : List (LogRecord D)) × (r : LogRecord D) × (behind : List (LogRecord D)) × (records
        ≡ front ++ r ∷ behind)
      × All IsExportable front
      × (¬ IsExportable r)
      × (result ≡ record { emitted = map (emission sdk) front; is_aborted = true })

  abbrev with_first :
      List (Setter Severity Value) → Exported Severity Value → Exported Severity Value
  with_first log rest = record rest { emitted = log ∷ rest.emitted }

  consume-here :
      (q : Queued D) (batch : List (Queued D))
      → IsExportable (read_later q)
      → consume sdk (q ∷ batch) ≡ with_first (emission sdk (read_later q)) (consume sdk batch)
  unfolding consume
  consume-here q batch can =
      rw (log_record_to_open_telemetry-emission sdk (read_later q) can, consume) refl

  consume-stops :
      (q : Queued D) (batch : List (Queued D))
      → log_record_to_open_telemetry sdk (read_later q) ≡ none
      → consume sdk (q ∷ batch) ≡ record { emitted = []; is_aborted = true }
  unfolding consume
  consume-stops q batch fails = rw (fails, consume) refl

  consume-either :
      (queue : List (Queued D))
      → HandsOverAll (map read_later queue) (consume sdk queue)
        ⊎ EndsAtFirst (map read_later queue) (consume sdk queue)
  unfolding consume
  consume-either [] = inl (tt, refl)
  consume-either (q ∷ batch) =
      elim (Option-cases (log_record_to_open_telemetry sdk (read_later q))) [
        | inl fails ↦ inr (
          [],
          read_later q,
          map read_later batch,
          refl,
          tt,
          (λ can. (record-IsExportable sdk (read_later q)).1 can fails),
          consume-stops q batch fails,
        )
        | inr (log, converts) ↦
            let can = (record-IsExportable sdk (read_later q)).0 (λ e. absurd cc) in
            elim (consume-either batch) [
              | inl (all, same) ↦
                  inl ((can, all), consume-here q batch can ∙ ap (with_first _) same)
              | inr (front, r, behind, split, all, stop, same) ↦ inr (
                read_later q ∷ front,
                r,
                behind,
                ap (λ rs. read_later q ∷ rs) split,
                (can, all),
                stop,
                consume-here q batch can ∙ ap (with_first _) same,
              )
            ]
      ]

  abbrev joined : Exported Severity Value → Exported Severity Value → Exported Severity Value
  joined first rest =
      if first.is_aborted then first else record rest { emitted = first.emitted ++ rest.emitted }

  joined-with_first :
      (log : List (Setter Severity Value)) (first rest : Exported Severity Value)
      → joined (with_first log first) rest ≡ with_first log (joined first rest)
  joined-with_first log first rest = elim (Bool-cases first.is_aborted) [
    | inl ended ↦ rw ended refl
    | inr goes_on ↦ rw goes_on refl
  ]

  consume-append :
      (xs ys : List (Queued D)) → joined (consume sdk xs) (consume sdk ys) ≡ consume sdk (xs ++ ys)
  unfolding consume
  consume-append [] ys = refl
  consume-append (x ∷ xs) ys =
      elim (Option-cases (log_record_to_open_telemetry sdk (read_later x))) [
        | inl fails ↦ rw (fails, consume) refl
        | inr (log, converts) ↦
            rw (converts, consume)
              (joined-with_first log (consume sdk xs) (consume sdk ys)
                ∙ ap (with_first log) (consume-append xs ys))
      ]

  consume_all-concat :
      (batches : List (List (Queued D))) → consume_all sdk batches ≡ consume sdk (concat batches)
  unfolding consume consume_all
  consume_all-concat [] = refl
  consume_all-concat (batch ∷ batches) =
      ap (joined (consume sdk batch)) (consume_all-concat batches)
      ∙ consume-append batch (concat batches)

  -- At every moment of every run of the threads, the consumer has been passed the first of the
  -- records that were enqueued, and all of them where the test of `Flush` lets it return. Either
  -- each record passed can be exported, and has been handed to the SDK once, in their order and
  -- whatever the batches were, with its time, its severity, its message and its fields that have a
  -- value; or the consumer has ended the program at the first record that cannot be exported, with
  -- exactly the records in front of it handed over. A record's message is what its view shows when
  -- the consumer reads it.
  pub exports_so_far :
      {limit : ℕ} {spurious : Bool} (s : State (Queued D))
      → Reach limit spurious initial s
      → (behind : List (Queued D)) × (s.pushed ≡ concat s.delivered ++ behind)
        × ((behind ≡ []) ⊎ (is_busy s ≡ true))
        × (HandsOverAll (map read_later (concat s.delivered)) (consume_all sdk s.delivered)
            ⊎ EndsAtFirst (map read_later (concat s.delivered)) (consume_all sdk s.delivered))
  exports_so_far s reach =
      let result =
        subst
          (λ e.
            HandsOverAll (map read_later (concat s.delivered)) e
            ⊎ EndsAtFirst (map read_later (concat s.delivered)) e)
          (sym (consume_all-concat s.delivered)) (consume-either (concat s.delivered)) in
      elim (Bool-cases (is_busy s)) [
        | inl busy ↦ (in_flight s.worker ++ s.queue, sym (Reach-Inv reach).order, inr busy, result)
        | inr idle ↦ ([], sym (flush_delivers s reach idle) ∙ sym (append-nil _), inl refl, result)
      ]

  front-IsExportable :
      (front behind : List (LogRecord D)) (r : LogRecord D)
      → All IsExportable (front ++ r ∷ behind)
      → IsExportable r
  front-IsExportable [] behind r all = all.0
  front-IsExportable (x ∷ front) behind r all = front-IsExportable front behind r all.1

  -- When `Flush` returns and every record that was enqueued can be exported, each of them has
  -- been handed to the SDK.
  pub flush_exports-All :
      {limit : ℕ} {spurious : Bool} (s : State (Queued D))
      → Reach limit spurious initial s
      → is_busy s ≡ false
      → All IsExportable (map read_later s.pushed)
      → consume_all sdk s.delivered
        ≡ record { emitted = map (emission sdk) (map read_later s.pushed); is_aborted = false }
  flush_exports-All s reach idle all =
      consume_all-concat s.delivered
      ∙ ap (consume sdk) (flush_delivers s reach idle)
      ∙ elim (consume-either s.pushed) [
        | inl done ↦ done.1
        | inr (front, r, behind, split, ready, stop, same) ↦
            absurd (stop (front-IsExportable front behind r (subst (All IsExportable) split all)))
      ]
