-- ===== src/Batcher/Delivery.antt =====
-- What the worker delivers: every item once, in the order of the pushes, in batches within the
-- limit; and what a return of `Flush` and the end of the worker stand for.
use logrin.Base.{
  ℕ, ◌≡◌, ◌∙◌, ◌≢◌, refl, sym, subst, Bool, true, false, List, [], ◌∷◌, ◌++◌, append-nil, arith,
}
use logrin.Batcher.Invariant.{resting, concat, in_flight, is_working, Inv, Step-Inv, initial-Inv}
use logrin.Batcher.{
  Worker, asleep, consuming, stopped, State, initial, worker_head, wake_flushes, wake_worker,
  is_empty, is_busy, Step, push, signal_worker, signal_flush, signal_nobody, flush_enters,
  flush_waits, flush_returns, worker_wakes, worker_consumes, worker_returns, stop, stop_signals,
  worker_wakes_up, flush_wakes_up, Reach, here, next,
}

module _ {A : Type 0} where
  -- In every state that the threads can reach, whatever their interleaving and with or without
  -- spurious wake-ups, the batches that were delivered, the batch in flight and the queue make
  -- up what was pushed, in order: no item is lost, repeated or overtaken. Every batch is not
  -- empty and within the limit, and `processing` is set exactly while the worker has a batch.
  pub Reach-Inv :
      {limit : ℕ} {spurious : Bool} {s : State A} → Reach limit spurious initial s → Inv limit s
  Reach-Inv {limit} here = initial-Inv limit
  Reach-Inv (next r st) = Step-Inv (Reach-Inv r) st

  pub drained :
      {limit : ℕ} (s : State A)
      → Inv limit s
      → in_flight s.worker ≡ []
      → s.queue ≡ []
      → concat s.delivered ≡ s.pushed
  drained s v e q =
      sym (append-nil (concat s.delivered))
      ∙ subst (λ l. concat s.delivered ++ l ≡ s.pushed) q (resting s v e)

  rest_in_flight : (w : Worker A) → is_working w ≡ false → in_flight w ≡ []
  rest_in_flight (consuming batch) h = absurd (ground arith)
  rest_in_flight _ h = refl

  pub is_empty-nil : (l : List A) → is_empty l ≡ true → l ≡ []
  is_empty-nil [] h = refl
  is_empty-nil (x ∷ l) h = absurd (ground arith)

  head_stopped :
      (limit : ℕ) (queue : List A) (s : State A)
      → s.queue ≡ queue
      → (worker_head limit queue s).worker ≡ stopped
      → ((worker_head limit queue s).running ≡ false) × ((worker_head limit queue s).queue ≡ [])
  unfolding worker_head
  head_stopped limit [] s q h = ground arith
  head_stopped limit (x ∷ queue) s q h = absurd (ground arith)

  pub wake_worker-stopped : (w : Worker A) → wake_worker w ≡ stopped → w ≡ stopped
  wake_worker-stopped asleep h = absurd (ground arith)
  wake_worker-stopped stopped h = refl
  wake_worker-stopped _ h = h

  stopped_drained :
      {limit : ℕ} (t : State A)
      → Inv limit t
      → t.worker ≡ stopped
      → (t.running ≡ false) × (t.queue ≡ [])
      → (t.running ≡ false) × (concat t.delivered ≡ t.pushed)
  stopped_drained t v w h = (h.0, drained t v (rw w refl) h.1)

  idle : {limit : ℕ} (s : State A) → Inv limit s → is_busy s ≡ false → concat s.delivered ≡ s.pushed
  idle s v h =
      drained s v (rest_in_flight s.worker (sym v.flag ∙ ground arith))
        (is_empty-nil s.queue (ground arith))

  -- `Flush` keeps its promise: where its test lets it return, every item that was pushed before
  -- has been delivered to the consumer.
  pub flush_delivers :
      {limit : ℕ} {spurious : Bool} (s : State A)
      → Reach limit spurious initial s
      → is_busy s ≡ false
      → concat s.delivered ≡ s.pushed
  flush_delivers s r h = idle s (Reach-Inv r) h

  -- The worker ends only after the destructor has asked for it and the queue is drained: where
  -- its step leads to its end, everything pushed so far has been delivered.
  pub stopped_delivers :
      {limit : ℕ} {spurious : Bool} {s t : State A}
      → Reach limit spurious initial s
      → Step limit spurious s t
      → s.worker ≢ stopped
      → t.worker ≡ stopped
      → (t.running ≡ false) × (concat t.delivered ≡ t.pushed)
  stopped_delivers r (push x) before after = absurd (before after)
  stopped_delivers r (signal_worker n p q) before after = absurd (ground arith)
  stopped_delivers r (signal_flush n m p q) before after = absurd (before after)
  stopped_delivers r (signal_nobody n p q z) before after = absurd (before after)
  stopped_delivers r flush_enters before after = absurd (before after)
  stopped_delivers r (flush_waits n p q) before after = absurd (before after)
  stopped_delivers r (flush_returns n p q) before after = absurd (before after)
  stopped_delivers {limit} {spurious} {s} {t} r (worker_wakes w) before after =
      stopped_drained t (Step-Inv {spurious = spurious} (Reach-Inv r) (worker_wakes w)) after
        (head_stopped limit s.queue s refl after)
  stopped_delivers r (worker_consumes batch w) before after = absurd (ground arith)
  stopped_delivers {limit} {spurious} {s} {t} r (worker_returns w) before after =
      stopped_drained t (Step-Inv {spurious = spurious} (Reach-Inv r) (worker_returns w)) after
        (head_stopped limit s.queue (wake_flushes (record s { processing = false })) refl after)
  stopped_delivers r (stop up) before after = absurd (before after)
  stopped_delivers {s = s} r (stop_signals p) before after =
      absurd (before (wake_worker-stopped s.worker after))
  stopped_delivers r (worker_wakes_up p q) before after = absurd (ground arith)
  stopped_delivers r (flush_wakes_up n p q) before after = absurd (before after)
