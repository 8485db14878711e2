-- ===== src/Batcher/Refinement.antt =====
-- The batcher as a queue: an abstract specification, which the threads refine.
use logrin.Base.{
  ℕ, ◌≡◌, ◌∙◌, refl, sym, ap, ◌⊎◌, inl, inr, Bool, false, List, [], ◌∷◌, ◌++◌, append_assoc,
  Bool-cases,
}
use logrin.Batcher.Batches.{IsBatch, fill_batch-IsBatch}
use logrin.Batcher.Delivery.{Reach-Inv}
use logrin.Batcher.Invariant.{Inv, in_flight, wake_worker-same}
use logrin.Batcher.{
  State, initial, worker_head, wake_flushes, Step, push, signal_worker, signal_flush, signal_nobody,
  flush_enters, flush_waits, flush_returns, worker_wakes, worker_consumes, worker_returns, stop,
  stop_signals, worker_wakes_up, flush_wakes_up, Reach,
}

-- The items that wait, and the batches that the consumer has had.
pub record Feed (A : Type 0) : Type 0 where
  pub pending : List A
  pub batches : List (List A)

-- An item is added behind the others, or a batch is taken from the front.
pub data FeedStep {A : Type 0} (limit : ℕ) (s t : Feed A) : Type 0 where
  add : (x : A) → t ≡ record s { pending = s.pending ++ x ∷ [] } → FeedStep limit s t
  deliver :
      (batch : List A)
      → IsBatch limit batch
      → s.pending ≡ batch ++ t.pending
      → t.batches ≡ s.batches ++ batch ∷ []
      → FeedStep limit s t

module _ {A : Type 0} where
  -- The batch in flight and the queue wait.
  abbrev pub view : State A → Feed A
  view s = record { pending = in_flight s.worker ++ s.queue; batches = s.delivered }

  worker_head-view :
      (limit : ℕ) (queue : List A) (s : State A)
      → s.queue ≡ queue
      → view (worker_head limit queue s) ≡ record { pending = queue; batches = s.delivered }
  unfolding worker_head
  worker_head-view limit [] s q = elim (Bool-cases s.running) [
    | inl on ↦ rw (on, q) refl
    | inr off ↦ rw (off, q) refl
  ]
  worker_head-view limit (x ∷ queue) s q = rw ((fill_batch-IsBatch limit x queue).1) refl

  Step-view :
      {limit : ℕ} {spurious : Bool} {s t : State A}
      → Inv limit s
      → Step limit spurious s t
      → (view t ≡ view s) ⊎ FeedStep limit (view s) (view t)
  Step-view {s = s} v (push x) = inr (
      add x (
        ap (λ l. record { pending = l; batches = s.delivered })
          (sym (append_assoc (in_flight s.worker) s.queue (x ∷ [])))))
  Step-view {s = s} v (signal_worker n p w) = inl (rw w refl)
  Step-view v (signal_flush n m p q) = inl refl
  Step-view v (signal_nobody n p q r) = inl refl
  Step-view v flush_enters = inl refl
  Step-view v (flush_waits n p q) = inl refl
  Step-view v (flush_returns n p q) = inl refl
  Step-view {limit} {s = s} v (worker_wakes w) =
      inl (worker_head-view limit s.queue s refl ∙ rw w refl)
  Step-view {limit} {s = s} v (worker_consumes batch w) =
      inr (deliver batch (rw w at v.held) (rw w refl) refl)
  Step-view {limit} {s = s} v (worker_returns w) = inl (
      worker_head-view limit s.queue (wake_flushes (record s { processing = false })) refl
      ∙ rw w refl)
  Step-view v (stop up) = inl refl
  Step-view {limit} {s = s} v (stop_signals p) = inl (
      ap (λ l. record { pending = l ++ s.queue; batches = s.delivered })
        (wake_worker-same limit s.worker).0)
  Step-view {s = s} v (worker_wakes_up p w) = inl (rw w refl)
  Step-view v (flush_wakes_up n p q) = inl refl

  -- The batcher refines the queue: each step of its threads, from any state that they can reach,
  -- adds an item behind those that wait, or delivers a batch off their front, or changes neither
  -- what waits nor what was delivered. The batch is not empty and within the limit.
  pub Step-refines :
      {limit : ℕ} {spurious : Bool} {s t : State A}
      → Reach limit spurious initial s
      → Step limit spurious s t
      → (view t ≡ view s) ⊎ FeedStep limit (view s) (view t)
  Step-refines r st = Step-view (Reach-Inv r) st
