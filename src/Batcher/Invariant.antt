-- ===== src/Batcher/Invariant.antt =====
-- What holds of the queue, the batch in flight and the batches delivered in every reachable state.
use logrin.Base.{
  ℕ, ◌≡◌, ◌∙◌, refl, sym, ap, inl, inr, Bool, true, false, List, [], ◌∷◌, ◌++◌, append_assoc,
  append-nil, All, All-append, Bool-cases,
}
use logrin.Batcher.Batches.{IsBatch, fill_batch-IsBatch}
use logrin.Batcher.{
  Worker, waking, asleep, consuming, consumed, stopped, State, initial, worker_head, wake_flushes,
  wake_worker, Step, push, signal_worker, signal_flush, signal_nobody, flush_enters, flush_waits,
  flush_returns, worker_wakes, worker_consumes, worker_returns, stop, stop_signals, worker_wakes_up,
  flush_wakes_up,
}

module _ {A : Type 0} where
  -- The items of some batches, in order.
  abbrev pub concat : List (List A) → List A
  concat [] = []
  concat (b ∷ bs) = b ++ concat bs

  concat-append : (bs cs : List (List A)) → concat (bs ++ cs) ≡ concat bs ++ concat cs
  concat-append [] cs = refl
  concat-append (b ∷ bs) cs = simp (concat-append bs cs, append_assoc)

  -- The batch that the consumer is at work on.
  abbrev pub in_flight : Worker A → List A
  in_flight (consuming batch) = batch
  in_flight waking = []
  in_flight asleep = []
  in_flight consumed = []
  in_flight stopped = []

  abbrev pub is_working : Worker A → Bool
  is_working (consuming batch) = true
  is_working consumed = true
  is_working waking = false
  is_working asleep = false
  is_working stopped = false

  abbrev pub HoldsBatch : ℕ → Worker A → Type 0
  HoldsBatch limit (consuming batch) = IsBatch limit batch
  HoldsBatch limit waking = Unit {0}
  HoldsBatch limit asleep = Unit {0}
  HoldsBatch limit consumed = Unit {0}
  HoldsBatch limit stopped = Unit {0}

  -- Every item that was pushed is delivered, in flight or queued, once and in order; the flag
  -- `processing` tells whether the consumer is at work; and the batches are well sized.
  pub record Inv (limit : ℕ) (s : State A) : Type 0 where
    pub order : concat s.delivered ++ (in_flight s.worker ++ s.queue) ≡ s.pushed
    pub flag : s.processing ≡ is_working s.worker
    pub sized : All (IsBatch limit) s.delivered
    pub held : HoldsBatch limit s.worker

  -- The worker at the head of its loop, from a state where it is not at work.
  worker_head-Inv :
      (limit : ℕ) (queue : List A) (s : State A)
      → s.queue ≡ queue
      → concat s.delivered ++ queue ≡ s.pushed
      → s.processing ≡ false
      → All (IsBatch limit) s.delivered
      → Inv limit (worker_head limit queue s)
  unfolding worker_head
  worker_head-Inv limit [] s q order flag sized = elim (Bool-cases s.running) [
    | inl on ↦ rw on (record { order = rw q order; flag = flag; sized = sized; held = tt })
    | inr off ↦ rw off (record { order = rw q order; flag = flag; sized = sized; held = tt })
  ]
  worker_head-Inv limit (x ∷ queue) s q order flag sized =
      let (fits, parts) = fill_batch-IsBatch limit x queue in
      record { order = rw parts order; flag = refl; sized = sized; held = fits }

  -- With no batch in flight, what is not delivered is queued.
  pub resting :
      {limit : ℕ} (s : State A)
      → Inv limit s
      → in_flight s.worker ≡ []
      → concat s.delivered ++ s.queue ≡ s.pushed
  resting s v e = rw e at v.order

  -- The threads that signal, flush or stop leave the invariant's fields alone.
  kept :
      {limit : ℕ} (s : State A) {n f m : ℕ} {running stopping : Bool}
      → Inv limit s
      → Inv limit (record s {
        running = running;
        signals = n;
        flushing = f;
        flush_waiting = m;
        stop_signal = stopping;
      })
  kept s v = record { order = v.order; flag = v.flag; sized = v.sized; held = v.held }

  woken :
      {limit : ℕ} (s : State A) {n : ℕ}
      → s.worker ≡ asleep
      → Inv limit s
      → Inv limit (record s { worker = waking; signals = n })
  woken s w v = record {
    order = resting s v (rw w refl);
    flag = v.flag ∙ rw w refl;
    sized = v.sized;
    held = tt;
  }

  pub wake_worker-same :
      (limit : ℕ) (w : Worker A)
      → (in_flight (wake_worker w) ≡ in_flight w)
        × (is_working w ≡ is_working (wake_worker w))
        × (HoldsBatch limit w → HoldsBatch limit (wake_worker w))
  wake_worker-same limit waking = (refl, refl, λ h. h)
  wake_worker-same limit asleep = (refl, refl, λ h. h)
  wake_worker-same limit (consuming batch) = (refl, refl, λ h. h)
  wake_worker-same limit consumed = (refl, refl, λ h. h)
  wake_worker-same limit stopped = (refl, refl, λ h. h)

  rouse :
      {limit : ℕ} (s : State A)
      → Inv limit s
      → Inv limit (record s { worker = wake_worker s.worker })
  rouse {limit} s v =
      let (items, work, holds) = wake_worker-same limit s.worker in
      record {
        order = rw items v.order;
        flag = v.flag ∙ work;
        sized = v.sized;
        held = holds v.held;
      }

  pub Step-Inv :
      {limit : ℕ} {spurious : Bool} {s t : State A}
      → Inv limit s
      → Step limit spurious s t
      → Inv limit t
  Step-Inv {s = s} v (push x) = record {
    order =
        sym (
          append_assoc (concat s.delivered) (in_flight s.worker ++ s.queue) (x ∷ [])
          ∙ ap (λ l. concat s.delivered ++ l) (append_assoc (in_flight s.worker) s.queue (x ∷ [])))
        ∙ ap (λ l. l ++ x ∷ []) v.order;
    flag = v.flag;
    sized = v.sized;
    held = v.held;
  }
  Step-Inv {s = s} v (signal_worker n p w) = woken s w v
  Step-Inv {s = s} v (signal_flush n m p q) = kept s v
  Step-Inv {s = s} v (signal_nobody n p q r) = kept s v
  Step-Inv {s = s} v flush_enters = kept s v
  Step-Inv {s = s} v (flush_waits n p q) = kept s v
  Step-Inv {s = s} v (flush_returns n p q) = kept s v
  Step-Inv {limit} {s = s} v (worker_wakes w) =
      worker_head-Inv limit s.queue s refl (resting s v (rw w refl)) (v.flag ∙ rw w refl) v.sized
  Step-Inv {limit} {s = s} v (worker_consumes batch w) = record {
    order =
        rw concat-append
          (rw append-nil (append_assoc (concat s.delivered) batch s.queue ∙ (rw w at v.order)));
    flag = v.flag ∙ rw w refl;
    sized = All-append (IsBatch limit) s.delivered (batch ∷ []) v.sized (rw w at v.held, tt);
    held = tt;
  }
  Step-Inv {limit} {s = s} v (worker_returns w) =
      worker_head-Inv limit s.queue (wake_flushes (record s { processing = false })) refl
        (resting s v (rw w refl)) refl v.sized
  Step-Inv {s = s} v (stop up) = kept s v
  Step-Inv {s = s} v (stop_signals p) =
      kept (record s { worker = wake_worker s.worker }) (rouse s v)
  Step-Inv {s = s} v (worker_wakes_up p w) = woken s w v
  Step-Inv {s = s} v (flush_wakes_up n p q) = kept s v

  pub initial-Inv : (limit : ℕ) → Inv limit (initial {A = A})
  initial-Inv limit = record { order = refl; flag = refl; sized = tt; held = tt }
