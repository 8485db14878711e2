-- ===== src/Batcher.antt =====
-- include/logrin/detail/Batcher.h: the background worker, as steps of the threads that share it.
-- What a thread does from taking the mutex to `Wait` or `Unlock` is one step, since the mutex
-- keeps all others out. A condition variable wakes one waiting thread, of its own choice, for
-- `Signal`, and all for `SignalAll`; a signal that nobody waits for is lost.
pub mod Batches
pub mod Invariant
pub mod Delivery
pub mod Refinement
pub mod Progress
pub mod Rest
pub mod LostWakeup
mod Tests
use logrin.Base.{
  ℕ, suc, ◌≡◌, ◌≢◌, Bool, true, false, not, ◌||◌, List, [], ◌∷◌, ◌++◌, ◌==◌, ltb, if◌then◌else◌,
  length, ◌+◌,
}

-- Where the worker stands: before it has the mutex at the head of its loop, in `Wait`, in the
-- consumer with a batch, behind the consumer's call, or at its end.
pub data Worker (A : Type 0) : Type 0 where
  waking asleep : Worker A
  consuming : List A → Worker A
  consumed stopped : Worker A

-- The fields of the program, then the threads: the worker, the calls of `Push` that have still
-- to signal, the calls of `Flush` that want the mutex and those in `Wait`, and whether the
-- destructor has still to signal. `pushed` and `delivered` record what was pushed and the
-- batches that the consumer has been called with.
pub record State (A : Type 0) : Type 0 where
  pub queue : List A
  pub running : Bool
  pub processing : Bool
  pub worker : Worker A
  pub signals : ℕ
  pub flushing : ℕ
  pub flush_waiting : ℕ
  pub stop_signal : Bool
  pub pushed : List A
  pub delivered : List (List A)

module _ {A : Type 0} where
  -- The state behind the constructor.
  abbrev pub initial : State A
  initial = record {
    queue = [];
    running = true;
    processing = false;
    worker = waking;
    signals = 0;
    flushing = 0;
    flush_waiting = 0;
    stop_signal = false;
    pushed = [];
    delivered = [];
  }

  -- The loop that fills a batch: the batch, and what stays in the queue.
  unfoldable pub fill_batch : ℕ → List A → List A → List A × List A
  fill_batch limit batch [] = (batch, [])
  fill_batch limit batch (x ∷ queue) =
      let next = fill_batch limit (batch ++ x ∷ []) queue in
      if limit == 0 || ltb (length batch) limit then next else (batch, x ∷ queue)

  -- The worker with the mutex, at the head of its loop, up to its next `Wait` or `Unlock`; the
  -- second argument is the queue.
  unfoldable pub worker_head : ℕ → List A → State A → State A
  unfolding fill_batch
  worker_head limit [] s =
      if s.running then record s { worker = asleep } else record s { worker = stopped }
  worker_head limit (x ∷ queue) s =
      let (batch, rest) = fill_batch limit [] (x ∷ queue) in
      record s { queue = rest; worker = consuming batch; processing = true }

  -- `SignalAll`, with the worker not in `Wait`.
  abbrev pub wake_flushes : State A → State A
  wake_flushes s = record s { flushing = s.flushing + s.flush_waiting; flush_waiting = 0 }

  abbrev pub wake_worker : Worker A → Worker A
  wake_worker asleep = waking
  wake_worker w = w

  abbrev pub is_empty : List A → Bool
  is_empty [] = true
  is_empty (x ∷ xs) = false

  -- The test of the loop in `Flush`.
  abbrev pub is_busy : State A → Bool
  is_busy s = not (is_empty s.queue) || s.processing

-- The steps, for a limit of `MaxBatchSize` and with or without spurious wake-ups.
pub data Step {A : Type 0} (limit : ℕ) (spurious : Bool) (s : State A) : State A → Type 0 where
  -- `Push`, up to its unlocking; its call of `Signal`, which wakes the worker or a flush
  push :
      (x : A)
      → Step limit spurious s (record s {
        queue = s.queue ++ x ∷ [];
        signals = suc s.signals;
        pushed = s.pushed ++ x ∷ [];
      })
  signal_worker :
      (n : ℕ)
      → s.signals ≡ suc n
      → s.worker ≡ asleep
      → Step limit spurious s (record s { signals = n; worker = waking })
  signal_flush :
      (n m : ℕ)
      → s.signals ≡ suc n
      → s.flush_waiting ≡ suc m
      → Step limit spurious s
          (record s { signals = n; flushing = suc s.flushing; flush_waiting = m })
  signal_nobody :
      (n : ℕ)
      → s.signals ≡ suc n
      → s.worker ≢ asleep
      → s.flush_waiting ≡ 0
      → Step limit spurious s (record s { signals = n })
  -- `Flush`: its call, its `Wait`, its return
  flush_enters : Step limit spurious s (record s { flushing = suc s.flushing })
  flush_waits :
      (n : ℕ)
      → s.flushing ≡ suc n
      → is_busy s ≡ true
      → Step limit spurious s (record s { flushing = n; flush_waiting = suc s.flush_waiting })
  flush_returns :
      (n : ℕ)
      → s.flushing ≡ suc n
      → is_busy s ≡ false
      → Step limit spurious s (record s { flushing = n })
  -- `workerLoop`
  worker_wakes : s.worker ≡ waking → Step limit spurious s (worker_head limit s.queue s)
  worker_consumes :
      (batch : List A)
      → s.worker ≡ consuming batch
      → Step limit spurious s
          (record s { worker = consumed; delivered = s.delivered ++ batch ∷ [] })
  worker_returns :
      s.worker ≡ consumed
      → Step limit spurious s
          (worker_head limit s.queue (wake_flushes (record s { processing = false })))
  -- the destructor, up to its unlocking, and its `SignalAll`
  stop : s.running ≡ true → Step limit spurious s (record s { running = false; stop_signal = true })
  stop_signals :
      s.stop_signal ≡ true
      → Step limit spurious s
          (wake_flushes (record s { worker = wake_worker s.worker; stop_signal = false }))
  -- a wake-up without a signal
  worker_wakes_up :
      spurious ≡ true → s.worker ≡ asleep → Step limit spurious s (record s { worker = waking })
  flush_wakes_up :
      (n : ℕ)
      → spurious ≡ true
      → s.flush_waiting ≡ suc n
      → Step limit spurious s (record s { flushing = suc s.flushing; flush_waiting = n })

-- The states that the threads can reach.
pub data Reach {A : Type 0} (limit : ℕ) (spurious : Bool) (s : State A) : State A → Type 0 where
  here : Reach limit spurious s s
  next :
      {t u : State A}
      → Reach limit spurious s t
      → Step limit spurious t u
      → Reach limit spurious s u
