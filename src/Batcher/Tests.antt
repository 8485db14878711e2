-- ===== src/Batcher/Tests.antt =====
-- A run of the background worker on which the theorems of the batcher are applied.
use logrin.Base.{◌⊎◌, arith, ℕ, ◌+◌, ◌≤◌, true, false, [], ◌∷◌, ◌≡◌, refl}
use logrin.Batcher.Delivery.{Reach-Inv, flush_delivers, stopped_delivers}
use logrin.Batcher.Invariant.{concat, Inv}
use logrin.Batcher.LostWakeup.{stuck, IsNewCall, wakeup_lost}
use logrin.Batcher.Progress.{QuietReach, start, then_, HasStep, quiet_progress}
use logrin.Batcher.Rest.{Run, still, on, work, Run-bound}
use logrin.Batcher.Refinement.{FeedStep, view, Step-refines}
use logrin.Batcher.{
  consuming, consumed, waking, asleep, stopped, State, initial, worker_head, Step, push,
  signal_worker, worker_wakes, worker_consumes, worker_returns, stop, stop_signals, Reach, here,
  next,
}

-- One item is pushed and delivered, and the worker waits again.
abbrev rested : State ℕ
rested = record {
  queue = [];
  running = true;
  processing = false;
  worker = asleep;
  signals = 0;
  flushing = 0;
  flush_waiting = 0;
  stop_signal = false;
  pushed = 5 ∷ [];
  delivered = (5 ∷ []) ∷ [];
}

rested-Reach : Reach 2 false initial rested
unfolding worker_head
rested-Reach =
    next
      (next
        (next (next (next (next here (worker_wakes refl)) (push 5)) (signal_worker 0 refl refl))
          (worker_wakes refl))
        (worker_consumes (5 ∷ []) refl))
      (worker_returns refl)

-- The destructor has signalled, and the worker has been woken by it; then it is at its end.
abbrev halting : State ℕ
halting = record rested { running = false; worker = waking }

abbrev halted : State ℕ
halted = record rested { running = false; worker = stopped }

halting-Reach : Reach 2 false initial halting
halting-Reach = next (next rested-Reach (stop refl)) (stop_signals refl)

halted-Step : Step 2 false halting halted
unfolding worker_head
halted-Step = worker_wakes refl

Reach-Inv_example : Inv 2 rested
Reach-Inv_example = Reach-Inv rested-Reach

flush_delivers_example : concat rested.delivered ≡ rested.pushed
flush_delivers_example = flush_delivers rested rested-Reach refl

stopped_delivers_example : (halted.running ≡ false) × (concat halted.delivered ≡ halted.pushed)
stopped_delivers_example = stopped_delivers halting-Reach halted-Step (ground arith) refl

abbrev item : ℕ
item = 5

-- A later call of `Push` on the stuck state.
abbrev later_push :
    Step 2 false
      (stuck item)
      (record (stuck item) { queue = item ∷ item ∷ []; signals = 1; pushed = item ∷ item ∷ [] })
later_push = push item

wakeup_lost_example : Reach 2 false initial (stuck item) × IsNewCall later_push
wakeup_lost_example = wakeup_lost 2 item later_push

-- One item is pushed while the worker waits; the worker is about to have it; it has it.
abbrev queued : State ℕ
queued = record {
  queue = item ∷ [];
  running = true;
  processing = false;
  worker = asleep;
  signals = 1;
  flushing = 0;
  flush_waiting = 0;
  stop_signal = false;
  pushed = item ∷ [];
  delivered = [];
}

abbrev busy : State ℕ
busy = record queued { queue = []; processing = true; worker = consuming (item ∷ []); signals = 0 }

abbrev served : State ℕ
served = record busy { worker = consumed; delivered = (item ∷ []) ∷ [] }

busy-Reach : Reach 2 false initial busy
unfolding worker_head
busy-Reach =
    next (next (next (next here (worker_wakes refl)) (push item)) (signal_worker 0 refl refl))
      (worker_wakes refl)

served-Step : Step 2 false busy served
served-Step = worker_consumes (item ∷ []) refl

queued-QuietReach : QuietReach 2 queued
unfolding worker_head
queued-QuietReach = then_ (then_ start (worker_wakes refl) tt) (push item) refl

queued-Run : Run 2 queued rested 4
unfolding worker_head
queued-Run =
    on
      (on (on (on still (signal_worker 0 refl refl) (λ n. n)) (worker_wakes refl) (λ n. n))
        (worker_consumes (item ∷ []) refl) (λ n. n))
      (worker_returns refl) (λ n. n)

Step-refines_example : (view served ≡ view busy) ⊎ FeedStep 2 (view busy) (view served)
Step-refines_example = Step-refines busy-Reach served-Step

quiet_progress_example : (concat queued.delivered ≡ queued.pushed) ⊎ HasStep 2 queued
quiet_progress_example = quiet_progress 2 queued queued-QuietReach

Run-bound_example : 4 + work rested ≤ work queued
Run-bound_example = Run-bound 2 4 queued rested queued-QuietReach queued-Run
