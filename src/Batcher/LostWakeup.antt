-- ===== src/Batcher/LostWakeup.antt =====
-- `Push` signals with `Signal`, after it has unlocked, on the condition variable that `Flush` waits
-- on too. A flush that comes between the two can take the signal that was meant for the worker.
use logrin.Base.{ℕ, ◌≡◌, refl, Bool, true, false, [], ◌∷◌, arith}
use logrin.Batcher.{
  asleep, State, initial, worker_head, Step, push, signal_worker, signal_flush, signal_nobody,
  flush_enters, flush_waits, flush_returns, worker_wakes, worker_consumes, worker_returns, stop,
  stop_signals, worker_wakes_up, flush_wakes_up, Reach, here, next,
}

module _ {A : Type 0} where
  -- The worker and a flush both wait, an item is queued, and no signal is to come.
  abbrev pub stuck : A → State A
  stuck x = record {
    queue = x ∷ [];
    running = true;
    processing = false;
    worker = asleep;
    signals = 0;
    flushing = 0;
    flush_waiting = 1;
    stop_signal = false;
    pushed = x ∷ [];
    delivered = [];
  }

  -- The steps of the threads that are there: no new call of `Push`, `Flush` or the destructor.
  abbrev pub IsNewCall :
      {limit : ℕ} {spurious : Bool} {s t : State A} → Step limit spurious s t → Type 0
  IsNewCall (push x) = Unit {0}
  IsNewCall flush_enters = Unit {0}
  IsNewCall (stop p) = Unit {0}
  IsNewCall (signal_worker n p q) = ⊥
  IsNewCall (signal_flush n m p q) = ⊥
  IsNewCall (signal_nobody n p q r) = ⊥
  IsNewCall (flush_waits n p q) = ⊥
  IsNewCall (flush_returns n p q) = ⊥
  IsNewCall (worker_wakes w) = ⊥
  IsNewCall (worker_consumes b w) = ⊥
  IsNewCall (worker_returns w) = ⊥
  IsNewCall (stop_signals p) = ⊥
  IsNewCall (worker_wakes_up p w) = ⊥
  IsNewCall (flush_wakes_up n p q) = ⊥

  -- The worker falls asleep; an item is pushed; a flush enters and waits; the signal of the push
  -- goes to the flush, which waits again.
  stuck-Reach : (limit : ℕ) (x : A) → Reach limit false initial (stuck x)
  unfolding worker_head
  stuck-Reach limit x =
      next
        (next
          (next (next (next (next here (worker_wakes refl)) (push x)) flush_enters)
            (flush_waits 0 refl refl))
          (signal_flush 0 0 refl refl))
        (flush_waits 0 refl refl)

  stuck-IsNewCall :
      (limit : ℕ) (x : A) {s t : State A} → s ≡ stuck x → (st : Step limit false s t) → IsNewCall st
  stuck-IsNewCall limit x e (push y) = tt
  stuck-IsNewCall limit x e flush_enters = tt
  stuck-IsNewCall limit x e (stop p) = tt
  stuck-IsNewCall limit x e (signal_worker n p q) = absurd (ground arith)
  stuck-IsNewCall limit x e (signal_flush n m p q) = absurd (ground arith)
  stuck-IsNewCall limit x e (signal_nobody n p q r) = absurd (ground arith)
  stuck-IsNewCall limit x e (flush_waits n p q) = absurd (ground arith)
  stuck-IsNewCall limit x e (flush_returns n p q) = absurd (ground arith)
  stuck-IsNewCall limit x e (worker_wakes w) = absurd (ground arith)
  stuck-IsNewCall limit x e (worker_consumes b w) = absurd (ground arith)
  stuck-IsNewCall limit x e (worker_returns w) = absurd (ground arith)
  stuck-IsNewCall limit x e (stop_signals p) = absurd (ground arith)
  stuck-IsNewCall limit x e (worker_wakes_up p w) = absurd (ground arith)
  stuck-IsNewCall limit x e (flush_wakes_up n p q) = absurd (ground arith)

  -- A wake-up can be lost: for every item and every batch limit, the threads can reach, without
  -- spurious wake-ups, the state in which the item is queued and not delivered, the worker and a
  -- call of `Flush` both wait, and no thread can take a step unless `Push`, `Flush` or the
  -- destructor is called anew.
  pub wakeup_lost :
      (limit : ℕ) (x : A) {t : State A} (st : Step limit false (stuck x) t)
      → Reach limit false initial (stuck x) × IsNewCall st
  wakeup_lost limit x st = (stuck-Reach limit x, stuck-IsNewCall limit x refl st)
