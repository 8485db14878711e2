-- ===== src/Batcher/Rest.antt =====
-- The batcher's threads come to rest: a bound on their steps without new calls.
use logrin.Base.{
  ℕ, zero, suc, ◌+◌, ◌*◌, ◌≤◌, ◌≡◌, refl, ap, inl, inr, Bool, true, false, List, [], ◌∷◌, length,
  length-append, Bool-cases, arith,
}
use logrin.Batcher.Batches.{fill_batch-IsBatch}
use logrin.Batcher.LostWakeup.{IsNewCall}
use logrin.Batcher.{
  Worker, waking, asleep, consuming, consumed, stopped, State, fill_batch, worker_head,
  wake_flushes, wake_worker, Step, push, signal_worker, signal_flush, signal_nobody, flush_enters,
  flush_waits, flush_returns, worker_wakes, worker_consumes, worker_returns, stop, stop_signals,
  worker_wakes_up, flush_wakes_up,
}
use logrin.Batcher.Progress.{Awake, IsQuiet, QuietReach, then_, QuietReach-Inv}

-- The steps that the destructor's signal can still lead to.
abbrev pending_stop : Bool → ℕ
pending_stop true = 2
pending_stop false = 0

module _ {A : Type 0} where
  -- What the worker has still to do, in steps.
  abbrev rank : Worker A → ℕ
  rank asleep = 0
  rank stopped = 0
  rank waking = 1
  rank consumed = 1
  rank (consuming batch) = 2

  rank-wake_worker : (w : Worker A) → rank (wake_worker w) ≤ suc (rank w)
  rank-wake_worker asleep = omega arith
  rank-wake_worker waking = omega arith
  rank-wake_worker (consuming batch) = omega arith
  rank-wake_worker consumed = omega arith
  rank-wake_worker stopped = omega arith

  abbrev pub work : State A → ℕ
  work s = 3 * length s.queue + rank s.worker + 2 * s.signals + pending_stop s.stop_signal

  fill_batch-shorter :
      (limit : ℕ) (x : A) (queue : List A)
      → length (fill_batch limit [] (x ∷ queue)).1 ≤ length queue
  fill_batch-shorter limit x queue =
      let (fits, parts) = fill_batch-IsBatch limit x queue in
      omega (
        arith,
        fits.0,
        ap length parts,
        length-append (fill_batch limit [] (x ∷ queue)).0 (fill_batch limit [] (x ∷ queue)).1,
      )

  worker_head-work :
      (limit : ℕ) (queue : List A) (s : State A)
      → s.queue ≡ queue
      → work (worker_head limit queue s)
        ≤ 3 * length queue + 2 * s.signals + pending_stop s.stop_signal
  unfolding worker_head
  worker_head-work limit [] s q = elim (Bool-cases s.running) [
    | inl on ↦ rw (on, q) (omega arith)
    | inr off ↦ rw (off, q) (omega arith)
  ]
  worker_head-work limit (x ∷ queue) s q = omega (arith, fill_batch-shorter limit x queue)

  Step-work :
      {limit : ℕ} {s t : State A}
      → Awake s
      → (st : Step limit false s t) → (IsNewCall st → ⊥)
      → suc (work t) ≤ work s
  Step-work v (push x) n = absurd (n tt)
  Step-work {s = s} v (signal_worker n p w) i = rw (p, w) (omega arith)
  Step-work v (signal_flush n m p q) i = absurd (omega (arith, v.no_waiting))
  Step-work {s = s} v (signal_nobody n p q r) i = rw p (omega arith)
  Step-work v flush_enters n = absurd (n tt)
  Step-work v (flush_waits n p q) i = absurd (omega (arith, v.no_flushing))
  Step-work v (flush_returns n p q) i = absurd (omega (arith, v.no_flushing))
  Step-work {limit} {s} v (worker_wakes w) i =
      omega (arith, ap rank w, worker_head-work limit s.queue s refl)
  Step-work {s = s} v (worker_consumes batch w) i = rw w (omega arith)
  Step-work {limit} {s} v (worker_returns w) i = omega (
    arith,
    ap rank w,
    worker_head-work limit s.queue (wake_flushes (record s { processing = false })) refl,
  )
  Step-work v (stop up) n = absurd (n tt)
  Step-work {s = s} v (stop_signals p) i =
      omega (arith, ap pending_stop p, rank-wake_worker s.worker)
  Step-work v (worker_wakes_up p w) i = absurd (ground arith)
  Step-work v (flush_wakes_up n p q) i = absurd (ground arith)

-- A run of the threads without a new call, and without a spurious wake-up: its number of steps.
pub data Run {A : Type 0} (limit : ℕ) (s : State A) : State A → ℕ → Type 0 where
  still : Run limit s s 0
  on :
      {t u : State A} {n : ℕ}
      → Run limit s t n
      → (st : Step limit false t u) → (IsNewCall st → ⊥)
      → Run limit s u (suc n)

module _ {A : Type 0} where
  new_call-IsQuiet :
      {limit : ℕ} {s t : State A} (st : Step limit false s t) → (IsNewCall st → ⊥) → IsQuiet st
  new_call-IsQuiet (push x) n = absurd (n tt)
  new_call-IsQuiet flush_enters n = absurd (n tt)
  new_call-IsQuiet (signal_worker n p w) i = tt
  new_call-IsQuiet (signal_flush n m p q) i = tt
  new_call-IsQuiet (signal_nobody n p q r) i = tt
  new_call-IsQuiet (flush_waits n p q) i = tt
  new_call-IsQuiet (flush_returns n p q) i = tt
  new_call-IsQuiet (worker_wakes w) i = tt
  new_call-IsQuiet (worker_consumes b w) i = tt
  new_call-IsQuiet (worker_returns w) i = tt
  new_call-IsQuiet (stop up) i = tt
  new_call-IsQuiet (stop_signals p) i = tt
  new_call-IsQuiet (worker_wakes_up p w) i = tt
  new_call-IsQuiet (flush_wakes_up n p q) i = tt

  Run-QuietReach :
      {limit : ℕ} {s t : State A} {n : ℕ}
      → QuietReach limit s
      → Run limit s t n
      → QuietReach limit t
  Run-QuietReach q still = q
  Run-QuietReach q (on r st i) = then_ (Run-QuietReach q r) st (new_call-IsQuiet st i)

  -- The worker's loop comes to rest: from a state that is reached without `Flush`, and without a
  -- push behind the destructor's start, a run of the threads without a new call and without a
  -- spurious wake-up has at most as many steps as three for each queued item, two for each signal
  -- that is still to be sent, two for the destructor's, and two for the batch in the consumer or
  -- one for a worker that is about to take the mutex.
  pub Run-bound :
      (limit n : ℕ) (s t : State A) → QuietReach limit s → Run limit s t n → n + work t ≤ work s
  Run-bound limit zero s t q still = omega arith
  Run-bound limit (suc n) s t q (on r st i) =
      omega
        (arith, Run-bound limit n s _ q r, Step-work (QuietReach-Inv (Run-QuietReach q r)).1 st i)
