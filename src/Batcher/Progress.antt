-- ===== src/Batcher/Progress.antt =====
-- The batcher without calls of `Flush`: what its threads do by themselves ends, and ends with
-- everything delivered.
use logrin.Base.{
  ℕ, ◌-◌, ◌<◌, ◌≡◌, ◌≢◌, refl, ◌⊎◌, inl, inr, true, false, List, [], ◌∷◌, Bool-cases, arith,
}
use logrin.Batcher.Delivery.{drained, wake_worker-stopped}
use logrin.Batcher.Invariant.{concat, Inv, Step-Inv, initial-Inv}
use logrin.Batcher.LostWakeup.{IsNewCall}
use logrin.Batcher.{
  Worker, waking, asleep, consuming, consumed, stopped, State, initial, worker_head, wake_flushes,
  wake_worker, Step, push, signal_worker, signal_flush, signal_nobody, flush_enters, flush_waits,
  flush_returns, worker_wakes, worker_consumes, worker_returns, stop, stop_signals, worker_wakes_up,
  flush_wakes_up,
}

module _ {A : Type 0} where
  -- The steps of a program that does not call `Flush`, and does not push behind the destructor's
  -- start.
  abbrev pub IsQuiet : {limit : ℕ} {s t : State A} → Step limit false s t → Type 0
  IsQuiet {s = s} (push x) = s.running ≡ true
  IsQuiet flush_enters = ⊥
  IsQuiet (signal_worker n p w) = Unit {0}
  IsQuiet (signal_flush n m p q) = Unit {0}
  IsQuiet (signal_nobody n p q r) = Unit {0}
  IsQuiet (flush_waits n p q) = Unit {0}
  IsQuiet (flush_returns n p q) = Unit {0}
  IsQuiet (worker_wakes w) = Unit {0}
  IsQuiet (worker_consumes b w) = Unit {0}
  IsQuiet (worker_returns w) = Unit {0}
  IsQuiet (stop up) = Unit {0}
  IsQuiet (stop_signals p) = Unit {0}
  IsQuiet (worker_wakes_up p w) = Unit {0}
  IsQuiet (flush_wakes_up n p q) = Unit {0}

-- The states that such a program can reach.
pub data QuietReach {A : Type 0} (limit : ℕ) : State A → Type 0 where
  start : QuietReach limit initial
  then_ :
      {s t : State A}
      → QuietReach limit s
      → (st : Step limit false s t) → IsQuiet st
      → QuietReach limit t

module _ {A : Type 0} where
  -- Nobody waits in `Flush`; a worker that sleeps has nothing to do or will be signalled; and a
  -- worker at its end has left nothing.
  pub record Awake (s : State A) : Type 0 where
    pub no_waiting : s.flush_waiting ≡ 0
    pub no_flushing : s.flushing ≡ 0
    signalled : s.worker ≡ asleep → (s.queue ≡ []) ⊎ (0 < s.signals)
    told : s.worker ≡ asleep → (s.running ≡ true) ⊎ (s.stop_signal ≡ true)
    ended : s.worker ≡ stopped → (s.queue ≡ []) × (s.running ≡ false)

  worker_head-Awake :
      (limit : ℕ) (queue : List A) (s : State A)
      → s.queue ≡ queue
      → s.flush_waiting ≡ 0
      → s.flushing ≡ 0
      → Awake (worker_head limit queue s)
  unfolding worker_head
  worker_head-Awake limit [] s q w f = elim (Bool-cases s.running) [
    | inl on ↦ rw on (record {
      no_waiting = w;
      no_flushing = f;
      signalled = λ e. inl q;
      told = λ e. inl refl;
      ended = λ e. absurd (ground arith);
    })
    | inr off ↦ rw off (record {
      no_waiting = w;
      no_flushing = f;
      signalled = λ e. absurd (ground arith);
      told = λ e. absurd (ground arith);
      ended = λ e. (q, refl);
    })
  ]
  worker_head-Awake limit (x ∷ queue) s q w f = record {
    no_waiting = w;
    no_flushing = f;
    signalled = λ e. absurd (ground arith);
    told = λ e. absurd (ground arith);
    ended = λ e. absurd (ground arith);
  }

  wake_worker-ne_asleep : (w : Worker A) → wake_worker w ≢ asleep
  wake_worker-ne_asleep asleep e = ground arith
  wake_worker-ne_asleep waking e = ground arith
  wake_worker-ne_asleep (consuming batch) e = ground arith
  wake_worker-ne_asleep consumed e = ground arith
  wake_worker-ne_asleep stopped e = ground arith

  Step-Awake :
      {limit : ℕ} {s t : State A} → Awake s → (st : Step limit false s t) → IsQuiet st → Awake t
  Step-Awake {s = s} v (push x) up = record {
    no_waiting = v.no_waiting;
    no_flushing = v.no_flushing;
    signalled = λ e. inr (omega arith);
    told = v.told;
    ended = λ e. absurd (ground (arith, v.ended e));
  }
  Step-Awake {s = s} v (signal_worker n p w) u = record {
    no_waiting = v.no_waiting;
    no_flushing = v.no_flushing;
    signalled = λ e. absurd (ground arith);
    told = λ e. absurd (ground arith);
    ended = λ e. absurd (ground arith);
  }
  Step-Awake v (signal_flush n m p q) u = absurd (omega (arith, v.no_waiting))
  Step-Awake v (signal_nobody n p q r) u = record {
    no_waiting = v.no_waiting;
    no_flushing = v.no_flushing;
    signalled = λ e. absurd (q e);
    told = v.told;
    ended = v.ended;
  }
  Step-Awake v flush_enters u = absurd u
  Step-Awake v (flush_waits n p q) u = absurd (omega (arith, v.no_flushing))
  Step-Awake v (flush_returns n p q) u = absurd (omega (arith, v.no_flushing))
  Step-Awake {limit} {s = s} v (worker_wakes w) u =
      worker_head-Awake limit s.queue s refl v.no_waiting v.no_flushing
  Step-Awake v (worker_consumes batch w) u = record {
    no_waiting = v.no_waiting;
    no_flushing = v.no_flushing;
    signalled = λ e. absurd (ground arith);
    told = λ e. absurd (ground arith);
    ended = λ e. absurd (ground arith);
  }
  Step-Awake {limit} {s = s} v (worker_returns w) u =
      worker_head-Awake limit s.queue (wake_flushes (record s { processing = false })) refl refl
        (omega (arith, v.no_waiting, v.no_flushing))
  Step-Awake v (stop up) u = record {
    no_waiting = v.no_waiting;
    no_flushing = v.no_flushing;
    signalled = v.signalled;
    told = λ e. inr refl;
    ended = λ e. ((v.ended e).0, refl);
  }
  Step-Awake {s = s} v (stop_signals p) u = record {
    no_waiting = refl;
    no_flushing = omega (arith, v.no_waiting, v.no_flushing);
    signalled = λ e. absurd (wake_worker-ne_asleep s.worker e);
    told = λ e. absurd (wake_worker-ne_asleep s.worker e);
    ended = λ e. v.ended (wake_worker-stopped s.worker e);
  }
  Step-Awake v (worker_wakes_up p w) u = absurd (ground arith)
  Step-Awake v (flush_wakes_up n p q) u = absurd (ground arith)

  pub QuietReach-Inv : {limit : ℕ} {s : State A} → QuietReach limit s → Inv limit s × Awake s
  QuietReach-Inv {limit} start = (
    initial-Inv limit,
    record {
      no_waiting = refl;
      no_flushing = refl;
      signalled = λ e. inl refl;
      told = λ e. inl refl;
      ended = λ e. absurd (ground arith);
    },
  )
  QuietReach-Inv (then_ r st quiet) =
      let (inv, awake) = QuietReach-Inv r in (Step-Inv inv st, Step-Awake awake st quiet)

  -- The threads have a step of their own: none that is a new call.
  abbrev pub HasStep : ℕ → State A → Type 0
  HasStep limit s = (t : State A) × (st : Step limit false s t) × (IsNewCall st → ⊥)

  -- A worker that is awake has a step.
  at_work :
      (limit : ℕ) (s : State A) (w : Worker A)
      → s.worker ≡ w
      → w ≢ asleep
      → w ≢ stopped
      → HasStep limit s
  at_work limit s waking e a b = (_, worker_wakes e, λ h. h)
  at_work limit s asleep e a b = absurd (a refl)
  at_work limit s (consuming batch) e a b = (_, worker_consumes batch e, λ h. h)
  at_work limit s consumed e a b = (_, worker_returns e, λ h. h)
  at_work limit s stopped e a b = absurd (b refl)

  -- No item is forgotten where `Flush` is not called: in every state that is reached without it,
  -- and without a push behind the destructor's start, everything that was pushed has been
  -- delivered, or the threads have a step of their own, no new call and no spurious wake-up.
  pub quiet_progress :
      (limit : ℕ) (s : State A)
      → QuietReach limit s
      → (concat s.delivered ≡ s.pushed) ⊎ HasStep limit s
  quiet_progress limit s r = let (inv, awake) = QuietReach-Inv r in go inv awake s.worker refl
    where
      go :
          Inv limit s
          → Awake s
          → (w : Worker A) → s.worker ≡ w
          → (concat s.delivered ≡ s.pushed) ⊎ HasStep limit s
      go inv awake asleep e = elim (awake.signalled e) [
        | inl empty ↦ inl (drained s inv (rw e refl) empty)
        | inr waits ↦ inr (_, signal_worker (s.signals - 1) (omega arith) e, λ h. h)
      ]
      go inv awake stopped e = inl (drained s inv (rw e refl) (awake.ended e).0)
      go inv awake waking e = inr (at_work limit s waking e (ground arith) (ground arith))
      go inv awake (consuming batch) e =
          inr (at_work limit s (consuming batch) e (ground arith) (ground arith))
      go inv awake consumed e = inr (at_work limit s consumed e (ground arith) (ground arith))
