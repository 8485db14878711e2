-- ===== src/Logger/Sinks.antt =====
-- include/logrin/Sink.h and include/logrin/AsyncSink.h: the two kinds of sinks, and a logger that
-- calls them.
use logrin.Base.{
  ℕ, ◌≡◌, ◌∙◌, refl, ap, inl, inr, List, [], ◌∷◌, ◌++◌, ◌==◌, if◌then◌else◌, Bool-cases,
}
use logrin.Logger.Programs.{
  LogCall, count, SinkCall, takes, flushes, sink_call, async_call, gather, life, share,
  sink_call-life, async_call-life,
}
use logrin.Logger.{Call, emit, enqueue, flush_sink, flush_async, Logger}
use logrin.Record.{LogRecord}

-- `Sink`: what the methods make of the state of a sink.
pub record Sink (D S : Type 0) : Type 0 where
  pub emit_record : LogRecord D → S → S
  pub flush_state : S → S

-- `AsyncSink`
pub record AsyncSink (D S : Type 0) : Type 0 where
  pub enqueue_record : LogRecord D → S → S
  pub flush_state : S → S

-- `Sink::Flush` and `AsyncSink::Flush`, where a sink does not override them.
abbrev pub default_flush : {S : Type 0} → S → S
default_flush s = s

-- The states of all sinks, by the numbers that stand for them.
pub record States (S A : Type 0) : Type 0 where
  pub sync : ℕ → S
  pub async : ℕ → A

module _ {D S A : Type 0} (sinks : ℕ → Sink D S) (async_sinks : ℕ → AsyncSink D A) where
  -- A call on a sink: the other sinks keep their states.
  unfoldable pub deliver_call : Call D → States S A → States S A
  deliver_call (emit i r) s = record s {
    sync = λ j. if j == i then (sinks j).emit_record r (s.sync j) else s.sync j;
  }
  deliver_call (enqueue i r) s = record s {
    async = λ j. if j == i then (async_sinks j).enqueue_record r (s.async j) else s.async j;
  }
  deliver_call (flush_sink i) s = record s {
    sync = λ j. if j == i then (sinks j).flush_state (s.sync j) else s.sync j;
  }
  deliver_call (flush_async i) s = record s {
    async = λ j. if j == i then (async_sinks j).flush_state (s.async j) else s.async j;
  }

  unfoldable pub deliver : List (Call D) → States S A → States S A
  unfolding deliver_call
  deliver [] s = s
  deliver (call ∷ calls) s = deliver calls (deliver_call call s)

-- The calls of one sink, one after the other.
abbrev pub act : {D S : Type 0} → Sink D S → List (SinkCall D) → S → S
act sink [] s = s
act sink (takes r ∷ calls) s = act sink calls (sink.emit_record r s)
act sink (flushes ∷ calls) s = act sink calls (sink.flush_state s)

abbrev pub act_async : {D S : Type 0} → AsyncSink D S → List (SinkCall D) → S → S
act_async sink [] s = s
act_async sink (takes r ∷ calls) s = act_async sink calls (sink.enqueue_record r s)
act_async sink (flushes ∷ calls) s = act_async sink calls (sink.flush_state s)

module _ {D S A : Type 0} (sinks : ℕ → Sink D S) (async_sinks : ℕ → AsyncSink D A) where
  deliver_call-sync :
      (i : ℕ) (call : Call D) (rest : List (SinkCall D)) (s : States S A)
      → act (sinks i) rest ((deliver_call sinks async_sinks call s).sync i)
        ≡ act (sinks i) (sink_call i call ++ rest) (s.sync i)
  unfolding deliver_call
  deliver_call-sync i (emit j r) rest s = elim (Bool-cases (i == j)) [
    | inl same ↦ rw same refl
    | inr other ↦ rw other refl
  ]
  deliver_call-sync i (flush_sink j) rest s = elim (Bool-cases (i == j)) [
    | inl same ↦ rw same refl
    | inr other ↦ rw other refl
  ]
  deliver_call-sync i (enqueue j r) rest s = refl
  deliver_call-sync i (flush_async j) rest s = refl

  deliver_call-async :
      (i : ℕ) (call : Call D) (rest : List (SinkCall D)) (s : States S A)
      → act_async (async_sinks i) rest ((deliver_call sinks async_sinks call s).async i)
        ≡ act_async (async_sinks i) (async_call i call ++ rest) (s.async i)
  unfolding deliver_call
  deliver_call-async i (enqueue j r) rest s = elim (Bool-cases (i == j)) [
    | inl same ↦ rw same refl
    | inr other ↦ rw other refl
  ]
  deliver_call-async i (flush_async j) rest s = elim (Bool-cases (i == j)) [
    | inl same ↦ rw same refl
    | inr other ↦ rw other refl
  ]
  deliver_call-async i (emit j r) rest s = refl
  deliver_call-async i (flush_sink j) rest s = refl

  deliver-sync :
      (i : ℕ) (calls : List (Call D)) (s : States S A)
      → (deliver sinks async_sinks calls s).sync i
        ≡ act (sinks i) (gather (sink_call i) calls) (s.sync i)
  unfolding deliver
  deliver-sync i [] s = refl
  deliver-sync i (call ∷ calls) s =
      deliver-sync i calls (deliver_call sinks async_sinks call s)
      ∙ deliver_call-sync i call (gather (sink_call i) calls) s

  deliver-async :
      (i : ℕ) (calls : List (Call D)) (s : States S A)
      → (deliver sinks async_sinks calls s).async i
        ≡ act_async (async_sinks i) (gather (async_call i) calls) (s.async i)
  unfolding deliver
  deliver-async i [] s = refl
  deliver-async i (call ∷ calls) s =
      deliver-async i calls (deliver_call sinks async_sinks call s)
      ∙ deliver_call-async i call (gather (async_call i) calls) s

  -- The life of a logger, for any implementation of the sinks. When log calls have been made on it
  -- and it has been destroyed, each sink is in the state that it comes to alone when it gets the
  -- record of each enabled call, in their order and as often as it was added to the logger, and
  -- then `Flush` as often; so is each asynchronous sink. A sink that was not added keeps its state.
  pub life_reaches :
      (i : ℕ) (logger : Logger) (logs : List LogCall) (s : States S A)
      → ((deliver sinks async_sinks (life logger logs) s).sync i
          ≡ act (sinks i) (share (count i logger.sinks) logger logs) (s.sync i))
        × ((deliver sinks async_sinks (life logger logs) s).async i
            ≡ act_async
                (async_sinks i)
                (share (count i logger.async_sinks) logger logs)
                (s.async i))
  life_reaches i logger logs s = (
    deliver-sync i (life logger logs) s
        ∙ ap (λ calls. act (sinks i) calls (s.sync i)) (sink_call-life i logger logs),
    deliver-async i (life logger logs) s
        ∙ ap (λ calls. act_async (async_sinks i) calls (s.async i)) (async_call-life i logger logs),
  )
