-- ===== src/Sinks/Console/Threads/Refinement.antt =====
-- A console sink that several threads use: what their calls come to, and what a change of the
-- stream does to the calls of `Emit` beside it.
use mathlib.Core.Logic.{ite, ◌≢◌}
use native.Mathlib.Decide.{ℕ_discrete}
use logrin.Base.{ℕ, ◌≡◌, refl, ap, true, false, List, [], Option, none, some, Bytes, subst}
use logrin.Record.{LogRecord}
use logrin.Sinks.Console.{Descriptors, Stream, handle_of, new_console}
use logrin.Sinks.Console.Threads.Atomic.{lasting, perform_all}
use logrin.Sinks.Console.Threads.Invariant.{View, view, Base, Local, Settled}
use logrin.Sinks.Console.Threads.Moves.{Move-After}
use logrin.Sinks.Console.Threads.{
  Shared, Pc, idle, unlocking, formatting, waiting, writing, written, switch_waiting, switching,
  opening, Done, Move, emit_enters, System, Reach, start, later, update,
}

-- Whether a thread has the mutex, by its program counter.
abbrev pub IsInside : {D : Type 0} → Pc D → Type 0
IsInside (writing r text) = Unit
IsInside (written r text failure) = Unit
IsInside (switching stream) = Unit
IsInside (opening stream) = Unit
IsInside unlocking = Unit
IsInside _ = ⊥

pub update-elim :
    {D : Type 0} (P : ℕ → Pc D → Type 0) (pc : ℕ → Pc D) (i : ℕ) (p : Pc D)
    → P i p
    → ((j : ℕ) → i ≢ j → P j (pc j))
    → (j : ℕ) → P j (update pc i p j)
update-elim P pc i p own others j = elim (ℕ_discrete i j) as (λ e. P j (ite e p (pc j))) [
  | yes e ↦ subst (λ k. P k p) e own
  | no n ↦ others j n
]

module _ (io : Descriptors) {D : Type 0} (format_number : ℕ → Bytes)
    (closed : io.Descriptor → io.Descriptor) (formatter : Option (LogRecord D → Option Bytes)) where
  open io use {Descriptor, is_valid, of_handle}

  abbrev Inv : Stream → List (Done D) → System Descriptor D → Type 0
  Inv stream calls s =
      (b : Base Descriptor D) × Settled io format_number closed formatter stream calls (view s.mem)
        b
      × ((j : ℕ) → Local io format_number closed formatter b (view s.mem) j (s.pc j))

  Local-owner :
      (b : Base Descriptor D) (v : View Descriptor D) (i : ℕ) (p : Pc D)
      → Local io format_number closed formatter b v i p
      → IsInside p
      → v.owner ≡ some i
  Local-owner b v i (writing r text) l in_it = l.1.0
  Local-owner b v i (written r text failure) l in_it = l.1.0
  Local-owner b v i (switching stream) l in_it = l.0
  Local-owner b v i (opening stream) l in_it = l.1.0
  Local-owner b v i unlocking l in_it = l.0
  Local-owner b v i idle l in_it = elim in_it [ ]
  Local-owner b v i (formatting _ _) l in_it = elim in_it [ ]
  Local-owner b v i (waiting _ _) l in_it = elim in_it [ ]
  Local-owner b v i (switch_waiting _) l in_it = elim in_it [ ]

  entered_valid :
      {i : ℕ} {m m' : Shared Descriptor D} {d : Option (Done D)}
      {format : LogRecord D → Option Bytes} {r : LogRecord D}
      → Move io format_number closed i m idle d m' (formatting format r)
      → is_valid m.console.descriptor ≡ true
  entered_valid (emit_enters format r has valid) = valid

  module _ (opens : (stream : Stream) → is_valid (of_handle (handle_of stream)) ≡ true)
      {stream : Stream} where
    Reach-Inv :
        {calls : List (Done D)} {s : System Descriptor D}
        → Reach io format_number closed formatter stream calls s
        → Inv stream calls s
    unfolding perform_all new_console
    Reach-Inv start = (
      (new_console io formatter stream, []),
      record {
        performed = refl;
        opened = (stream, refl);
        kept = refl;
        same = refl;
        free = λ n. (refl, refl);
      },
      λ j. tt,
    )
    Reach-Inv (later {calls} {s} {d} {m} {p} i reach move) =
        let (b, settled, locals) = Reach-Inv reach in
        let after = Move-After io format_number closed formatter opens settled i move (locals i) in
        (
          after.base,
          after.settled,
          update-elim (λ j q. Local io format_number closed formatter after.base (view m) j q) s.pc
              i p after.own (λ j n. after.others j (s.pc j) n (locals j)),
        )

    -- The calls of several threads come to calls one after the other. In every state that the
    -- threads can reach from a new sink, in any order of their moves, where none of them holds the
    -- mutex, the sink and all that was written, closed and complained of, the calls of `Flush`
    -- apart, are those of the calls that are done, each made whole and in the order in which they
    -- were done. So each text is followed by its newline on the same descriptor, or by the
    -- complaint. A descriptor of a standard stream is taken to be valid.
    pub Reach-refines :
        {calls : List (Done D)} {s : System Descriptor D}
        → Reach io format_number closed formatter stream calls s
        → s.mem.owner ≡ none
        → perform_all io format_number (new_console io formatter stream) [] calls
          ≡ some (s.mem.console, lasting s.mem.out)
    Reach-refines {s = s} reach none_holds =
        let (b, settled, locals) = Reach-Inv reach in
        let (console, seen) = settled.free none_holds in let performs = settled.performed in cc

    -- One thread at most is between the taking and the release of the mutex, in every state that
    -- threads can reach from a new sink.
    pub one_inside :
        {calls : List (Done D)} {s : System Descriptor D} (i j : ℕ)
        → Reach io format_number closed formatter stream calls s
        → IsInside (s.pc i)
        → IsInside (s.pc j)
        → i ≡ j
    one_inside {s = s} i j reach in_i in_j =
        let (b, settled, locals) = Reach-Inv reach in
        let first : s.mem.owner ≡ some i = Local-owner b (view s.mem) i (s.pc i) (locals i) in_i in
        let second : s.mem.owner ≡ some j = Local-owner b (view s.mem) j (s.pc j) (locals j) in_j in
        cc

    -- While a thread in `WithStream` is between `Close` and the new descriptor, no thread's `Emit`
    -- gets past its tests, so the record of each that is made then is dropped. This holds where a
    -- descriptor is not valid behind its `Close`, and one of a standard stream is.
    pub switch_drops :
        ((d : Descriptor) → is_valid (closed d) ≡ false)
        → {calls : List (Done D)} {s : System Descriptor D} (i j : ℕ) (to : Stream)
        → Reach io format_number closed formatter stream calls s
        → s.pc i ≡ opening to
        → (format : LogRecord D → Option Bytes) (r : LogRecord D) (d : Option (Done D))
        → (m : Shared Descriptor D)
        → ¬ Move io format_number closed j s.mem idle d m (formatting format r)
    switch_drops closes {s = s} i j to reach at_opening format r d m move =
        let (b, settled, locals) = Reach-Inv reach in
        let (other, (held, console, seen)) =
          subst (Local io format_number closed formatter b (view s.mem) i) at_opening (locals i) in
        let valid = entered_valid move in
        let invalid = closes b.0.descriptor in
        let place = ap (λ c. c.descriptor) console in absurd cc
