-- ===== src/Sinks/Console/Threads/Progress.antt =====
-- The threads at a console sink do not block each other for ever.
use logrin.Base.{refl, subst, ℕ, ◌≡◌, ◌≢◌, List, Option, none, some, Bytes, Bool-cases, inl, inr}
use logrin.Record.{LogRecord}
use logrin.Sinks.Console.Threads.Refinement.{IsInside, update-elim}
use logrin.Sinks.Console.{Descriptors, Stream, keeps}
use logrin.Sinks.Console.Threads.{
  Shared, Pc, idle, unlocking, formatting, waiting, writing, written, switch_waiting, switching,
  opening, Done, Move, emit_enters, emit_leaves, emit_formats, emit_throws, emit_locks, emit_writes,
  emit_ends, switch_enters, switch_locks, switch_keeps, switch_closes, switch_finds_none,
  switch_opens, unlocks, flushes, System, Reach, start, later,
}

module _ (io : Descriptors) {D : Type 0} (format_number : ℕ → Bytes)
    (closed : io.Descriptor → io.Descriptor) where
  open io use {Descriptor, is_valid, handle}

  -- The thread that has the mutex is between its taking and its release.
  Move-own :
      {i : ℕ} {m m' : Shared Descriptor D} {p p' : Pc D} {d : Option (Done D)}
      → Move io format_number closed i m p d m' p'
      → (m.owner ≡ some i → IsInside p)
      → m'.owner ≡ some i
      → IsInside p'
  Move-own (emit_enters format r has valid) own held = own held
  Move-own (emit_leaves why) own held = own held
  Move-own (emit_formats text formats) own held = own held
  Move-own (emit_throws throws) own held = own held
  Move-own (emit_locks free) own held = tt
  Move-own (emit_writes failure) own held = tt
  Move-own emit_ends own held = tt
  Move-own (switch_enters stream) own held = own held
  Move-own (switch_locks free) own held = tt
  Move-own (switch_keeps valid same) own held = tt
  Move-own (switch_closes valid other) own held = tt
  Move-own (switch_finds_none invalid) own held = tt
  Move-own switch_opens own held = tt
  Move-own unlocks own held = absurd cc
  Move-own flushes own held = own held

  Move-other :
      {i : ℕ} {m m' : Shared Descriptor D} {p p' : Pc D} {d : Option (Done D)}
      → Move io format_number closed i m p d m' p'
      → (j : ℕ) → i ≢ j
      → m'.owner ≡ some j
      → m.owner ≡ some j
  Move-other (emit_enters format r has valid) j n held = held
  Move-other (emit_leaves why) j n held = held
  Move-other (emit_formats text formats) j n held = held
  Move-other (emit_throws throws) j n held = held
  Move-other (emit_locks free) j n held = absurd (n cc)
  Move-other (emit_writes failure) j n held = held
  Move-other emit_ends j n held = held
  Move-other (switch_enters stream) j n held = held
  Move-other (switch_locks free) j n held = absurd (n cc)
  Move-other (switch_keeps valid same) j n held = held
  Move-other (switch_closes valid other) j n held = held
  Move-other (switch_finds_none invalid) j n held = held
  Move-other switch_opens j n held = held
  Move-other unlocks j n held = absurd cc
  Move-other flushes j n held = held

  Reach-IsInside :
      {formatter : Option (LogRecord D → Option Bytes)} {stream : Stream} {calls : List (Done D)}
      {s : System Descriptor D}
      → Reach io format_number closed formatter stream calls s
      → (j : ℕ) → s.mem.owner ≡ some j
      → IsInside (s.pc j)
  Reach-IsInside start = λ j held. absurd cc
  Reach-IsInside (later {s = s} {m = m} {p} i reach move) =
      update-elim (λ j q. m.owner ≡ some j → IsInside q) s.pc i p
        (Move-own move (Reach-IsInside reach i))
        (λ j n held. Reach-IsInside reach j (Move-other move j n held))

  -- What a thread can do next.
  abbrev pub CanMove : ℕ → Shared Descriptor D → Pc D → Type 0
  CanMove i m p =
      (d : Option (Done D)) × (m' : Shared Descriptor D) × (p' : Pc D) × Move io format_number
        closed i m p d m' p'

  switching-CanMove :
      (i : ℕ) (m : Shared Descriptor D) (stream : Stream) → CanMove i m (switching stream)
  switching-CanMove i m stream = elim (Bool-cases (is_valid m.console.descriptor)) [
    | inl valid ↦ elim (Bool-cases (keeps (handle m.console.descriptor) stream)) [
      | inl same ↦ (_, _, _, switch_keeps valid same)
      | inr other ↦ (_, _, _, switch_closes valid other)
    ]
    | inr invalid ↦ (_, _, _, switch_finds_none invalid)
  ]

  inside-CanMove : (i : ℕ) (m : Shared Descriptor D) (p : Pc D) → IsInside p → CanMove i m p
  inside-CanMove i m (writing r text) at = (_, _, _, emit_writes none)
  inside-CanMove i m (written r text failure) at = (_, _, _, emit_ends)
  inside-CanMove i m (switching stream) at = switching-CanMove i m stream
  inside-CanMove i m (opening stream) at = (_, _, _, switch_opens)
  inside-CanMove i m unlocking at = (_, _, _, unlocks)
  inside-CanMove i m idle at = elim at [ ]
  inside-CanMove i m (formatting _ _) at = elim at [ ]
  inside-CanMove i m (waiting _ _) at = elim at [ ]
  inside-CanMove i m (switch_waiting _) at = elim at [ ]

  formatting-CanMove :
      (i : ℕ) (m : Shared Descriptor D) (format : LogRecord D → Option Bytes) (r : LogRecord D)
      (result : Option Bytes)
      → format r ≡ result
      → CanMove i m (formatting format r)
  formatting-CanMove i m format r none throws = (_, _, _, emit_throws throws)
  formatting-CanMove i m format r (some text) formats = (_, _, _, emit_formats text formats)

  free-CanMove :
      (i : ℕ) (m : Shared Descriptor D) (p : Pc D) → m.owner ≡ none → p ≢ idle → CanMove i m p
  free-CanMove i m idle free busy = absurd (busy refl)
  free-CanMove i m (formatting format r) free busy = formatting-CanMove i m format r (format r) refl
  free-CanMove i m (waiting r text) free busy = (_, _, _, emit_locks free)
  free-CanMove i m (switch_waiting stream) free busy = (_, _, _, switch_locks free)
  free-CanMove i m (writing r text) free busy = inside-CanMove i m (writing r text) tt
  free-CanMove i m (written r text failure) free busy =
      inside-CanMove i m (written r text failure) tt
  free-CanMove i m (switching stream) free busy = inside-CanMove i m (switching stream) tt
  free-CanMove i m (opening stream) free busy = inside-CanMove i m (opening stream) tt
  free-CanMove i m unlocking free busy = inside-CanMove i m unlocking tt

  inside-busy : (p : Pc D) → IsInside p → p ≢ idle
  inside-busy p at e = subst IsInside e at

  -- There is no deadlock: in every state that threads can reach from a new sink, if one of them
  -- is inside a call, then one that is inside a call can move on.
  pub never_stuck :
      {formatter : Option (LogRecord D → Option Bytes)} {stream : Stream} {calls : List (Done D)}
      {s : System Descriptor D} (i : ℕ)
      → Reach io format_number closed formatter stream calls s
      → s.pc i ≢ idle
      → (j : ℕ) × (s.pc j ≢ idle) × CanMove j s.mem (s.pc j)
  never_stuck {s = s} i reach busy = held_or_free s.mem.owner refl
    where
      held_or_free :
          (owner : Option ℕ)
          → s.mem.owner ≡ owner
          → (j : ℕ) × (s.pc j ≢ idle) × CanMove j s.mem (s.pc j)
      held_or_free none free = (i, busy, free-CanMove i s.mem (s.pc i) free busy)
      held_or_free (some j) held =
          let at = Reach-IsInside reach j held in
          (j, inside-busy (s.pc j) at, inside-CanMove j s.mem (s.pc j) at)
