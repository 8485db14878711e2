-- ===== src/Sinks/Console/Threads/Moves.antt =====
-- A move of a thread at a console sink keeps what all threads share, and what each one's program
-- counter says.
use logrin.Base.{
  subst, append-nil, ℕ, ◌≡◌, ◌≢◌, ◌∙◌, refl, sym, ap, true, false, List, [], ◌∷◌, ◌++◌,
  append_assoc, Option, none, some, Bytes,
}
use logrin.Record.{LogRecord}
use logrin.Sinks.Console.{
  flush_handle, flush_console, Descriptors, Stream, handle_of, Output, write, close_handle, Console,
  keeps, new_console, after_write, emit_console, with_stream,
}
use logrin.Sinks.Console.Threads.Invariant.{
  View, view, Base, Formats, Local, Settled, Local-other, After,
}
use logrin.Sinks.Console.Threads.Atomic.{lasting, lasting-append, perform, perform_all-snoc}
use logrin.Sinks.Console.Threads.{
  Shared, Pc, idle, unlocking, Done, emitted, switched, Move, emit_enters, emit_leaves,
  emit_formats, emit_throws, emit_locks, emit_writes, emit_ends, switch_enters, switch_locks,
  switch_keeps, switch_closes, switch_finds_none, switch_opens, unlocks, flushes, note,
}

alone : {o : Option ℕ} {i : ℕ} → o ≡ some i → (j : ℕ) → i ≢ j → o ≢ some j
alone held j n e = n cc

module _ (io : Descriptors) {D : Type 0} (format_number : ℕ → Bytes)
    (closed : io.Descriptor → io.Descriptor) (formatter : Option (LogRecord D → Option Bytes)) where
  open io use {Descriptor, is_valid, of_handle, handle}

  module _ {stream : Stream} {calls : List (Done D)} {v : View Descriptor D} {b : Base Descriptor D}
      (s : Settled io format_number closed formatter stream calls v b) where
    base-valid :
        ((stream : Stream) → is_valid (of_handle (handle_of stream)) ≡ true)
        → is_valid b.0.descriptor ≡ true
    base-valid opens = rw ((s.opened).1) (opens ((s.opened).0))

    quiet :
        (i : ℕ) (p' : Pc D)
        → Local io format_number closed formatter b v i p'
        → After io format_number closed formatter stream calls v b i v p'
    quiet i p' own = record { base = b; settled = s; own = own; others = λ j q n l. l }

    -- The mutex changes hands, or the thread with the mutex does a part of its call.
    works :
        (i : ℕ) (v' : View Descriptor D) (p' : Pc D)
        → ((j : ℕ) → i ≢ j → v.owner ≢ some j)
        → v'.console.formatter ≡ v.console.formatter
        → (v'.owner ≡ none → (v'.console ≡ b.0) × (v'.seen ≡ b.1))
        → Local io format_number closed formatter b v' i p'
        → After io format_number closed formatter stream calls v b i v' p'
    works i v' p' alone same free own = record {
      base = b;
      settled = record {
        performed = s.performed;
        opened = s.opened;
        kept = s.kept;
        same = same ∙ s.same;
        free = free;
      };
      own = own;
      others = λ j q n l. Local-other io format_number closed formatter b b v v' j q (alone j n) l;
    }

    -- The thread with the mutex ends its call.
    ends :
        (i : ℕ) (d : Done D) (b' : Base Descriptor D) (v' : View Descriptor D)
        → ((j : ℕ) → i ≢ j → v.owner ≢ some j)
        → perform io format_number b.0 d ≡ some (b'.0, b'.1)
        → v'.owner ≡ some i
        → v'.console ≡ b'.0
        → v'.seen ≡ b.1 ++ b'.1
        → b'.0.formatter ≡ b.0.formatter
        → (open_stream : Stream) × (b'.0.descriptor ≡ of_handle (handle_of open_stream))
        → After io format_number closed formatter stream (calls ++ d ∷ []) v b i v' unlocking
    ends i d b' v' alone performs held console seen same opened = record {
      base = (b'.0, b.1 ++ b'.1);
      settled = record {
        performed =
            perform_all-snoc io format_number (new_console io formatter stream) [] calls b b' d
              s.performed performs;
        opened = opened;
        kept = same ∙ s.kept;
        same = ap (λ c. c.formatter) console ∙ same ∙ s.kept;
        free = λ free. cc;
      };
      own = (held, console, seen);
      others = λ j q n l. Local-other io format_number closed formatter b _ v v' j q (alone j n) l;
    }

  adds :
      (out more : List (Output Descriptor)) {seen more' : List (Output Descriptor)}
      → lasting out ≡ seen
      → lasting more ≡ more'
      → lasting (out ++ more) ≡ seen ++ more'
  adds out more h k = rw (lasting-append out more, h, k) refl

  flush-view :
      (m : Shared Descriptor D)
      → view (record m { out = m.out ++ flush_console io m.console }) ≡ view m
  unfolding flush_console
  flush-view m =
      rw (lasting-append m.out (flush_handle m.console.descriptor ∷ []), append-nil (lasting m.out))
        refl

  lasting-after_write :
      (d : Descriptor) (r : LogRecord D) (failure : Option Bytes)
      → lasting (after_write io format_number d r failure)
        ≡ after_write io format_number d r failure
  unfolding after_write
  lasting-after_write d r none = refl
  lasting-after_write d r (some error) = refl

  perform-emitted :
      (c : Console Descriptor D) (r : LogRecord D) (text : Bytes) (failure : Option Bytes)
      → c.formatter ≡ formatter
      → is_valid c.descriptor ≡ true
      → Formats io format_number closed formatter r text
      → perform io format_number c (emitted r failure)
        ≡ some (c, write c.descriptor text ∷ after_write io format_number c.descriptor r failure)
  unfolding perform emit_console
  perform-emitted c r text failure kept valid (format, has, formats) =
      rw (kept, has, valid, formats) refl

  perform-keeps :
      (c : Console Descriptor D) (stream : Stream)
      → is_valid c.descriptor ≡ true
      → keeps (handle c.descriptor) stream ≡ true
      → perform io format_number c (switched stream) ≡ some (c, [])
  unfolding perform with_stream
  perform-keeps c stream valid same = rw (valid, same) refl

  perform-opens :
      (c : Console Descriptor D) (stream : Stream)
      → is_valid c.descriptor ≡ true
      → keeps (handle c.descriptor) stream ≡ false
      → perform io format_number c (switched stream)
        ≡ some
            (record c { descriptor = of_handle (handle_of stream) }, close_handle c.descriptor ∷ [])
  unfolding perform with_stream
  perform-opens c stream valid other = rw (valid, other) refl

  module _ (opens : (stream : Stream) → is_valid (of_handle (handle_of stream)) ≡ true)
      {stream : Stream} {calls : List (Done D)} {m : Shared Descriptor D} {b : Base Descriptor D}
      (s : Settled io format_number closed formatter stream calls (view m) b) (i : ℕ) where
    pub Move-After :
        {p p' : Pc D} {d : Option (Done D)} {m' : Shared Descriptor D}
        → Move io format_number closed i m p d m' p'
        → Local io format_number closed formatter b (view m) i p
        → After io format_number closed formatter stream (note calls d) (view m) b i (view m') p'
    Move-After (emit_enters format r has valid) l = quiet s i _ (sym s.same ∙ has)
    Move-After (emit_leaves why) l = quiet s i _ tt
    Move-After (emit_formats text formats) l = quiet s i _ (_, l, formats)
    Move-After (emit_throws throws) l = quiet s i _ tt
    Move-After (emit_locks free) l =
        works s i _ _ (λ j n. cc) refl (λ n. cc) (l, (refl, (s.free free).0, (s.free free).1))
    Move-After (emit_writes failure) (formats, (held, console, seen)) =
        works s i _ _ (alone held) refl (λ n. cc)
          (formats, (held, console, adds m.out _ seen (rw console refl)))
    Move-After emit_ends (formats, (held, console, seen)) =
        ends s i _ _ _ (alone held) (perform-emitted b.0 _ _ _ s.kept (base-valid s opens) formats)
          held console
          (adds m.out _ seen (lasting-after_write _ _ _ ∙ rw console refl) ∙ append_assoc b.1 _ _)
          refl s.opened
    Move-After (switch_enters stream) l = quiet s i _ tt
    Move-After (switch_locks free) l =
        works s i _ _ (λ j n. cc) refl (λ n. cc) (refl, (s.free free).0, (s.free free).1)
    Move-After (switch_keeps valid same) (held, console, seen) =
        ends s i _ (b.0, []) _ (alone held)
          (perform-keeps b.0 _ (base-valid s opens) (rw (sym console) same)) held console
          (seen ∙ sym (append-nil b.1)) refl s.opened
    Move-After (switch_closes valid other) (held, console, seen) =
        works s i _ _ (alone held) refl (λ n. cc)
          (rw (sym console) other, (held, rw console refl, adds m.out _ seen (rw console refl)))
    Move-After (switch_finds_none invalid) (held, console, seen) =
        let valid : is_valid b.0.descriptor ≡ true = base-valid s opens in absurd cc
    Move-After switch_opens (other, (held, console, seen)) =
        ends s i _
          (record b.0 { descriptor = of_handle (handle_of _) }, close_handle b.0.descriptor ∷ []) _
          (alone held) (perform-opens b.0 _ (base-valid s opens) other) held (rw console refl) seen
          refl (_, refl)
    Move-After unlocks (held, console, seen) =
        works s i _ _ (alone held) refl (λ n. (console, seen)) tt
    Move-After flushes l =
        subst (λ v. After io format_number closed formatter stream calls (view m) b i v idle)
          (sym (flush-view m)) (quiet s i idle tt)
