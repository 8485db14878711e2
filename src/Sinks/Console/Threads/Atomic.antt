-- ===== src/Sinks/Console/Threads/Atomic.antt =====
-- Calls of a console sink one after the other, which the calls of several threads are held against.
use logrin.Base.{◌∙◌, ℕ, ◌≡◌, refl, List, [], ◌∷◌, ◌++◌, Option, none, some, Bytes}
use logrin.Pattern.Runtime.{◌>>=◌}
use logrin.Sinks.Console.{
  Descriptors, Output, write, close_handle, flush_handle, complain, Console, with_stream,
  emit_console,
}
use logrin.Sinks.Console.Threads.{Done, emitted, switched}

module _ {Descriptor : Type 0} where
  -- What is done to the outside but for `Flush`.
  abbrev pub lasting : List (Output Descriptor) → List (Output Descriptor)
  lasting [] = []
  lasting (write d text ∷ out) = write d text ∷ lasting out
  lasting (close_handle d ∷ out) = close_handle d ∷ lasting out
  lasting (flush_handle d ∷ out) = lasting out
  lasting (complain text ∷ out) = complain text ∷ lasting out

  pub lasting-append : (a b : List (Output Descriptor)) → lasting (a ++ b) ≡ lasting a ++ lasting b
  lasting-append [] b = refl
  lasting-append (write d text ∷ a) b = rw (lasting-append a b) refl
  lasting-append (close_handle d ∷ a) b = rw (lasting-append a b) refl
  lasting-append (flush_handle d ∷ a) b = lasting-append a b
  lasting-append (complain text ∷ a) b = rw (lasting-append a b) refl

bind-through :
    {A B C : Type 0} (a : Option A) (f : A → Option B) (g : B → Option C) (h : A → Option C)
    → ((x : A) → h x ≡ (f x >>= g))
    → (a >>= h) ≡ (a >>= f >>= g)
bind-through none f g h eq = refl
bind-through (some x) f g h eq = eq x

module _ (io : Descriptors) {D : Type 0} (format_number : ℕ → Bytes) where
  open io use {Descriptor}

  -- A whole call, with no other thread at the sink.
  unfoldable pub perform :
      Console Descriptor D → Done D → Option (Console Descriptor D × List (Output Descriptor))
  unfolding emit_console
  perform c (emitted r failure) = emit_console io format_number c r failure >>= λ out. some (c, out)
  perform c (switched stream) = some (with_stream io stream c)

  -- The calls in order, from a sink and what was done before.
  unfoldable pub perform_all :
      Console Descriptor D
      → List (Output Descriptor)
      → List (Done D)
      → Option (Console Descriptor D × List (Output Descriptor))
  unfolding perform
  perform_all c out [] = some (c, out)
  perform_all c out (d ∷ calls) = perform c d >>= λ s. perform_all s.0 (out ++ s.1) calls

  perform_all-append :
      (c : Console Descriptor D) (out : List (Output Descriptor)) (calls more : List (Done D))
      → perform_all c out (calls ++ more)
        ≡ (perform_all c out calls >>= λ s. perform_all s.0 s.1 more)
  unfolding perform_all
  perform_all-append c out [] more = refl
  perform_all-append c out (d ∷ calls) more =
      bind-through (perform c d) _ _ _ (λ s. perform_all-append s.0 (out ++ s.1) calls more)

  pub perform_all-snoc :
      (c : Console Descriptor D) (out : List (Output Descriptor)) (calls : List (Done D))
      (s t : Console Descriptor D × List (Output Descriptor)) (d : Done D)
      → perform_all c out calls ≡ some s
      → perform s.0 d ≡ some t
      → perform_all c out (calls ++ d ∷ []) ≡ some (t.0, s.1 ++ t.1)
  unfolding perform_all
  perform_all-snoc c out calls s t d h k = perform_all-append c out calls (d ∷ []) ∙ rw (h, k) refl
