-- ===== src/Factory/Lookup.antt =====
-- What the factory returns, over any history of calls.
use logrin.Base.{
  some-injective, subst, ℕ, ◌≡◌, ◌∙◌, sym, refl, inl, inr, List, [], ◌∷◌, ◌++◌, none, some, Bytes,
  if◌then◌else◌, equal, equal_iff, All, All-append, Bool-cases, Option-cases, arith,
}
use logrin.Factory.{
  get_calls, LogFactory, Instance, dummy_logger, find_logger, is_off, create, get_from, get, init,
  shutdown,
}
use logrin.Logger.{Logger, new_logger}
use logrin.Record.{LogLevel}

find_logger-append :
    (name : Bytes) (logger : Logger) (loggers : List (Bytes × Logger))
    → find_logger name loggers ≡ none
    → find_logger name (loggers ++ (name, logger) ∷ []) ≡ some logger
unfolding find_logger
find_logger-append name logger [] h = ground (arith, equal_iff name name)
find_logger-append name logger ((key, l) ∷ rest) h =
    ground (arith, find_logger-append name logger rest)

-- A name that is looked up again gives the same logger, and the factory stays as the first
-- lookup left it, in every state of the factory.
pub get-get : (name : Bytes) (i : Instance) → get name (get name i).0 ≡ get name i
unfolding get get_from create new_logger
get-get name none = refl
get-get name (some f) = elim (Bool-cases (is_off f.level)) [
  | inl silent ↦ ground arith
  | inr on ↦ elim (Option-cases (find_logger name f.loggers)) [
    | inl fresh ↦
        ground
          (arith, find_logger-append name (new_logger name f.level f.sinks f.async_sinks) f.loggers)
    | inr (l, found) ↦ ground arith
  ]
]

-- Every stored logger has the factory's level and sinks, and is stored under its own name.
abbrev pub IsConsistent : LogFactory → Type 0
IsConsistent f =
    All
      (λ (entry : Bytes × Logger).
        entry.1
        ≡ record { level = f.level; name = entry.0; sinks = f.sinks; async_sinks = f.async_sinks })
      f.loggers

-- The calls of the program on the factory.
pub data Operation : Type 0 where
  gets : Bytes → Operation
  inits : LogLevel → List ℕ → List ℕ → Operation
  shuts_down : Operation

unfoldable pub perform : Operation → Instance → Instance
unfolding get init shutdown
perform (gets name) i = (get name i).0
perform (inits level sinks async_sinks) i = init level sinks async_sinks i
perform shuts_down i = (shutdown {D = Unit {0}} i).0

unfoldable pub history : List Operation → Instance → Instance
unfolding perform
history [] i = i
history (o ∷ os) i = history os (perform o i)

-- The instance, where there is one, is consistent.
abbrev pub IsSound : Instance → Type 0
IsSound none = Unit
IsSound (some f) = IsConsistent f

get_from-IsConsistent :
    (name : Bytes) (f : LogFactory) → IsConsistent f → IsConsistent (get_from name f).0
unfolding get_from create new_logger
get_from-IsConsistent name f h = elim (Bool-cases (is_off f.level)) [
  | inl silent ↦ rw silent h
  | inr on ↦ elim (Option-cases (find_logger name f.loggers)) [
    | inl fresh ↦ rw (on, fresh) (All-append _ f.loggers _ h (refl, tt))
    | inr (l, found) ↦ rw (on, found) h
  ]
]

perform-IsSound : (o : Operation) (i : Instance) → IsSound i → IsSound (perform o i)
unfolding perform get init shutdown
perform-IsSound (gets name) none h = h
perform-IsSound (gets name) (some f) h = get_from-IsConsistent name f h
perform-IsSound (inits level sinks async_sinks) none h = tt
perform-IsSound (inits level sinks async_sinks) (some f) h = h
perform-IsSound shuts_down none h = tt
perform-IsSound shuts_down (some f) h = tt

history-IsSound : (os : List Operation) (i : Instance) → IsSound i → IsSound (history os i)
unfolding history
history-IsSound [] i h = h
history-IsSound (o ∷ os) i h = history-IsSound os (perform o i) (perform-IsSound o i h)

-- After any calls of the factory from the start of the program, every logger that is stored has
-- the factory's level and sinks, and the name that it is stored under.
pub history-IsConsistent :
    (os : List Operation) {f : LogFactory} → history os none ≡ some f → IsConsistent f
history-IsConsistent os {f} e = subst IsSound e (history-IsSound os none tt)

-- The logger that an instance hands out for a name.
abbrev pub handed_out : Bytes → Instance → Logger
handed_out name none = dummy_logger
handed_out name (some f) =
    if is_off f.level
    then dummy_logger
    else record { level = f.level; name = name; sinks = f.sinks; async_sinks = f.async_sinks }

found_logger :
    (name : Bytes) (f : LogFactory) (loggers : List (Bytes × Logger)) {l : Logger}
    → All
        (λ (entry : Bytes × Logger). entry.1 ≡ record {
          level = f.level;
          name = entry.0;
          sinks = f.sinks;
          async_sinks = f.async_sinks;
        })
        loggers
    → find_logger name loggers ≡ some l
    → l ≡ record { level = f.level; name = name; sinks = f.sinks; async_sinks = f.async_sinks }
unfolding find_logger
found_logger name f [] h e = ground arith
found_logger name f ((key, logger) ∷ rest) {l} h e = elim (Bool-cases (equal key name)) [
  | inl same ↦
      subst
        (λ n.
          l ≡ record { level = f.level; name = n; sinks = f.sinks; async_sinks = f.async_sinks })
        ((equal_iff key name).0 same) (sym (some-injective (rw same at e)) ∙ h.0)
  | inr other ↦ found_logger name f rest h.1 (rw other at e)
]

get-IsSound : (name : Bytes) (i : Instance) → IsSound i → (get name i).1 ≡ handed_out name i
unfolding get get_from create new_logger
get-IsSound name none h = refl
get-IsSound name (some f) h = elim (Bool-cases (is_off f.level)) [
  | inl silent ↦ rw silent
  | inr on ↦ elim (Option-cases (find_logger name f.loggers)) [
    | inl fresh ↦ rw (on, fresh)
    | inr (l, found) ↦ rw (on, found) (found_logger name f f.loggers h found)
  ]
]

-- After any calls of the factory from the start of the program, the logger for a name has that
-- name and the level and sinks of the factory; it is the dummy logger where there is no factory
-- or its level is `Off`.
pub get_returns :
    (os : List Operation) (name : Bytes)
    → (get name (history os none)).1 ≡ handed_out name (history os none)
get_returns os name = get-IsSound name (history os none) (history-IsSound os none tt)

-- A name that is looked up again makes no sink flush, in every state of the factory.
pub get_calls-get :
    {D : Type 0} (name : Bytes) (i : Instance) → get_calls {D = D} name (get name i).0 ≡ []
unfolding get_calls get get_from create new_logger
get_calls-get name none = refl
get_calls-get name (some f) = elim (Bool-cases (is_off f.level)) [
  | inl silent ↦ rw (silent, silent) refl
  | inr on ↦ elim (Option-cases (find_logger name f.loggers)) [
    | inl fresh ↦
        let there =
          find_logger-append name (new_logger name f.level f.sinks f.async_sinks) f.loggers fresh in
        rw (on, fresh, on, there) refl
    | inr (l, found) ↦ rw (on, found, on, found) refl
  ]
]
