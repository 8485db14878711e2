-- ===== src/Factory.antt =====
-- include/logrin/LogFactory.h and src/LogFactory.cc: the global factory of loggers.
pub mod Lookup
mod Tests
use logrin.Base.{
  ℕ, Bool, List, [], ◌∷◌, ◌++◌, Option, none, some, Bytes, codes, equal, ◌==◌, if◌then◌else◌,
}
use logrin.Logger.{Logger, new_logger, Call, flush}
use logrin.Record.{LogLevel, off, severity}

-- `n_loggers` lists the entries of the unordered map in the order of its iteration.
pub record LogFactory : Type 0 where
  pub level : LogLevel
  pub sinks : List ℕ
  pub async_sinks : List ℕ
  pub loggers : List (Bytes × Logger)

-- `instance`; the null pointer is `none`.
abbrev pub Instance : Type 0
Instance = Option LogFactory

-- `dummyLogger`
abbrev pub dummy_logger : Logger
dummy_logger = record { level = off; name = codes "a dummy logger"; sinks = []; async_sinks = [] }

-- `n_loggers.find(name)`
unfoldable pub find_logger : Bytes → List (Bytes × Logger) → Option Logger
unfolding equal
find_logger name [] = none
find_logger name ((key, logger) ∷ rest) =
    if equal key name then some logger else find_logger name rest

abbrev pub is_off : LogLevel → Bool
is_off level = severity level == severity off

-- The part of `Get` behind the search: a new logger, that is stored too.
unfoldable pub create : Bytes → LogFactory → LogFactory × Logger
unfolding new_logger
create name f =
    let logger = new_logger name f.level f.sinks f.async_sinks in
    (record f { loggers = f.loggers ++ (name, logger) ∷ [] }, logger)

-- `LogFactory::Get` on a factory that is there.
unfoldable pub get_from : Bytes → LogFactory → LogFactory × Logger
unfolding severity find_logger create
get_from name f =
    if is_off f.level
    then (f, dummy_logger)
    else elim (find_logger name f.loggers) [ some logger ↦ (f, logger) | none ↦ create name f ]

-- `LogFactory::Get`: the new value of `instance`, and the logger.
unfoldable pub get : Bytes → Instance → Instance × Logger
unfolding get_from
get name none = (none, dummy_logger)
get name (some f) = let (f', logger) = get_from name f in (some f', logger)

-- `LogFactory::Init`, both overloads.
unfoldable pub init : LogLevel → List ℕ → List ℕ → Instance → Instance
unfolding severity
init level sinks async_sinks (some f) = some f
init level sinks async_sinks none = some (record {
  level = level;
  sinks = if is_off level then [] else sinks;
  async_sinks = if is_off level then [] else async_sinks;
  loggers = [];
})

module _ {D : Type 0} where
  -- What `LogFactory::Get` calls on the sinks. It stores a copy of a pair that holds the new logger,
  -- and the pair is destroyed: the destructor of the logger in it flushes the sinks.
  unfoldable pub get_calls : Bytes → Instance → List (Call D)
  unfolding find_logger create flush
  get_calls name none = []
  get_calls name (some f) =
      if is_off f.level
      then []
      else elim (find_logger name f.loggers) [ some logger ↦ [] | none ↦ flush (create name f).1 ]

  -- The loop of `Shutdown`.
  unfoldable pub flush_all : List (Bytes × Logger) → List (Call D)
  unfolding flush
  flush_all [] = []
  flush_all ((name, logger) ∷ rest) = flush logger ++ flush_all rest

  -- `LogFactory::Shutdown`: the new value of `instance`, and the calls that are made: those of the
  -- loop, then those of the destructors of the loggers, which `delete` runs.
  unfoldable pub shutdown : Instance → Instance × List (Call D)
  unfolding flush_all
  shutdown none = (none, [])
  shutdown (some f) = (none, flush_all f.loggers ++ flush_all f.loggers)
