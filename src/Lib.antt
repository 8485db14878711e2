-- ===== src/Lib.antt =====
-- Logrin, a structured logging library: its core as definitions, with the theorems on them.
--
-- The program. A `Logger` (include/logrin/Logger.h, src/Logger.cc) makes a `LogRecord`
-- (include/logrin/LogRecord.h, src/LogRecord.cc), which its `LogEntry` passes to sinks when it is
-- destroyed. `LogFactory` (include/logrin/LogFactory.h, src/LogFactory.cc) keeps the loggers by
-- their names. A sink formats a record with a formatter: `Pattern`
-- (include/logrin/Formatter/Pattern.h, src/formatters/Pattern.cc) parses a pattern with `Parse`
-- (src/formatters/pattern/Parser.cc), whose directives `Directive::Parse`
-- (src/formatters/pattern/Segment.cc) reads, and renders its segments. `Batcher`
-- (include/logrin/detail/Batcher.h) is the background thread that a sink may pass items to.
--
-- The files.
--   Base: names of the libraries, lists and bytes on native numbers, machine words.
--   Record: include/logrin/LogRecord.h. Levels are compared by `severity`; `with_field` is `With`.
--   Pattern/Error: the result type; every message of the parser is a constructor, with its text.
--   Pattern/Segment, Pattern/Directive: kinds, capabilities and `Directive::Parse` (`parse`).
--   Pattern/Parser: `Parse`. `State` (in Variables) holds the variables of its loop, Reading takes
--     what stands behind a `%`, `step` is one round, `run` the loop and `finish` what follows;
--     Keywords has `tryMatchKeyword`. Built says how each segment comes about and Invariant that
--     the loop does this; Loop, Contents, Ranges and Nesting prove what follows. Items writes
--     patterns from lists of items; Names, Braces, Steps, Runs and RoundTrip follow the parser over
--     what is written.
--   Pattern/Color: `parseColorSpec`, the CSS colours and the palettes.
--   Pattern/Runtime: what the formatters call of the standard library and of Violet, as a record
--     of functions that the definitions take. `none` stands for an exception or a panic.
--   Pattern/Content: `ParsedPattern::Format*`.
--   Pattern/Formatter: `Pattern::Format`, and `Pattern::Parse` in its child Parsing;
--     Pattern/Formatter/Azalia: `Pattern::Azalia`. Texts, Bodies, Markers, Shown and Rendering say
--     what is printed for a written pattern, Agreement compares the two switches over the kinds of
--     segments, and the two methods for `%X`.
--   Json: `LogRecord::AsJson` and the formatter `Json` (include/logrin/Formatter/Json.h,
--     src/formatters/Json.cc), on a record of what the library nlohmann offers, with laws.
--   Batcher: the threads as steps. A step goes from taking the mutex to releasing it, a `Signal`
--     wakes one waiting thread of any choice, and wake-ups without a signal are a parameter.
--     Invariant holds in all states; Refinement has the queue that the threads implement; Progress
--     and Rest are about runs without calls of `Flush`, and LostWakeup about one with such a call.
--   Sinks/Console: include/logrin/Sinks/Console.h, src/sinks/Console.cc; what the sink does is a
--     list of calls on descriptors. Switches has the calls on one console, from its constructor on.
--     Pipeline runs the calls of one log call on it, and Life takes it as a `Sink` of a logger.
--     Threads has the moves of threads that share a sink: a program counter for each, the mutex and
--     the descriptor in common, and a move wherever another thread may run between. Threads/Atomic
--     has the same calls made whole, one after the other.
--   Sinks/OpenTelemetry: include/logrin/Sinks/OpenTelemetry.h, src/sinks/OpenTelemetry.cc; a record
--     of the SDK is the list of the calls that fill it. Its `Enqueue` and `Flush` are `Push` and
--     `Flush` of the batcher, and its consumer is `consume`. A record in the queue has only a view
--     of its message, so an item of the queue (`Queued`) also says what the view shows when the
--     consumer reads it. Where the consumer fails an assertion the program ends: `Exported` has what
--     was handed over until then, and the later steps of the batcher are none of the program's.
--     Pipeline goes from the log calls of a program to what is exported.
--   Logger, Factory: a sink is a number and its methods are calls in a list; the global instance
--     is passed from call to call. Logger/Attributes follows the calls of `With` on an entry to the
--     sinks, Logger/Programs has the calls of a list of log calls, and Logger/Sinks the interfaces
--     of include/logrin/Sink.h and include/logrin/AsyncSink.h.
--
-- Numbers. Offsets wrap at 32 bits in the parser and at 16 bits in segments, depths at 8 bits, a
-- width and a colour component at 16 bits, all written out. A pattern of 2^32 bytes or more is
-- modelled, but the theorem on the parser's loop supposes a shorter one.
--
-- Fuel. The loop of `Parse` has the length of the input as fuel, which suffices since a round
-- moves the position forward; so has the search for a closing brace. `formatPattern` calls
-- itself for markers, and `format` allows two levels: a marker has no `%A`, so no third is
-- needed.
--
-- Not modelled: the Windows branch of the console sink, changes of its formatter while it is in
-- use, several threads at the factory, macros and build files, and the libraries that the program
-- calls. `strftime`, number formatting, terminal sequences, `Trim`, file descriptors, the
-- OpenTelemetry SDK and the JSON library are parameters. Theorems suppose of them that `Trim`
-- leaves a text alone that neither begins nor ends with a byte that it drops, that a descriptor
-- made from a handle is valid and gives that handle, that a closed one is not valid, and what
-- nlohmann documents of its objects. One theorem on the OpenTelemetry sink supposes that the memory
-- of each message lives, unchanged, until the worker reads it. The bytes of a `LogRecord` are
-- otherwise what its views show when it is passed to a sink, which the synchronous sinks read then.
-- The constructors of `AttributeValue` that convert a type into one of its alternatives are not
-- modelled either.

pub mod Base
pub mod Record
pub mod Pattern
pub mod Batcher
pub mod Logger
pub mod Factory
pub mod Sinks
pub mod Json
