-- ===== src/Sinks.antt =====
-- src/sinks and include/logrin/Sinks: the sinks of the library.
pub mod Console
pub mod OpenTelemetry
mod Tests
