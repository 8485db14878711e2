-- ===== src/Pattern.antt =====
-- The pattern formatter, include/logrin/Formatter/Pattern and src/formatters.
pub mod Error
pub mod Segment
pub mod Directive
pub mod Parser
pub mod Color
pub mod Runtime
pub mod Content
pub mod Formatter
mod Tests
