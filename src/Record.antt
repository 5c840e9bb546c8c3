-- ===== src/Record.antt =====
-- internal/record: recording the traffic of an account without its values.
pub mod Patterns
pub mod Redact
pub mod Shape
pub mod Describe
pub mod Summary
pub mod Proxy
