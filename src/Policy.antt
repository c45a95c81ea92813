-- ===== src/Policy.antt =====
-- glc/policy: rules, conditions, and the engine that gives a verdict on a tool call.
-- The engine's lock makes `evaluate` and `reload` atomic.
pub mod Glob
pub mod Condition
pub mod Engine
pub mod Verdicts
pub mod Packaged
mod Tests
