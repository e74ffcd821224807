-- ===== src/Sandbox/Polyglot.antt =====
-- worker/sandbox/polyglot: the languages that a sandbox can run, and the registry that finds them.
pub mod Strategy
pub mod Strategies
pub mod Registry
mod Tests
