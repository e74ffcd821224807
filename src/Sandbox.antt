-- ===== src/Sandbox.antt =====
-- worker/sandbox: running untrusted code.
pub mod Models
pub mod StreamConsumer
pub mod Polyglot
pub mod Process
pub mod Factory
pub mod Docker
pub mod MicroVm
pub mod Terminal
pub mod Pty
pub mod Live
mod Tests
