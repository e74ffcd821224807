-- ===== src/Tasks.antt =====
-- worker/tasks and worker/daemon.py: what a worker does with a job.
pub mod Reports
pub mod Samples
pub mod Inputs
pub mod Execution
pub mod Daemon
pub mod Grading
mod Tests
