-- ===== src/Grading.antt =====
-- worker/grading: normalising, comparing and scoring the output of a submission.
pub mod Samples
pub mod Models
pub mod Normalizer
pub mod Floats
pub mod Verifier
pub mod Harness
pub mod Sanitize
mod Tests
