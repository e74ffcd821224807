-- ===== src/Streaming.antt =====
-- worker/streaming: numbering the chunks of an execution, publishing them and keeping them for
-- clients that connect later.
pub mod Samples
pub mod Json
pub mod Buffer
pub mod Multiplexer
pub mod Replay
pub mod Room
pub mod Socket
mod Tests
