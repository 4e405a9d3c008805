-- ===== src/Ai.antt =====
-- The gateway's side of the recogniser (internal/ai): workers, streams and their manager.
pub mod Workers
pub mod Stream
pub mod Streams
mod Tests
