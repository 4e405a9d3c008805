-- ===== src/Jitter.antt =====
-- The jitter buffer of a session (internal/jitter).
pub mod Sequence
pub mod Buffer
