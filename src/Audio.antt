-- ===== src/Audio.antt =====
-- The audio path (internal/audio): sample conversion, resampling to mono, and chunking.
pub mod Pcm
pub mod Resampler
pub mod Chunker
