-- ===== src/Codec.antt =====
-- The codecs that the repository has code for (internal/codec): G.711, the payload formats of AMR and EVS, and the
-- choice among the decoders. Those that are bound to foreign libraries are parameters.
pub mod G711
pub mod Amr
pub mod Evs
pub mod Select
mod Tests
