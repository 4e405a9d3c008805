-- ===== src/Pipeline.antt =====
-- The audio pipeline (internal/pipeline): the chain of one session, and the pool of workers.
pub mod Chain
pub mod Pool
mod Tests
