-- ===== src/Result.antt =====
-- The delivery of results (internal/result): the dispatcher with its queue, sinks and drop policy, and
-- the pool in front of a slow sink, and the sinks that post over HTTP and send over a WebRTC data channel.
pub mod Dispatcher
pub mod CallbackPool
pub mod HttpCallback
pub mod DataChannel
