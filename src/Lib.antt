-- ===== src/Lib.antt =====
-- The core of the media AI gateway, a Go program that receives telephone media as RTP, turns it into
-- fixed chunks of 16 kHz mono PCM for a speech recogniser, and keeps the calls as sessions.
--
-- A packet that arrives (internal/ingress) is routed to its session by SSRC or address, passes the
-- jitter buffer of the session, is decoded, resampled to mono and cut into chunks.
--
-- Files:
-- - Session, Session/Manager: internal/session. `Session` has the fields of the Go struct, the
--   status machine is `touch`, `set_status` and `is_idle`. Every method of the manager that changes
--   state holds one lock, so it is a function from `Manager` to `Manager`; the five maps are association
--   lists. `Lifecycle` holds the invariant, `Index` the lemmas on one index, `Routing`, `Closing`
--   and `Collect` what create, close and gc do, `History` any sequence of calls.
-- - Jitter/Sequence, Jitter/Buffer: internal/jitter. `push`, `flush` and their parts are functions on the
--   record `Buffer`; `release_loop` is the loop of `flush`, on fuel 2 * len(h) + 2, since each packet
--   of the heap is popped after at most one declared loss. container/heap and float64 are the
--   parameters `HeapOps` and `FloatOps`. `Delivery` has the events of a buffer's life: packets that
--   arrive, ticks of `Run`, and reads from the output channel, in any order.
-- - Audio/Pcm, Audio/Resampler, Audio/Chunker: internal/audio. Samples are integers, bytes numbers
--   below 256. A division by zero or an index out of range is the fault `panics`. The loop of the
--   resampler has fuel n * outRate + 1, that of the chunker's `Push` len(buf) + len(pcm) + 1.
-- - Pipeline/Chain, Pipeline/Pool: internal/pipeline. `process` and `flush` are the methods of a session's
--   chain over a decoder that is a parameter; `Stream` has lists of packets. `Pool` has one function
--   for each critical section of the workers, `History` runs any interleaving of them.
-- - Codec: internal/codec. G.711 expansion from the tables of the code, the parser of AMR payloads, and
--   the payload formats of EVS. What a foreign library decodes is not modelled.
-- - Codec/Select: internal/codec/decoder.go. `new_decoder` is `New`, with the constructors that it
--   calls, over the foreign libraries.
-- - Control: internal/controlplane. The pool of RTP ports, the admission checks, the registry of
--   gateways and the selection among them. A comparison of a quotient of two counts with a
--   constant is the comparison of products, so no float64 is needed.
-- - Control/Calls: internal/controlplane/handler.go. A server's state has the sessions, the ports, the coordinator, the
--   registry and the listeners; `handle_answer` is the whole handler of ANSWER up to the response.
-- - Ingress/Handle: internal/ingress/rawrtp/packet_handler.go. `handle` takes a datagram, the counters and
--   the session manager to the next ones; the RTP header parser is a parameter.
-- - Result/Dispatcher: internal/result/dispatcher.go. `push` is `Push` up to its second select and
--   `resume` that select; `Conservation` has the system of the dispatcher, the blocked pushes and the
--   workers, and its steps.
-- - Result/CallbackPool: internal/result/callback_pool.go. `send` puts a result into its queue, `take_result` and
--   `answer_one` are a worker before and after the call of the sink.
-- - Result/DataChannel: internal/result/datachannel.go. `send` has one case for each way the call ends.
-- - Result/HttpCallback: internal/result/http_callback.go. `attempts` is the loop of `Send`, `World` what JSON, HTTP
--   and the context answer.
-- - Candidates: the listing and the loop of selection that both registries have.
-- - Ai/Workers: internal/ai/worker_info.go, worker_registry.go, routing_dialer.go. Ai/Stream: grpc_client.go, with one
--   step for each round of the loops of `runSend` and `runRecv`; `run_with_reconnect` has fuel MaxRetries + 1.
--   Ai/Streams: stream_manager.go, with the streams in a heap, since a clean-up compares pointers.
-- - Coordinator: internal/coordinator/coordinator.go. `start` composes the pool, the manager of the streams and
--   the dispatcher, and undoes what it did when one of them fails.
-- - Config: internal/config/config.go, the sections of the parts above and their conversion.
-- - Media: the values that pass between the parts (internal/pipeline/media_packet.go, audio_job.go,
--   result.go). Channel: Go's buffered channels. Prelude: numbers, lists, maps, results.
--
-- Integers: a Go int is a natural number where the code never makes it negative and an integer of
-- `Prelude/Int` elsewhere; uint16, uint32 and uint64 wrap as written. Times are nanoseconds.
--
-- Not modelled: HTTP and gRPC transport, WebRTC, the reading of the configuration, monitoring, the log lines, the RMS
-- energy (float64), and the goroutines' scheduling beyond the order of the locked operations.
pub mod Prelude
pub mod Channel
pub mod Media
pub mod Session
pub mod Jitter
pub mod Audio
pub mod Codec
pub mod Control
pub mod Ai
pub mod Candidates
pub mod Config
pub mod Coordinator
pub mod Ingress
pub mod Pipeline
pub mod Result
