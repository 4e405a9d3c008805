-- ===== src/Coordinator.antt =====
-- The wiring of one session's parts (internal/coordinator/coordinator.go): the pool of workers, the manager of the AI
-- streams, the dispatcher, and the jitter buffers. `D` is the state of the decoders and `J` a jitter buffer.
use Prim.Native.String.{String}
use media_ai.Prelude.{
  ℕ, ◌+◌, ◌%◌, ◌^◌, Bool, true, false, ◌&&◌, Option, none, some, List, [], ◌∷◌, if◌then◌else◌,
  Result, ok, err, ◌>>=◌, Fault,
}
use media_ai.Prelude.Assoc.{text_key, ◌==◌, insert, lookup, delete}
use media_ai.Media.{RecognitionResult, AudioChunk}
use media_ai.Channel.{Chan}
use media_ai.Session.{Session}
use media_ai.Jitter.Buffer.{
  Config as JitterConfig, Stats as JitterStats, default_config as default_jitter_config,
}
use media_ai.Pipeline.Chain.{Decoder, SessionConfig}
use media_ai.Pipeline.Pool.{WorkerPool, RegisterError, register_session, unregister_session}
use media_ai.Ai.Streams.{Manager, OpenError, open_stream}
use media_ai.Result.Dispatcher.{
  Dispatcher, Sink, register_sink, unregister_sinks, replace_http_sink,
}
use media_ai.Result.HttpCallback.{HttpCallbackSink, new_http_callback_sink}
pub mod Start
mod Tests

pub record Config : Type 0 where
  pub jitter_config : JitterConfig
  pub out_sample_rate : ℕ
  pub out_channels : ℕ
  pub chunk_ms : ℕ
  pub callback_timeout : ℕ
  pub callback_retry : ℕ

unfoldable pub default_config : Config
default_config = record {
  jitter_config = default_jitter_config;
  out_sample_rate = 16000;
  out_channels = 1;
  chunk_ms = 500;
  callback_timeout = 5000000000;
  callback_retry = 3;
}

pub record Coordinator (D J : Type 0) : Type 0 where
  pub cfg : Config
  pub pool : WorkerPool D
  pub ai : Manager
  pub dispatcher : Dispatcher
  pub jitter_bufs : List (String × J)

pub data StartError : Type 0 where
  pool_error : RegisterError → StartError
  ai_error : OpenError → StartError

abbrev pub stream_id_of : Session → String
stream_id_of sess = if sess.track_id == "" then sess.id else sess.track_id

unfoldable pub pool_config : Config → Session → SessionConfig
pool_config cfg sess = record {
  codec = sess.codec;
  sample_rate = sess.sample_rate;
  channels = sess.channels;
  out_sample_rate = cfg.out_sample_rate;
  out_channels = cfg.out_channels;
  chunk_ms = cfg.chunk_ms;
  session_id = sess.id;
  stream_id = stream_id_of sess;
}

-- The callback sink as the dispatcher sees it; `number` tells it from others.
abbrev pub callback_sink : ℕ → Sink
callback_sink number = record { kind = "http_callback"; number = number }

-- Step 1 of `Start`.
unfoldable pub add_callback : ℕ → Session → Dispatcher → Dispatcher
add_callback number sess d =
    if sess.callback_url == "" then d else register_sink sess.id (callback_sink number) d

unfoldable pub sink_of : Config → Session → Option HttpCallbackSink
sink_of cfg sess =
    if sess.callback_url == ""
    then none
    else some (new_http_callback_sink sess.callback_url cfg.callback_retry)

-- A result with the fields filled in that the recogniser left empty.
unfoldable pub complete_result : Session → RecognitionResult → RecognitionResult
complete_result sess r = record r {
  session_id = if r.session_id == "" then sess.id else r.session_id;
  stream_id = if r.stream_id == "" then stream_id_of sess else r.stream_id;
  source_type = if r.source_type == "" then sess.source_type else r.source_type;
  media_resources = elim r.media_resources [ none ↦ sess.media_resources | some m ↦ some m ];
}

abbrev pub u64 : ℕ → ℕ
u64 n = n % 2 ^ 64

unfoldable pub add_jitter : JitterStats → JitterStats → JitterStats
add_jitter a b = record a {
  received = u64 (a.received + b.received);
  released = u64 (a.released + b.released);
  dropped = u64 (a.dropped + b.dropped);
  lost = u64 (a.lost + b.lost);
}

-- The sums of the four counters; the jitter estimate of the result means nothing.
pub sum_jitter : {J : Type 0} → (J → JitterStats) → List (String × J) → JitterStats
sum_jitter stats_of [] = record { received = 0; released = 0; dropped = 0; lost = 0; jitter = 0 }
sum_jitter stats_of ((id, buf) ∷ rest) = add_jitter (stats_of buf) (sum_jitter stats_of rest)

module _ {D J : Type 0} where
  unfoldable pub new_coordinator : Config → WorkerPool D → Manager → Dispatcher → Coordinator D J
  new_coordinator cfg pool ai dispatcher = record {
    cfg = cfg;
    pool = pool;
    ai = ai;
    dispatcher = dispatcher;
    jitter_bufs = [];
  }

  unfoldable pub aggregate_jitter_stats : (J → JitterStats) → Coordinator D J → JitterStats
  unfolding sum_jitter
  aggregate_jitter_stats stats_of c = sum_jitter stats_of c.jitter_bufs

  unfoldable pub update_callback_sink :
      ℕ → String → String → Coordinator D J → Coordinator D J × Option HttpCallbackSink
  update_callback_sink number id new_url c = if new_url == "" then (c, none) else (
    record c { dispatcher = replace_http_sink id (some (callback_sink number)) c.dispatcher },
    some (new_http_callback_sink new_url c.cfg.callback_retry),
  )

  -- What is done when the session's context is over.
  unfoldable pub clean_up :
      Session → Coordinator D J → Result Fault (Coordinator D J × Chan AudioChunk)
  clean_up sess c = unregister_session sess.id sess.audio_queue c.pool >>= λ r. ok (
    record c {
      pool = r.0;
      dispatcher = unregister_sinks sess.id c.dispatcher;
      jitter_bufs = delete sess.id c.jitter_bufs;
    },
    r.1,
  )

  -- `new_jitter` makes a jitter buffer, `dials` says whether the recogniser answers. The session's audio queue may
  -- get a last chunk when the pool is rolled back.
  unfoldable pub start :
      (String → ℕ → ℕ → Option (Decoder D))
      → (JitterConfig → J)
      → Bool
      → ℕ
      → ℕ
      → Session
      → Coordinator D J
      → Result Fault
          (Coordinator D J × Chan AudioChunk × Result StartError (Option HttpCallbackSink))
  start open_decoder new_jitter dials now_ms number sess c =
      let dispatcher = add_callback number sess c.dispatcher in
      elim (register_session open_decoder (pool_config c.cfg sess) c.pool) [
        | err e ↦ ok (
          record c { dispatcher = unregister_sinks sess.id dispatcher },
          sess.audio_queue,
          err (pool_error e),
        )
        | ok pool ↦ elim (open_stream dials now_ms sess.id c.ai) [
          | err e ↦ unregister_session sess.id sess.audio_queue pool >>= λ r. ok (
            record c { pool = r.0; dispatcher = unregister_sinks sess.id dispatcher },
            r.1,
            err (ai_error e),
          )
          | ok opened ↦ ok (
            record c {
              pool = pool;
              ai = opened.0;
              dispatcher = dispatcher;
              jitter_bufs = insert sess.id (new_jitter c.cfg.jitter_config) c.jitter_bufs;
            },
            sess.audio_queue,
            ok (sink_of c.cfg sess),
          )
        ]
      ]
