-- ===== src/Coordinator/Tests.antt =====
-- A session with a callback, over a decoder without state (internal/coordinator/coordinator.go).
use Prim.Native.String.{String}
use media_ai.Prelude.{ℕ, ◌≡◌, refl, true, false, Option, none, some, [], ◌∷◌, Result, ok, err}
use media_ai.Prelude.Assoc.{text_key, lookup}
use media_ai.Session.{Session, active}
use media_ai.Jitter.Buffer.{Config as JitterConfig}
use media_ai.Pipeline.Chain.{Decoder, new_chain}
use media_ai.Pipeline.Pool.{WorkerPool, session_exists}
use media_ai.Ai.Stream.{default_config as default_ai_config}
use media_ai.Ai.Streams.{new_manager}
use media_ai.Result.Dispatcher.{new_dispatcher, sinks_of}
use media_ai.Result.HttpCallback.{HttpCallbackSink}
use media_ai.Coordinator.{Coordinator, StartError, pool_error, default_config, pool_config, start}
use media_ai.Coordinator.Start.{Outcome, start_rolls_back, start-second}

abbrev open_plain : String → ℕ → ℕ → Option (Decoder ℕ)
open_plain codec rate channels = some (record { state = 0; sample_rate = 8000; channels = 1 })

abbrev sess : Session
sess = record {
  id = "s";
  source_type = "rtp";
  ssrc = 1;
  payload_type = 0;
  codec = "PCMU";
  sample_rate = 8000;
  channels = 1;
  language = "vi";
  task = "transcribe";
  callback_url = "http://localhost/callback";
  peer_id = "";
  track_id = "";
  remote_addr = "";
  media_resources = none;
  packet_queue = record { cap = 8; items = [] };
  audio_queue = record { cap = 8; items = [] };
  result_queue = record { cap = 8; items = [] };
  gateway_id = "";
  created_at = 0;
  cancelled = false;
  last_packet_at = 0;
  status = active;
}

abbrev pool : WorkerPool ℕ
pool = record {
  cfg = record { workers = 2; queue_size = 8 };
  queue = record { cap = 8; items = [] };
  pipelines = [];
  heap = [];
  counts = record { submitted = 0; dropped = 0; processed = 0; decode_errors = 0 };
  held = [];
  skipped = 0;
  handled = [];
}

abbrev idle_parts : Coordinator ℕ ℕ
idle_parts = record {
  cfg = default_config;
  pool = pool;
  ai = new_manager default_ai_config;
  dispatcher =
      new_dispatcher
        (record { workers = 2; queue_size = 8; drop_partial_when_full = true; send_timeout = 0 });
  jitter_bufs = [];
}

-- The session is running.
abbrev busy_parts : Coordinator ℕ ℕ
busy_parts = record idle_parts { pool = record pool { pipelines = ("s", 0) ∷ [] } }

abbrev empty_buffer : JitterConfig → ℕ
empty_buffer cfg = 0

start_rolls_back_example :
    (c : Coordinator ℕ ℕ) × (answer : Result StartError (Option HttpCallbackSink)) × (start
        open_plain empty_buffer false 5 1 sess idle_parts
      ≡ ok (c, sess.audio_queue, answer))
    × Outcome open_plain empty_buffer 1 sess idle_parts c answer
unfolding lookup
start_rolls_back_example = start_rolls_back open_plain empty_buffer false 5 1 sess idle_parts refl

start-second_example :
    (c : Coordinator ℕ ℕ) × (start open_plain empty_buffer true 5 1 sess busy_parts
      ≡ ok (c, sess.audio_queue, err (pool_error session_exists)))
    × (c.pool ≡ busy_parts.pool)
    × (sinks_of "s" c.dispatcher ≡ [])
unfolding lookup new_chain pool_config
start-second_example = start-second open_plain empty_buffer true 5 1 0 sess busy_parts _ refl refl
