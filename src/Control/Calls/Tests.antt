-- ===== src/Control/Calls/Tests.antt =====
-- A call at a gateway with three ports (internal/controlplane/handler.go).
use Prim.Native.String.{String}
use media_ai.Prelude.{ℕ, ◌≡◌, true, false, Option, some, [], ◌∷◌, ok}
use media_ai.Session.Manager.{new_manager}
use media_ai.Jitter.Buffer.{Config as JitterConfig}
use media_ai.Pipeline.Chain.{Decoder}
use media_ai.Pipeline.Pool.{new_worker_pool}
use media_ai.Ai.Stream.{default_config as default_ai_config}
use media_ai.Ai.Streams.{new_manager as new_stream_manager}
use media_ai.Result.Dispatcher.{new_dispatcher}
use media_ai.Coordinator.{default_config}
use media_ai.Control.Gateways.{new_registry}
use media_ai.Control.Calls.{Server, Response, Conditions, handle_answer}
use media_ai.Control.Calls.Answering.{ports_in_all}
use media_ai.Control.Calls.Answering.Outcomes.{Settled, handle_answer_settles}

abbrev open_plain : String → ℕ → ℕ → Option (Decoder ℕ)
open_plain codec rate channels = some (record { state = 0; sample_rate = 8000; channels = 1 })

abbrev empty_buffer : JitterConfig → ℕ
empty_buffer cfg = 0

abbrev same_case : String → String
same_case service = service

abbrev gateway : Server ℕ ℕ
gateway = record {
  gateway_id = "g";
  result_callback_url = "";
  sessions = new_manager (record {
    max_sessions = 10;
    idle_timeout = 30;
    packet_queue_size = 8;
    audio_queue_size = 8;
    result_queue_size = 8;
    gc_interval = 5;
  });
  ports = some (record { free = 40 ∷ 41 ∷ 42 ∷ []; total = 3 });
  coord = record {
    cfg = default_config;
    pool = new_worker_pool (record { workers = 2; queue_size = 8 });
    ai = new_stream_manager default_ai_config;
    dispatcher =
        new_dispatcher
          (record { workers = 2; queue_size = 8; drop_partial_when_full = true; send_timeout = 0 });
    jitter_bufs = [];
  };
  registry = new_registry 60;
  listeners = [];
}

-- The second listener cannot be bound.
abbrev conditions : Conditions
conditions = record {
  admitted = true;
  retry_after_ms = 0;
  now = 1;
  now_ms = 1;
  binds_core = true;
  binds_access = false;
  dials_core = true;
  dials_access = true;
  number = 0;
}

handle_answer_settles_example :
    (s : Server ℕ ℕ) × (response : Response) × (handle_answer open_plain empty_buffer same_case
        "call" "speech_to_text" conditions gateway
      ≡ ok (s, response))
    × (ports_in_all s ≡ ports_in_all gateway)
    × Settled "call" gateway s response
handle_answer_settles_example =
    handle_answer_settles open_plain empty_buffer same_case "call" "speech_to_text" conditions
      gateway
