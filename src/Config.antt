-- ===== src/Config.antt =====
-- The configuration as the components get it (internal/config/config.go). The reading of the YAML file is left out, and
-- so are the sections of the parts that are not modelled and the directory for dumps of PCM. A time.Duration counts
-- nanoseconds.
use Prim.Native.String.{String}
use media_ai.Prelude.{ℕ, ◌*◌, Bool, true}
use media_ai.Session.Manager.{ManagerConfig}
use media_ai.Jitter.Buffer.{Config as JitterConfig}
use media_ai.Pipeline.Pool.{WorkerPoolConfig}
use media_ai.Ai.Stream.{Config as AiConfig}
use media_ai.Result.Dispatcher.{Config as DispatcherConfig}
use media_ai.Coordinator.{Config as CoordinatorConfig}
mod Tests

pub record SessionSection : Type 0 where
  pub max_sessions : ℕ
  pub idle_timeout_sec : ℕ
  pub gc_interval_sec : ℕ
  pub per_session_packet_queue : ℕ
  pub per_session_audio_queue : ℕ
  pub per_session_result_queue : ℕ

pub record PipelineSection : Type 0 where
  pub audio_worker_count : ℕ
  pub audio_job_queue_size : ℕ
  pub jitter_buffer_ms : ℕ
  pub max_packet_late_ms : ℕ
  pub packet_time_ms : ℕ

pub record AudioSection : Type 0 where
  pub output_sample_rate : ℕ
  pub output_channels : ℕ
  pub chunk_ms : ℕ

pub record AiSection : Type 0 where
  pub grpc_target : String
  pub max_active_streams : ℕ
  pub per_stream_queue_size : ℕ
  pub send_timeout_ms : ℕ
  pub stream_timeout_sec : ℕ
  pub max_retry : ℕ
  pub retry_backoff_ms : ℕ
  pub keepalive_time_sec : ℕ
  pub keepalive_timeout_sec : ℕ

pub record ResultSection : Type 0 where
  pub dispatcher_workers : ℕ
  pub queue_size : ℕ
  pub drop_partial_when_full : Bool
  pub send_timeout_ms : ℕ

pub record CallbackSection : Type 0 where
  pub url : String
  pub timeout_ms : ℕ
  pub max_retry : ℕ
  pub retry_backoff_ms : ℕ
  pub read_idle_timeout_ms : ℕ
  pub ping_timeout_ms : ℕ

pub record GatewayConfig : Type 0 where
  pub session : SessionSection
  pub pipeline : PipelineSection
  pub audio : AudioSection
  pub ai : AiSection
  pub result : ResultSection
  pub callback : CallbackSection

abbrev second : ℕ
second = 1000000000

abbrev millisecond : ℕ
millisecond = 1000000

unfoldable pub default : GatewayConfig
default = record {
  session = record {
    max_sessions = 10000;
    idle_timeout_sec = 30;
    gc_interval_sec = 5;
    per_session_packet_queue = 128;
    per_session_audio_queue = 128;
    per_session_result_queue = 64;
  };
  pipeline = record {
    audio_worker_count = 16;
    audio_job_queue_size = 8192;
    jitter_buffer_ms = 60;
    max_packet_late_ms = 120;
    packet_time_ms = 20;
  };
  audio = record { output_sample_rate = 16000; output_channels = 1; chunk_ms = 500 };
  ai = record {
    grpc_target = "ai-router:50051";
    max_active_streams = 1000;
    per_stream_queue_size = 20;
    send_timeout_ms = 500;
    stream_timeout_sec = 300;
    max_retry = 3;
    retry_backoff_ms = 1000;
    keepalive_time_sec = 30;
    keepalive_timeout_sec = 10;
  };
  result = record {
    dispatcher_workers = 16;
    queue_size = 4096;
    drop_partial_when_full = true;
    send_timeout_ms = 2000;
  };
  callback = record {
    url = "";
    timeout_ms = 1000;
    max_retry = 3;
    retry_backoff_ms = 200;
    read_idle_timeout_ms = 30000;
    ping_timeout_ms = 15000;
  };
}

unfoldable pub to_session_manager_config : GatewayConfig → ManagerConfig
to_session_manager_config c = record {
  max_sessions = c.session.max_sessions;
  packet_queue_size = c.session.per_session_packet_queue;
  audio_queue_size = c.session.per_session_audio_queue;
  result_queue_size = c.session.per_session_result_queue;
  idle_timeout = c.session.idle_timeout_sec * second;
  gc_interval = c.session.gc_interval_sec * second;
}

unfoldable pub to_worker_pool_config : GatewayConfig → WorkerPoolConfig
to_worker_pool_config c = record {
  workers = c.pipeline.audio_worker_count;
  queue_size = c.pipeline.audio_job_queue_size;
}

-- The two fields that the source leaves out are 0, which turns the checks off.
unfoldable pub to_ai_config : GatewayConfig → AiConfig
to_ai_config c = record {
  max_active_streams = c.ai.max_active_streams;
  queue_size = c.ai.per_stream_queue_size;
  send_timeout = c.ai.send_timeout_ms * millisecond;
  stream_timeout = c.ai.stream_timeout_sec * second;
  max_retries = c.ai.max_retry;
  retry_backoff = c.ai.retry_backoff_ms * millisecond;
  first_chunk_timeout = 0;
  recv_idle_timeout = 0;
}

unfoldable pub to_dispatcher_config : GatewayConfig → DispatcherConfig
to_dispatcher_config c = record {
  workers = c.result.dispatcher_workers;
  queue_size = c.result.queue_size;
  drop_partial_when_full = c.result.drop_partial_when_full;
  send_timeout = c.result.send_timeout_ms * millisecond;
}

unfoldable pub to_coordinator_config : GatewayConfig → CoordinatorConfig
to_coordinator_config c = record {
  jitter_config = record {
    buffer_ms = c.pipeline.jitter_buffer_ms;
    max_late_ms = c.pipeline.max_packet_late_ms;
    packet_time_ms = c.pipeline.packet_time_ms;
  };
  out_sample_rate = c.audio.output_sample_rate;
  out_channels = c.audio.output_channels;
  chunk_ms = c.audio.chunk_ms;
  callback_timeout = c.callback.timeout_ms * millisecond;
  callback_retry = c.callback.max_retry;
}

unfoldable pub to_grpc_keepalive : GatewayConfig → ℕ × ℕ
to_grpc_keepalive c = (c.ai.keepalive_time_sec * second, c.ai.keepalive_timeout_sec * second)
