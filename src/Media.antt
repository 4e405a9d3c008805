-- ===== src/Media.antt =====
-- The values that pass between the components (internal/pipeline/media_packet.go, audio_job.go,
-- result.go). Go strings are `String`, bytes and unsigned words are numbers below 2 ^ w, a nil
-- pointer is `none`; `confidence` holds the bits of a float32, which the gateway only forwards.
use Prim.Native.String.{String}
use media_ai.Prelude.{ℕ, Bool, Option, List}

pub record MediaPacket : Type 0 where
  pub session_id : String
  pub source_type : String
  pub ssrc : ℕ  -- uint32
  pub payload_type : ℕ  -- uint8
  pub sequence : ℕ  -- uint16
  pub timestamp : ℕ  -- uint32
  pub marker : Bool
  pub payload : List ℕ
  pub received_at_ms : ℕ
  pub codec : String
  pub sample_rate : ℕ
  pub channels : ℕ

pub record AudioChunk : Type 0 where
  pub session_id : String
  pub stream_id : String
  pub pcm : List ℕ
  pub sample_rate : ℕ
  pub channels : ℕ
  pub rtp_timestamp : ℕ  -- uint32
  pub duration_ms : ℕ
  pub end_of_stream : Bool

pub record AudioJob : Type 0 where
  pub session_id : String
  pub packet : MediaPacket

pub record MediaResource : Type 0 where
  pub context_id : String
  pub termination_id : String

pub record MediaResources : Type 0 where
  pub t_core : Option MediaResource
  pub t_access : Option MediaResource

pub record RecognitionResult : Type 0 where
  pub session_id : String
  pub stream_id : String
  pub source_type : String
  pub text : String
  pub is_final : Bool
  pub ts_start : ℕ
  pub ts_end : ℕ
  pub confidence : ℕ
  pub language : String
  pub seq : ℕ  -- uint64
  pub media_resources : Option MediaResources
