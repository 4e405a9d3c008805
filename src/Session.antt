-- ===== src/Session.antt =====
-- A media session (internal/session/session.go): its configuration, the channels that it owns and
-- the state machine of its status. Times are nanoseconds since a fixed start; `cancelled` is the
-- state of its context.
use Prim.Native.String.{String}
use media_ai.Prelude.{ℕ, ◌-◌, Bool, true, false, Option, ltb, if◌then◌else◌}
use media_ai.Media.{MediaPacket, AudioChunk, RecognitionResult, MediaResources}
use media_ai.Channel.{Chan}
pub mod Manager

pub data Status : Type 0 where
  created active idle closing closed : Status

pub record Session : Type 0 where
  pub id : String
  pub source_type : String
  pub ssrc : ℕ  -- uint32
  pub payload_type : ℕ  -- uint8
  pub codec : String
  pub sample_rate : ℕ
  pub channels : ℕ
  pub language : String
  pub task : String
  pub callback_url : String
  pub peer_id : String
  pub track_id : String
  pub remote_addr : String
  pub media_resources : Option MediaResources
  pub packet_queue : Chan MediaPacket
  pub audio_queue : Chan AudioChunk
  pub result_queue : Chan RecognitionResult
  pub gateway_id : String
  pub created_at : ℕ
  pub cancelled : Bool
  pub last_packet_at : ℕ
  pub status : Status

abbrev wakes : Status → Bool
wakes created = true
wakes idle = true
wakes _ = false

-- A packet arrived at `now`.
unfoldable pub touch : ℕ → Session → Session
touch now s = record s {
  last_packet_at = now;
  status = if wakes s.status then active else s.status;
}

unfoldable pub set_status : Status → Session → Session
set_status st s = record s { status = st }

abbrev is_ending : Status → Bool
is_ending closing = true
is_ending closed = true
is_ending _ = false

-- `now.Sub(last) > timeout`: a negative difference exceeds no timeout, and neither does 0.
unfoldable pub is_idle : ℕ → ℕ → Session → Bool
is_idle now timeout s = if is_ending s.status then false else ltb timeout (now - s.last_packet_at)
