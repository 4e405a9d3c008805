-- ===== src/Result/DataChannel.antt =====
-- The sink that sends results over a WebRTC data channel (internal/result/datachannel.go). JSON and the channel are not
-- its code: what they answer is given for each call.
use Prim.Native.String.{String}
use media_ai.Prelude.{ℕ, ◌+◌, ◌*◌, ◌%◌, ◌^◌, Bool, ◌&&◌, Option, none, some, ltb, if◌then◌else◌}
use media_ai.Media.{RecognitionResult}
pub mod Account
mod Tests

pub record DcMessage : Type 0 where
  pub kind : String
  pub session_id : String
  pub text : String
  pub is_final : Bool
  pub ts_start : ℕ
  pub ts_end : ℕ
  pub confidence : ℕ
  pub language : String
  pub seq : ℕ

unfoldable pub new_message : RecognitionResult → DcMessage
new_message r = record {
  kind = if r.is_final then "transcript.final" else "transcript.partial";
  session_id = r.session_id;
  text = r.text;
  is_final = r.is_final;
  ts_start = r.ts_start;
  ts_end = r.ts_end;
  confidence = r.confidence;
  language = r.language;
  seq = r.seq;
}

pub data DcError : Type 0 where
  not_open buffer_full not_encoded not_sent : DcError

pub record DataChannelSink : Type 0 where
  pub sess_id : String
  pub max_buffer : ℕ
  pub sent : ℕ  -- uint64
  pub dropped : ℕ  -- uint64

unfoldable pub new_data_channel_sink : String → DataChannelSink
new_data_channel_sink id = record { sess_id = id; max_buffer = 16 * 1024; sent = 0; dropped = 0 }

abbrev pub with_max_buffer : ℕ → DataChannelSink → DataChannelSink
with_max_buffer n s = record s { max_buffer = n }

-- What the channel and JSON answer during one call: whether the channel is open, the bytes it holds, the encoding, and
-- whether it takes a text.
pub record Surroundings : Type 0 where
  pub is_open : Bool
  pub buffered_amount : ℕ
  pub marshal : DcMessage → Option String
  pub takes : String → Bool

abbrev pub add_sent : DataChannelSink → DataChannelSink
add_sent s = record s { sent = (s.sent + 1) % 2 ^ 64 }

abbrev pub add_dropped : DataChannelSink → DataChannelSink
add_dropped s = record s { dropped = (s.dropped + 1) % 2 ^ 64 }

abbrev pub is_congested : Surroundings → DataChannelSink → Bool
is_congested w s = ltb 0 s.max_buffer && ltb s.max_buffer w.buffered_amount

-- The next sink, and what the call returns: the text that the channel took, or the error.
pub data Sent : Type 0 where
  took : String → Sent
  failed : DcError → Sent

unfoldable pub send_text : Surroundings → DataChannelSink → Option String → DataChannelSink × Sent
send_text w s none = (s, failed not_encoded)
send_text w s (some b) = if w.takes b then (add_sent s, took b) else (s, failed not_sent)

unfoldable pub send : Surroundings → RecognitionResult → DataChannelSink → DataChannelSink × Sent
send w r s =
    if w.is_open
    then (if is_congested w s
        then (add_dropped s, failed buffer_full)
        else send_text w s (w.marshal (new_message r)))
    else (add_dropped s, failed not_open)
