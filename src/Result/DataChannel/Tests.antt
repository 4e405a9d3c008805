-- ===== src/Result/DataChannel/Tests.antt =====
-- Sends over a data channel (internal/result/datachannel.go).
use media_ai.Prelude.{ℕ, ◌≡◌, refl, true, false, ◌∷◌, [], none, some}
use media_ai.Media.{RecognitionResult}
use media_ai.Result.DataChannel.{
  Surroundings, took, failed, not_open, buffer_full, new_message, new_data_channel_sink, send_text,
  send,
}
use media_ai.Result.DataChannel.Account.{run}

abbrev transcript : RecognitionResult
transcript = record {
  session_id = "s";
  stream_id = "t";
  source_type = "webrtc";
  text = "a";
  is_final = true;
  ts_start = 0;
  ts_end = 1;
  confidence = 0;
  language = "vi";
  seq = 1;
  media_resources = none;
}

abbrev holding : ℕ → Surroundings
holding n = record {
  is_open = true;
  buffered_amount = n;
  marshal = λ m. some m.kind;
  takes = λ b. true;
}

abbrev closed : Surroundings
closed = record (holding 0) { is_open = false }

run-outcomes :
    run
      ((closed, transcript) ∷ (holding 16385, transcript) ∷ (holding 16384, transcript) ∷ [])
      (new_data_channel_sink "s")
    ≡ (
      record { sess_id = "s"; max_buffer = 16384; sent = 1; dropped = 2 },
      failed not_open ∷ failed buffer_full ∷ took "transcript.final" ∷ [],
    )
unfolding run send send_text new_message new_data_channel_sink
run-outcomes = refl
