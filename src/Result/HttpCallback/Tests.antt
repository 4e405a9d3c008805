-- ===== src/Result/HttpCallback/Tests.antt =====
-- A sink with two retries (internal/result/http_callback.go).
use media_ai.Prelude.{
  ℕ, zero, suc, ◌≤◌, ◌<◌, ◌≡◌, refl, true, false, Option, none, some, arith, inr,
}
use media_ai.Media.{RecognitionResult}
use media_ai.Result.HttpCallback.{
  CallbackPayload, HttpCallbackSink, SendError, reported, request_failed, World, Reply,
  network_error, status, is_cut_short, new_callback_payload, send,
}
use media_ai.Result.HttpCallback.Retry.{GoesOut, IsTransient, IsCounted}
use media_ai.Result.HttpCallback.Retry.Answers.{IsGivenUp, send_gets_through, send_gives_up}

abbrev transcript : RecognitionResult
transcript = record {
  session_id = "s";
  stream_id = "t";
  source_type = "rtp";
  text = "a";
  is_final = true;
  ts_start = 0;
  ts_end = 1;
  confidence = 0;
  language = "vi";
  seq = 1;
  media_resources = none;
}

abbrev sink : HttpCallbackSink
sink = record {
  url = "http://localhost/callback";
  max_retry = 2;
  retry_backoff = 200000000;
  dead_letter = some (λ r. some (reported 9));
  retries = 0;
}

abbrev marshal : CallbackPayload → Option CallbackPayload
marshal payload = some payload

-- The server answers from the third request on.
abbrev late_reply : ℕ → Reply
late_reply zero = network_error
late_reply (suc zero) = status 503
late_reply (suc (suc n)) = status 200

abbrev late : CallbackPayload → World
late body = record { builds = λ n. true; reply = late_reply; over = λ n. false }

abbrev down : CallbackPayload → World
down body = record { builds = λ n. true; reply = λ n. network_error; over = λ n. false }

abbrev payload : CallbackPayload
payload = record {
  event_type = "asr.transcript.final";
  context_id = "";
  termination_id = "";
  recognition = transcript;
}

late-GoesOut : (i : ℕ) → GoesOut (late payload) i
unfolding is_cut_short
late-GoesOut zero = record { in_time = refl; built = refl }
late-GoesOut (suc i) = record { in_time = refl; built = refl }

late-IsTransient : (i : ℕ) → i < 2 → IsTransient (late_reply i)
late-IsTransient zero h = tt
late-IsTransient (suc zero) h = inr (inr (omega arith))
late-IsTransient (suc (suc i)) h = absurd (omega arith)

down-GoesOut : (i : ℕ) → GoesOut (down payload) i
unfolding is_cut_short
down-GoesOut zero = record { in_time = refl; built = refl }
down-GoesOut (suc i) = record { in_time = refl; built = refl }

down-IsTransient : (i : ℕ) → i ≤ 2 → IsTransient ((down payload).reply i)
down-IsTransient i h = tt

send_gets_through_example :
    (sink' : HttpCallbackSink) × (send marshal late transcript sink ≡ (sink', 3, none))
    × IsCounted 2 sink sink'
unfolding new_callback_payload
send_gets_through_example =
    send_gets_through marshal late transcript sink payload refl 2 200 (omega arith)
      (λ i le. late-GoesOut i) late-IsTransient refl (omega arith) (omega arith)

send_gives_up_example :
    (sink' : HttpCallbackSink) × (answer : Option SendError) × (send marshal down transcript sink
      ≡ (sink', 3, answer))
    × IsGivenUp transcript sink request_failed answer
    × IsCounted 2 sink sink'
unfolding new_callback_payload
send_gives_up_example =
    send_gives_up marshal down transcript sink payload refl (λ i le. down-GoesOut i)
      down-IsTransient
