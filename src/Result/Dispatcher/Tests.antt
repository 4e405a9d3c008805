-- ===== src/Result/Dispatcher/Tests.antt =====
-- A dispatcher with room for one result (internal/result/dispatcher.go).
use media_ai.Prelude.{ℕ, Bool, true, false, none, List, [], ◌∷◌}
use media_ai.Media.{RecognitionResult}
use media_ai.Result.Dispatcher.{Sink, Config, succeeds}
use media_ai.Result.Dispatcher.Conservation.{
  Event, register, submit, wake, work, run, start, IsKept,
}
use media_ai.Result.Dispatcher.Conservation.History.{run-IsKept}

abbrev small : Config
small = record { workers = 1; queue_size = 1; drop_partial_when_full = true; send_timeout = 2 }

abbrev says : Bool → RecognitionResult
says is_final = record {
  session_id = "a";
  stream_id = "s";
  source_type = "raw_rtp";
  text = "alo";
  is_final = is_final;
  ts_start = 0;
  ts_end = 10;
  confidence = 0;
  language = "vi";
  seq = 1;
  media_resources = none;
}

abbrev http : ℕ → Sink
http number = record { kind = "http_callback"; number = number }

-- The session has two sinks. A final result fills the queue, a partial is dropped, a second final waits, and a worker makes room.
abbrev events : List Event
events =
    register "a" (record { kind = "datachannel"; number = 2 })
    ∷ register "a" (http 1)
    ∷ submit false true (says true)
    ∷ submit false true (says false)
    ∷ submit false true (says true)
    ∷ work (λ s. succeeds)
    ∷ wake 0 false true
    ∷ []

run-IsKept_example : IsKept (says true ∷ says false ∷ says true ∷ []) (run events (start small))
run-IsKept_example = run-IsKept small events
