-- ===== src/Result/CallbackPool/Tests.antt =====
-- A pool with room for one result (internal/result/callback_pool.go).
use media_ai.Prelude.{true, false, none, List, [], ◌∷◌}
use media_ai.Media.{RecognitionResult}
use media_ai.Result.CallbackPool.{
  PoolConfig, Event, send_one, take, answer, start, run, IsAccounted, run-IsAccounted,
}

abbrev one_slot : PoolConfig
one_slot = record { workers = 1; queue_size = 1; send_timeout = 0 }

abbrev text : RecognitionResult
text = record {
  session_id = "a";
  stream_id = "s";
  source_type = "raw_rtp";
  text = "alo";
  is_final = true;
  ts_start = 0;
  ts_end = 10;
  confidence = 0;
  language = "vi";
  seq = 1;
  media_resources = none;
}

abbrev sends_and_work : List Event
sends_and_work = send_one text ∷ send_one text ∷ take ∷ send_one text ∷ answer 0 false ∷ take ∷ []

run-IsAccounted_example : IsAccounted 3 (run sends_and_work (start one_slot))
run-IsAccounted_example = run-IsAccounted one_slot sends_and_work
