-- ===== src/Result/HttpCallback.antt =====
-- The sink that posts results to a URL (internal/result/http_callback.go). JSON, the building of a request, the HTTP
-- client and the context are not its code: what they answer is given for each attempt.
use Prim.Native.String.{String}
use media_ai.Prelude.{
  ℕ, zero, suc, ◌+◌, ◌%◌, ◌^◌, Bool, true, false, ◌&&◌, not, Option, none, some, ltb, leb,
  if◌then◌else◌,
}
use media_ai.Prelude.Assoc.{text_key, ◌==◌}
use media_ai.Media.{RecognitionResult, MediaResource, MediaResources}
pub mod Retry
mod Tests

pub record CallbackPayload : Type 0 where
  pub event_type : String
  pub context_id : String
  pub termination_id : String
  pub recognition : RecognitionResult

abbrev pub event_type_of : RecognitionResult → String
event_type_of r = if r.is_final then "asr.transcript.final" else "asr.transcript.partial"

-- The resource whose ids are flattened: the access side where it has a context, else the core side.
pub resource_of : MediaResources → Option MediaResource
resource_of m = elim m.t_access [
  | none ↦ m.t_core
  | some a ↦ if a.context_id == "" then m.t_core else some a
]

unfoldable pub new_callback_payload : RecognitionResult → CallbackPayload
unfolding resource_of
new_callback_payload r =
    let bare : CallbackPayload = record {
      event_type = event_type_of r;
      context_id = "";
      termination_id = "";
      recognition = r;
    } in
    elim r.media_resources [
      | none ↦ bare
      | some m ↦ elim (resource_of m) [
        | none ↦ bare
        | some a ↦ record bare { context_id = a.context_id; termination_id = a.termination_id }
      ]
    ]

-- `reported n` is an error of another sink.
pub data SendError : Type 0 where
  marshal_failed context_over build_failed request_failed : SendError
  status_error reported : ℕ → SendError

pub data Reply : Type 0 where
  network_error : Reply
  status : ℕ → Reply

-- `dead_letter` is the `Send` of the sink that takes over, nil being `none` within it.
pub record HttpCallbackSink : Type 0 where
  pub url : String
  pub max_retry : ℕ
  pub retry_backoff : ℕ
  pub dead_letter : Option (RecognitionResult → Option SendError)
  pub retries : ℕ  -- uint64

unfoldable pub new_http_callback_sink : String → ℕ → HttpCallbackSink
new_http_callback_sink url max_retry = record {
  url = url;
  max_retry = max_retry;
  retry_backoff = 200000000;
  dead_letter = none;
  retries = 0;
}

-- What the surroundings do: whether the n-th request can be built, the reply to it, and whether the context is over
-- before the wait ahead of it ends.
pub record World : Type 0 where
  pub builds : ℕ → Bool
  pub reply : ℕ → Reply
  pub over : ℕ → Bool

-- How the loop is left: by a return, with nil or an error, or at its end with the last error.
pub data Left : Type 0 where
  returned : Option SendError → Left
  exhausted : SendError → Left

-- One request and what the loop does with the reply: the third case goes on with the next attempt.
pub data Verdict : Type 0 where
  stop : Option SendError → Verdict
  next : SendError → Verdict

abbrev pub is_success : ℕ → Bool
is_success code = leb 200 code && ltb code 300

abbrev pub is_client_error : ℕ → Bool
is_client_error code = leb 400 code && ltb code 500

unfoldable pub judge : Reply → Verdict
judge network_error = next request_failed
judge (status code) =
    if is_success code
    then stop none
    else if is_client_error code
    then stop (some (status_error code))
    else next (status_error code)

-- Every attempt but the first counts as a retry.
unfoldable pub count_retry : ℕ → HttpCallbackSink → HttpCallbackSink
count_retry zero sink = sink
count_retry (suc n) sink = record sink { retries = (sink.retries + 1) % 2 ^ 64 }

-- and waits before.
unfoldable pub is_cut_short : World → ℕ → Bool
is_cut_short w zero = false
is_cut_short w (suc n) = w.over (suc n)

-- A round of the loop, and the number of requests made in it.
unfoldable pub attempt : World → ℕ → HttpCallbackSink → HttpCallbackSink × ℕ × Verdict
unfolding judge count_retry is_cut_short
attempt w n sink =
    if is_cut_short w n
    then (count_retry n sink, 0, stop (some context_over))
    else if not (w.builds n)
    then (count_retry n sink, 0, stop (some build_failed))
    else (count_retry n sink, 1, judge (w.reply n))

-- The last round, and one with the rounds behind it.
unfoldable pub last_round : HttpCallbackSink × ℕ × Verdict → HttpCallbackSink × ℕ × Left
last_round (sink, posts, stop answer) = (sink, posts, returned answer)
last_round (sink, posts, next e) = (sink, posts, exhausted e)

unfoldable pub round_before :
    HttpCallbackSink × ℕ × Left → HttpCallbackSink × ℕ × Verdict → HttpCallbackSink × ℕ × Left
round_before rest (sink, posts, stop answer) = (sink, posts, returned answer)
round_before rest (sink, posts, next e) = (rest.0, posts + rest.1, rest.2)

-- The loop from the n-th attempt on, with `left` more behind it.
unfoldable pub attempts : World → ℕ → ℕ → HttpCallbackSink → HttpCallbackSink × ℕ × Left
unfolding last_round round_before
attempts w zero n sink = last_round (attempt w n sink)
attempts w (suc left) n sink =
    let r = attempt w n sink in round_before (attempts w left (suc n) r.0) r

-- The loop's return, or what the dead letter's sink answers, or the last error.
unfoldable pub finish : RecognitionResult → HttpCallbackSink → Left → Option SendError
finish r sink (returned answer) = answer
finish r sink (exhausted e) = elim sink.dead_letter [ none ↦ some e | some send_on ↦ send_on r ]

-- `marshal` is json.Marshal. The sink, the number of requests, and the answer.
unfoldable pub send :
    {Body : Type 0}
    → (CallbackPayload → Option Body)
    → (Body → World)
    → RecognitionResult
    → HttpCallbackSink
    → HttpCallbackSink × ℕ × Option SendError
unfolding attempts finish
send marshal world r sink = elim (marshal (new_callback_payload r)) [
  | none ↦ (sink, 0, some marshal_failed)
  | some body ↦
      let done = attempts (world body) sink.max_retry 0 sink in
      (done.0, done.1, finish r done.0 done.2)
]
