-- ===== src/Result/HttpCallback/Retry/Answers.antt =====
-- What `Send` answers (internal/result/http_callback.go).
use media_ai.Prelude.{
  ℕ, suc, ◌+◌, ◌≤◌, ◌<◌, ◌≡◌, refl, sym, ap, ◌∙◌, subst, Option, none, some, arith,
}
use media_ai.Media.{RecognitionResult}
use media_ai.Result.HttpCallback.{
  CallbackPayload, HttpCallbackSink, SendError, World, status, status_error, Left, returned,
  exhausted, stop, judge, attempts, finish, send, new_callback_payload,
}
use media_ai.Result.HttpCallback.Retry.{
  IsTransient, error_of, GoesOut, IsCounted, attempts_settle, attempts_exhaust,
}

-- The answer of the dead letter's sink, or the error where there is none.
pub record IsGivenUp (r : RecognitionResult) (sink : HttpCallbackSink) (e : SendError)
    (answer : Option SendError) : Type 0 where
  pub dead :
      (send_on : RecognitionResult → Option SendError)
      → sink.dead_letter ≡ some send_on
      → answer ≡ send_on r
  pub alone : sink.dead_letter ≡ none → answer ≡ some e

finish-IsGivenUp :
    (r : RecognitionResult) (sink sink' : HttpCallbackSink) (e : SendError)
    → sink'.dead_letter ≡ sink.dead_letter
    → IsGivenUp r sink e (finish r sink' (exhausted e))
unfolding finish
finish-IsGivenUp r sink sink' e same = record {
  dead = λ send_on is. rw (same ∙ is) refl;
  alone = λ is. rw (same ∙ is) refl;
}

module _ {Body : Type 0} (marshal : CallbackPayload → Option Body) (world : Body → World)
    (r : RecognitionResult) (sink : HttpCallbackSink) (body : Body)
    (marshalled : marshal (new_callback_payload r) ≡ some body) where
  send-attempts :
      (sink' : HttpCallbackSink) (posts : ℕ) (left : Left)
      → attempts (world body) sink.max_retry 0 sink ≡ (sink', posts, left)
      → send marshal world r sink ≡ (sink', posts, finish r sink' left)
  unfolding send
  send-attempts sink' posts left ran = rw (marshalled, send, ran) refl

  send_settles :
      (k : ℕ) (answer : Option SendError)
      → k ≤ sink.max_retry
      → ((i : ℕ) → i ≤ k → GoesOut (world body) i)
      → ((i : ℕ) → i < k → IsTransient ((world body).reply i))
      → judge ((world body).reply k) ≡ stop answer
      → (sink' : HttpCallbackSink) × (send marshal world r sink ≡ (sink', suc k, answer))
        × IsCounted k sink sink'
  unfolding finish
  send_settles k answer room out fails stops =
      let same : (i : ℕ) → i ≡ 0 + i = λ i. omega arith in
      let (sink', ran, counted) =
        attempts_settle (world body) k sink.max_retry 0 sink answer room
          (λ i le. subst (GoesOut (world body)) (same i) (out i le))
          (λ i lt. subst (λ m. IsTransient ((world body).reply m)) (same i) (fails i lt))
          (subst (λ m. judge ((world body).reply m) ≡ stop answer) (same k) stops) in
      (sink', send-attempts sink' (suc k) (returned answer) ran, counted)

  -- Where the result can be marshalled, attempts before the k-th fail by a network error or a status outside of
  -- 2xx and 4xx, the k-th is answered with a status in 2xx, no more than `MaxRetry` retries are needed, all these
  -- requests can be built, and the context is not over before them: `Send` makes k + 1 requests, returns nil, and has
  -- counted k retries more.
  pub send_gets_through :
      (k code : ℕ)
      → k ≤ sink.max_retry
      → ((i : ℕ) → i ≤ k → GoesOut (world body) i)
      → ((i : ℕ) → i < k → IsTransient ((world body).reply i))
      → (world body).reply k ≡ status code
      → 200 ≤ code
      → code < 300
      → (sink' : HttpCallbackSink) × (send marshal world r sink ≡ (sink', suc k, none))
        × IsCounted k sink sink'
  unfolding judge
  send_gets_through k code room out fails answered low high =
      send_settles k none room out fails (ap judge answered ∙ ground arith)

  -- A status in 4xx is returned as an error, whether there is a dead letter or not.
  send_stops_at_client_error :
      (k code : ℕ)
      → k ≤ sink.max_retry
      → ((i : ℕ) → i ≤ k → GoesOut (world body) i)
      → ((i : ℕ) → i < k → IsTransient ((world body).reply i))
      → (world body).reply k ≡ status code
      → 400 ≤ code
      → code < 500
      → (sink' : HttpCallbackSink) × (send marshal world r sink
          ≡ (sink', suc k, some (status_error code)))
        × IsCounted k sink sink'
  unfolding judge
  send_stops_at_client_error k code room out fails answered low high =
      send_settles k (some (status_error code)) room out fails (ap judge answered ∙ ground arith)

  -- Where the result can be marshalled, all requests can be built in time, and all attempts up to `MaxRetry` fail by a
  -- network error or a status outside of 2xx and 4xx: `Send` makes `MaxRetry` + 1 requests, has counted `MaxRetry`
  -- retries more, and answers what the dead letter's sink answers, or the error of the last attempt where there is none.
  pub send_gives_up :
      ((i : ℕ) → i ≤ sink.max_retry → GoesOut (world body) i)
      → ((i : ℕ) → i ≤ sink.max_retry → IsTransient ((world body).reply i))
      → (sink' : HttpCallbackSink) × (answer : Option SendError) × (send marshal world r sink
          ≡ (sink', suc sink.max_retry, answer))
        × IsGivenUp r sink (error_of ((world body).reply sink.max_retry)) answer
        × IsCounted sink.max_retry sink sink'
  send_gives_up out fails =
      let same : (i : ℕ) → i ≡ 0 + i = λ i. omega arith in
      let (sink', ran, counted) =
        attempts_exhaust (world body) sink.max_retry 0 sink
          (λ i le. subst (GoesOut (world body)) (same i) (out i le))
          (λ i le. subst (λ m. IsTransient ((world body).reply m)) (same i) (fails i le)) in
      let e = error_of ((world body).reply (0 + sink.max_retry)) in
      (
        sink',
        finish r sink' (exhausted e),
        send-attempts sink' (suc sink.max_retry) (exhausted e) ran,
        subst
            (λ m. IsGivenUp r sink (error_of ((world body).reply m)) (finish r sink' (exhausted e)))
            (sym (same sink.max_retry)) (finish-IsGivenUp r sink sink' e counted.dead_letter),
        counted,
      )
