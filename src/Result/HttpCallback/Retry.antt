-- ===== src/Result/HttpCallback/Retry.antt =====
-- The loop of attempts (internal/result/http_callback.go).
use media_ai.Prelude.{
  ℕ, zero, suc, ◌+◌, ◌%◌, ◌^◌, ◌≤◌, ◌<◌, ◌≡◌, refl, sym, ap, ◌∙◌, ◌⊎◌, subst, true, false, not,
  Option, none, some, if_not, arith,
}
use media_ai.Media.{RecognitionResult}
use media_ai.Result.HttpCallback.{
  CallbackPayload, HttpCallbackSink, SendError, World, Reply, status, status_error, Left, returned,
  exhausted, stop, next, judge, network_error, request_failed, count_retry, is_cut_short, attempt,
  last_round, round_before, attempts, finish, send, new_callback_payload,
}
pub mod Answers

-- A network error, or a status outside of 2xx and 4xx.
abbrev pub IsTransient : Reply → Type 0
IsTransient network_error = Unit
IsTransient (status code) = (code < 200) ⊎ ((300 ≤ code) × (code < 400)) ⊎ (500 ≤ code)

-- How a reply that is not a success is reported.
abbrev pub error_of : Reply → SendError
error_of network_error = request_failed
error_of (status code) = status_error code

judge-IsTransient : (reply : Reply) → IsTransient reply → judge reply ≡ next (error_of reply)
unfolding judge
judge-IsTransient network_error h = refl
judge-IsTransient (status code) h = ground arith

-- The n-th attempt makes its request.
pub record GoesOut (w : World) (n : ℕ) : Type 0 where
  pub in_time : is_cut_short w n ≡ false
  pub built : w.builds n ≡ true

attempt-GoesOut :
    (w : World) (n : ℕ) (sink : HttpCallbackSink)
    → GoesOut w n
    → attempt w n sink ≡ (count_retry n sink, 1, judge (w.reply n))
unfolding attempt
attempt-GoesOut w n sink out = if_not _ out.in_time ∙ if_not _ (ap not out.built)

-- How often a loop that starts at attempt `n` and makes `k` more has retried.
abbrev pub retried : ℕ → ℕ → ℕ
retried zero k = k
retried (suc n) k = suc k

-- Only `retries` changes, by `k`.
pub record IsCounted (k : ℕ) (sink sink' : HttpCallbackSink) : Type 0 where
  pub retries : sink'.retries % 2 ^ 64 ≡ (sink.retries + k) % 2 ^ 64
  pub max_retry : sink'.max_retry ≡ sink.max_retry
  pub dead_letter : sink'.dead_letter ≡ sink.dead_letter

count_retry-IsCounted :
    (n : ℕ) (sink : HttpCallbackSink) → IsCounted (retried n 0) sink (count_retry n sink)
unfolding count_retry
count_retry-IsCounted zero sink = record {
  retries = omega arith;
  max_retry = refl;
  dead_letter = refl;
}
count_retry-IsCounted (suc n) sink = record {
  retries = omega arith;
  max_retry = refl;
  dead_letter = refl;
}

retried_more :
    (n k : ℕ) (sink sink' : HttpCallbackSink)
    → IsCounted (retried (suc n) k) (count_retry n sink) sink'
    → IsCounted (retried n (suc k)) sink sink'
unfolding count_retry
retried_more zero k sink sink' counted = record {
  retries = counted.retries;
  max_retry = counted.max_retry;
  dead_letter = counted.dead_letter;
}
retried_more (suc n) k sink sink' counted = record {
  retries = omega (arith, counted.retries);
  max_retry = counted.max_retry;
  dead_letter = counted.dead_letter;
}

last_round-stop :
    (sink : HttpCallbackSink) (posts : ℕ) (answer : Option SendError)
    → last_round (sink, posts, stop answer) ≡ (sink, posts, returned answer)
unfolding last_round
last_round-stop sink posts answer = refl

round_before-stop :
    (rest : HttpCallbackSink × ℕ × Left) (sink : HttpCallbackSink) (posts : ℕ)
    (answer : Option SendError)
    → round_before rest (sink, posts, stop answer) ≡ (sink, posts, returned answer)
unfolding round_before
round_before-stop rest sink posts answer = refl

abbrev one_more : HttpCallbackSink × ℕ × Left → HttpCallbackSink × ℕ × Left
one_more r = (r.0, suc r.1, r.2)

round_before-next :
    (rest : HttpCallbackSink × ℕ × Left) (sink : HttpCallbackSink) (e : SendError)
    → round_before rest (sink, 1, next e) ≡ one_more rest
unfolding round_before
round_before-next rest sink e = ap (λ m. (rest.0, m, rest.2)) (omega arith)

attempts-stop :
    (w : World) (left n : ℕ) (sink : HttpCallbackSink) (answer : Option SendError)
    → GoesOut w n
    → judge (w.reply n) ≡ stop answer
    → attempts w left n sink ≡ (count_retry n sink, 1, returned answer)
unfolding attempts
attempts-stop w zero n sink answer out stops =
    ap last_round (attempt-GoesOut w n sink out)
    ∙ ap (λ v. last_round (count_retry n sink, 1, v)) stops
    ∙ last_round-stop _ _ _
attempts-stop w (suc left) n sink answer out stops =
    ap (λ r. round_before (attempts w left (suc n) r.0) r) (attempt-GoesOut w n sink out)
    ∙ ap
        (λ v.
          round_before (attempts w left (suc n) (count_retry n sink)) (count_retry n sink, 1, v))
        stops
    ∙ round_before-stop (attempts w left (suc n) (count_retry n sink)) (count_retry n sink) 1 answer

attempts-next :
    (w : World) (left n : ℕ) (sink : HttpCallbackSink) (e : SendError)
    → GoesOut w n
    → judge (w.reply n) ≡ next e
    → attempts w (suc left) n sink ≡ one_more (attempts w left (suc n) (count_retry n sink))
unfolding attempts
attempts-next w left n sink e out goes_on =
    ap (λ r. round_before (attempts w left (suc n) r.0) r) (attempt-GoesOut w n sink out)
    ∙ ap
        (λ v.
          round_before (attempts w left (suc n) (count_retry n sink)) (count_retry n sink, 1, v))
        goes_on
    ∙ round_before-next (attempts w left (suc n) (count_retry n sink)) (count_retry n sink) e

-- From attempt `n` on, `k` attempts fail so that the loop goes on, and the one after them ends it.
pub attempts_settle :
    (w : World) (k left n : ℕ) (sink : HttpCallbackSink) (answer : Option SendError)
    → k ≤ left
    → ((i : ℕ) → i ≤ k → GoesOut w (n + i))
    → ((i : ℕ) → i < k → IsTransient (w.reply (n + i)))
    → judge (w.reply (n + k)) ≡ stop answer
    → (sink' : HttpCallbackSink) × (attempts w left n sink ≡ (sink', suc k, returned answer))
      × IsCounted (retried n k) sink sink'
attempts_settle w zero left n sink answer room out fails stops =
    let here : n + 0 ≡ n = omega arith in
    (
      count_retry n sink,
      attempts-stop w left n sink answer (subst (GoesOut w) here (out 0 (omega arith)))
          (subst (λ m. judge (w.reply m) ≡ stop answer) here stops),
      count_retry-IsCounted n sink,
    )
attempts_settle w (suc k) zero n sink answer room out fails stops = absurd (omega arith)
attempts_settle w (suc k) (suc left) n sink answer room out fails stops =
    let shift : (i : ℕ) → n + suc i ≡ suc n + i = λ i. omega arith in
    let here : n + 0 ≡ n = omega arith in
    let e = error_of (w.reply n) in
    let goes_on =
      judge-IsTransient (w.reply n)
        (subst (λ m. IsTransient (w.reply m)) here (fails 0 (omega arith))) in
    let (sink', ran, counted) =
      attempts_settle w k left (suc n) (count_retry n sink) answer (omega arith)
        (λ i le. subst (GoesOut w) (shift i) (out (suc i) (omega arith)))
        (λ i lt. subst (λ m. IsTransient (w.reply m)) (shift i) (fails (suc i) (omega arith)))
        (subst (λ m. judge (w.reply m) ≡ stop answer) (shift k) stops) in
    (
      sink',
      attempts-next w left n sink e (subst (GoesOut w) here (out 0 (omega arith))) goes_on
          ∙ ap one_more ran,
      retried_more n k sink sink' counted,
    )

-- All attempts fail so that the loop goes on, up to its end.
pub attempts_exhaust :
    (w : World) (left n : ℕ) (sink : HttpCallbackSink)
    → ((i : ℕ) → i ≤ left → GoesOut w (n + i))
    → ((i : ℕ) → i ≤ left → IsTransient (w.reply (n + i)))
    → (sink' : HttpCallbackSink) × (attempts w left n sink
        ≡ (sink', suc left, exhausted (error_of (w.reply (n + left)))))
      × IsCounted (retried n left) sink sink'
unfolding attempts last_round
attempts_exhaust w zero n sink out fails =
    let here : n + 0 ≡ n = omega arith in
    let last =
      judge-IsTransient (w.reply n)
        (subst (λ m. IsTransient (w.reply m)) here (fails 0 (omega arith))) in
    (
      count_retry n sink,
      ap last_round (attempt-GoesOut w n sink (subst (GoesOut w) here (out 0 (omega arith))))
          ∙ ap (λ v. last_round (count_retry n sink, 1, v)) last
          ∙ ap (λ m. (count_retry n sink, 1, exhausted (error_of (w.reply m)))) (sym here),
      count_retry-IsCounted n sink,
    )
attempts_exhaust w (suc left) n sink out fails =
    let shift : (i : ℕ) → n + suc i ≡ suc n + i = λ i. omega arith in
    let here : n + 0 ≡ n = omega arith in
    let e = error_of (w.reply n) in
    let goes_on =
      judge-IsTransient (w.reply n)
        (subst (λ m. IsTransient (w.reply m)) here (fails 0 (omega arith))) in
    let (sink', ran, counted) =
      attempts_exhaust w left (suc n) (count_retry n sink)
        (λ i le. subst (GoesOut w) (shift i) (out (suc i) (omega arith)))
        (λ i le. subst (λ m. IsTransient (w.reply m)) (shift i) (fails (suc i) (omega arith))) in
    (
      sink',
      attempts-next w left n sink e (subst (GoesOut w) here (out 0 (omega arith))) goes_on
          ∙ ap one_more ran
          ∙ ap (λ m. (sink', suc (suc left), exhausted (error_of (w.reply m)))) (sym (shift left)),
      retried_more n left sink sink' counted,
    )
