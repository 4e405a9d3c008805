-- ===== src/Ai/Stream/Endings.antt =====
-- What a connection leaves behind, whatever order its goroutines' steps have (internal/ai/grpc_client.go).
use media_ai.Prelude.{
  ◌≡◌, ◌≢◌, refl, sym, ◌∙◌, subst, inl, inr, Bool, true, false, ◌&&◌, List, [], ◌∷◌, ltb, ◌==◌,
  if_so, if_not, arith, Bool-cases,
}
use media_ai.Media.{AudioChunk, RecognitionResult}
use media_ai.Ai.Stream.{
  Config, Pair, StreamError, SendEvent, RecvEvent, timed_out, input, result, recv_failed, idle,
  context_done_recv, canceled, recv_idle_timeout, is_ctx_err, send_with_timeout, send_failed,
  stop_sending, cancel_after_send, send_round, run_send, stop_receiving, recv_error, deliver,
  note_result, recv_round, run_recv,
}

pub data Event : Type 0 where
  send_side : SendEvent → Event
  recv_side : RecvEvent → Event
  cancel_pair : Event

unfoldable pub step : Config → Event → Pair → Pair
step cfg (send_side event) p = run_send cfg event p
step cfg (recv_side event) p = run_recv cfg event p
step cfg cancel_pair p = cancel_after_send p

unfoldable pub run : Config → List Event → Pair → Pair
run cfg [] p = p
run cfg (event ∷ events) p = run cfg events (step cfg event p)

-- What tells the owner of the stream that something went wrong is the same in `p'` as in `p`.
pub record SameErrors (p p' : Pair) : Type 0 where
  pub failure : p'.stream.failure ≡ p.stream.failure
  pub send_errors : p'.stream.send_errors ≡ p.stream.send_errors
  pub recv_errors : p'.stream.recv_errors ≡ p.stream.recv_errors
  pub sent : p'.sent ≡ p.sent

-- The sender has returned, so the pair's context is done.
abbrev pub SendOver : Pair → Type 0
SendOver p = (p.sending ≡ false) × (p.done ≡ true)

abbrev Stays : Pair → Pair → Type 0
Stays p p' = (p'.sending ≡ false) × (p'.done ≡ true) × SameErrors p p'

unchanged : (p : Pair) → SendOver p → Stays p p
unchanged p (stopped, over) =
    (stopped, over, record { failure = refl; send_errors = refl; recv_errors = refl; sent = refl })

recv_error-Stays : (e : StreamError) (p : Pair) → SendOver p → Stays p (recv_error e p)
unfolding recv_error stop_receiving
recv_error-Stays e p (stopped, over) =
    rw (over, recv_error)
      (
        stopped,
        refl,
        record { failure = refl; send_errors = refl; recv_errors = refl; sent = refl },
      )

deliver-Stays :
    (r : RecognitionResult) (room room_later : Bool) (p : Pair)
    → SendOver p
    → Stays p (deliver r room room_later p)
unfolding deliver stop_receiving
deliver-Stays r true room_later p (stopped, over) =
    (stopped, over, record { failure = refl; send_errors = refl; recv_errors = refl; sent = refl })
deliver-Stays r false room_later p (stopped, over) =
    rw (over, deliver)
      (
        stopped,
        refl,
        record { failure = refl; send_errors = refl; recv_errors = refl; sent = refl },
      )

recv_round-Stays :
    (cfg : Config) (event : RecvEvent) (p : Pair) → SendOver p → Stays p (recv_round cfg event p)
unfolding recv_round note_result
recv_round-Stays cfg context_done_recv p over =
    elim (Bool-cases (p.done && ltb 0 cfg.recv_idle_timeout)) [
      | inl seen ↦ subst (Stays p) (sym (if_so _ seen)) (recv_error-Stays canceled p over)
      | inr unseen ↦ subst (Stays p) (sym (if_not _ unseen)) (unchanged p over)
    ]
recv_round-Stays cfg idle p over = elim (Bool-cases (ltb 0 cfg.recv_idle_timeout)) [
  | inl limited ↦
      subst (Stays p) (sym (if_so _ limited)) (recv_error-Stays recv_idle_timeout p over)
  | inr unlimited ↦ subst (Stays p) (sym (if_not _ unlimited)) (unchanged p over)
]
recv_round-Stays cfg (recv_failed e) p over = recv_error-Stays e p over
recv_round-Stays cfg (result r now room room_later) p over =
    let (still, done, same) = deliver-Stays r room room_later (note_result r now p) over in
    (
      still,
      done,
      record {
        failure = same.failure;
        send_errors = same.send_errors;
        recv_errors = same.recv_errors;
        sent = same.sent;
      },
    )

step-Stays : (cfg : Config) (event : Event) (p : Pair) → SendOver p → Stays p (step cfg event p)
unfolding step run_send run_recv cancel_after_send
step-Stays cfg (send_side event) p over = subst (Stays p) (sym (if_not _ over.0)) (unchanged p over)
step-Stays cfg cancel_pair p over =
    subst (Stays p) (sym (if_not _ over.0))
      (over.0, refl, record { failure = refl; send_errors = refl; recv_errors = refl; sent = refl })
step-Stays cfg (recv_side event) p over = elim (Bool-cases p.receiving) [
  | inr returned ↦ subst (Stays p) (sym (if_not _ returned)) (unchanged p over)
  | inl reading ↦ subst (Stays p) (sym (if_so _ reading)) (recv_round-Stays cfg event p over)
]

run-Stays :
    (cfg : Config) (events : List Event) (p : Pair) → SendOver p → Stays p (run cfg events p)
unfolding run
run-Stays cfg [] p over = unchanged p over
run-Stays cfg (event ∷ events) p over =
    let (stopped, done, same) = step-Stays cfg event p over in
    let (stopped', done', same') = run-Stays cfg events (step cfg event p) (stopped, done) in
    (
      stopped',
      done',
      record {
        failure = same'.failure ∙ same.failure;
        send_errors = same'.send_errors ∙ same.send_errors;
        recv_errors = same'.recv_errors ∙ same.recv_errors;
        sent = same'.sent ∙ same.sent;
      },
    )

-- Where there is a limit on the time of a send, a chunk whose send runs into it ends the sender without an error. If the
-- deferred cancellation of the pair comes before the next step of the receiver, then whatever happens on the connection
-- afterwards, the stream's error, its counts of errors, and the list of chunks sent are those of before the send.
pub send_timeout_silent :
    (cfg : Config) (chunk : AudioChunk) (events : List Event) (p : Pair)
    → p.sending ≡ true
    → cfg.send_timeout ≢ 0
    → SameErrors p (run cfg (send_side (input chunk timed_out) ∷ cancel_pair ∷ events) p)
unfolding run step run_send send_round send_with_timeout send_failed is_ctx_err stop_sending
    cancel_after_send
send_timeout_silent cfg chunk events p working limited =
    let timed : (cfg.send_timeout == 0) ≡ false = ground arith in
    let stopped : Pair = record p { armed = false; sending = false } in
    let over : Pair = record stopped { done = true } in
    let timed_out_now : run_send cfg (input chunk timed_out) p ≡ stopped =
      if_so _ working ∙ rw (timed, send_round, send_with_timeout) refl in
    let same = (run-Stays cfg events over (refl, refl)).2 in
    subst (λ q. SameErrors p (run cfg events (cancel_after_send q))) (sym timed_out_now)
      (record {
        failure = same.failure;
        send_errors = same.send_errors;
        recv_errors = same.recv_errors;
        sent = same.sent;
      })
