-- ===== src/Ai/Stream/Results.antt =====
-- What becomes of the results of a connection (internal/ai/grpc_client.go).
use media_ai.Prelude.{
  suc, ◌+◌, ◌≡◌, refl, sym, ap, ◌∙◌, subst, inl, inr, Bool, true, false, not, ◌&&◌, ◌||◌, List, [],
  ◌∷◌, ◌++◌, ltb, length, length-append, All, All-append, if_so, if_not, arith, Bool-cases,
  Option-cases, if◌then◌else◌,
}
use media_ai.Media.{AudioChunk, RecognitionResult}
use media_ai.Ai.Stream.{
  Config, Stream, Pair, StreamError, SendEvent, RecvEvent, timer, input_closed, context_done, input,
  result, recv_failed, idle, context_done_recv, eof, canceled, recv_idle_timeout, unexpected_eof,
  deadline_exceeded, first_chunk_timeout, client_error, new_pair, set_err, is_ctx_err,
  send_with_timeout, send_failed, stop_sending, cancel_after_send, chunk_sent, send_round, run_send,
  stop_receiving, count_recv_error, recv_error, deliver, note_result, recv_round, run_recv,
}
use media_ai.Ai.Stream.Endings.{Event, send_side, recv_side, cancel_pair, step, run}

abbrev pub any_end : List AudioChunk → Bool
any_end [] = false
any_end (c ∷ cs) = c.end_of_stream || any_end cs

any_end-append :
    (cs : List AudioChunk) (c : AudioChunk) → any_end (cs ++ c ∷ []) ≡ any_end cs || c.end_of_stream
any_end-append [] c = ground arith
any_end-append (d ∷ cs) c = ground (arith, any_end-append cs c)

abbrev pub IsPartial : RecognitionResult → Type 0
IsPartial r = r.is_final ≡ false

-- Each result was handed on or given up, only partial ones while the receiver runs, and the
-- end of the audio is noted when it was sent.
pub record IsTold (p : Pair) : Type 0 where
  pub settled : length p.delivered + length p.given_up ≡ length p.received
  pub partial : p.receiving ≡ true → All IsPartial p.given_up
  pub noted : p.stream.end_of_stream_sent ≡ any_end p.sent

set_err-same :
    (e : StreamError) (s : Stream) → (set_err e s).end_of_stream_sent ≡ s.end_of_stream_sent
unfolding set_err
set_err-same e s = elim (Option-cases s.failure) [
  | inl clear ↦ rw (clear, set_err) refl
  | inr (old, there) ↦ rw (there, set_err) refl
]

-- The stream's other fields do not matter.
IsTold-stream :
    (s : Stream) (p : Pair)
    → s.end_of_stream_sent ≡ p.stream.end_of_stream_sent
    → IsTold p
    → IsTold (record p { stream = s })
IsTold-stream s p same told = record {
  settled = told.settled;
  partial = told.partial;
  noted = same ∙ told.noted;
}

stop_sending-IsTold : (p : Pair) → IsTold p → IsTold (stop_sending p)
unfolding stop_sending
stop_sending-IsTold p told = record {
  settled = told.settled;
  partial = told.partial;
  noted = told.noted;
}

stop_receiving-IsTold : (p : Pair) → IsTold p → IsTold (stop_receiving p)
unfolding stop_receiving
stop_receiving-IsTold p told = record {
  settled = told.settled;
  partial = λ e. absurd (ground arith);
  noted = told.noted;
}

send_failed-IsTold : (e : StreamError) (p : Pair) → IsTold p → IsTold (send_failed e p)
unfolding send_failed
send_failed-IsTold e p told = elim (Bool-cases (is_ctx_err e)) [
  | inl over ↦ subst IsTold (sym (if_so _ over)) (stop_sending-IsTold p told)
  | inr failed ↦
      subst IsTold (sym (if_not _ failed))
        (stop_sending-IsTold _ (IsTold-stream _ p (set_err-same e _) told))
]

send_round-IsTold :
    (cfg : Config) (event : SendEvent) (p : Pair) → IsTold p → IsTold (send_round cfg event p)
unfolding send_round chunk_sent
send_round-IsTold cfg context_done p told = elim (Bool-cases p.done) [
  | inl over ↦ subst IsTold (sym (if_so _ over)) (stop_sending-IsTold p told)
  | inr open_context ↦ subst IsTold (sym (if_not _ open_context)) told
]
send_round-IsTold cfg timer p told = elim (Bool-cases p.armed) [
  | inl armed ↦
      subst IsTold (sym (if_so _ armed))
        (stop_sending-IsTold _ (IsTold-stream _ p (set_err-same first_chunk_timeout p.stream) told))
  | inr unarmed ↦ subst IsTold (sym (if_not _ unarmed)) told
]
send_round-IsTold cfg input_closed p told = stop_sending-IsTold p told
send_round-IsTold cfg (input chunk answer) p told =
    let p' : Pair = record p { armed = false } in
    let told' : IsTold p' = record {
      settled = told.settled;
      partial = told.partial;
      noted = told.noted;
    } in
    elim (Option-cases (send_with_timeout cfg answer)) [
      | inl went ↦
          rw (went, send_round)
            (record {
              settled = told.settled;
              partial = told.partial;
              noted =
                  ap (λ b. b || chunk.end_of_stream) told.noted ∙ sym (any_end-append p.sent chunk);
            })
      | inr (e, failed) ↦ rw (failed, send_round) (send_failed-IsTold e p' told')
    ]

count_recv_error-IsTold :
    (e : StreamError) (p : Pair) → IsTold p → IsTold (stop_receiving (count_recv_error e p))
unfolding count_recv_error
count_recv_error-IsTold e p told =
    stop_receiving-IsTold _ (IsTold-stream _ p (set_err-same e _) told)

recv_error-IsTold : (e : StreamError) (p : Pair) → IsTold p → IsTold (recv_error e p)
unfolding recv_error
recv_error-IsTold e p told = elim (Bool-cases p.done) [
  | inl over ↦ subst IsTold (sym (if_so _ over)) (stop_receiving-IsTold p told)
  | inr open_context ↦ subst IsTold (sym (if_not _ open_context)) (counted e)
]
  where
    at_eof :
        (b : Bool)
        → IsTold
            (if b then stop_receiving p else stop_receiving (count_recv_error unexpected_eof p))
    at_eof true = stop_receiving-IsTold p told
    at_eof false = count_recv_error-IsTold unexpected_eof p told

    counted :
        (e : StreamError)
        → IsTold (elim e [
          | eof ↦
              if p.stream.end_of_stream_sent
              then stop_receiving p
              else stop_receiving (count_recv_error unexpected_eof p)
          | first_chunk_timeout ↦ stop_receiving (count_recv_error first_chunk_timeout p)
          | unexpected_eof ↦ stop_receiving (count_recv_error unexpected_eof p)
          | recv_idle_timeout ↦ stop_receiving (count_recv_error recv_idle_timeout p)
          | canceled ↦ stop_receiving (count_recv_error canceled p)
          | deadline_exceeded ↦ stop_receiving (count_recv_error deadline_exceeded p)
          | client_error n ↦ stop_receiving (count_recv_error (client_error n) p)
        ])
    counted eof = at_eof p.stream.end_of_stream_sent
    counted first_chunk_timeout = count_recv_error-IsTold first_chunk_timeout p told
    counted unexpected_eof = count_recv_error-IsTold unexpected_eof p told
    counted recv_idle_timeout = count_recv_error-IsTold recv_idle_timeout p told
    counted canceled = count_recv_error-IsTold canceled p told
    counted deadline_exceeded = count_recv_error-IsTold deadline_exceeded p told
    counted (client_error n) = count_recv_error-IsTold (client_error n) p told

-- A result that is new in `p` and not yet settled.
deliver-IsTold :
    (r : RecognitionResult) (room room_later : Bool) (p : Pair)
    → suc (length p.delivered + length p.given_up) ≡ length p.received
    → (p.receiving ≡ true → All IsPartial p.given_up)
    → p.stream.end_of_stream_sent ≡ any_end p.sent
    → IsTold (deliver r room room_later p)
unfolding deliver stop_receiving
deliver-IsTold r room room_later p new partial noted = elim (Bool-cases room) [
  | inl fits ↦ subst IsTold (sym (if_so _ fits)) handed
  | inr full ↦ subst IsTold (sym (if_not _ full)) (elim (Bool-cases p.done) [
    | inl over ↦ subst IsTold (sym (if_so _ over)) lost
    | inr open_context ↦ subst IsTold (sym (if_not _ open_context)) (elim (Bool-cases r.is_final) [
      | inr some_more ↦ subst IsTold (sym (if_so _ (ap not some_more))) (record {
        settled = omega (arith, new, length-append p.given_up (r ∷ []));
        partial =
            λ reading. All-append IsPartial p.given_up (r ∷ []) (partial reading) (some_more, tt);
        noted = noted;
      })
      | inl final ↦ subst IsTold (sym (if_not _ (ap not final))) (elim (Bool-cases room_later) [
        | inl waited ↦ subst IsTold (sym (if_so _ waited)) handed
        | inr gone ↦ subst IsTold (sym (if_not _ gone)) lost
      ])
    ])
  ])
]
  where
    handed : IsTold (record p { delivered = p.delivered ++ r ∷ [] })
    handed = record {
      settled = omega (arith, new, length-append p.delivered (r ∷ []));
      partial = partial;
      noted = noted;
    }

    lost : IsTold (stop_receiving (record p { given_up = p.given_up ++ r ∷ [] }))
    lost = record {
      settled = omega (arith, new, length-append p.given_up (r ∷ []));
      partial = λ e. absurd (ground arith);
      noted = noted;
    }

recv_round-IsTold :
    (cfg : Config) (event : RecvEvent) (p : Pair) → IsTold p → IsTold (recv_round cfg event p)
unfolding recv_round note_result
recv_round-IsTold cfg context_done_recv p told =
    elim (Bool-cases (p.done && ltb 0 cfg.recv_idle_timeout)) [
      | inl seen ↦ subst IsTold (sym (if_so _ seen)) (recv_error-IsTold canceled p told)
      | inr unseen ↦ subst IsTold (sym (if_not _ unseen)) told
    ]
recv_round-IsTold cfg idle p told = elim (Bool-cases (ltb 0 cfg.recv_idle_timeout)) [
  | inl limited ↦ subst IsTold (sym (if_so _ limited)) (recv_error-IsTold recv_idle_timeout p told)
  | inr unlimited ↦ subst IsTold (sym (if_not _ unlimited)) told
]
recv_round-IsTold cfg (recv_failed e) p told = recv_error-IsTold e p told
recv_round-IsTold cfg (result r now room room_later) p told =
    deliver-IsTold r room room_later (note_result r now p)
      (omega (arith, told.settled, length-append p.received (r ∷ []))) told.partial told.noted

step-IsTold : (cfg : Config) (event : Event) (p : Pair) → IsTold p → IsTold (step cfg event p)
unfolding step run_send run_recv cancel_after_send
step-IsTold cfg (send_side event) p told = elim (Bool-cases p.sending) [
  | inl working ↦ subst IsTold (sym (if_so _ working)) (send_round-IsTold cfg event p told)
  | inr returned ↦ subst IsTold (sym (if_not _ returned)) told
]
step-IsTold cfg cancel_pair p told = elim (Bool-cases p.sending) [
  | inl working ↦ subst IsTold (sym (if_so _ working)) told
  | inr returned ↦
      subst IsTold (sym (if_not _ returned))
        (record { settled = told.settled; partial = told.partial; noted = told.noted })
]
step-IsTold cfg (recv_side event) p told = elim (Bool-cases p.receiving) [
  | inl reading ↦ subst IsTold (sym (if_so _ reading)) (recv_round-IsTold cfg event p told)
  | inr returned ↦ subst IsTold (sym (if_not _ returned)) told
]

run-IsTold : (cfg : Config) (events : List Event) (p : Pair) → IsTold p → IsTold (run cfg events p)
unfolding run
run-IsTold cfg [] p told = told
run-IsTold cfg (event ∷ events) p told =
    run-IsTold cfg events (step cfg event p) (step-IsTold cfg event p told)

-- After any steps of the two goroutines of a new connection, in any order: the results received are as many as
-- those handed on and those given up together; while the receiver runs, only partial results have been given up;
-- and the stream notes the end of the audio exactly when a chunk marked as the last one was sent.
pub results_settled :
    (cfg : Config) (s : Stream) (events : List Event) → IsTold (run cfg events (new_pair cfg s))
unfolding new_pair
results_settled cfg s events =
    run-IsTold cfg events (new_pair cfg s)
      (record { settled = omega arith; partial = λ e. tt; noted = refl })
