-- ===== src/Ai/Stream/Reconnect/Attempts.antt =====
-- How the loop that reconnects ends (internal/ai/grpc_client.go).
use media_ai.Prelude.{
  ℕ, zero, suc, ◌+◌, ◌≤◌, ◌<◌, ◌≡◌, ◌≢◌, refl, ◌∙◌, ◌*◌, min, sym, ap, if◌then◌else◌, true, subst,
  inl, inr, ◌⊎◌, Option, none, some, List, [], ◌∷◌, leb, ◌==◌, length, ok, if_so, if_not, arith,
  Bool-cases, Option-cases,
}
use media_ai.Ai.Stream.{
  Config, Stream, StreamError, Pair, SendEvent, RecvEvent, timer, input_closed, context_done, input,
  result, recv_failed, idle, context_done_recv, canceled, recv_idle_timeout, new_pair, set_err,
  clear_err, cancel_after_send, send_failed, stop_sending, chunk_sent, send_round, run_send,
  stop_receiving, count_recv_error, recv_error, deliver, note_result, recv_round, run_recv,
}
use media_ai.Ai.Stream.Endings.{Event, send_side, recv_side, cancel_pair, step, run}
use media_ai.Ai.Stream.Reconnect.{
  Round, Ending, context_over, no_error, no_retries, retries_spent, dial_failed, run_pair, retry,
  max_backoff, next_backoff, first_backoff, run_with_reconnect,
}

set_err-retries : (e : StreamError) (s : Stream) → (set_err e s).retries ≡ s.retries
unfolding set_err
set_err-retries e s = ground arith

send_round-retries :
    (cfg : Config) (event : SendEvent) (p : Pair)
    → (send_round cfg event p).stream.retries ≡ p.stream.retries
unfolding send_round send_failed chunk_sent stop_sending set_err
send_round-retries cfg context_done p = ground arith
send_round-retries cfg timer p = ground arith
send_round-retries cfg input_closed p = refl
send_round-retries cfg (input chunk answer) p = ground arith

recv_error-retries :
    (e : StreamError) (p : Pair) → (recv_error e p).stream.retries ≡ p.stream.retries
unfolding recv_error stop_receiving count_recv_error set_err
recv_error-retries e p = ground arith

recv_round-retries :
    (cfg : Config) (event : RecvEvent) (p : Pair)
    → (recv_round cfg event p).stream.retries ≡ p.stream.retries
unfolding recv_round deliver note_result stop_receiving
recv_round-retries cfg context_done_recv p = ground (arith, recv_error-retries canceled p)
recv_round-retries cfg idle p = ground (arith, recv_error-retries recv_idle_timeout p)
recv_round-retries cfg (recv_failed e) p = recv_error-retries e p
recv_round-retries cfg (result r now room room_later) p = ground arith

run-retries :
    (cfg : Config) (events : List Event) (p : Pair)
    → (run cfg events p).stream.retries ≡ p.stream.retries
unfolding run step run_send run_recv cancel_after_send
run-retries cfg [] p = refl
run-retries cfg (send_side event ∷ events) p =
    run-retries cfg events (run_send cfg event p) ∙ ground (arith, send_round-retries cfg event p)
run-retries cfg (cancel_pair ∷ events) p =
    run-retries cfg events (cancel_after_send p) ∙ ground arith
run-retries cfg (recv_side event ∷ events) p =
    run-retries cfg events (run_recv cfg event p) ∙ ground (arith, recv_round-retries cfg event p)

-- `first` doubled `i` times.
abbrev pub doubled : ℕ → ℕ → ℕ
doubled first zero = first
doubled first (suc i) = 2 * doubled first i

-- The i-th wait: the first is as configured, and the later ones double up to 30 s.
abbrev pub wait_at : ℕ → ℕ → ℕ
wait_at first zero = first
wait_at first (suc i) = min (doubled first (suc i)) max_backoff

abbrev pub waits_from : ℕ → ℕ → ℕ → List ℕ
waits_from first i zero = []
waits_from first i (suc k) = wait_at first i ∷ waits_from first (suc i) k

-- What the end of the loop after the connection `last` says of the stream and its surroundings; where it ends during
-- a wait or with a dial, the wait or the dial is the one before `last`.
abbrev pub Ends : Config → (ℕ → Round) → ℕ → Stream → Ending → Type 0
Ends cfg rounds last s context_over =
    ((rounds last).over ≡ true)
    ⊎ ((before : ℕ) × (suc before ≡ last) × ((rounds before).over_waiting ≡ true))
Ends cfg rounds last s no_error = s.failure ≡ none
Ends cfg rounds last s no_retries = (s.failure ≢ none) × (cfg.max_retries ≡ 0)
Ends cfg rounds last s retries_spent = (s.failure ≢ none) × (s.retries ≡ cfg.max_retries)
Ends cfg rounds last s dial_failed =
    (s.failure ≢ none) × (before : ℕ) × (suc before ≡ last) × ((rounds before).dial_error ≢ none)

-- What a run of the loop gives that begins with the connection `n` and has retried `n` times before.
pub record IsEnd (cfg : Config) (first n : ℕ) (rounds : ℕ → Round) (s : Stream) (waits : List ℕ)
    (ending : Ending) : Type 0 where
  pub counted : s.retries ≡ n + length waits
  pub bounded : s.retries ≤ cfg.max_retries
  pub schedule : waits ≡ waits_from first n (length waits)
  pub fits : Ends cfg rounds s.retries s ending

next_backoff-wait_at : (first i : ℕ) → next_backoff (wait_at first i) ≡ wait_at first (suc i)
unfolding next_backoff
next_backoff-wait_at first zero = ground arith
next_backoff-wait_at first (suc i) = ground arith

some_failure : (o : Option StreamError) {e : StreamError} → o ≡ some e → o ≢ none
some_failure o h g = ground arith

set_err-failure : (e : StreamError) (s : Stream) → (set_err e s).failure ≢ none
unfolding set_err
set_err-failure e s = elim (Option-cases s.failure) [
  | inl clear ↦ rw (clear, set_err) (some_failure (some e) refl)
  | inr (old, there) ↦ rw (there, set_err) (some_failure s.failure there)
]

run_pair-retries :
    (cfg : Config) (events : List Event) (s : Stream) → (run_pair cfg events s).retries ≡ s.retries
unfolding run_pair new_pair
run_pair-retries cfg events s = run-retries cfg events (new_pair cfg s)

some_dial_error : {o : Option StreamError} {e : StreamError} → o ≡ some e → o ≢ none
some_dial_error h g = ground arith

loop_ends :
    (fuel : ℕ) (cfg : Config) (first n : ℕ) (rounds : ℕ → Round) (s : Stream)
    → cfg.max_retries < fuel + n
    → n ≤ cfg.max_retries
    → s.retries ≡ n
    → (s' : Stream) × (waits : List ℕ) × (ending : Ending) × (run_with_reconnect fuel cfg n rounds
          (wait_at first n)
          s
        ≡ ok (s', waits, ending))
      × IsEnd cfg first n rounds s' waits ending
unfolding run_with_reconnect retry clear_err
loop_ends zero cfg first n rounds s enough kept is_n = absurd (omega arith)
loop_ends (suc fuel) cfg first n rounds s enough kept is_n =
    let backoff = wait_at first n in
    let round = rounds n in
    let s1 = run_pair cfg round.events s in
    let same = run_pair-retries cfg round.events s in
    elim (Bool-cases round.over) [
      | inl over ↦ (
        s1,
        [],
        context_over,
        if_so _ over,
        record {
          counted = omega (arith, same);
          bounded = omega (arith, same);
          schedule = refl;
          fits = inl (subst (λ m. (rounds m).over ≡ true) (sym (same ∙ is_n)) over);
        },
      )
      | inr live ↦ elim (Option-cases s1.failure) [
        | inl clear ↦ (
          s1,
          [],
          no_error,
          if_not _ live ∙ rw clear refl,
          record {
            counted = omega (arith, same);
            bounded = omega (arith, same);
            schedule = refl;
            fits = clear;
          },
        )
        | inr (e, failed) ↦ elim (Bool-cases (cfg.max_retries == 0)) [
          | inl never ↦ (
            s1,
            [],
            no_retries,
            if_not _ live ∙ rw (failed, never) refl,
            record {
              counted = omega (arith, same);
              bounded = omega (arith, same);
              schedule = refl;
              fits = (some_failure s1.failure failed, ground arith);
            },
          )
          | inr some_retries ↦ elim (Bool-cases (leb cfg.max_retries s1.retries)) [
            | inl spent ↦ (
              s1,
              [],
              retries_spent,
              if_not _ live ∙ rw (failed, some_retries, spent) refl,
              record {
                counted = omega (arith, same);
                bounded = omega (arith, same);
                schedule = refl;
                fits = (some_failure s1.failure failed, ground (arith, same));
              },
            )
            | inr left ↦ elim (Bool-cases round.over_waiting) [
              | inl gone ↦ (
                retry s1,
                backoff ∷ [],
                context_over,
                if_not _ live ∙ rw (failed, some_retries, left, gone) refl,
                record {
                  counted = omega (arith, same);
                  bounded = ground (arith, same);
                  schedule = refl;
                  fits = inr (n, omega (arith, same), gone);
                },
              )
              | inr waited ↦ elim (Option-cases round.dial_error) [
                | inr (e', refused) ↦
                    let same' = set_err-retries e' (retry s1) in
                    (
                      set_err e' (retry s1),
                      backoff ∷ [],
                      dial_failed,
                      if_not _ live ∙ rw (failed, some_retries, left, waited, refused) refl,
                      record {
                        counted = omega (arith, same, same');
                        bounded = ground (arith, same, same');
                        schedule = refl;
                        fits = (
                          set_err-failure e' (retry s1),
                          n,
                          omega (arith, same, same'),
                          some_dial_error refused,
                        );
                      },
                    )
                | inl dialled ↦
                    let (s2, waits, ending, ran, finished) =
                      loop_ends fuel cfg first (suc n) rounds (retry s1) (omega arith)
                        (ground (arith, same)) (omega (arith, same)) in
                    let later =
                      ap (λ b. run_with_reconnect fuel cfg (suc n) rounds b (retry s1))
                        (next_backoff-wait_at first n)
                      ∙ ran in
                    (
                      s2,
                      backoff ∷ waits,
                      ending,
                      if_not _ live ∙ rw (failed, some_retries, left, waited, dialled, later) refl,
                      record {
                        counted = omega (arith, same, finished.counted);
                        bounded = finished.bounded;
                        schedule = ap (λ l. backoff ∷ l) finished.schedule;
                        fits = finished.fits;
                      },
                    )
              ]
            ]
          ]
        ]
      ]
    ]

-- Whatever the connections, the context and the dialer do, the loop ends within one more round than the retries that
-- are allowed. It waits once for each retry, and retries at most as often as allowed; the first wait is the configured
-- one, 1 s where that is 0, and each later wait is the first doubled as often as it was waited before, but at most
-- 30 s. It ends with the context over, at the end of the last connection or during the last wait; with no error left by
-- the last connection; or with an error, where no retries are allowed, all are spent, or the last dial failed.
pub reconnect_ends :
    (cfg : Config) (rounds : ℕ → Round) (s : Stream)
    → s.retries ≡ 0
    → (s' : Stream) × (waits : List ℕ) × (ending : Ending) × (run_with_reconnect
          (suc cfg.max_retries)
          cfg
          0
          rounds
          (first_backoff cfg)
          s
        ≡ ok (s', waits, ending))
      × IsEnd cfg
          (if cfg.retry_backoff == 0 then 1000000000 else cfg.retry_backoff)
          0
          rounds
          s'
          waits
          ending
unfolding first_backoff
reconnect_ends cfg rounds s new =
    loop_ends (suc cfg.max_retries) cfg (first_backoff cfg) 0 rounds s (omega arith) (omega arith)
      new
