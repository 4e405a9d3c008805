-- ===== src/Result/Dispatcher/Conservation/History.antt =====
-- The steps of the dispatcher, one by one and in sequence
-- (internal/result/dispatcher.go).
use Prim.Native.String.{String}
use media_ai.Prelude.{
  ℕ, suc, ◌+◌, ◌≡◌, refl, ap, ◌∙◌, inl, inr, Bool, not, ◌&&◌, List, [], ◌∷◌, ◌++◌, append-nil,
  length, subst, arith, Bool-cases, Option-cases, get_elem?,
}
use media_ai.Media.{RecognitionResult}
use media_ai.Channel.{try_recv-shrinks, try_recv-items, Chan, make, try_recv}
use media_ai.Result.Dispatcher.{
  Sink, Config, Dispatcher, Attempt, Pushed, accepted, dropped_quietly, cancelled, blocked, u64,
  register_sink, unregister_sinks, replace_http_sink, new_dispatcher, sinks_of, count_dropped,
  select_send, push, resume, dispatch,
}
use media_ai.Result.Dispatcher.Conservation.{
  System, Event, submit, wake, work, without, settle, step, run, start, submitted, IsKept, one,
  count_if, count_if-without, register, unregister, replace, send_all-keeps, select_send-IsKept,
}

settle-d :
    (r : RecognitionResult) (a : Dispatcher × Pushed) (s : System) (x : Dispatcher)
    → settle r a (record s { d = x }) ≡ settle r a s
unfolding settle
settle-d r (d, accepted) s x = refl
settle-d r (d, dropped_quietly) s x = refl
settle-d r (d, cancelled) s x = refl
settle-d r (d, blocked) s x = refl

push-IsKept :
    (done prefers : Bool) (r : RecognitionResult) (s : System) (rs : List RecognitionResult)
    → IsKept rs s
    → IsKept (r ∷ rs) (settle r (push done prefers r s.d) s)
unfolding push settle count_dropped
push-IsKept done prefers r s rs kept =
    let d' : Dispatcher = record s.d { pushed = u64 (s.d.pushed + 1) } in
    elim (Option-cases (select_send done prefers r d')) [
      | inr (answer, chosen) ↦
          rw (chosen, push)
            (subst (λ x. IsKept (r ∷ rs) x) (settle-d r answer s d')
              (select_send-IsKept done prefers r (record s { d = d' }) (r ∷ rs) answer
                (λ p. omega (arith, kept.total p)) (omega (arith, kept.counted)) kept.dropped
                kept.partial kept.fits chosen))
      | inl full ↦ elim (Bool-cases (s.d.cfg.drop_partial_when_full && not r.is_final)) [
        | inl drops ↦
            rw (full, drops, push)
              (record {
                total = λ p. omega (arith, kept.total p);
                counted = omega (arith, kept.counted);
                dropped = omega (arith, kept.dropped);
                partial = (ground arith, kept.partial);
                fits = kept.fits;
              })
        | inr waits ↦
            rw (full, waits, push)
              (record {
                total = λ p. omega (arith, kept.total p);
                counted = omega (arith, kept.counted);
                dropped = kept.dropped;
                partial = kept.partial;
                fits = kept.fits;
              })
      ]
    ]

wake-IsKept :
    (i : ℕ) (done prefers : Bool) (s : System) (rs : List RecognitionResult)
    → IsKept rs s
    → IsKept rs (step (wake i done prefers) s)
unfolding step resume settle
wake-IsKept i done prefers s rs kept = elim (Option-cases (get_elem? s.waiting i)) [
  | inl missing ↦ rw (missing, step) kept
  | inr (r, found) ↦
      let less = λ (p : RecognitionResult → Bool). count_if-without p i s.waiting r found in
      let s' : System = record s { waiting = without i s.waiting } in
      elim (Option-cases (select_send done prefers r s.d)) [
        | inr (answer, chosen) ↦
            rw (found, chosen, step, resume)
              (select_send-IsKept done prefers r s' rs answer
                (λ p. omega (arith, kept.total p, less p)) kept.counted kept.dropped kept.partial
                kept.fits chosen)
        | inl still ↦
            rw (found, still, step, resume)
              (record {
                total = λ p. omega (arith, kept.total p, less p);
                counted = kept.counted;
                dropped = kept.dropped;
                partial = kept.partial;
                fits = kept.fits;
              })
      ]
]

work-IsKept :
    (attempt : Sink → Attempt) (s : System) (rs : List RecognitionResult)
    → IsKept rs s
    → IsKept rs (step (work attempt) s)
unfolding step dispatch
work-IsKept attempt s rs kept = elim (Option-cases (try_recv s.d.queue)) [
  | inl empty ↦ rw (empty, step) kept
  | inr ((r, queue), got) ↦
      let (shorter, same_cap) = try_recv-shrinks s.d.queue r queue got in
      let d' : Dispatcher = record s.d { queue = queue } in
      let (same_queue, same_pushed, same_dropped) =
        send_all-keeps attempt r (sinks_of r.session_id d') d' in
      let size = ap (λ (q : Chan RecognitionResult). length q.items) same_queue in
      let room = ap (λ (q : Chan RecognitionResult). q.cap) same_queue in
      rw (got, step)
        (record {
          total = λ p. omega (
            arith,
            kept.total p,
            ap (λ (q : Chan RecognitionResult). count_if p q.items) same_queue,
            ap (λ l. count_if p l) (try_recv-items s.d.queue r queue got),
          );
          counted = same_pushed ∙ kept.counted;
          dropped = same_dropped ∙ kept.dropped;
          partial = kept.partial;
          fits = omega (arith, kept.fits, size, room);
        })
]

other_sinks :
    (rs : List RecognitionResult) (s : System) (sinks : List (String × List Sink))
    → IsKept rs s
    → IsKept rs (record s { d = record s.d { sinks = sinks } })
other_sinks rs s sinks kept = record {
  total = kept.total;
  counted = kept.counted;
  dropped = kept.dropped;
  partial = kept.partial;
  fits = kept.fits;
}

-- Only the counts of the pushed results and their number matter.
IsKept-moved :
    (r : RecognitionResult) (new old : List RecognitionResult) (s : System)
    → IsKept (new ++ r ∷ old) s
    → IsKept (r ∷ new ++ old) s
IsKept-moved r new old s kept = record {
  total = λ p. kept.total p ∙ moved p new;
  counted = kept.counted ∙ ap u64 (longer new);
  dropped = kept.dropped;
  partial = kept.partial;
  fits = kept.fits;
}
  where
    moved :
        (p : RecognitionResult → Bool) (l : List RecognitionResult)
        → count_if p (l ++ r ∷ old) ≡ one p r + count_if p (l ++ old)
    moved p [] = refl
    moved p (x ∷ l) = omega (arith, moved p l)

    longer : (l : List RecognitionResult) → length (l ++ r ∷ old) ≡ suc (length (l ++ old))
    longer [] = refl
    longer (x ∷ l) = ap suc (longer l)

run_keeps :
    (es : List Event) (s : System) (rs : List RecognitionResult)
    → IsKept rs s
    → IsKept (submitted es ++ rs) (run es s)
unfolding run step register_sink unregister_sinks replace_http_sink
run_keeps [] s rs kept = kept
run_keeps (submit done prefers r ∷ es) s rs kept =
    IsKept-moved r (submitted es) rs (run es (step (submit done prefers r) s)) (
      run_keeps es (step (submit done prefers r) s) (r ∷ rs) (push-IsKept done prefers r s rs kept))
run_keeps (wake i done prefers ∷ es) s rs kept =
    run_keeps es (step (wake i done prefers) s) rs (wake-IsKept i done prefers s rs kept)
run_keeps (work attempt ∷ es) s rs kept =
    run_keeps es (step (work attempt) s) rs (work-IsKept attempt s rs kept)
run_keeps (register id sink ∷ es) s rs kept =
    run_keeps es (step (register id sink) s) rs (other_sinks rs s _ kept)
run_keeps (unregister id ∷ es) s rs kept =
    run_keeps es (step (unregister id) s) rs (other_sinks rs s _ kept)
run_keeps (replace id sink ∷ es) s rs kept =
    run_keeps es (step (replace id sink) s) rs (other_sinks rs s _ kept)

-- From a new dispatcher, after any interleaving of pushes, retries of blocked pushes, workers, and changes of sinks, the
-- pushed results are, each as often, those that a worker took, that are queued, whose push is blocked, that were given up
-- as their context was done, and that were dropped quietly; only partial results are among the last. `pushed`
-- and `dropped` count them modulo 2 ^ 64, and the queue holds at most what it has room for.
pub run-IsKept : (cfg : Config) (es : List Event) → IsKept (submitted es) (run es (start cfg))
unfolding start new_dispatcher make
run-IsKept cfg es =
    subst (λ rs. IsKept rs (run es (start cfg))) (append-nil (submitted es))
      (run_keeps es (start cfg) [] (record {
        total = λ p. omega arith;
        counted = refl;
        dropped = refl;
        partial = tt;
        fits = omega arith;
      }))
