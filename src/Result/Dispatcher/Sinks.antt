-- ===== src/Result/Dispatcher/Sinks.antt =====
-- The sinks of a session, and the counters of the deliveries (internal/result/dispatcher.go).
use Prim.Native.String.{String}
use media_ai.Prelude.{◌+◌, ◌≡◌, ◌≢◌, refl, ◌⊎◌, inl, inr, Option, List, [], ◌∷◌, length, arith}
use media_ai.Prelude.Assoc.{
  text_key, lookup-insert_self, lookup-insert_ne, lookup-delete_self, lookup-delete_ne,
}
use media_ai.Media.{RecognitionResult}
use media_ai.Result.Dispatcher.{
  Sink, Dispatcher, u64, sinks_of, others, appended, store, replace_http_sink, Attempt, send_all,
  count_sent, dispatch, shutting_down, succeeds, fails,
}

sinks_of-store :
    (id j : String) (l : List Sink) (d : Dispatcher)
    → (sinks_of id (record d { sinks = store id l d.sinks }) ≡ l)
      × (j ≢ id → sinks_of j (record d { sinks = store id l d.sinks }) ≡ sinks_of j d)
unfolding sinks_of
sinks_of-store id j [] d = (
  rw (lookup-delete_self id d.sinks, sinks_of) refl,
  λ other. rw (lookup-delete_ne id j d.sinks other, sinks_of) refl,
)
sinks_of-store id j (s ∷ l) d = (
  rw (lookup-insert_self id (s ∷ l) d.sinks, sinks_of) refl,
  λ other. rw (lookup-insert_ne id j (s ∷ l) d.sinks other, sinks_of) refl,
)

-- `ReplaceHTTPSink` leaves a session its sinks of other types, in their order, and then the new
-- one if there is one, whatever was registered before; no other session's sinks change.
pub replace_http_sink_lem :
    (id j : String) (sink : Option Sink) (d : Dispatcher)
    → (sinks_of id (replace_http_sink id sink d) ≡ appended (others (sinks_of id d)) sink)
      × (j ≢ id → sinks_of j (replace_http_sink id sink d) ≡ sinks_of j d)
unfolding replace_http_sink
replace_http_sink_lem id j sink d = sinks_of-store id j (appended (others (sinks_of id d)) sink) d

-- What the counters say: every delivery was of a partial or of a final result.
abbrev pub IsBalanced : Dispatcher → Type 0
IsBalanced d = d.sent ≡ u64 (d.sent_partial + d.sent_final)

pub Attempt-cases : (a : Attempt) → (a ≡ shutting_down) ⊎ (a ≡ succeeds) ⊎ (a ≡ fails)
Attempt-cases shutting_down = inl refl
Attempt-cases succeeds = inr (inl refl)
Attempt-cases fails = inr (inr refl)

count_sent-IsBalanced :
    (r : RecognitionResult) (d : Dispatcher) → IsBalanced d → IsBalanced (count_sent r d)
unfolding count_sent
count_sent-IsBalanced r d balanced = ground arith

send_all-counts :
    (attempt : Sink → Attempt) (r : RecognitionResult) (l : List Sink) (d : Dispatcher)
    → IsBalanced d
    → IsBalanced (send_all attempt r l d)
      × (((s : Sink) → attempt s ≢ shutting_down)
          → u64 ((send_all attempt r l d).sent + (send_all attempt r l d).send_errors)
            ≡ u64 (d.sent + d.send_errors + length l))
unfolding send_all count_sent
send_all-counts attempt r [] d balanced = (balanced, λ alive. omega arith)
send_all-counts attempt r (s ∷ l) d balanced = elim (Attempt-cases (attempt s)) [
  | inl stopped ↦ (rw (stopped, send_all) balanced, λ alive. absurd (alive s stopped))
  | inr (inl sends) ↦
      let (kept, counts) =
        send_all-counts attempt r l (count_sent r d) (count_sent-IsBalanced r d balanced) in
      (rw (sends, send_all) kept, λ alive. rw (sends, send_all) (omega (arith, counts alive)))
  | inr (inr errs) ↦
      let (kept, counts) =
        send_all-counts attempt r l (record d { send_errors = u64 (d.send_errors + 1) }) balanced in
      (rw (errs, send_all) kept, λ alive. rw (errs, send_all) (omega (arith, counts alive)))
]

-- A dispatch keeps `sent` the sum of `sentPartial` and `sentFinal`, and where the context is not done
-- during it, `sent` and `sendErrors` together grow by the number of the session's sinks, all
-- modulo 2 ^ 64.
pub dispatch_counts :
    (attempt : Sink → Attempt) (r : RecognitionResult) (d : Dispatcher)
    → IsBalanced d
    → IsBalanced (dispatch attempt r d)
      × (((s : Sink) → attempt s ≢ shutting_down)
          → u64 ((dispatch attempt r d).sent + (dispatch attempt r d).send_errors)
            ≡ u64 (d.sent + d.send_errors + length (sinks_of r.session_id d)))
unfolding dispatch
dispatch_counts attempt r d balanced =
    send_all-counts attempt r (sinks_of r.session_id d) d balanced
