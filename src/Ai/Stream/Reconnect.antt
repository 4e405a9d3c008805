-- ===== src/Ai/Stream/Reconnect.antt =====
-- The loop that reconnects (internal/ai/grpc_client.go). The rounds are numbered; what happens in each is given
-- from outside. The loop is on fuel.
use media_ai.Prelude.{
  ℕ, zero, suc, ◌+◌, ◌-◌, ◌*◌, ◌≤◌, ◌<◌, ◌≡◌, refl, sym, ap, ◌∙◌, subst, inl, inr, ◌⊎◌, Bool, true,
  false, ◌||◌, Option, none, some, List, [], ◌∷◌, leb, ltb, ◌==◌, length, All, Result, ok, err,
  ◌>>=◌, Fault, out_of_fuel, if_so, if_not, if◌then◌else◌, arith, Bool-cases, Option-cases,
}
use media_ai.Ai.Stream.{Config, Stream, StreamError, Pair, new_pair, set_err, clear_err}
use media_ai.Ai.Stream.Endings.{Event, run}
pub mod Attempts

-- A connection's steps, whether the stream's context is done after them, whether it ends during the wait,
-- and the error of the dial that follows, if it has one.
pub record Round : Type 0 where
  pub events : List Event
  pub over : Bool
  pub over_waiting : Bool
  pub dial_error : Option StreamError

pub data Ending : Type 0 where
  context_over no_error no_retries retries_spent dial_failed : Ending

unfoldable pub run_pair : Config → List Event → Stream → Stream
run_pair cfg events s = (run cfg events (new_pair cfg s)).stream

-- 30 s in nanoseconds
abbrev pub max_backoff : ℕ
max_backoff = 30000000000

unfoldable pub next_backoff : ℕ → ℕ
next_backoff backoff = if ltb max_backoff (backoff * 2) then max_backoff else backoff * 2

unfoldable pub first_backoff : Config → ℕ
first_backoff cfg = if cfg.retry_backoff == 0 then 1000000000 else cfg.retry_backoff

pub retry : Stream → Stream
unfolding clear_err
retry s = clear_err (record s { retries = suc s.retries })

-- The stream at the end, the waits that were begun, and why the loop ended.
pub run_with_reconnect :
    ℕ → Config → ℕ → (ℕ → Round) → ℕ → Stream → Result Fault (Stream × List ℕ × Ending)
unfolding run_pair retry next_backoff
run_with_reconnect zero cfg n rounds backoff s = err out_of_fuel
run_with_reconnect (suc fuel) cfg n rounds backoff s =
    let round = rounds n in
    let s' = run_pair cfg round.events s in
    let rest = run_with_reconnect fuel cfg (suc n) rounds (next_backoff backoff) (retry s') in
    if round.over then ok (s', [], context_over) else elim s'.failure [
      | none ↦ ok (s', [], no_error)
      | some e ↦
          if cfg.max_retries == 0
          then ok (s', [], no_retries)
          else if leb cfg.max_retries s'.retries
          then ok (s', [], retries_spent)
          else if round.over_waiting
          then ok (retry s', backoff ∷ [], context_over)
          else elim round.dial_error [
            | some e' ↦ ok (set_err e' (retry s'), backoff ∷ [], dial_failed)
            | none ↦ (rest >>= λ r. ok (r.0, backoff ∷ r.1, r.2))
          ]
    ]
