-- ===== src/Result/Dispatcher.antt =====
-- The dispatcher of recognition results (internal/result/dispatcher.go). The sinks are interfaces:
-- a sink is its type and a number that tells it from others, and what a call of `Send` does is
-- given from outside. Where a Go `select` may choose, the choice is an argument.
use Prim.Native.String.{String}
use media_ai.Prelude.{
  ℕ, ◌+◌, ◌%◌, ◌^◌, Bool, true, false, not, ◌&&◌, ◌||◌, Option, none, some, List, [], ◌∷◌, ◌++◌,
  length, if◌then◌else◌,
}
use media_ai.Prelude.Assoc.{text_key, ◌==◌, lookup, insert, delete}
use media_ai.Media.{RecognitionResult}
use media_ai.Channel.{Chan, make, try_send, try_recv}
pub mod Sinks
pub mod Conservation
mod Tests

pub record Sink : Type 0 where
  pub kind : String
  pub number : ℕ

pub record Config : Type 0 where
  pub workers : ℕ
  pub queue_size : ℕ
  pub drop_partial_when_full : Bool
  pub send_timeout : ℕ

-- The counters are uint64.
pub record Dispatcher : Type 0 where
  pub cfg : Config
  pub queue : Chan RecognitionResult
  pub sinks : List (String × List Sink)
  pub pushed : ℕ
  pub dropped : ℕ
  pub sent : ℕ
  pub sent_partial : ℕ
  pub sent_final : ℕ
  pub send_errors : ℕ

abbrev pub u64 : ℕ → ℕ
u64 n = n % 2 ^ 64

unfoldable pub new_dispatcher : Config → Dispatcher
new_dispatcher cfg = record {
  cfg = cfg;
  queue = make cfg.queue_size;
  sinks = [];
  pushed = 0;
  dropped = 0;
  sent = 0;
  sent_partial = 0;
  sent_final = 0;
  send_errors = 0;
}

-- d.sinks[id], nil for a missing key
unfoldable pub sinks_of : String → Dispatcher → List Sink
sinks_of id d = elim (lookup id d.sinks) [ none ↦ [] | some l ↦ l ]

unfoldable pub register_sink : String → Sink → Dispatcher → Dispatcher
register_sink id sink d = record d { sinks = insert id (sinks_of id d ++ sink ∷ []) d.sinks }

unfoldable pub unregister_sinks : String → Dispatcher → Dispatcher
unregister_sinks id d = record d { sinks = delete id d.sinks }

-- The sinks of another type than http_callback.
pub others : List Sink → List Sink
others [] = []
others (s ∷ rest) = if s.kind == "http_callback" then others rest else s ∷ others rest

abbrev pub appended : List Sink → Option Sink → List Sink
appended l none = l
appended l (some s) = l ++ s ∷ []

-- An entry is kept only if a sink is left.
abbrev store : String → List Sink → List (String × List Sink) → List (String × List Sink)
store id [] m = delete id m
store id (s ∷ rest) m = insert id (s ∷ rest) m

unfoldable pub replace_http_sink : String → Option Sink → Dispatcher → Dispatcher
unfolding others
replace_http_sink id sink d = record d {
  sinks = store id (appended (others (sinks_of id d)) sink) d.sinks;
}

-- What a call meets at a sink: the context is done before it, or `Send` answers nil or an error.
pub data Attempt : Type 0 where
  shutting_down succeeds fails : Attempt

count_sent : RecognitionResult → Dispatcher → Dispatcher
count_sent r d = record d {
  sent = u64 (d.sent + 1);
  sent_final = if r.is_final then u64 (d.sent_final + 1) else d.sent_final;
  sent_partial = if r.is_final then d.sent_partial else u64 (d.sent_partial + 1);
}

pub send_all : (Sink → Attempt) → RecognitionResult → List Sink → Dispatcher → Dispatcher
unfolding count_sent
send_all attempt r [] d = d
send_all attempt r (s ∷ rest) d = elim (attempt s) [
  | shutting_down ↦ d
  | succeeds ↦ send_all attempt r rest (count_sent r d)
  | fails ↦ send_all attempt r rest (record d { send_errors = u64 (d.send_errors + 1) })
]

unfoldable pub dispatch : (Sink → Attempt) → RecognitionResult → Dispatcher → Dispatcher
unfolding send_all
dispatch attempt r d = send_all attempt r (sinks_of r.session_id d) d

-- How a call of `Push` goes on.
pub data Pushed : Type 0 where
  accepted dropped_quietly cancelled blocked : Pushed

count_dropped : Dispatcher → Dispatcher
count_dropped d = record d { dropped = u64 (d.dropped + 1) }

-- The select over the queue and the context, `none` where neither is ready: `done` says that the
-- context is, `prefers_send` what is chosen if both are.
pub select_send : Bool → Bool → RecognitionResult → Dispatcher → Option (Dispatcher × Pushed)
unfolding count_dropped
select_send done prefers_send r d = elim (try_send r d.queue) [
  | none ↦ if done then some (count_dropped d, cancelled) else none
  | some queue ↦
      if done && not prefers_send
      then some (count_dropped d, cancelled)
      else some (record d { queue = queue }, accepted)
]

-- `Push` up to its return, or to the second select, which blocks.
unfoldable pub push : Bool → Bool → RecognitionResult → Dispatcher → Dispatcher × Pushed
unfolding select_send count_dropped
push done prefers_send r d =
    let d' : Dispatcher = record d { pushed = u64 (d.pushed + 1) } in
    elim (select_send done prefers_send r d') [
      | some answer ↦ answer
      | none ↦
          if d.cfg.drop_partial_when_full && not r.is_final
          then (count_dropped d', dropped_quietly)
          else (d', blocked)
    ]

-- The second select of a blocked `Push`, whenever it is ready.
unfoldable pub resume : Bool → Bool → RecognitionResult → Dispatcher → Dispatcher × Pushed
unfolding select_send
resume done prefers_send r d = elim (select_send done prefers_send r d) [
  | some answer ↦ answer
  | none ↦ (d, blocked)
]
