-- ===== src/Ai/Streams.antt =====
-- The manager of the streams (internal/ai/stream_manager.go). The map holds pointers: `streams` maps a session to a
-- place in `heap`. What a stream's goroutine does to its own counters is given from outside.
use Prim.Native.String.{String}
use media_ai.Prelude.{
  ℕ, zero, suc, ◌+◌, ◌/◌, ◌%◌, ◌^◌, Bool, true, false, Option, none, some, List, [], ◌∷◌, ◌++◌, ltb,
  leb, ◌==◌ as same_number, length, get_elem?, update_at, if◌then◌else◌, Result, ok, err,
}
use media_ai.Prelude.Assoc.{text_key, insert, lookup, delete}
use media_ai.Ai.Stream.{Config, Stream, StreamStats, stats as stream_stats, u64}
pub mod Entries

pub record ManagerStats : Type 0 where
  pub send_errors : ℕ
  pub recv_errors : ℕ
  pub retries : ℕ
  pub latency_first_count : ℕ
  pub latency_first_sum : ℕ

pub record Manager : Type 0 where
  pub cfg : Config
  pub streams : List (String × ℕ)
  pub heap : List Stream
  pub totals : ManagerStats

pub data OpenError : Type 0 where
  max_streams duplicate_stream dial_refused : OpenError

unfoldable pub no_stats : ManagerStats
no_stats = record {
  send_errors = 0;
  recv_errors = 0;
  retries = 0;
  latency_first_count = 0;
  latency_first_sum = 0;
}

unfoldable pub new_manager : Config → Manager
new_manager cfg = record { cfg = cfg; streams = []; heap = []; totals = no_stats }

unfoldable pub new_stream : ℕ → Stream
new_stream now_ms = record {
  opened_at_ms = now_ms;
  failure = none;
  retries = 0;
  send_errors = 0;
  recv_errors = 0;
  end_of_stream_sent = false;
  first_result_ms = 0;
}

-- The counters of one stream added to a sum.
unfoldable pub add_stats : StreamStats → ManagerStats → ManagerStats
add_stats st t =
    let t' : ManagerStats = record t {
      send_errors = u64 (t.send_errors + st.send_errors);
      recv_errors = u64 (t.recv_errors + st.recv_errors);
      retries = u64 (t.retries + st.retries);
    } in
    if ltb 0 st.first_result_ms
    then record t' {
      latency_first_count = u64 (t.latency_first_count + 1);
      latency_first_sum = t.latency_first_sum + st.first_result_ms;
    }
    else t'

-- Stats: what was accumulated, and the counters of the streams in the map.
unfoldable pub add_active : List Stream → List (String × ℕ) → ManagerStats → ManagerStats
add_active heap [] t = t
add_active heap ((id, at) ∷ rest) t =
    let rest_sum = add_active heap rest t in
    elim (get_elem? heap at) [ none ↦ rest_sum | some s ↦ add_stats (stream_stats s) rest_sum ]

unfoldable pub stats : Manager → ManagerStats
unfolding add_active
stats m = add_active m.heap m.streams m.totals

pub avg_first_result_ms : ManagerStats → ℕ
avg_first_result_ms s =
    if same_number s.latency_first_count 0 then 0 else s.latency_first_sum / s.latency_first_count

-- `dials` says whether the dial succeeds; it is made while the lock is held.
unfoldable pub open_stream : Bool → ℕ → String → Manager → Result OpenError (Manager × ℕ)
open_stream dials now_ms id m =
    if leb m.cfg.max_active_streams (length m.streams)
    then err max_streams
    else elim (lookup id m.streams) [
      | some _ ↦ err duplicate_stream
      | none ↦
          if dials
          then ok (
            record m {
              streams = insert id (length m.heap) m.streams;
              heap = m.heap ++ new_stream now_ms ∷ [];
            },
            length m.heap,
          )
          else err dial_refused
    ]

-- The stream that is cancelled, if there is one.
unfoldable pub close_stream : String → Manager → Manager × Option ℕ
close_stream id m = elim (lookup id m.streams) [
  | none ↦ (m, none)
  | some at ↦ (record m { streams = delete id m.streams }, some at)
]

-- The goroutine that waits for a stream's end, in its two parts.
unfoldable pub accumulate : ℕ → Manager → Manager
accumulate at m = elim (get_elem? m.heap at) [
  | none ↦ m
  | some s ↦ record m { totals = add_stats (stream_stats s) m.totals }
]

unfoldable pub forget : String → ℕ → Manager → Manager
forget id at m = elim (lookup id m.streams) [
  | none ↦ m
  | some current ↦ if same_number current at then record m { streams = delete id m.streams } else m
]

pub count : Manager → ℕ
count m = length m.streams
