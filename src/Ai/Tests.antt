-- ===== src/Ai/Tests.antt =====
-- Workers whose loads are counted in natural numbers, and a stream that fails (internal/ai).
use Prim.Native.String.{String}
use media_ai.Prelude.Assoc.{text_key, lookup, insert, delete}
use media_ai.Prelude.{
  ℕ, ◌+◌, ◌*◌, ◌/◌, ◌≡◌, ◌⊎◌, refl, suc, true, false, none, some, List, [], ◌∷◌, ltb, ok, err,
  arith,
}
use media_ai.Media.{AudioChunk, RecognitionResult}
use media_ai.Ai.Workers.{
  FloatOps, WorkerInfo, WorkerRegistry, no_worker_available, dial_failed, new_worker_registry,
  is_lighter, dial,
}
use media_ai.Ai.Stream.{
  Stream, Pair, client_error, default_config, new_pair, timed_out, input, recv_failed, eof, result,
}
use media_ai.Ai.Stream.Endings.{
  Event, send_side, recv_side, cancel_pair, run as run_steps, SameErrors, send_timeout_silent,
}
use media_ai.Ai.Stream.Results.{IsTold, results_settled}
use media_ai.Ai.Stream.Reconnect.{Round, Ending, first_backoff, run_with_reconnect}
use media_ai.Ai.Stream.Reconnect.Attempts.{IsEnd, reconnect_ends}
use media_ai.Ai.Streams.{Manager, new_manager, open_stream, close_stream}
use media_ai.Ai.Streams.Entries.Survival.{open_survives}
use media_ai.Ai.Streams.Entries.{
  Event as ManagerEvent, open_one, close_one, accumulate_one, forget_entry, step, run as run_calls,
  IsWellFormed,
}
use media_ai.Ai.Workers.Choice.{FloatLaws, Call, register_at, run, Serves, dial_least}

abbrev counts : FloatOps
counts = record {
  Float = ℕ;
  zero_float = 0;
  of_nat = λ n. 1000 * n;
  add = λ a b. a + b;
  mul = λ a b. a * b / 10;
  div = λ a b. 1000 * a / b;
  lt = ltb;
  stream_weight = 7;
  gpu_weight = 3;
}

counts-FloatLaws : FloatLaws counts
counts-FloatLaws = record {
  IsNumber = λ a. Unit;
  irrefl = λ a. ground arith;
  asym = λ a b lt. ground arith;
  trans = λ a b c _ _ _ ab bc. ground arith;
}

abbrev worker : String → ℕ → WorkerInfo ℕ
worker id active = record {
  id = id;
  addr = id;
  languages = "vi" ∷ [];
  tasks = [];
  models = [];
  max_streams = 4;
  active_streams = active;
  gpu_load = 0;
  updated_at = 0;
}

abbrev calls : List (Call ℕ)
calls =
    register_at 10 (worker "a" 3)
    ∷ register_at 20 (worker "b" 1)
    ∷ register_at 20 (worker "c" 4)
    ∷ []

abbrev registry : WorkerRegistry ℕ
registry = run counts counts-FloatLaws calls (new_worker_registry 100)

dial_least_example :
    ((dial counts some 90 "vi" "transcribe" registry ≡ err no_worker_available)
      × ((id : String) (w : WorkerInfo ℕ)
          → ¬ Serves counts counts-FloatLaws 90 "vi" "transcribe" registry id w))
    ⊎ ((w : WorkerInfo ℕ) × (((client : String) × (some w.addr ≡ some client)
            × (dial counts some 90 "vi" "transcribe" registry ≡ ok client))
          ⊎ ((some w.addr ≡ none)
              × (dial counts some 90 "vi" "transcribe" registry ≡ err dial_failed)))
        × ((id : String) × Serves counts counts-FloatLaws 90 "vi" "transcribe" registry id w)
        × ((id : String) (v : WorkerInfo ℕ)
            → Serves counts counts-FloatLaws 90 "vi" "transcribe" registry id v
            → is_lighter counts v w ≡ false))
unfolding counts-FloatLaws
dial_least_example =
    dial_least counts counts-FloatLaws 90 100 "vi" "transcribe" some calls (tt, (tt, (tt, tt)))

abbrev stream : Stream
stream = record {
  opened_at_ms = 0;
  failure = none;
  retries = 0;
  send_errors = 0;
  recv_errors = 0;
  end_of_stream_sent = false;
  first_result_ms = 0;
}

abbrev chunk : AudioChunk
chunk = record {
  session_id = "s";
  stream_id = "t";
  pcm = [];
  sample_rate = 16000;
  channels = 1;
  rtp_timestamp = 0;
  duration_ms = 200;
  end_of_stream = false;
}

abbrev partial : RecognitionResult
partial = record {
  session_id = "s";
  stream_id = "t";
  source_type = "rtp";
  text = "a";
  is_final = false;
  ts_start = 0;
  ts_end = 1;
  confidence = 0;
  language = "vi";
  seq = 1;
  media_resources = none;
}

abbrev pair : Pair
pair = record {
  stream = stream;
  done = false;
  sending = true;
  receiving = true;
  armed = true;
  sent = [];
  received = [];
  delivered = [];
  given_up = [];
}

send_timeout_silent_example : SameErrors pair (
    run_steps default_config
      (send_side (input chunk timed_out)
        ∷ cancel_pair
        ∷ recv_side (recv_failed (client_error 7))
        ∷ [])
      pair)
unfolding default_config
send_timeout_silent_example =
    send_timeout_silent default_config chunk (recv_side (recv_failed (client_error 7)) ∷ []) pair
      refl (λ e. absurd (ground arith))

abbrev steps : List Event
steps =
    recv_side (result partial 5 false false)
    ∷ send_side (input chunk timed_out)
    ∷ recv_side (recv_failed eof)
    ∷ cancel_pair
    ∷ []

results_settled_example : IsTold (run_steps default_config steps (new_pair default_config stream))
results_settled_example = results_settled default_config stream steps

-- Every connection fails.
abbrev failing : ℕ → Round
failing n = record {
  events = recv_side (recv_failed (client_error n)) ∷ [];
  over = false;
  over_waiting = false;
  dial_error = none;
}

reconnect_ends_example :
    (s : Stream) × (waits : List ℕ) × (ending : Ending) × (run_with_reconnect
        (suc default_config.max_retries)
        default_config
        0
        failing
        (first_backoff default_config)
        stream
      ≡ ok (s, waits, ending))
    × IsEnd default_config 1000000000 0 failing s waits ending
unfolding default_config
reconnect_ends_example = reconnect_ends default_config failing stream refl

-- The session's first stream is closed, and its clean-up comes after the second is open.
abbrev earlier : List ManagerEvent
earlier = open_one true 5 "s" ∷ close_one "s" ∷ []

abbrev reopened : Manager
reopened = elim (open_stream true 9 "s" (run_calls earlier (new_manager default_config))) [
  | err _ ↦ new_manager default_config
  | ok r ↦ r.0
]

abbrev later : List ManagerEvent
later = accumulate_one 0 ∷ forget_entry "s" 0 ∷ []

open_survives_example :
    (lookup "s" (run_calls later reopened).streams ≡ some 1)
    × IsWellFormed (run_calls later reopened)
unfolding open_stream run_calls step new_manager default_config close_stream lookup insert delete
open_survives_example =
    open_survives default_config earlier later true 9 "s" reopened 1 refl
      (tt, (λ e. absurd (ground arith), tt))
