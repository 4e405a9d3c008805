-- ===== src/Pipeline/Tests.antt =====
-- The pipeline over a decoder that reads one sample from each byte (internal/pipeline).
use Prim.Native.String.{String}
use media_ai.Prelude.{
  ℕ, suc, ◌<◌, ◌≡◌, refl, sym, subst, ap, false, Option, none, some, List, [], ◌∷◌, map, ok, arith,
  some-injective,
}
use media_ai.Prelude.Int.{ℤ, pos}
use media_ai.Prelude.Assoc.{text_key, lookup}
use media_ai.Media.{MediaPacket, AudioChunk, AudioJob}
use media_ai.Pipeline.Chain.{Chain, Decoder, SessionConfig}
use media_ai.Pipeline.Chain.Stream.{IsMade, decoded, process_all, process_all_stream}
use media_ai.Pipeline.Chain.Sound.{IsSound, IsUsable}
use media_ai.Pipeline.Pool.{WorkerPool, WorkerPoolConfig, new_worker_pool}
use media_ai.Pipeline.Pool.Accounting.{
  Event, submit_job, open_call, close_session, take_one, find_one, run_one, end_context,
  IsAccounted,
}
use media_ai.Pipeline.Pool.History.{run, pool_accounts}
use media_ai.Pipeline.Pool.Order.{overtaking, waiting, jobs_overtake}

abbrev count_bytes : ℕ → List ℕ → ℕ × Option (List ℤ)
count_bytes n [] = (n, none)
count_bytes n (b ∷ bs) = (suc n, some (map (λ c. pos c) (b ∷ bs)))

abbrev open_counter : String → ℕ → ℕ → Option (Decoder ℕ)
open_counter codec rate channels = some (record { state = 0; sample_rate = 1000; channels = 1 })

abbrev call : SessionConfig
call = record {
  codec = "PCMU";
  sample_rate = 1000;
  channels = 1;
  out_sample_rate = 2000;
  out_channels = 1;
  chunk_ms = 2;
  session_id = "s";
  stream_id = "t";
}

call-IsUsable : IsUsable open_counter call
call-IsUsable = record {
  mono = λ dec h. (
    ap (λ (d : Decoder ℕ). d.channels) (sym (some-injective h)),
    subst (λ (d : Decoder ℕ). 0 < d.sample_rate) (some-injective h) (omega arith),
  );
  out_rate = omega arith;
  cuts = omega arith;
}

abbrev packet : List ℕ → ℕ → MediaPacket
packet payload timestamp = record {
  session_id = "s";
  source_type = "rtp";
  ssrc = 1;
  payload_type = 0;
  sequence = 7;
  timestamp = timestamp;
  marker = false;
  payload = payload;
  received_at_ms = 0;
  codec = "PCMU";
  sample_rate = 1000;
  channels = 1;
}

abbrev chain : Chain ℕ
chain = record {
  decoder = record { state = 0; sample_rate = 1000; channels = 1 };
  resampler = record { in_rate = 1000; in_ch = 1; out_rate = 2000; phase_num = 0 };
  chunker = record {
    cfg = record { sample_rate = 2000; channels = 1; chunk_ms = 2 };
    session_id = "s";
    stream_id = "t";
    buf = [];
    chunk_samps = 4;
    cur_rtp_ts = 0;
  };
  done = false;
}

chain-IsSound : IsSound chain
chain-IsSound = record {
  aligned = record { mono = refl; rate = omega arith; within = omega arith; at_start = λ e. refl };
  ready = record { cuts = omega arith; has_rate = omega arith; short = omega arith };
}

abbrev packets : List MediaPacket
packets = packet (1 ∷ 2 ∷ 3 ∷ []) 0 ∷ packet [] 24 ∷ packet (4 ∷ []) 48 ∷ []

process_all_stream_example :
    (sp' : Chain ℕ) × (chunks : List AudioChunk) × (out : List ℤ) × (process_all count_bytes packets
        chain
      ≡ ok (sp', chunks))
    × IsMade (decoded count_bytes 0 packets) out chain sp' chunks
process_all_stream_example =
    process_all_stream count_bytes packets chain
      (record { open_context = refl; aligned = chain-IsSound.aligned; ready = chain-IsSound.ready })

abbrev job : ℕ → AudioJob
job n = record { session_id = "s"; packet = packet (n ∷ n ∷ []) n }

abbrev small : WorkerPoolConfig
small = record { workers = 2; queue_size = 1 }

-- The second job meets a full queue.
abbrev events : List Event
events =
    open_call call
    ∷ submit_job false false (job 1)
    ∷ submit_job false false (job 2)
    ∷ take_one
    ∷ find_one 0
    ∷ close_session "s" (record { cap = 1; items = [] })
    ∷ end_context 0
    ∷ run_one 0 none
    ∷ []

pool_accounts_example :
    (wp : WorkerPool ℕ) × (run open_counter count_bytes events (new_worker_pool small) ≡ ok wp)
    × IsAccounted 2 wp
pool_accounts_example = pool_accounts open_counter count_bytes small events (call-IsUsable, tt)

abbrev pool : WorkerPool ℕ
pool = record {
  cfg = record { workers = 2; queue_size = 2 };
  queue = record { cap = 2; items = [] };
  pipelines = ("s", 0) ∷ [];
  heap = chain ∷ [];
  counts = record { submitted = 0; dropped = 0; processed = 0; decode_errors = 0 };
  held = [];
  skipped = 0;
  handled = [];
}

jobs_overtake_example :
    (wp : WorkerPool ℕ) × (run open_counter count_bytes overtaking (waiting (job 1) (job 2) [] pool)
      ≡ ok wp)
    × (wp.handled ≡ job 1 ∷ job 2 ∷ [])
unfolding lookup
jobs_overtake_example =
    jobs_overtake open_counter count_bytes (job 1) (job 2) [] 0 pool chain (omega arith) refl refl
      refl chain-IsSound
