-- ===== src/Pipeline/Pool.antt =====
-- The pool of workers (internal/pipeline/worker_pool.go). Go's map from sessions to pipelines holds
-- pointers: `pipelines` maps a session to a place in `heap`, where the chains live, since a worker
-- that has looked one up keeps it after the session is gone.
use Prim.Native.String.{String}
use media_ai.Prelude.{
  ℕ, suc, ◌+◌, ◌%◌, ◌^◌, ◌<◌, Bool, true, false, Option, none, some, List, [], ◌∷◌, ◌++◌, ltb, not,
  ◌&&◌, ◌||◌, if◌then◌else◌, Result, ok, err, ◌>>=◌, Fault, length, get_elem?, update_at, remove_at,
}
use media_ai.Prelude.Int.{ℤ}
use media_ai.Prelude.Assoc.{text_key, insert, lookup, delete}
use media_ai.Media.{MediaPacket, AudioChunk, AudioJob}
use media_ai.Channel.{Chan, make, try_send, try_recv}
use media_ai.Pipeline.Chain.{Chain, Decoder, SessionConfig, new_chain, process, flush}
pub mod Accounting
pub mod History
pub mod Order

pub record WorkerPoolConfig : Type 0 where
  pub workers : ℕ
  pub queue_size : ℕ

unfoldable pub default_worker_pool_config : WorkerPoolConfig
default_worker_pool_config = record { workers = 16; queue_size = 8192 }

-- The counters are uint64.
pub record Stats : Type 0 where
  pub submitted : ℕ
  pub dropped : ℕ
  pub processed : ℕ
  pub decode_errors : ℕ

-- A worker that has taken a job, and one that has also found the job's pipeline.
pub data Held : Type 0 where
  taken : AudioJob → Held
  found : ℕ → AudioJob → Held

-- `skipped` counts, and `handled` lists, the newest first, what the source keeps no record of: the
-- jobs without a pipeline, and those that a pipeline has processed.
pub record WorkerPool (D : Type 0) : Type 0 where
  pub cfg : WorkerPoolConfig
  pub queue : Chan AudioJob
  pub pipelines : List (String × ℕ)
  pub heap : List (Chain D)
  pub counts : Stats
  pub held : List Held
  pub skipped : ℕ
  pub handled : List AudioJob

pub data Refusal : Type 0 where
  queue_full context_done : Refusal

pub data RegisterError : Type 0 where
  session_exists no_codec : RegisterError

abbrev pub u64 : ℕ → ℕ
u64 n = n % 2 ^ 64

pub tally : Bool → Stats → Stats
tally good counts =
    if good
    then record counts { processed = u64 (counts.processed + 1) }
    else record counts { decode_errors = u64 (counts.decode_errors + 1) }

module _ {D : Type 0} where
  unfoldable pub new_worker_pool : WorkerPoolConfig → WorkerPool D
  new_worker_pool cfg = record {
    cfg = cfg;
    queue = make cfg.queue_size;
    pipelines = [];
    heap = [];
    counts = record { submitted = 0; dropped = 0; processed = 0; decode_errors = 0 };
    held = [];
    skipped = 0;
    handled = [];
  }

  pub refuse : Refusal → WorkerPool D → WorkerPool D × Option Refusal
  refuse why wp =
      (record wp { counts = record wp.counts { dropped = u64 (wp.counts.dropped + 1) } }, some why)

  -- `done` says that the caller's context is done, `prefers` that the select takes that case where
  -- the queue has room as well.
  unfoldable pub submit : Bool → Bool → AudioJob → WorkerPool D → WorkerPool D × Option Refusal
  unfolding refuse
  submit done prefers job wp =
      let wp' : WorkerPool D = record wp {
        counts = record wp.counts { submitted = u64 (wp.counts.submitted + 1) };
      } in
      if done && prefers then refuse context_done wp' else elim (try_send job wp.queue) [
        | some queue ↦ (record wp' { queue = queue }, none)
        | none ↦ refuse (if done then context_done else queue_full) wp'
      ]

  unfoldable pub register_session :
      (String → ℕ → ℕ → Option (Decoder D))
      → SessionConfig
      → WorkerPool D
      → Result RegisterError (WorkerPool D)
  register_session open_decoder cfg wp = elim (new_chain open_decoder cfg) [
    | none ↦ err no_codec
    | some sp ↦ elim (lookup cfg.session_id wp.pipelines) [
      | some _ ↦ err session_exists
      | none ↦ ok (record wp {
        pipelines = insert cfg.session_id (length wp.heap) wp.pipelines;
        heap = wp.heap ++ sp ∷ [];
      })
    ]
  ]

  -- The answer is whether the session was there; its chain is flushed into `out`.
  unfoldable pub unregister_session :
      String → Chan AudioChunk → WorkerPool D → Result Fault (WorkerPool D × Chan AudioChunk × Bool)
  unregister_session id out wp = elim (lookup id wp.pipelines) [
    | none ↦ ok (wp, out, false)
    | some at ↦
        let wp' : WorkerPool D = record wp { pipelines = delete id wp.pipelines } in
        elim (get_elem? wp.heap at) [
          | none ↦ ok (wp', out, true)
          | some sp ↦
              (flush sp out >>= λ r. ok (record wp' { heap = update_at at r.0 wp.heap }, r.1, true))
        ]
  ]

  -- A free worker takes a job.
  unfoldable pub take_job : WorkerPool D → WorkerPool D
  take_job wp =
      if ltb (length wp.held) wp.cfg.workers
      then elim (try_recv wp.queue) [
        | none ↦ wp
        | some (job, queue) ↦ record wp { queue = queue; held = wp.held ++ taken job ∷ [] }
      ]
      else wp

  -- The n-th busy worker looks its job's pipeline up, under the read lock.
  unfoldable pub find_pipeline : ℕ → WorkerPool D → WorkerPool D
  find_pipeline n wp = elim (get_elem? wp.held n) [
    | none ↦ wp
    | some (found at job) ↦ wp
    | some (taken job) ↦ elim (lookup job.session_id wp.pipelines) [
      | none ↦ record wp { held = remove_at n wp.held; skipped = suc wp.skipped }
      | some at ↦ record wp { held = update_at n (found at job) wp.held }
    ]
  ]

module _ {D : Type 0} (decode : D → List ℕ → D × Option (List ℤ)) where
  -- The n-th busy worker runs the pipeline that it has found and counts.
  unfoldable pub run_pipeline : ℕ → Option ℕ → WorkerPool D → Result Fault (WorkerPool D)
  unfolding tally
  run_pipeline n until wp = elim (get_elem? wp.held n) [
    | none ↦ ok wp
    | some (taken job) ↦ ok wp
    | some (found at job) ↦ elim (get_elem? wp.heap at) [
      | none ↦ ok wp
      | some sp ↦ process decode until job.packet sp >>= λ r. ok (record wp {
        heap = update_at at r.0 wp.heap;
        held = remove_at n wp.held;
        handled = job ∷ wp.handled;
        counts = tally r.2 wp.counts;
      })
    ]
  ]
