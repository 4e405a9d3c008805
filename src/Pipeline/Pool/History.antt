-- ===== src/Pipeline/Pool/History.antt =====
-- Runs of the pool of workers (internal/pipeline/worker_pool.go).
use Prim.Native.String.{String}
use media_ai.Prelude.{
  ℕ, suc, ◌+◌, ◌≡◌, refl, subst, inl, inr, Bool, true, false, Option, none, some, List, [], ◌∷◌,
  length-remove_at, length-update_at, All-append, All-update_at, All-get_elem?, get_elem?,
  update_at, remove_at, Result, ok, err, ◌>>=◌, Fault, arith, Option-cases,
}
use media_ai.Prelude.Int.{ℤ}
use media_ai.Prelude.Assoc.{text_key, lookup, delete}
use media_ai.Media.{AudioChunk}
use media_ai.Channel.{Chan, make}
use media_ai.Pipeline.Chain.{Chain, Decoder, SessionConfig, new_chain}
use media_ai.Pipeline.Chain.Sound.{
  IsSound, IsUsable, process-IsSound, flush-IsSound, new_chain-IsSound,
}
use media_ai.Pipeline.Pool.{
  WorkerPool, WorkerPoolConfig, taken, found, new_worker_pool, tally, submit, register_session,
  unregister_session, take_job, find_pipeline, run_pipeline,
}
use media_ai.Pipeline.Pool.Accounting.{
  Event, submit_job, open_call, close_session, take_one, find_one, run_one, end_context,
  submissions, IsAccounted, submit-IsAccounted, take_job-IsAccounted,
}

module _ {D : Type 0} where
  -- The context of the session that owns the pipeline `at` ends.
  pub context_ended : ℕ → WorkerPool D → WorkerPool D
  context_ended at wp = elim (get_elem? wp.heap at) [
    | none ↦ wp
    | some sp ↦ record wp { heap = update_at at (record sp { done = true }) wp.heap }
  ]

  context_ended-IsAccounted :
      (at : ℕ) (wp : WorkerPool D) (n : ℕ) → IsAccounted n wp → IsAccounted n (context_ended at wp)
  unfolding context_ended
  context_ended-IsAccounted at wp n kept = elim (Option-cases (get_elem? wp.heap at)) [
    | inl absent ↦ rw (absent, context_ended) kept
    | inr (sp, there) ↦
        let sound = All-get_elem? IsSound at wp.heap kept.sound there in
        let over : Chain D = record sp { done = true } in
        rw (there, context_ended)
          (record {
            counted = kept.counted;
            total = kept.total;
            fits = kept.fits;
            busy = kept.busy;
            sound =
                All-update_at IsSound at over wp.heap
                  (record { aligned = sound.aligned; ready = sound.ready }) kept.sound;
          })
  ]

  find_pipeline-IsAccounted :
      (m : ℕ) (wp : WorkerPool D) (n : ℕ) → IsAccounted n wp → IsAccounted n (find_pipeline m wp)
  unfolding find_pipeline
  find_pipeline-IsAccounted m wp n kept = elim (Option-cases (get_elem? wp.held m)) [
    | inl absent ↦ rw (absent, find_pipeline) kept
    | inr (found at job, there) ↦ rw (there, find_pipeline) kept
    | inr (taken job, there) ↦ elim (Option-cases (lookup job.session_id wp.pipelines)) [
      | inl gone ↦
          let fewer = length-remove_at m wp.held there in
          rw (there, gone, find_pipeline)
            (record {
              counted = kept.counted;
              total = omega (arith, kept.total, fewer);
              fits = kept.fits;
              busy = omega (arith, kept.busy, fewer);
              sound = kept.sound;
            })
      | inr (at, known) ↦
          let same = length-update_at m (found at job) wp.held in
          rw (there, known, find_pipeline)
            (record {
              counted = kept.counted;
              total = omega (arith, kept.total, same);
              fits = kept.fits;
              busy = omega (arith, kept.busy, same);
              sound = kept.sound;
            })
    ]
  ]

  unregister-IsAccounted :
      (id : String) (out : Chan AudioChunk) (wp : WorkerPool D) (n : ℕ)
      → IsAccounted n wp
      → (wp' : WorkerPool D) × (out' : Chan AudioChunk) × (there : Bool) × (unregister_session id
            out wp
          ≡ ok (wp', out', there))
        × IsAccounted n wp'
  unfolding unregister_session
  unregister-IsAccounted id out wp n kept = elim (Option-cases (lookup id wp.pipelines)) [
    | inl unknown ↦ (wp, out, false, rw (unknown, unregister_session) refl, kept)
    | inr (at, known) ↦ elim (Option-cases (get_elem? wp.heap at)) [
      | inl absent ↦ (
        record wp { pipelines = delete id wp.pipelines },
        out,
        true,
        rw (known, absent, unregister_session) refl,
        record {
          counted = kept.counted;
          total = kept.total;
          fits = kept.fits;
          busy = kept.busy;
          sound = kept.sound;
        },
      )
      | inr (sp, there) ↦
          let (sp', out', flushed, sound) =
            flush-IsSound sp out (All-get_elem? IsSound at wp.heap kept.sound there) in
          (
            record wp { pipelines = delete id wp.pipelines; heap = update_at at sp' wp.heap },
            out',
            true,
            rw (known, there, flushed, unregister_session) refl,
            record {
              counted = kept.counted;
              total = kept.total;
              fits = kept.fits;
              busy = kept.busy;
              sound = All-update_at IsSound at sp' wp.heap sound kept.sound;
            },
          )
    ]
  ]

  -- The pool after a registration, unchanged by one that fails.
  pub registered :
      (String → ℕ → ℕ → Option (Decoder D)) → SessionConfig → WorkerPool D → WorkerPool D
  registered open_decoder cfg wp = elim (register_session open_decoder cfg wp) [
    | err _ ↦ wp
    | ok wp' ↦ wp'
  ]

  registered-IsAccounted :
      (open_decoder : String → ℕ → ℕ → Option (Decoder D)) (cfg : SessionConfig) (wp : WorkerPool D)
      (n : ℕ)
      → IsUsable open_decoder cfg
      → IsAccounted n wp
      → IsAccounted n (registered open_decoder cfg wp)
  unfolding register_session registered
  registered-IsAccounted open_decoder cfg wp n usable kept =
      elim (Option-cases (new_chain open_decoder cfg)) [
        | inl unknown ↦ rw (unknown, registered, register_session) kept
        | inr (sp, made) ↦ elim (Option-cases (lookup cfg.session_id wp.pipelines)) [
          | inr (at, taken_id) ↦ rw (made, taken_id, registered, register_session) kept
          | inl fresh ↦
              rw (made, fresh, registered, register_session)
                (record {
                  counted = kept.counted;
                  total = kept.total;
                  fits = kept.fits;
                  busy = kept.busy;
                  sound =
                      All-append IsSound wp.heap (sp ∷ []) kept.sound
                        (new_chain-IsSound open_decoder cfg sp usable made, tt);
                })
        ]
      ]

module _ {D : Type 0} (decode : D → List ℕ → D × Option (List ℤ)) where
  run_pipeline-IsAccounted :
      (m : ℕ) (until : Option ℕ) (wp : WorkerPool D) (n : ℕ)
      → IsAccounted n wp
      → (wp' : WorkerPool D) × (run_pipeline decode m until wp ≡ ok wp') × IsAccounted n wp'
  unfolding run_pipeline tally
  run_pipeline-IsAccounted m until wp n kept = elim (Option-cases (get_elem? wp.held m)) [
    | inl absent ↦ (wp, rw (absent, run_pipeline) refl, kept)
    | inr (taken job, held) ↦ (wp, rw (held, run_pipeline) refl, kept)
    | inr (found at job, held) ↦ elim (Option-cases (get_elem? wp.heap at)) [
      | inl absent ↦ (wp, rw (held, absent, run_pipeline) refl, kept)
      | inr (sp, there) ↦
          let (sp', chunks, good, ran, sound) =
            process-IsSound decode until job.packet sp
              (All-get_elem? IsSound at wp.heap kept.sound there) in
          let fewer = length-remove_at m wp.held held in
          (
            record wp {
              heap = update_at at sp' wp.heap;
              held = remove_at m wp.held;
              handled = job ∷ wp.handled;
              counts = tally good wp.counts;
            },
            rw (held, there, ran, run_pipeline) refl,
            record {
              counted = ground (arith, kept.counted);
              total = ground (arith, kept.total, fewer);
              fits = kept.fits;
              busy = omega (arith, kept.busy, fewer);
              sound = All-update_at IsSound at sp' wp.heap sound kept.sound;
            },
          )
    ]
  ]

module _ {D : Type 0} (open_decoder : String → ℕ → ℕ → Option (Decoder D))
    (decode : D → List ℕ → D × Option (List ℤ)) where
  unfoldable pub step : Event → WorkerPool D → Result Fault (WorkerPool D)
  unfolding registered context_ended
  step (submit_job done prefers job) wp = ok (submit done prefers job wp).0
  step (open_call cfg) wp = ok (registered open_decoder cfg wp)
  step (close_session id out) wp = unregister_session id out wp >>= λ r. ok r.0
  step take_one wp = ok (take_job wp)
  step (find_one n) wp = ok (find_pipeline n wp)
  step (run_one n until) wp = run_pipeline decode n until wp
  step (end_context at) wp = ok (context_ended at wp)

  unfoldable pub run : List Event → WorkerPool D → Result Fault (WorkerPool D)
  run [] wp = ok wp
  run (event ∷ events) wp = step event wp >>= run events

  -- The sessions that are opened have configurations that can work.
  abbrev pub AllUsable : List Event → Type 0
  AllUsable [] = Unit
  AllUsable (open_call cfg ∷ events) = IsUsable open_decoder cfg × AllUsable events
  AllUsable (submit_job done prefers job ∷ events) = AllUsable events
  AllUsable (close_session id out ∷ events) = AllUsable events
  AllUsable (take_one ∷ events) = AllUsable events
  AllUsable (find_one n ∷ events) = AllUsable events
  AllUsable (run_one n until ∷ events) = AllUsable events
  AllUsable (end_context at ∷ events) = AllUsable events

  run-IsAccounted :
      (events : List Event) (wp : WorkerPool D) (n : ℕ)
      → AllUsable events
      → IsAccounted n wp
      → (wp' : WorkerPool D) × (run events wp ≡ ok wp') × IsAccounted (n + submissions events) wp'
  unfolding run step
  run-IsAccounted [] wp n usable kept = (wp, refl, subst (λ m. IsAccounted m wp) (omega arith) kept)
  run-IsAccounted (submit_job done prefers job ∷ events) wp n usable kept =
      let (wp', ran, after) =
        run-IsAccounted events (submit done prefers job wp).0 (suc n) usable
          (submit-IsAccounted done prefers job wp n kept) in
      (wp', ran, subst (λ m. IsAccounted m wp') (omega arith) after)
  run-IsAccounted (open_call cfg ∷ events) wp n usable kept =
      run-IsAccounted events (registered open_decoder cfg wp) n usable.1
        (registered-IsAccounted open_decoder cfg wp n usable.0 kept)
  run-IsAccounted (close_session id out ∷ events) wp n usable kept =
      let (wp', out', there, closed, still) = unregister-IsAccounted id out wp n kept in
      let (after, ran, accounted) = run-IsAccounted events wp' n usable still in
      (after, rw closed ran, accounted)
  run-IsAccounted (take_one ∷ events) wp n usable kept =
      run-IsAccounted events (take_job wp) n usable (take_job-IsAccounted wp n kept)
  run-IsAccounted (find_one m ∷ events) wp n usable kept =
      run-IsAccounted events (find_pipeline m wp) n usable (find_pipeline-IsAccounted m wp n kept)
  run-IsAccounted (end_context at ∷ events) wp n usable kept =
      run-IsAccounted events (context_ended at wp) n usable (context_ended-IsAccounted at wp n kept)
  run-IsAccounted (run_one m until ∷ events) wp n usable kept =
      let (wp', piped, still) = run_pipeline-IsAccounted decode m until wp n kept in
      let (after, ran, accounted) = run-IsAccounted events wp' n usable still in
      (after, rw piped ran, accounted)

  -- From a new pool, any interleaving of submissions, sessions that open with usable configurations and close,
  -- contexts that end, and steps of the workers runs without a panic. Afterwards `submitted` is the number of submissions, and
  -- modulo 2 ^ 64 that is the sum of the jobs dropped, processed, failed in decoding, skipped for want
  -- of a session, held by a worker, and waiting in the queue; the queue is within its capacity,
  -- and no more jobs are held than there are workers.
  pub pool_accounts :
      (cfg : WorkerPoolConfig) (events : List Event)
      → AllUsable events
      → (wp : WorkerPool D) × (run events (new_worker_pool cfg) ≡ ok wp)
        × IsAccounted (submissions events) wp
  unfolding new_worker_pool make
  pool_accounts cfg events usable =
      let (wp, ran, accounted) = run-IsAccounted events (new_worker_pool cfg) 0 usable (record {
        counted = omega arith;
        total = omega arith;
        fits = omega arith;
        busy = omega arith;
        sound = tt;
      }) in
      (wp, ran, subst (λ m. IsAccounted m wp) (omega arith) accounted)
