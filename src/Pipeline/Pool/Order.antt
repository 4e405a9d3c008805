-- ===== src/Pipeline/Pool/Order.antt =====
-- The order in which the pool of workers (internal/pipeline/worker_pool.go) runs the jobs of one session.
use Prim.Native.String.{String}
use media_ai.Prelude.{
  ℕ, ◌≤◌, ◌<◌, ◌≡◌, refl, ap, ◌∙◌, Bool, true, Option, none, some, List, [], ◌∷◌, ◌++◌, ltb, length,
  drop, arith, get_elem?, get_elem?-update_at, update_at, remove_at, ok, ◌>>=◌,
}
use media_ai.Prelude.Int.{ℤ}
use media_ai.Prelude.Assoc.{text_key, lookup}
use media_ai.Media.{AudioJob, AudioChunk}
use media_ai.Channel.{try_recv}
use media_ai.Pipeline.Chain.{Chain, Decoder, process}
use media_ai.Pipeline.Chain.Sound.{IsSound, process-IsSound}
use media_ai.Pipeline.Pool.{WorkerPool, taken, found, tally, take_job, find_pipeline, run_pipeline}
use media_ai.Pipeline.Pool.Accounting.{Event, take_one, find_one, run_one}
use media_ai.Pipeline.Pool.History.{run, step}

take_job_lem :
    {D : Type 0} (wp : WorkerPool D) (job : AudioJob) (rest : List AudioJob)
    → length wp.held < wp.cfg.workers
    → wp.queue.items ≡ job ∷ rest
    → take_job wp
      ≡ record wp { queue = record wp.queue { items = rest }; held = wp.held ++ taken job ∷ [] }
unfolding take_job try_recv
take_job_lem wp job rest free queued =
    let given : ltb (length wp.held) wp.cfg.workers ≡ true = ground arith in
    rw (given, queued, try_recv) refl

find_pipeline_lem :
    {D : Type 0} (n : ℕ) (wp : WorkerPool D) (job : AudioJob) (at : ℕ)
    → get_elem? wp.held n ≡ some (taken job)
    → lookup job.session_id wp.pipelines ≡ some at
    → find_pipeline n wp ≡ record wp { held = update_at n (found at job) wp.held }
unfolding find_pipeline
find_pipeline_lem n wp job at held known = rw (held, known, find_pipeline) refl

run_pipeline_lem :
    {D : Type 0} (decode : D → List ℕ → D × Option (List ℤ)) (n : ℕ) (until : Option ℕ)
    (wp : WorkerPool D) (job : AudioJob) (at : ℕ) (sp sp' : Chain D) {chunks : List AudioChunk}
    {good : Bool}
    → get_elem? wp.held n ≡ some (found at job)
    → get_elem? wp.heap at ≡ some sp
    → process decode until job.packet sp ≡ ok (sp', chunks, good)
    → run_pipeline decode n until wp
      ≡ ok (record wp {
        heap = update_at at sp' wp.heap;
        held = remove_at n wp.held;
        handled = job ∷ wp.handled;
        counts = tally good wp.counts;
      })
unfolding run_pipeline
run_pipeline_lem decode n until wp job at sp sp' held there ran =
    rw (held, there, ran, run_pipeline) refl

-- Take a job, take another, look both up; the worker with the second job gets the chain's lock first.
abbrev pub overtaking : List Event
overtaking = take_one ∷ take_one ∷ find_one 0 ∷ find_one 1 ∷ run_one 1 none ∷ run_one 0 none ∷ []

-- The two jobs wait at the head of the queue, and no worker is busy.
abbrev pub waiting :
    {D : Type 0} → AudioJob → AudioJob → List AudioJob → WorkerPool D → WorkerPool D
waiting first second rest wp = record wp {
  queue = record wp.queue { items = first ∷ second ∷ rest };
  held = [];
}

module _ {D : Type 0} (open_decoder : String → ℕ → ℕ → Option (Decoder D))
    (decode : D → List ℕ → D × Option (List ℤ)) where
  -- Where no worker is busy and there are two at least, the two jobs at the head of the queue are of one session, that
  -- session is registered, and its chain has a mono decoder, an input rate that is not 0, a phase below it, and a chunker
  -- that can cut: there is an interleaving of the workers' steps that runs without a panic and hands the chain the second
  -- job's packet before the first's.
  pub jobs_overtake :
      (first second : AudioJob) (rest : List AudioJob) (at : ℕ) (wp : WorkerPool D) (sp : Chain D)
      → 2 ≤ wp.cfg.workers
      → second.session_id ≡ first.session_id
      → lookup first.session_id wp.pipelines ≡ some at
      → get_elem? wp.heap at ≡ some sp
      → IsSound sp
      → (wp' : WorkerPool D) × (run open_decoder decode overtaking (waiting first second rest wp)
          ≡ ok wp')
        × (wp'.handled ≡ first ∷ second ∷ wp.handled)
  unfolding run step
  jobs_overtake first second rest at wp sp many same known there sound =
      let (sp', chunks, good, ran, sound') = process-IsSound decode none second.packet sp sound in
      let (after, chunks', good', ran', sound'') =
        process-IsSound decode none first.packet sp' sound' in
      let again = get_elem?-update_at at sp' wp.heap there in
      let p : WorkerPool D = waiting first second rest wp in
      let p1 : WorkerPool D = record wp {
        queue = record wp.queue { items = second ∷ rest };
        held = taken first ∷ [];
      } in
      let p2 : WorkerPool D = record wp {
        queue = record wp.queue { items = rest };
        held = taken first ∷ taken second ∷ [];
      } in
      let p3 : WorkerPool D = record p2 { held = found at first ∷ taken second ∷ [] } in
      let p4 : WorkerPool D = record p2 { held = found at first ∷ found at second ∷ [] } in
      let p5 : WorkerPool D = record p2 {
        heap = update_at at sp' wp.heap;
        held = found at first ∷ [];
        handled = second ∷ wp.handled;
        counts = tally good wp.counts;
      } in
      let rest_of = λ (n : ℕ) (q : WorkerPool D). run open_decoder decode (drop n overtaking) q in
      (
        record p5 {
          held = [];
          heap = update_at at after (update_at at sp' wp.heap);
          handled = first ∷ second ∷ wp.handled;
          counts = tally good' (tally good wp.counts);
        },
        ap (rest_of 1) (take_job_lem p first (second ∷ rest) (omega arith) refl)
            ∙ ap (rest_of 2) (take_job_lem p1 second rest (omega arith) refl)
            ∙ ap (rest_of 3) (find_pipeline_lem 0 p2 first at refl known)
            ∙ ap (rest_of 4) (
                find_pipeline_lem 1 p3 second at refl
                  (ap (λ s. lookup s wp.pipelines) same ∙ known))
            ∙ ap (λ r. r >>= rest_of 5)
                (run_pipeline_lem decode 1 none p4 second at sp sp' refl there ran)
            ∙ ap (λ r. r >>= rest_of 6)
                (run_pipeline_lem decode 0 none p5 first at sp' after refl again ran'),
        refl,
      )
