-- ===== src/Pipeline/Pool/Accounting.antt =====
-- Where each job goes (internal/pipeline/worker_pool.go): any interleaving of submissions, of sessions
-- that come and go, of contexts that end, and of the steps of the workers.
use Prim.Native.String.{String}
use media_ai.Prelude.{
  ℕ, suc, ◌+◌, ◌≤◌, ◌≡◌, inl, inr, Bool, ◌&&◌, Option, List, [], ◌∷◌, ltb, length, length-append,
  All, arith, Bool-cases, Option-cases, if◌then◌else◌,
}
use media_ai.Prelude.Assoc.{text_key}
use media_ai.Media.{AudioChunk, AudioJob}
use media_ai.Channel.{Chan, try_send, try_recv, try_send-grows, try_recv-shrinks}
use media_ai.Pipeline.Chain.{SessionConfig}
use media_ai.Pipeline.Chain.Sound.{IsSound}
use media_ai.Pipeline.Pool.{
  WorkerPool, taken, Refusal, queue_full, context_done, u64, refuse, submit, take_job,
}

pub data Event : Type 0 where
  submit_job : Bool → Bool → AudioJob → Event
  open_call : SessionConfig → Event
  close_session : String → Chan AudioChunk → Event
  take_one : Event
  find_one : ℕ → Event
  run_one : ℕ → Option ℕ → Event
  end_context : ℕ → Event

abbrev pub submissions : List Event → ℕ
submissions [] = 0
submissions (submit_job done prefers job ∷ events) = suc (submissions events)
submissions (open_call cfg ∷ events) = submissions events
submissions (close_session id out ∷ events) = submissions events
submissions (take_one ∷ events) = submissions events
submissions (find_one n ∷ events) = submissions events
submissions (run_one n until ∷ events) = submissions events
submissions (end_context at ∷ events) = submissions events

-- `n` jobs were submitted to the pool: each was dropped, waits, is held, or is done with.
pub record IsAccounted {D : Type 0} (n : ℕ) (wp : WorkerPool D) : Type 0 where
  pub counted : wp.counts.submitted ≡ u64 n
  pub total :
      u64 (
        wp.counts.dropped
        + wp.counts.processed
        + wp.counts.decode_errors
        + wp.skipped
        + length wp.held
        + length wp.queue.items)
      ≡ u64 n
  pub fits : length wp.queue.items ≤ wp.queue.cap
  pub busy : length wp.held ≤ wp.cfg.workers
  pub sound : All IsSound wp.heap

module _ {D : Type 0} where
  pub submit-IsAccounted :
      (done prefers : Bool) (job : AudioJob) (wp : WorkerPool D) (n : ℕ)
      → IsAccounted n wp
      → IsAccounted (suc n) (submit done prefers job wp).0
  unfolding submit refuse
  submit-IsAccounted done prefers job wp n kept = elim (Bool-cases (done && prefers)) [
    | inl cancelled ↦ rw (cancelled, submit) (refused context_done)
    | inr tried ↦ elim (Option-cases (try_send job wp.queue)) [
      | inl full ↦ rw (tried, full, submit) (refused (if done then context_done else queue_full))
      | inr (queue, queued) ↦
          let (longer, still_fits) = try_send-grows job wp.queue queue queued in
          rw (tried, queued, submit)
            (record {
              counted = omega (arith, kept.counted);
              total = omega (arith, kept.total);
              fits = still_fits;
              busy = kept.busy;
              sound = kept.sound;
            })
    ]
  ]
    where
      refused :
          Refusal
          → IsAccounted (suc n) (record wp {
            counts = record wp.counts {
              submitted = u64 (wp.counts.submitted + 1);
              dropped = u64 (wp.counts.dropped + 1);
            };
          })
      refused why = record {
        counted = omega (arith, kept.counted);
        total = omega (arith, kept.total);
        fits = kept.fits;
        busy = kept.busy;
        sound = kept.sound;
      }

  pub take_job-IsAccounted :
      (wp : WorkerPool D) (n : ℕ) → IsAccounted n wp → IsAccounted n (take_job wp)
  unfolding take_job
  take_job-IsAccounted wp n kept = elim (Bool-cases (ltb (length wp.held) wp.cfg.workers)) [
    | inr busy ↦ rw (busy, take_job) kept
    | inl free ↦ elim (Option-cases (try_recv wp.queue)) [
      | inl empty ↦ rw (free, empty, take_job) kept
      | inr ((job, queue), got) ↦
          let (shorter, same_cap) = try_recv-shrinks wp.queue job queue got in
          let more = length-append wp.held (taken job ∷ []) in
          rw (free, got, take_job)
            (record {
              counted = kept.counted;
              total = omega (arith, kept.total, more);
              fits = omega (arith, kept.fits);
              busy = ground (arith, more);
              sound = kept.sound;
            })
    ]
  ]
