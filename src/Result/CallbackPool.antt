-- ===== src/Result/CallbackPool.antt =====
-- The pool that stands between the dispatcher and a slow sink (internal/result/callback_pool.go). The
-- sink is an interface: whether its `Send` answers nil is given from outside, for each call.
use media_ai.Prelude.{
  ℕ, suc, ◌+◌, ◌%◌, ◌^◌, ◌≤◌, ◌≡◌, refl, ap, sym, ◌∙◌, Bool, true, false, Option, none, some, List,
  [], ◌∷◌, ◌++◌, length, length-append, arith, Option-cases, Bool-cases, inl, inr, subst,
  if◌then◌else◌, if_not, ltb, get_elem?, remove_at, length-remove_at,
}
use media_ai.Media.{RecognitionResult}
use media_ai.Channel.{Chan, make, try_send, try_recv, try_send-grows, try_recv-shrinks}
mod Tests

pub record PoolConfig : Type 0 where
  pub workers : ℕ
  pub queue_size : ℕ
  pub send_timeout : ℕ  -- 0 for none

unfoldable pub default_pool_config : PoolConfig
default_pool_config = record { workers = 8; queue_size = 1024; send_timeout = 5000000000 }

-- The counters are uint64.
pub record CallbackPool : Type 0 where
  pub cfg : PoolConfig
  pub queue : Chan RecognitionResult
  pub pushed : ℕ
  pub dropped : ℕ
  pub sent : ℕ
  pub send_errors : ℕ

abbrev pub u64 : ℕ → ℕ
u64 n = n % 2 ^ 64

unfoldable pub new_callback_pool : PoolConfig → CallbackPool
new_callback_pool cfg = record {
  cfg = cfg;
  queue = make cfg.queue_size;
  pushed = 0;
  dropped = 0;
  sent = 0;
  send_errors = 0;
}

-- The pool, and whether the answer is nil; otherwise it is ErrCallbackQueueFull.
unfoldable pub send : RecognitionResult → CallbackPool → CallbackPool × Bool
send r p = elim (try_send r p.queue) [
  | some queue ↦ (record p { pushed = u64 (p.pushed + 1); queue = queue }, true)
  | none ↦ (record p { pushed = u64 (p.pushed + 1); dropped = u64 (p.dropped + 1) }, false)
]

unfoldable pub call_sink : Bool → CallbackPool → CallbackPool
call_sink answers_nil p =
    if answers_nil
    then record p { sent = u64 (p.sent + 1) }
    else record p { send_errors = u64 (p.send_errors + 1) }

-- The pool and the results that its workers hold while the sink's `Send` runs.
pub record System : Type 0 where
  pub pool : CallbackPool
  pub held : List RecognitionResult

-- A free worker takes a result, if there is one.
unfoldable pub take_result : System → System
take_result s =
    if ltb (length s.held) s.pool.cfg.workers
    then elim (try_recv s.pool.queue) [
      | none ↦ s
      | some (r, queue) ↦ record s {
        pool = record s.pool { queue = queue };
        held = s.held ++ r ∷ [];
      }
    ]
    else s

-- The sink answers for the n-th of the held results.
unfoldable pub answer_one : ℕ → Bool → System → System
unfolding call_sink
answer_one n answers_nil s = elim (get_elem? s.held n) [
  | none ↦ s
  | some r ↦ record s { pool = call_sink answers_nil s.pool; held = remove_at n s.held }
]

pub data Event : Type 0 where
  send_one : RecognitionResult → Event
  take : Event
  answer : ℕ → Bool → Event

pub step : Event → System → System
step (send_one r) s = record s { pool = (send r s.pool).0 }
step take s = take_result s
step (answer n answers_nil) s = answer_one n answers_nil s

pub run : List Event → System → System
run [] s = s
run (e ∷ es) s = run es (step e s)

unfoldable pub start : PoolConfig → System
start cfg = record { pool = new_callback_pool cfg; held = [] }

abbrev pub sends : List Event → ℕ
sends [] = 0
sends (send_one r ∷ es) = suc (sends es)
sends (take ∷ es) = sends es
sends (answer n answers_nil ∷ es) = sends es

-- `n` results were sent to the pool, and no more are held than it has workers.
pub record IsAccounted (n : ℕ) (s : System) : Type 0 where
  pub counted : s.pool.pushed ≡ u64 n
  pub total :
      u64 (
        s.pool.sent
        + s.pool.send_errors
        + s.pool.dropped
        + length s.pool.queue.items
        + length s.held)
      ≡ u64 n
  pub fits : length s.pool.queue.items ≤ s.pool.queue.cap
  pub staffed : length s.held ≤ s.pool.cfg.workers

send-IsAccounted :
    (r : RecognitionResult) (s : System) (n : ℕ)
    → IsAccounted n s
    → IsAccounted (suc n) (record s { pool = (send r s.pool).0 })
unfolding send
send-IsAccounted r s n kept = elim (Option-cases (try_send r s.pool.queue)) [
  | inl full ↦
      rw (full, send)
        (record {
          counted = omega (arith, kept.counted);
          total = omega (arith, kept.total);
          fits = kept.fits;
          staffed = kept.staffed;
        })
  | inr (queue, queued) ↦
      let (longer, still_fits) = try_send-grows r s.pool.queue queue queued in
      rw (queued, send)
        (record {
          counted = omega (arith, kept.counted);
          total = omega (arith, kept.total);
          fits = still_fits;
          staffed = kept.staffed;
        })
]

-- Exactly one of the two counters rises, and nothing else changes.
pub record Counts (p p' : CallbackPool) : Type 0 where
  pub one : u64 (p'.sent + p'.send_errors) ≡ u64 (p.sent + p.send_errors + 1)
  pub queue : p'.queue ≡ p.queue
  pub pushed : p'.pushed ≡ p.pushed
  pub dropped : p'.dropped ≡ p.dropped
  pub cfg : p'.cfg ≡ p.cfg

call_sink-Counts : (answers_nil : Bool) (p : CallbackPool) → Counts p (call_sink answers_nil p)
unfolding call_sink
call_sink-Counts true p = record {
  one = omega arith;
  queue = refl;
  pushed = refl;
  dropped = refl;
  cfg = refl;
}
call_sink-Counts false p = record {
  one = omega arith;
  queue = refl;
  pushed = refl;
  dropped = refl;
  cfg = refl;
}

take_result-IsAccounted : (s : System) (n : ℕ) → IsAccounted n s → IsAccounted n (take_result s)
unfolding take_result
take_result-IsAccounted s n kept = elim (Bool-cases (ltb (length s.held) s.pool.cfg.workers)) [
  | inr busy ↦ subst (IsAccounted n) (sym (if_not _ busy)) kept
  | inl free ↦ elim (Option-cases (try_recv s.pool.queue)) [
    | inl empty ↦ rw (free, empty, take_result) kept
    | inr ((r, queue), got) ↦
        let (shorter, same_cap) = try_recv-shrinks s.pool.queue r queue got in
        let longer = length-append s.held (r ∷ []) in
        rw (free, got, take_result)
          (record {
            counted = kept.counted;
            total = omega (arith, kept.total, shorter, longer);
            fits = omega (arith, kept.fits, shorter, same_cap);
            staffed = ground (arith, longer);
          })
  ]
]

answer_one-IsAccounted :
    (i : ℕ) (answers_nil : Bool) (s : System) (n : ℕ)
    → IsAccounted n s
    → IsAccounted n (answer_one i answers_nil s)
unfolding answer_one
answer_one-IsAccounted i answers_nil s n kept = elim (Option-cases (get_elem? s.held i)) [
  | inl missing ↦ rw (missing, answer_one) kept
  | inr (r, found) ↦
      let one = call_sink-Counts answers_nil s.pool in
      let size = ap (λ (q : Chan RecognitionResult). length q.items) one.queue in
      let room = ap (λ (q : Chan RecognitionResult). q.cap) one.queue in
      let hired = ap (λ (c : PoolConfig). c.workers) one.cfg in
      let less = length-remove_at i s.held found in
      rw (found, answer_one)
        (record {
          counted = one.pushed ∙ kept.counted;
          total = omega (arith, kept.total, one.one, one.dropped, size, less);
          fits = omega (arith, kept.fits, size, room);
          staffed = omega (arith, kept.staffed, hired, less);
        })
]

run_keeps :
    (es : List Event) (s : System) (n : ℕ) → IsAccounted n s → IsAccounted (n + sends es) (run es s)
unfolding run step
run_keeps [] s n kept = subst (λ (x : ℕ). IsAccounted x s) (omega arith) kept
run_keeps (send_one r ∷ es) s n kept =
    subst (λ (x : ℕ). IsAccounted x (run es (step (send_one r) s))) (omega arith)
      (run_keeps es (step (send_one r) s) (suc n) (send-IsAccounted r s n kept))
run_keeps (take ∷ es) s n kept = run_keeps es (take_result s) n (take_result-IsAccounted s n kept)
run_keeps (answer i answers_nil ∷ es) s n kept =
    run_keeps es (answer_one i answers_nil s) n (answer_one-IsAccounted i answers_nil s n kept)

-- From a new pool, after any interleaving of sends, of workers that take a result, and of the sink's answers, each
-- result that was sent to the pool is counted once, as delivered, failed or dropped, or is still queued or held by a
-- worker, modulo 2 ^ 64; `pushed` is their number, the queue holds at most what it has room for, and the workers at most
-- one result each.
pub run-IsAccounted :
    (cfg : PoolConfig) (es : List Event) → IsAccounted (sends es) (run es (start cfg))
unfolding start new_callback_pool make
run-IsAccounted cfg es =
    subst (λ (x : ℕ). IsAccounted x (run es (start cfg))) (omega arith)
      (run_keeps es (start cfg) 0
        (record { counted = refl; total = refl; fits = omega arith; staffed = omega arith }))
