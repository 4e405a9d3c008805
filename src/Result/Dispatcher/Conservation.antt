-- ===== src/Result/Dispatcher/Conservation.antt =====
-- Where each pushed result goes (internal/result/dispatcher.go): any interleaving of
-- pushes, of blocked pushes that go on, and of workers that take a result and dispatch it.
use Prim.Native.String.{String}
use media_ai.Prelude.{
  ℕ, zero, suc, ◌+◌, ◌%◌, ◌^◌, ◌≤◌, ◌<◌, ◌≡◌, refl, sym, ap, ◌∙◌, ◌⊎◌, inl, inr, Bool, true, false,
  not, ◌&&◌, ◌||◌, Option, none, some, List, [], ◌∷◌, ◌++◌, length, if◌then◌else◌, subst, arith,
  Bool-cases, Option-cases, All, get_elem?, length-append,
}
use media_ai.Media.{RecognitionResult}
use media_ai.Channel.{Chan, Fits, make, try_send, try_recv, try_send-grows, try_send-items}
use media_ai.Result.Dispatcher.{
  Sink, Config, Dispatcher, register_sink, unregister_sinks, replace_http_sink, Attempt,
  shutting_down, succeeds, fails, Pushed, accepted, dropped_quietly, cancelled, blocked, u64,
  new_dispatcher, sinks_of, count_dropped, count_sent, select_send, push, resume, send_all,
  dispatch,
}
use media_ai.Result.Dispatcher.Sinks.{Attempt-cases}
pub mod History

-- The dispatcher and where each pushed result has gone.
pub record System : Type 0 where
  pub d : Dispatcher
  pub waiting : List RecognitionResult
  pub taken : List RecognitionResult
  pub quiet : List RecognitionResult
  pub gone : List RecognitionResult

-- A push, the n-th blocked push being tried again, a worker, and the three changes of a session's sinks; the two flags
-- are whether the context is done and what a select prefers.
pub data Event : Type 0 where
  submit : Bool → Bool → RecognitionResult → Event
  wake : ℕ → Bool → Bool → Event
  work : (Sink → Attempt) → Event
  register : String → Sink → Event
  unregister : String → Event
  replace : String → Option Sink → Event

pub without : ℕ → List RecognitionResult → List RecognitionResult
without n [] = []
without zero (r ∷ rs) = rs
without (suc n) (r ∷ rs) = r ∷ without n rs

pub settle : RecognitionResult → Dispatcher × Pushed → System → System
settle r (d, accepted) s = record s { d = d }
settle r (d, dropped_quietly) s = record s { d = d; quiet = r ∷ s.quiet }
settle r (d, cancelled) s = record s { d = d; gone = r ∷ s.gone }
settle r (d, blocked) s = record s { d = d; waiting = r ∷ s.waiting }

pub step : Event → System → System
unfolding settle without
step (submit done prefers r) s = settle r (push done prefers r s.d) s
step (wake n done prefers) s = elim (get_elem? s.waiting n) [
  | none ↦ s
  | some r ↦ settle r (resume done prefers r s.d) (record s { waiting = without n s.waiting })
]
step (work attempt) s = elim (try_recv s.d.queue) [
  | none ↦ s
  | some (r, queue) ↦ record s {
    d = dispatch attempt r (record s.d { queue = queue });
    taken = r ∷ s.taken;
  }
]
step (register id sink) s = record s { d = register_sink id sink s.d }
step (unregister id) s = record s { d = unregister_sinks id s.d }
step (replace id sink) s = record s { d = replace_http_sink id sink s.d }

pub run : List Event → System → System
run [] s = s
run (e ∷ es) s = run es (step e s)

pub start : Config → System
start cfg = record { d = new_dispatcher cfg; waiting = []; taken = []; quiet = []; gone = [] }

-- The results that were pushed.
abbrev pub submitted : List Event → List RecognitionResult
submitted [] = []
submitted (submit done prefers r ∷ es) = r ∷ submitted es
submitted (wake n done prefers ∷ es) = submitted es
submitted (work attempt ∷ es) = submitted es
submitted (register id sink ∷ es) = submitted es
submitted (unregister id ∷ es) = submitted es
submitted (replace id sink ∷ es) = submitted es

pub one : (RecognitionResult → Bool) → RecognitionResult → ℕ
one p r = if p r then 1 else 0

-- How many of the list satisfy `p`.
abbrev pub count_if : (RecognitionResult → Bool) → List RecognitionResult → ℕ
count_if p [] = 0
count_if p (r ∷ rs) = one p r + count_if p rs

pub count_if-append :
    (p : RecognitionResult → Bool) (l : List RecognitionResult) (r : RecognitionResult)
    → count_if p (l ++ r ∷ []) ≡ count_if p l + one p r
count_if-append p [] r = omega arith
count_if-append p (x ∷ l) r = omega (arith, count_if-append p l r)

abbrev pub in_sight : (RecognitionResult → Bool) → System → ℕ
in_sight p s =
    count_if p s.taken
    + count_if p s.d.queue.items
    + count_if p s.waiting
    + count_if p s.gone
    + count_if p s.quiet

abbrev pub IsPartial : RecognitionResult → Type 0
IsPartial r = r.is_final ≡ false

-- The results in the five places are the pushed ones, each as often: for every property of results, as many have it.
pub record IsKept (rs : List RecognitionResult) (s : System) : Type 0 where
  pub total : (p : RecognitionResult → Bool) → in_sight p s ≡ count_if p rs
  pub counted : s.d.pushed ≡ u64 (length rs)
  pub dropped : s.d.dropped ≡ u64 (length s.gone + length s.quiet)
  pub partial : All IsPartial s.quiet
  pub fits : length s.d.queue.items ≤ s.d.queue.cap

pub count_if-without :
    (p : RecognitionResult → Bool) (n : ℕ) (l : List RecognitionResult) (r : RecognitionResult)
    → get_elem? l n ≡ some r
    → one p r + count_if p (without n l) ≡ count_if p l
unfolding without
count_if-without p n [] r h = absurd (ground arith)
count_if-without p zero (x ∷ l) r h = ap (λ y. one p y + count_if p l) (ground arith)
count_if-without p (suc n) (x ∷ l) r h = omega (arith, count_if-without p n l r h)

-- The queue and the two counters are not touched by a dispatch.
pub send_all-keeps :
    (attempt : Sink → Attempt) (r : RecognitionResult) (l : List Sink) (d : Dispatcher)
    → ((send_all attempt r l d).queue ≡ d.queue)
      × ((send_all attempt r l d).pushed ≡ d.pushed)
      × ((send_all attempt r l d).dropped ≡ d.dropped)
unfolding send_all count_sent
send_all-keeps attempt r [] d = (refl, refl, refl)
send_all-keeps attempt r (s ∷ l) d = elim (Attempt-cases (attempt s)) [
  | inl stopped ↦ rw (stopped, send_all) (refl, refl, refl)
  | inr (inl sends) ↦ rw (sends, send_all) (send_all-keeps attempt r l (count_sent r d))
  | inr (inr errs) ↦
      rw (errs, send_all)
        (send_all-keeps attempt r l (record d { send_errors = u64 (d.send_errors + 1) }))
]

-- A select, whose result is not yet in sight, puts it where it ends up.
pub select_send-IsKept :
    (done prefers : Bool) (r : RecognitionResult) (s : System) (rs : List RecognitionResult)
    (answer : Dispatcher × Pushed)
    → ((p : RecognitionResult → Bool) → in_sight p s + one p r ≡ count_if p rs)
    → s.d.pushed ≡ u64 (length rs)
    → s.d.dropped ≡ u64 (length s.gone + length s.quiet)
    → All IsPartial s.quiet
    → length s.d.queue.items ≤ s.d.queue.cap
    → select_send done prefers r s.d ≡ some answer
    → IsKept rs (settle r answer s)
unfolding select_send settle count_dropped
select_send-IsKept done prefers r s rs answer total counted dropped partial fits h =
    elim (Option-cases (try_send r s.d.queue)) [
      | inl full ↦ elim (Bool-cases done) [
        | inl over ↦ over_with (ground arith)
        | inr alive ↦ absurd (ground arith)
      ]
      | inr (queue, sent) ↦
          let (longer, still_fits) = try_send-grows r s.d.queue queue sent in
          elim (Bool-cases (done && not prefers)) [
            | inl over ↦ over_with (ground arith)
            | inr sends ↦
                let is : (record s.d { queue = queue }, accepted) ≡ answer = ground arith in
                subst (λ x. IsKept rs (settle r x s)) is
                  (record {
                    total = λ p. omega (
                      arith,
                      total p,
                      ap (λ l. count_if p l) (try_send-items r s.d.queue queue sent),
                      count_if-append p s.d.queue.items r,
                    );
                    counted = counted;
                    dropped = dropped;
                    partial = partial;
                    fits = still_fits;
                  })
          ]
    ]
  where
    over_with : (count_dropped s.d, cancelled) ≡ answer → IsKept rs (settle r answer s)
    over_with is =
        subst (λ x. IsKept rs (settle r x s)) is
          (record {
            total = λ p. omega (arith, total p);
            counted = counted;
            dropped = omega arith;
            partial = partial;
            fits = fits;
          })
