-- ===== src/Jitter/Buffer/Delivery.antt =====
-- The jitter buffer over its whole life: any interleaving of `Push`, of the ticks of `Run`, and of
-- reads by the consumer of its output channel (internal/jitter/buffer.go).
use media_ai.Prelude.{
  ℕ, suc, ◌+◌, ◌≤◌, ◌≡◌, refl, ap, ◌∙◌, sym, subst, inl, inr, Option, none, some, List, [], ◌∷◌,
  ◌++◌, append_assoc, arith, Option-cases, Bool-cases,
}
use media_ai.Media.{MediaPacket}
use media_ai.Channel.{Chan, make, try_recv}
use media_ai.Jitter.Buffer.{HeapOps, FloatOps, Buffer, Config, u64, new_buffer, accept, push, flush}
use media_ai.Jitter.Buffer.Rounds.{flush_total}
use media_ai.Jitter.Buffer.Accounting.{accounted, push-accounted, flush-accounted}
use media_ai.Jitter.Buffer.Order.{Ascending, IsOrdered, IsOrdered-mono, flush-IsOrdered}

pub data Event : Type 0 where
  arrive : ℕ → MediaPacket → Event
  tick : ℕ → Event
  read : Event

-- The buffer, its output channel, and what the consumer has read from it.
pub record Line (H F : Type 0) : Type 0 where
  pub buffer : Buffer H F
  pub out : Chan MediaPacket
  pub taken : List MediaPacket

abbrev pub sent : {H F : Type 0} → Line H F → List MediaPacket
sent l = l.taken ++ l.out.items

abbrev pub arrivals : List Event → ℕ
arrivals [] = 0
arrivals (arrive now p ∷ es) = suc (arrivals es)
arrivals (tick now ∷ es) = arrivals es
arrivals (read ∷ es) = arrivals es

-- Arrivals and ticks.
abbrev pub moves : List Event → ℕ
moves [] = 0
moves (arrive now p ∷ es) = suc (moves es)
moves (tick now ∷ es) = suc (moves es)
moves (read ∷ es) = moves es

moves-cons : (e : Event) (es : List Event) → moves (e ∷ es) ≡ moves (e ∷ []) + moves es
moves-cons (arrive now p) es = omega arith
moves-cons (tick now) es = omega arith
moves-cons read es = omega arith

arrivals-cons : (e : Event) (es : List Event) → arrivals (e ∷ es) ≡ arrivals (e ∷ []) + arrivals es
arrivals-cons (arrive now p) es = omega arith
arrivals-cons (tick now) es = omega arith
arrivals-cons read es = omega arith

module _ (heap : HeapOps) (float : FloatOps) where
  open heap use {Heap, size, size-empty, size-push}
  open float use {Float}

  pub start : Config → ℕ → Line Heap Float
  start cfg cap = record { buffer = new_buffer heap float cfg; out = make cap; taken = [] }

  step : Event → Line Heap Float → Option (Line Heap Float)
  step (arrive now p) l = some (record l { buffer = (push heap float now p l.buffer).0 })
  step (tick now) l = elim (flush heap float now l.buffer l.out) [
    | none ↦ none
    | some (b, out) ↦ some (record l { buffer = b; out = out })
  ]
  step read l = elim (try_recv l.out) [
    | none ↦ some l
    | some (p, out) ↦ some (record l { out = out; taken = l.taken ++ p ∷ [] })
  ]

  pub run : List Event → Line Heap Float → Option (Line Heap Float)
  run [] l = some l
  run (e ∷ es) l = elim (step e l) [ none ↦ none | some l' ↦ run es l' ]

  push-next :
      (now : ℕ) (p : MediaPacket) (b : Buffer Heap Float)
      → ((push heap float now p b).0.next_set ≡ b.next_set)
        × ((push heap float now p b).0.next_expected ≡ b.next_expected)
        × (size (push heap float now p b).0.h ≤ suc (size b.h))
  unfolding push accept
  push-next now p b = ground (arith, size-push (record { pkt = p; arrived_at = now }) b.h)

  push-IsOrdered :
      (k now : ℕ) (p : MediaPacket) (b : Buffer Heap Float) (ps : List MediaPacket)
      → IsOrdered heap float k ps b
      → IsOrdered heap float (k + 1) ps (push heap float now p b).0
  push-IsOrdered k now p b ps h =
      let (set, next, grows) = push-next now p b in
      IsOrdered-mono heap float k (k + 1) ps b (push heap float now p b).0 set next
        (omega (arith, grows)) h

  unmoved :
      (k : ℕ) (ps : List MediaPacket) (b : Buffer Heap Float)
      → IsOrdered heap float k ps b
      → IsOrdered heap float (k + 0) ps b
  unmoved k ps b = IsOrdered-mono heap float k (k + 0) ps b b refl refl (omega arith)

  -- The three events, each with the line after it.
  step_total :
      (e : Event) (l : Line Heap Float)
      → (l' : Line Heap Float) × (step e l ≡ some l')
        × ((k : ℕ)
            → IsOrdered heap float k (sent l) l.buffer
            → IsOrdered heap float (k + moves (e ∷ [])) (sent l') l'.buffer)
        × (u64 (accounted heap float l'.buffer)
            ≡ u64 (accounted heap float l.buffer + arrivals (e ∷ [])))
  unfolding step push accept try_recv
  step_total (arrive now p) l = (
    record l { buffer = (push heap float now p l.buffer).0 },
    refl,
    λ k. push-IsOrdered k now p l.buffer (sent l),
    push-accounted heap float now p l.buffer,
  )
  step_total (tick now) l =
      let (r, e) = flush_total heap float now l.buffer l.out in
      (
        record l { buffer = r.0; out = r.1 },
        rw (e, step) refl,
        λ k h.
            IsOrdered-mono heap float (suc k) (k + 1) (l.taken ++ r.1.items) r.0 r.0 refl refl
              (omega arith) (flush-IsOrdered heap float k l.taken now l.buffer l.out r e h),
        flush-accounted heap float now l.buffer l.out r e ∙ omega arith,
      )
  step_total read l = elim (Option-cases (try_recv l.out)) [
    | inl empty ↦ (l, rw (empty, step) refl, λ k. unmoved k (sent l) l.buffer, omega arith)
    | inr ((p, out), got) ↦
        let split : l.out.items ≡ p ∷ out.items = ground arith in
        let same : sent l ≡ (l.taken ++ p ∷ []) ++ out.items =
          ap (λ x. l.taken ++ x) split ∙ sym (append_assoc l.taken (p ∷ []) out.items) in
        (
          record l { out = out; taken = l.taken ++ p ∷ [] },
          rw (got, step) refl,
          λ k h.
              subst (λ x. IsOrdered heap float (k + 0) x l.buffer) same
                (unmoved k (sent l) l.buffer h),
          omega arith,
        )
  ]

  run_total :
      (es : List Event) (k : ℕ) (l : Line Heap Float)
      → IsOrdered heap float k (sent l) l.buffer
      → (l' : Line Heap Float) × (run es l ≡ some l')
        × IsOrdered heap float (k + moves es) (sent l') l'.buffer
        × (u64 (accounted heap float l'.buffer) ≡ u64 (accounted heap float l.buffer + arrivals es))
  unfolding run
  run_total [] k l h = (l, refl, unmoved k (sent l) l.buffer h, omega arith)
  run_total (e ∷ es) k l h =
      let (m, stepped, ordered, counted) = step_total e l in
      let (l', rest, ordered', counted') = run_total es (k + moves (e ∷ [])) m (ordered k h) in
      (
        l',
        rw (stepped, run) rest,
        subst (λ (x : ℕ). IsOrdered heap float x (sent l') l'.buffer)
            (omega (arith, moves-cons e es)) ordered',
        omega (arith, arrivals-cons e es),
      )

  start-IsOrdered :
      (cfg : Config) (cap : ℕ)
      → IsOrdered heap float 0 (sent (start cfg cap)) (start cfg cap).buffer
  unfolding start new_buffer make
  start-IsOrdered cfg cap = (λ h. (refl, omega (arith, size-empty)), λ h. absurd (ground arith))

  -- From a new buffer, every interleaving of arrivals, ticks and reads runs to its end, no flush failing to stop. Then the
  -- packets sent so far, in the order in which they were sent, have sequence numbers `base` + i modulo 2 ^ 16 for strictly
  -- rising i, all below a number n that is at most the number of arrivals and ticks.
  pub run-Ascending :
      (cfg : Config) (cap : ℕ) (es : List Event)
      → (l : Line Heap Float) × (run es (start cfg cap) ≡ some l)
        × (base : ℕ) × (n : ℕ) × (n ≤ moves es)
        × Ascending base 0 n (sent l)
  run-Ascending cfg cap es =
      let (l, ran, ordered, counted) = run_total es 0 (start cfg cap) (start-IsOrdered cfg cap) in
      elim (Bool-cases l.buffer.next_set) [
        | inl set ↦
            let (base, n, asc, next, room) = ordered.1 set in (l, ran, base, n, omega arith, asc)
        | inr unset ↦ (
          l,
          ran,
          0,
          0,
          omega arith,
          subst (λ ps. Ascending 0 0 0 ps) (sym (ordered.0 unset).0) (omega arith),
        )
      ]

  -- From a new buffer, after any interleaving of arrivals, ticks and reads, every packet that arrived
  -- is released, dropped or still in the heap, and counted once: the counters and the size of
  -- the heap add up to the number of arrivals, modulo 2 ^ 64.
  pub run-accounted :
      (cfg : Config) (cap : ℕ) (es : List Event)
      → (l : Line Heap Float) × (run es (start cfg cap) ≡ some l)
        × (u64 (l.buffer.released + l.buffer.dropped + size l.buffer.h) ≡ u64 (arrivals es))
  unfolding start new_buffer
  run-accounted cfg cap es =
      let (l, ran, ordered, counted) = run_total es 0 (start cfg cap) (start-IsOrdered cfg cap) in
      (l, ran, omega (arith, counted, size-empty))
