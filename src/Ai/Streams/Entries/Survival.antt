-- ===== src/Ai/Streams/Entries/Survival.antt =====
-- How long a session keeps its stream (internal/ai/stream_manager.go).
use Prim.Native.String.{String}
use media_ai.Prelude.{
  ℕ, ◌≡◌, ◌≢◌, sym, ap, ◌∙◌, subst, inl, inr, Bool, Option, none, some, some-injective, List, [],
  ◌∷◌, leb, ◌==◌ as same_number, length, get_elem?, ok, err, arith, Bool-cases, Option-cases, All,
}
use media_ai.Prelude.Assoc.{
  text_key, lookup, lookup-insert_self, lookup-insert_ne, lookup-delete_ne,
}
use media_ai.Ai.Stream.{Config}
use media_ai.Ai.Streams.{
  Manager, OpenError, new_manager, open_stream, close_stream, accumulate, forget,
}
use media_ai.Ai.Streams.Entries.{
  Event, open_one, close_one, progress, accumulate_one, forget_entry, step, run, IsWellFormed,
  step-IsWellFormed, run-IsWellFormed,
}

-- Neither a `Close` of the session nor the clean-up of its stream at `at`.
abbrev pub Spares : String → ℕ → Event → Type 0
Spares id at (open_one dials now_ms other) = Unit
Spares id at (close_one other) = other ≢ id
Spares id at (progress place s) = Unit
Spares id at (accumulate_one place) = Unit
Spares id at (forget_entry other place) = place ≢ at

step-Spares :
    (event : Event) (id : String) (at : ℕ) (m : Manager)
    → lookup id m.streams ≡ some at
    → Spares id at event
    → lookup id (step event m).streams ≡ some at
unfolding step open_stream close_stream accumulate forget
step-Spares (open_one dials now_ms other) id at m there spared =
    elim (Bool-cases (leb m.cfg.max_active_streams (length m.streams))) [
      | inl full ↦ rw (full, step, open_stream) there
      | inr room ↦ elim (Option-cases (lookup other m.streams)) [
        | inr (_, known) ↦ rw (room, known, step, open_stream) there
        | inl fresh ↦ elim (Bool-cases dials) [
          | inr unreachable ↦ rw (room, fresh, unreachable, step, open_stream) there
          | inl reached ↦
              rw (room, fresh, reached, step, open_stream)
                (lookup-insert_ne other id (length m.heap) m.streams (λ same.
                    none_clash (subst (λ j. lookup j m.streams ≡ some at) same there) fresh)
                  ∙ there)
        ]
      ]
    ]
  where
    none_clash : {o : Option ℕ} → o ≡ some at → o ≡ none → ⊥
    none_clash h g = ground arith
step-Spares (close_one other) id at m there spared = elim (Option-cases (lookup other m.streams)) [
  | inl unknown ↦ rw (unknown, step, close_stream) there
  | inr (place, known) ↦
      rw (known, step, close_stream)
        (lookup-delete_ne other id m.streams (λ e. spared (sym e)) ∙ there)
]
step-Spares (progress place s) id at m there spared = there
step-Spares (accumulate_one place) id at m there spared =
    elim (Option-cases (get_elem? m.heap place)) [
      | inl absent ↦ rw (absent, step, accumulate) there
      | inr (s, found) ↦ rw (found, step, accumulate) there
    ]
step-Spares (forget_entry other place) id at m there spared =
    elim (Option-cases (lookup other m.streams)) [
      | inl unknown ↦ rw (unknown, step, forget) there
      | inr (current, known) ↦ elim (Bool-cases (same_number current place)) [
        | inr differs ↦ rw (known, differs, step, forget) there
        | inl same ↦
            let is_place : current ≡ place = ground arith in
            rw (known, same, step, forget)
              (lookup-delete_ne other id m.streams (λ e. spared (
                  sym is_place
                  ∙ some-injective (sym known ∙ ap (λ j. lookup j m.streams) (sym e) ∙ there)))
                ∙ there)
      ]
    ]

run-Spares :
    (events : List Event) (id : String) (at : ℕ) (m : Manager)
    → lookup id m.streams ≡ some at
    → All (Spares id at) events
    → lookup id (run events m).streams ≡ some at
unfolding run
run-Spares [] id at m there spared = there
run-Spares (event ∷ events) id at m there spared =
    run-Spares events id at (step event m) (step-Spares event id at m there spared.0) spared.1

-- In a manager after any calls, streams at work and clean-ups: the sessions in the map are distinct and at most as many as
-- allowed, and no two share a stream.
pub manager-IsWellFormed :
    (cfg : Config) (events : List Event) → IsWellFormed (run events (new_manager cfg))
unfolding new_manager lookup
manager-IsWellFormed cfg events = run-IsWellFormed events (new_manager cfg) (record {
  distinct = tt;
  bounded = omega arith;
  placed = λ id at h. absurd (nowhere id at h);
  single = λ id other at h g. absurd (nowhere id at h);
})
  where
    nowhere : (id : String) (at : ℕ) → lookup id [] ≡ some at → ⊥
    nowhere id at h = ground arith

pub open_stream-lookup :
    (dials : Bool) (now_ms : ℕ) (id : String) (old m : Manager) (at : ℕ)
    → open_stream dials now_ms id old ≡ ok (m, at)
    → lookup id m.streams ≡ some at
unfolding open_stream
open_stream-lookup dials now_ms id old m at opened =
    elim (Bool-cases (leb old.cfg.max_active_streams (length old.streams))) [
      | inl full ↦ absurd (refused (rw (full, open_stream) at opened))
      | inr room ↦ elim (Option-cases (lookup id old.streams)) [
        | inr (there, known) ↦ absurd (refused (rw (room, known, open_stream) at opened))
        | inl fresh ↦ elim (Bool-cases dials) [
          | inr unreachable ↦
              absurd (refused (rw (room, fresh, unreachable, open_stream) at opened))
          | inl reached ↦
              let done = rw (room, fresh, reached, open_stream) at opened in
              subst (λ (q : Manager × ℕ). lookup id q.0.streams ≡ some q.1)
                (ap (λ r. elim r [ err _ ↦ (old, 0) | ok q ↦ q ]) done)
                (lookup-insert_self id (length old.heap) old.streams)
        ]
      ]
    ]
  where
    refused : {e : OpenError} {q : Manager × ℕ} → err e ≡ ok q → ⊥
    refused {q} h = ground arith

-- In such a manager, an `Open` that succeeds leaves the session with its new stream until a `Close` of the session or
-- the clean-up of that very stream: the clean-up of an older stream of the same session, which may come late, does not
-- take the entry away.
pub open_survives :
    (cfg : Config) (before after : List Event) (dials : Bool) (now_ms : ℕ) (id : String)
    (m : Manager) (at : ℕ)
    → open_stream dials now_ms id (run before (new_manager cfg)) ≡ ok (m, at)
    → All (Spares id at) after
    → (lookup id (run after m).streams ≡ some at) × IsWellFormed (run after m)
unfolding step
open_survives cfg before after dials now_ms id m at opened spared =
    let old : Manager = run before (new_manager cfg) in
    let same : step (open_one dials now_ms id) old ≡ m =
      ap (λ r. elim r [ err _ ↦ old | ok q ↦ q.0 ]) opened in
    let wf =
      subst IsWellFormed same
        (step-IsWellFormed (open_one dials now_ms id) old (manager-IsWellFormed cfg before)) in
    (
      run-Spares after id at m (open_stream-lookup dials now_ms id old m at opened) spared,
      run-IsWellFormed after m wf,
    )
