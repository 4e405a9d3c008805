-- ===== src/Ai/Streams/Entries.antt =====
-- Which streams the manager holds (internal/ai/stream_manager.go).
use Prim.Native.String.{String}
use media_ai.Prelude.{
  ℕ, ◌+◌, ◌≤◌, ◌<◌, ◌≡◌, ◌≢◌, sym, ap, ◌∙◌, subst, inl, inr, ◌⊎◌, Bool, Option, none, some,
  some-injective, List, [], ◌∷◌, ◌++◌, leb, ◌==◌ as same_number, length, length-append,
  length-update_at, get_elem?, update_at, ok, err, arith, Bool-cases, Option-cases, All,
}
use media_ai.Prelude.Assoc.{
  text_key, Key-cases, insert, lookup, delete, HasDistinctKeys, insert-HasDistinctKeys,
  delete-HasDistinctKeys, length-insert_new, length-delete-le, lookup-insert_self, lookup-insert_ne,
  lookup-delete_found, lookup-delete_ne,
}
use media_ai.Ai.Stream.{Config, Stream}
use media_ai.Ai.Streams.{
  Manager, OpenError, new_manager, new_stream, open_stream, close_stream, accumulate, forget,
}
pub mod Survival

-- The calls of `Open` and `Close`, a stream at work on its own counters, and the two parts of a clean-up.
pub data Event : Type 0 where
  open_one : Bool → ℕ → String → Event
  close_one : String → Event
  progress : ℕ → Stream → Event
  accumulate_one : ℕ → Event
  forget_entry : String → ℕ → Event

unfoldable pub step : Event → Manager → Manager
step (open_one dials now_ms id) m = elim (open_stream dials now_ms id m) [ err _ ↦ m | ok r ↦ r.0 ]
step (close_one id) m = (close_stream id m).0
step (progress at s) m = record m { heap = update_at at s m.heap }
step (accumulate_one at) m = accumulate at m
step (forget_entry id at) m = forget id at m

unfoldable pub run : List Event → Manager → Manager
run [] m = m
run (event ∷ events) m = run events (step event m)

-- The map is within its limit, and each of its places is one of the heap and no other session's.
pub record IsWellFormed (m : Manager) : Type 0 where
  pub distinct : HasDistinctKeys m.streams
  pub bounded : length m.streams ≤ m.cfg.max_active_streams
  pub placed : (id : String) (at : ℕ) → lookup id m.streams ≡ some at → at < length m.heap
  pub single :
      (id other : String) (at : ℕ)
      → lookup id m.streams ≡ some at
      → lookup other m.streams ≡ some at
      → id ≡ other

opened-IsWellFormed :
    (now_ms : ℕ) (id : String) (m : Manager)
    → IsWellFormed m
    → length m.streams < m.cfg.max_active_streams
    → lookup id m.streams ≡ none
    → IsWellFormed (record m {
      streams = insert id (length m.heap) m.streams;
      heap = m.heap ++ new_stream now_ms ∷ [];
    })
opened-IsWellFormed now_ms id m wf room fresh = record {
  distinct = insert-HasDistinctKeys id (length m.heap) m.streams wf.distinct;
  bounded = omega (arith, room, length-insert_new id (length m.heap) m.streams fresh);
  placed = λ j at h. elim (cases j at h) [
    | inl new ↦ omega (arith, new.1, longer)
    | inr old ↦ omega (arith, wf.placed j at old.1, longer)
  ];
  single = λ j k at h g. elim (cases j at h) [
    | inl new ↦ elim (cases k at g) [
      | inl new' ↦ new.0 ∙ sym new'.0
      | inr old ↦ absurd (omega (arith, new.1, wf.placed k at old.1))
    ]
    | inr old ↦ elim (cases k at g) [
      | inl new' ↦ absurd (omega (arith, new'.1, wf.placed j at old.1))
      | inr old' ↦ wf.single j k at old.1 old'.1
    ]
  ];
}
  where
    longer : length (m.heap ++ new_stream now_ms ∷ []) ≡ length m.heap + 1
    longer = length-append m.heap (new_stream now_ms ∷ [])

    cases :
        (j : String) (at : ℕ)
        → lookup j (insert id (length m.heap) m.streams) ≡ some at
        → ((j ≡ id) × (at ≡ length m.heap)) ⊎ ((j ≢ id) × (lookup j m.streams ≡ some at))
    cases j at h = elim (Key-cases j id) [
      | inl same ↦ inl (
        same,
        some-injective (
            sym (subst (λ k. lookup k (insert id (length m.heap) m.streams) ≡ some at) same h)
            ∙ lookup-insert_self id (length m.heap) m.streams),
      )
      | inr other ↦ inr (other, sym (lookup-insert_ne id j (length m.heap) m.streams other) ∙ h)
    ]

deleted-IsWellFormed :
    (id : String) (m : Manager)
    → IsWellFormed m
    → IsWellFormed (record m { streams = delete id m.streams })
deleted-IsWellFormed id m wf = record {
  distinct = delete-HasDistinctKeys id m.streams wf.distinct;
  bounded = omega (arith, wf.bounded, length-delete-le id m.streams);
  placed = λ j at h. wf.placed j at (lookup-delete_found id j m.streams h).1;
  single = λ j k at h g.
      wf.single j k at (lookup-delete_found id j m.streams h).1
        (lookup-delete_found id k m.streams g).1;
}

pub step-IsWellFormed : (event : Event) (m : Manager) → IsWellFormed m → IsWellFormed (step event m)
unfolding step open_stream close_stream accumulate forget
step-IsWellFormed (open_one dials now_ms id) m wf =
    elim (Bool-cases (leb m.cfg.max_active_streams (length m.streams))) [
      | inl full ↦ rw (full, step, open_stream) wf
      | inr room ↦ elim (Option-cases (lookup id m.streams)) [
        | inr (at, there) ↦ rw (room, there, step, open_stream) wf
        | inl fresh ↦ elim (Bool-cases dials) [
          | inr unreachable ↦ rw (room, fresh, unreachable, step, open_stream) wf
          | inl reached ↦
              rw (room, fresh, reached, step, open_stream)
                (opened-IsWellFormed now_ms id m wf (ground arith) fresh)
        ]
      ]
    ]
step-IsWellFormed (close_one id) m wf = elim (Option-cases (lookup id m.streams)) [
  | inl unknown ↦ rw (unknown, step, close_stream) wf
  | inr (at, there) ↦ rw (there, step, close_stream) (deleted-IsWellFormed id m wf)
]
step-IsWellFormed (progress at s) m wf = record {
  distinct = wf.distinct;
  bounded = wf.bounded;
  placed = λ j i h. omega (arith, wf.placed j i h, length-update_at at s m.heap);
  single = wf.single;
}
step-IsWellFormed (accumulate_one at) m wf = elim (Option-cases (get_elem? m.heap at)) [
  | inl absent ↦ rw (absent, step, accumulate) wf
  | inr (s, there) ↦
      rw (there, step, accumulate)
        (record {
          distinct = wf.distinct;
          bounded = wf.bounded;
          placed = wf.placed;
          single = wf.single;
        })
]
step-IsWellFormed (forget_entry id at) m wf = elim (Option-cases (lookup id m.streams)) [
  | inl unknown ↦ rw (unknown, step, forget) wf
  | inr (current, there) ↦ elim (Bool-cases (same_number current at)) [
    | inl same ↦ rw (there, same, step, forget) (deleted-IsWellFormed id m wf)
    | inr other ↦ rw (there, other, step, forget) wf
  ]
]

pub run-IsWellFormed :
    (events : List Event) (m : Manager) → IsWellFormed m → IsWellFormed (run events m)
unfolding run
run-IsWellFormed [] m wf = wf
run-IsWellFormed (event ∷ events) m wf =
    run-IsWellFormed events (step event m) (step-IsWellFormed event m wf)
