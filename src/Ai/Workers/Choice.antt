-- ===== src/Ai/Workers/Choice.antt =====
-- Which worker is chosen (internal/ai/worker_registry.go, routing_dialer.go).
use Prim.Native.String.{String}
use media_ai.Prelude.{
  ℕ, ◌≡◌, ◌↔◌, refl, inl, inr, ◌⊎◌, true, false, Option, none, some, List, [], ◌∷◌, All, ok, err,
  Option-cases, arith,
}
use media_ai.Prelude.Assoc.{
  text_key, lookup, HasDistinctKeys, insert-HasDistinctKeys, delete-HasDistinctKeys, All-insert,
  All-delete,
}
use media_ai.Candidates.{IsOrder, pick-fresh}
use media_ai.Ai.Workers.{
  FloatOps, WorkerInfo, WorkerRegistry, no_worker_available, dial_failed, supports, at_capacity,
  new_worker_registry, register, deregister, is_stale, list_fresh, load_score, is_unfit, is_lighter,
  select, dial,
}

-- What float64's `<` is on numbers; a NaN is not one.
pub record FloatLaws (float : FloatOps) : Type 1 where
  pub IsNumber : float.Float → Type 0
  pub irrefl : (a : float.Float) → float.lt a a ≡ false
  pub asym : (a b : float.Float) → float.lt a b ≡ true → float.lt b a ≡ false
  pub trans :
      (a b c : float.Float)
      → IsNumber a
      → IsNumber b
      → IsNumber c
      → float.lt b a ≡ false
      → float.lt c b ≡ false
      → float.lt c a ≡ false

pub data Call (F : Type 0) : Type 0 where
  register_at : ℕ → WorkerInfo F → Call F
  deregister_id : String → Call F

module _ (float : FloatOps) (laws : FloatLaws float) where
  open float use {Float}

  pub apply : Call Float → WorkerRegistry Float → WorkerRegistry Float
  apply (register_at now info) r = register now info r
  apply (deregister_id id) r = deregister id r

  pub run : List (Call Float) → WorkerRegistry Float → WorkerRegistry Float
  run [] r = r
  run (c ∷ cs) r = run cs (apply c r)

  -- Each worker that registers has a load that is a number.
  abbrev pub Loads : List (Call Float) → Type 0
  Loads [] = Unit
  Loads (register_at now info ∷ cs) = laws.IsNumber (load_score float info) × Loads cs
  Loads (deregister_id id ∷ cs) = Loads cs

  abbrev HasLoad : String × WorkerInfo Float → Type 0
  HasLoad entry = laws.IsNumber (load_score float entry.1)

  run-IsSound :
      (cs : List (Call Float)) (r : WorkerRegistry Float)
      → Loads cs
      → HasDistinctKeys r.workers
      → All HasLoad r.workers
      → HasDistinctKeys (run cs r).workers × All HasLoad (run cs r).workers
  unfolding run apply register deregister load_score
  run-IsSound [] r loads distinct valid = (distinct, valid)
  run-IsSound (register_at now info ∷ cs) r loads distinct valid =
      let kept : WorkerInfo Float = record info { updated_at = now } in
      run-IsSound cs (register now info r) loads.1
        (insert-HasDistinctKeys info.id kept r.workers distinct)
        (All-insert HasLoad info.id kept r.workers loads.0 valid)
  run-IsSound (deregister_id id ∷ cs) r loads distinct valid =
      run-IsSound cs (deregister id r) loads (delete-HasDistinctKeys id r.workers distinct)
        (All-delete HasLoad id r.workers valid)

  score-IsOrder : IsOrder (is_lighter float) (λ w. laws.IsNumber (load_score float w))
  score-IsOrder = record {
    least_self = λ w. laws.irrefl (load_score float w);
    asym = λ w v. laws.asym (load_score float w) (load_score float v);
    trans = λ w v u. laws.trans (load_score float w) (load_score float v) (load_score float u);
  }

  -- `w` is registered under `id`, not stale, supports the request, and has room.
  abbrev pub Serves :
      ℕ → String → String → WorkerRegistry Float → String → WorkerInfo Float → Type 0
  Serves now language task r id w =
      (lookup id r.workers ≡ some w)
      × (is_stale now r.ttl w ≡ false)
      × (supports language task w ≡ true)
      × (at_capacity w ≡ false)

  unfit_iff :
      (now : ℕ) (language task : String) (r : WorkerRegistry Float) (w : WorkerInfo Float)
      → (is_unfit float language task w ≡ false)
        ↔ ((supports language task w ≡ true) × (at_capacity w ≡ false))
  unfit_iff now language task r w = ground arith

  -- After any calls of `Register` and `Deregister`, where the load of each worker registered is a number: `Dial`
  -- fails for want of a worker exactly when no worker that is registered and not stale supports the language and
  -- the task and has room; otherwise it dials such a worker, none of the others having a lower load, and its
  -- result is what the dial function gives for that worker's address.
  pub dial_least :
      (now ttl : ℕ) (language task : String) {Client : Type 0} (dial_fn : String → Option Client)
      (cs : List (Call Float))
      → Loads cs
      → let r : WorkerRegistry Float = run cs (new_worker_registry ttl) in
        ((dial float dial_fn now language task r ≡ err no_worker_available)
          × ((id : String) (w : WorkerInfo Float) → ¬ Serves now language task r id w))
        ⊎ ((w : WorkerInfo Float) × (((client : Client) × (dial_fn w.addr ≡ some client)
                × (dial float dial_fn now language task r ≡ ok client))
              ⊎ ((dial_fn w.addr ≡ none)
                  × (dial float dial_fn now language task r ≡ err dial_failed)))
            × ((id : String) × Serves now language task r id w)
            × ((id : String) (v : WorkerInfo Float)
                → Serves now language task r id v
                → is_lighter float v w ≡ false))
  unfolding dial select list_fresh new_worker_registry
  dial_least now ttl language task dial_fn cs loads =
      let r : WorkerRegistry Float = run cs (new_worker_registry ttl) in
      let (distinct, valid) = run-IsSound cs (new_worker_registry ttl) loads tt tt in
      let fits = unfit_iff now language task r in
      elim (pick-fresh (is_unfit float language task) (is_lighter float) score-IsOrder
        (is_stale now r.ttl) r.workers distinct valid) [
          | inl (ran, nobody) ↦ inl (
            rw (ran, dial, select, list_fresh) refl,
            λ id w s. nobody id w (s.0, s.1, (fits w).1 (s.2, s.3)),
          )
          | inr (w, ran, (id, (found, kept, fit)), least) ↦ inr (
            w,
            elim (Option-cases (dial_fn w.addr)) [
              | inl failed ↦ inr (failed, rw (ran, dial, select, list_fresh, failed) refl)
              | inr (client, opened) ↦
                  inl (client, opened, rw (ran, dial, select, list_fresh, opened) refl)
            ],
            let (able, room) = (fits w).0 fit in (id, (found, kept, able, room)),
            λ j v s. least j v (s.0, s.1, (fits v).1 (s.2, s.3)),
          )
        ]
