-- ===== src/Ai/Workers.antt =====
-- The registry of recogniser nodes and the selection of one (internal/ai/worker_info.go, worker_registry.go,
-- routing_dialer.go). Times are nanoseconds. float64 is a parameter: the operations of `FloatOps`.
use Prim.Native.String.{String}
use media_ai.Prelude.{
  ℕ, ◌-◌, ◌≡◌, Bool, true, false, ◌&&◌, ◌||◌, not, Option, none, some, List, [], ◌∷◌, ltb, leb,
  length, if◌then◌else◌, Result, ok, err,
}
use media_ai.Prelude.Assoc.{text_key, ◌==◌, lookup, insert, delete}
use media_ai.Candidates.{fresh, pick}
pub mod Choice

pub record FloatOps : Type 1 where
  pub Float : Type 0
  pub zero_float : Float
  pub of_nat : ℕ → Float
  pub add : Float → Float → Float
  pub mul : Float → Float → Float
  pub div : Float → Float → Float
  pub lt : Float → Float → Bool
  pub stream_weight : Float  -- 0.7
  pub gpu_weight : Float  -- 0.3

pub record WorkerInfo (F : Type 0) : Type 0 where
  pub id : String
  pub addr : String
  pub languages : List String
  pub tasks : List String
  pub models : List String
  pub max_streams : ℕ
  pub active_streams : ℕ
  pub gpu_load : F
  pub updated_at : ℕ

pub record WorkerRegistry (F : Type 0) : Type 0 where
  pub workers : List (String × WorkerInfo F)
  pub ttl : ℕ

pub data DialError : Type 0 where
  no_worker_available dial_failed : DialError

abbrev pub any_of : List String → String → Bool
any_of [] value = false
any_of (s ∷ rest) value = (s == "*") || (s == value) || any_of rest value

unfoldable pub matches_capability : List String → String → Bool
matches_capability [] value = true
matches_capability (s ∷ rest) value = any_of (s ∷ rest) value

module _ {F : Type 0} where
  unfoldable pub supports : String → String → WorkerInfo F → Bool
  supports language task w =
      matches_capability w.languages language && matches_capability w.tasks task

  unfoldable pub at_capacity : WorkerInfo F → Bool
  at_capacity w = ltb 0 w.max_streams && leb w.max_streams w.active_streams

  unfoldable pub new_worker_registry : ℕ → WorkerRegistry F
  new_worker_registry ttl = record { workers = []; ttl = ttl }

  unfoldable pub register : ℕ → WorkerInfo F → WorkerRegistry F → WorkerRegistry F
  register now info r = record r {
    workers = insert info.id (record info { updated_at = now }) r.workers;
  }

  unfoldable pub deregister : String → WorkerRegistry F → WorkerRegistry F
  deregister id r = record r { workers = delete id r.workers }

  pub len : WorkerRegistry F → ℕ
  len r = length r.workers

  abbrev pub is_stale : ℕ → ℕ → WorkerInfo F → Bool
  is_stale now ttl w = ltb 0 ttl && ltb ttl (now - w.updated_at)

  unfoldable pub list_fresh : ℕ → WorkerRegistry F → List (WorkerInfo F)
  list_fresh now r = fresh (is_stale now r.ttl) r.workers

module _ (float : FloatOps) where
  open float use {Float, zero_float, of_nat, add, mul, div, lt, stream_weight, gpu_weight}

  unfoldable pub active_ratio : WorkerInfo Float → Float
  active_ratio w =
      if ltb 0 w.max_streams
      then div (of_nat w.active_streams) (of_nat w.max_streams)
      else zero_float

  unfoldable pub load_score : WorkerInfo Float → Float
  unfolding active_ratio
  load_score w =
      if lt zero_float w.gpu_load
      then add (mul (active_ratio w) stream_weight) (mul w.gpu_load gpu_weight)
      else active_ratio w

  abbrev pub is_unfit : String → String → WorkerInfo Float → Bool
  is_unfit language task w = not (supports language task w) || at_capacity w

  abbrev pub is_lighter : WorkerInfo Float → WorkerInfo Float → Bool
  is_lighter w v = lt (load_score w) (load_score v)

  unfoldable pub select :
      ℕ → String → String → WorkerRegistry Float → Result DialError (WorkerInfo Float)
  select now language task r =
      elim (pick (is_unfit language task) is_lighter none (list_fresh now r)) [
        | none ↦ err no_worker_available
        | some best ↦ ok best
      ]

  -- `dial_fn` opens a stream to an address; `none` is its error.
  unfoldable pub dial :
      {Client : Type 0}
      → (String → Option Client)
      → ℕ
      → String
      → String
      → WorkerRegistry Float
      → Result DialError Client
  unfolding select
  dial dial_fn now language task r = elim (select now language task r) [
    | err why ↦ err why
    | ok worker ↦ elim (dial_fn worker.addr) [ none ↦ err dial_failed | some client ↦ ok client ]
  ]
