-- ===== src/Control/Gateways/Selection.antt =====
-- Which gateway is selected (internal/controlplane/gateway_selector.go).
use Prim.Native.String.{String}
use media_ai.Prelude.{
  ℕ, ◌+◌, ◌*◌, ◌≤◌, ◌<◌, ◌≡◌, ◌⊎◌, inl, inr, refl, false, some, List, [], ◌∷◌, ltb, ltb→lt,
  ltb_false→le, le→ltb_false, arith, ok, err, Bool-cases, All-every,
}
use media_ai.Prelude.Assoc.{
  text_key, HasDistinctKeys, insert-HasDistinctKeys, delete-HasDistinctKeys,
}
use media_ai.Candidates.{IsOrder, pick-fresh}
use media_ai.Control.Gateways.{
  GatewayInfo, GatewayRegistry, is_stale, list_nodes, load_num, load_den, is_full, is_lighter,
  select, no_gateway_available, get, register, deregister, new_registry,
}

mul_mono : (x y k : ℕ) → x ≤ y → x * k ≤ y * k
mul_mono x y k h = grind arith

mul_step : (x y k : ℕ) → x < y → x * k + k ≤ y * k
mul_step x y k h = grind arith

cross_trans : (a b c d e f : ℕ) → 0 < d → a * d ≤ c * b → c * f ≤ e * d → a * f ≤ e * b
cross_trans a b c d e f positive h k = elim (Bool-cases (ltb (e * b) (a * f))) [
  | inr at_most ↦ ltb_false→le _ _ at_most
  | inl more ↦
      let above : e * b * d + d ≤ a * f * d = mul_step (e * b) (a * f) d (ltb→lt _ _ more) in
      absurd (omega (arith, mul_mono (a * d) (c * b) f h, mul_mono (c * f) (e * d) b k))
]

-- The load of `g` is at most that of `h`.
abbrev pub IsAtMost : GatewayInfo → GatewayInfo → Type 0
IsAtMost g h = load_num g * load_den h ≤ load_num h * load_den g

load_den_positive : (g : GatewayInfo) → 0 < load_den g
load_den_positive g = ground arith

is_lighter-IsOrder : IsOrder is_lighter (λ g. Unit {0})
is_lighter-IsOrder = record {
  least_self = λ g. ground arith;
  asym = λ g h lighter. ground arith;
  trans = λ g h k _ _ _ gh hk. le→ltb_false _ _ (
      cross_trans (load_num g) (load_den g) (load_num h) (load_den h) (load_num k) (load_den k)
        (load_den_positive h) (ltb_false→le _ _ gh) (ltb_false→le _ _ hk));
}

-- The calls that change the registry, each at its time.
pub data Call : Type 0 where
  register_at : ℕ → GatewayInfo → Call
  deregister_id : String → Call

pub apply : Call → GatewayRegistry → GatewayRegistry
apply (register_at now info) r = register now info r
apply (deregister_id id) r = deregister id r

pub run : List Call → GatewayRegistry → GatewayRegistry
run [] r = r
run (c ∷ cs) r = run cs (apply c r)

apply-HasDistinctKeys :
    (c : Call) (r : GatewayRegistry) → HasDistinctKeys r.nodes → HasDistinctKeys (apply c r).nodes
unfolding apply register deregister
apply-HasDistinctKeys (register_at now info) r d =
    insert-HasDistinctKeys info.id (record info { updated_at = now }) r.nodes d
apply-HasDistinctKeys (deregister_id id) r d = delete-HasDistinctKeys id r.nodes d

run-HasDistinctKeys :
    (cs : List Call) (r : GatewayRegistry)
    → HasDistinctKeys r.nodes
    → HasDistinctKeys (run cs r).nodes
unfolding run
run-HasDistinctKeys [] r d = d
run-HasDistinctKeys (c ∷ cs) r d = run-HasDistinctKeys cs (apply c r) (apply-HasDistinctKeys c r d)

-- A node is a candidate at `now`: registered under `id`, not stale, and with a load below 90%.
abbrev pub IsCandidate : ℕ → GatewayRegistry → String → GatewayInfo → Type 0
IsCandidate now r id info =
    (get id r ≡ some info) × (is_stale now r.ttl info ≡ false) × (is_full info ≡ false)

select-cases :
    (now : ℕ) (r : GatewayRegistry)
    → HasDistinctKeys r.nodes
    → ((select now r ≡ err no_gateway_available)
        × ((id : String) (h : GatewayInfo) → ¬ IsCandidate now r id h))
      ⊎ ((g : GatewayInfo) × (select now r ≡ ok g)
          × ((id : String) × IsCandidate now r id g)
          × ((id : String) (h : GatewayInfo) → IsCandidate now r id h → IsAtMost g h))
unfolding select list_nodes get
select-cases now r d =
    elim (pick-fresh is_full is_lighter is_lighter-IsOrder (is_stale now r.ttl) r.nodes d
      (All-every _ (λ node. tt) r.nodes)) [
        | inl (ran, nobody) ↦ inl (rw (ran, select) refl, nobody)
        | inr (g, ran, from, least) ↦
            inr (g, rw (ran, select) refl, from, λ id h c. ltb_false→le _ _ (least id h c))
      ]

-- In a registry after any calls of `Register` and `Deregister`, `Select` fails exactly when no node
-- is a candidate, and otherwise returns a candidate whose load is at most that of every candidate.
pub select_least :
    (now ttl : ℕ) (cs : List Call)
    → let r : GatewayRegistry = run cs (new_registry ttl) in
      ((select now r ≡ err no_gateway_available)
        × ((id : String) (h : GatewayInfo) → ¬ IsCandidate now r id h))
      ⊎ ((g : GatewayInfo) × (select now r ≡ ok g)
          × ((id : String) × IsCandidate now r id g)
          × ((id : String) (h : GatewayInfo) → IsCandidate now r id h → IsAtMost g h))
unfolding new_registry
select_least now ttl cs =
    select-cases now (run cs (new_registry ttl)) (run-HasDistinctKeys cs (new_registry ttl) tt)
