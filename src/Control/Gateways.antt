-- ===== src/Control/Gateways.antt =====
-- The registry of gateway nodes and the selection of the least loaded one
-- (internal/controlplane/gateway_registry.go and gateway_selector.go). Times are nanoseconds; the two
-- gauges of a node are floats that are only forwarded, held by their bits. The quotients of
-- sessions and maxima are compared as products, as in Control/Admission.
use Prim.Native.String.{String}
use media_ai.Prelude.{
  ℕ, ◌+◌, ◌-◌, ◌*◌, ◌≤◌, ◌<◌, ◌≡◌, ◌≢◌, ◌⊎◌, inl, inr, refl, ◌∙◌, sym, Bool, true, false, ◌&&◌,
  ◌||◌, not, Option, none, some, List, [], ◌∷◌, ltb, leb, ◌==◌, length, if◌then◌else◌, arith,
  Result, ok, err, Bool-cases, Option-cases, All,
}
use media_ai.Candidates.{fresh, pick}
use media_ai.Prelude.Assoc.{text_key, Key, lookup, insert, delete}
pub mod Selection

pub record GatewayInfo : Type 0 where
  pub id : String
  pub addr : String
  pub rtp_public_ip : String
  pub sessions : ℕ
  pub max_sessions : ℕ
  pub ai_streams : ℕ
  pub max_ai_streams : ℕ
  pub cpu_usage : ℕ
  pub audio_queue_usage : ℕ
  pub rtp_port_start : ℕ
  pub rtp_port_end : ℕ
  pub used_ports : ℕ
  pub last_heartbeat_ms : ℕ
  pub updated_at : ℕ

pub record GatewayRegistry : Type 0 where
  pub nodes : List (String × GatewayInfo)
  pub ttl : ℕ

pub data SelectError : Type 0 where
  no_gateway_available : SelectError

unfoldable pub new_registry : ℕ → GatewayRegistry
new_registry ttl = record { nodes = []; ttl = ttl }

unfoldable pub register : ℕ → GatewayInfo → GatewayRegistry → GatewayRegistry
register now info r = record r { nodes = insert info.id (record info { updated_at = now }) r.nodes }

unfoldable pub deregister : String → GatewayRegistry → GatewayRegistry
deregister id r = record r { nodes = delete id r.nodes }

unfoldable pub get : String → GatewayRegistry → Option GatewayInfo
get id r = lookup id r.nodes

abbrev pub is_stale : ℕ → ℕ → GatewayInfo → Bool
is_stale now ttl info = ltb 0 ttl && ltb ttl (now - info.updated_at)

unfoldable pub list_nodes : ℕ → GatewayRegistry → List GatewayInfo
list_nodes now r = fresh (is_stale now r.ttl) r.nodes

pub len : GatewayRegistry → ℕ
len r = length r.nodes

-- sessionLoad as a fraction: the load is 1 where the maximum is 0.
abbrev pub load_num : GatewayInfo → ℕ
load_num g = if g.max_sessions == 0 then 1 else g.sessions

abbrev pub load_den : GatewayInfo → ℕ
load_den g = if g.max_sessions == 0 then 1 else g.max_sessions

-- node.sessionLoad() >= 0.9
abbrev pub is_full : GatewayInfo → Bool
is_full g = leb (9 * load_den g) (10 * load_num g)

-- g.sessionLoad() < h.sessionLoad()
abbrev pub is_lighter : GatewayInfo → GatewayInfo → Bool
is_lighter g h = ltb (load_num g * load_den h) (load_num h * load_den g)

unfoldable pub select : ℕ → GatewayRegistry → Result SelectError GatewayInfo
select now r = elim (pick is_full is_lighter none (list_nodes now r)) [
  | none ↦ err no_gateway_available
  | some best ↦ ok best
]

unfoldable pub select_by_id : String → GatewayRegistry → Result SelectError GatewayInfo
select_by_id id r = elim (get id r) [ none ↦ err no_gateway_available | some info ↦ ok info ]
