-- ===== src/Control/Tests.antt =====
-- The control plane's decisions at concrete states (internal/controlplane).
use Prim.Native.String.{String}
use media_ai.Prelude.{ℕ, ◌≡◌, ◌↔◌, ◌⊎◌, List, [], ◌∷◌, none, some, length, arith, ok, err}
use media_ai.Control.Ports.{
  Call as PortCall, take_port, give_back, fresh_pool, copies, ports, run, acquire,
  new_port_allocator, no_ports_available, run-exclusive,
}
use media_ai.Control.Admission.{Load, IsFor, check_with_reason, check_with_reason_lem}
use media_ai.Control.Gateways.{
  GatewayInfo, GatewayRegistry, new_registry, select, no_gateway_available,
}
use media_ai.Control.Gateways.Selection.{
  Call, register_at, IsCandidate, IsAtMost, select_least, run as run_registry,
}

abbrev calls : List PortCall
calls = take_port ∷ take_port ∷ give_back 41 ∷ take_port ∷ []

run-exclusive_example :
    (new_port_allocator 40 41 ≡ ok (fresh_pool 40 41).pool)
    × (copies 40 (run calls (fresh_pool 40 41)) ≡ 1)
    × (ports (run calls (fresh_pool 40 41)) ≡ 2)
    × ((run calls (fresh_pool 40 41)).pool.total ≡ 2)
    × (((acquire (run calls (fresh_pool 40 41)).pool).1 ≡ err no_ports_available)
        ↔ (length (run calls (fresh_pool 40 41)).held ≡ 2))
run-exclusive_example = run-exclusive 40 41 calls 40 (omega arith) (omega arith)

abbrev busy : Load
busy = record {
  sessions = 89;
  max_sessions = 100;
  queue_len = 80;
  queue_cap = 100;
  streams = 5;
  max_streams = 100;
  live_workers = some 1;
  mem_threshold = 0;
  alloc = 7;
  free_ports = none;
}

check_with_reason_lem_example : IsFor busy (check_with_reason busy)
check_with_reason_lem_example = check_with_reason_lem busy (omega arith) (omega arith)

abbrev node : String → ℕ → GatewayInfo
node id sessions = record {
  id = id;
  addr = "";
  rtp_public_ip = "";
  sessions = sessions;
  max_sessions = 100;
  ai_streams = 0;
  max_ai_streams = 100;
  cpu_usage = 0;
  audio_queue_usage = 0;
  rtp_port_start = 0;
  rtp_port_end = 0;
  used_ports = 0;
  last_heartbeat_ms = 0;
  updated_at = 0;
}

abbrev two_nodes : List Call
two_nodes = register_at 10 (node "a" 50) ∷ register_at 20 (node "b" 20) ∷ []

select_least_example :
    let r : GatewayRegistry = run_registry two_nodes (new_registry 30) in
    ((select 45 r ≡ err no_gateway_available)
      × ((id : String) (h : GatewayInfo) → ¬ IsCandidate 45 r id h))
    ⊎ ((g : GatewayInfo) × (select 45 r ≡ ok g)
        × ((id : String) × IsCandidate 45 r id g)
        × ((id : String) (h : GatewayInfo) → IsCandidate 45 r id h → IsAtMost g h))
select_least_example = select_least 45 30 two_nodes
