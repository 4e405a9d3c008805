-- ===== src/Control/Calls.antt =====
-- The calls of the control plane (internal/controlplane/handler.go): a call has two sessions, one for each side, each
-- with a port of the pool and a listener on it (internal/ingress/rawrtp/port_manager.go). JSON, HTTP and sockets are
-- not code of the repository: a request is its decoded body, and whether a socket can be bound is given.
use Prim.Native.String.{String, ◌++◌ as ◌+++◌}
use media_ai.Prelude.{
  ℕ, ◌+◌, ◌≡◌, Bool, true, false, not, ◌&&◌, ◌||◌, Option, none, some, List, [], ◌∷◌, get_elem?,
  remove_at, if◌then◌else◌, Result, ok, err, ◌>>=◌, Fault,
}
use media_ai.Prelude.Assoc.{text_key, ◌==◌, insert, lookup}
use media_ai.Media.{MediaResource, MediaResources}
use media_ai.Session.{Session}
use media_ai.Session.Manager.{
  Manager, SessionConfig, SessionPatch, SessionError, max_sessions_reached, duplicate_id, not_found,
  create, close, update, get,
}
use media_ai.Jitter.Buffer.{Config as JitterConfig}
use media_ai.Pipeline.Chain.{Decoder}
use media_ai.Coordinator.{Coordinator, StartError, start, update_callback_sink}
use media_ai.Control.Ports.{PortAllocator, acquire, release}
use media_ai.Control.Gateways.{GatewayInfo, GatewayRegistry, register}
pub mod Answering
mod Tests

pub record Server (D J : Type 0) : Type 0 where
  pub gateway_id : String
  pub result_callback_url : String
  pub sessions : Manager
  pub ports : Option PortAllocator
  pub coord : Coordinator D J
  pub registry : GatewayRegistry
  pub listeners : List (String × ℕ)

-- The body of a response: nothing but the status and, for 503, when to try again; or the answer to a call.
pub data Response : Type 0 where
  acknowledged : Response
  refused : ℕ → ℕ → Response
  answered : String → Option (ℕ × ℕ) → Response
  found_session : String → Session → Response
  no_content : Response

abbrev pub tcore_id : String → String
tcore_id call_id = call_id +++ "-tcore"

abbrev pub taccess_id : String → String
taccess_id call_id = call_id +++ "-taccess"

-- `to_lower` is strings.ToLower.
unfoldable pub service_to_codec : (String → String) → String → Option (String × ℕ)
service_to_codec to_lower service =
    if to_lower service == "realtime_translation" || to_lower service == "speech_to_text"
    then some ("PCMU", 8000)
    else none

abbrev pub refusal_of : SessionError → Response
refusal_of duplicate_id = refused 409 0
refusal_of max_sessions_reached = refused 503 5000
refusal_of not_found = refused 500 0

-- What the surroundings of a call do: the admission check's answer, the time, whether each listener can be bound, and
-- whether the recogniser answers each dial.
pub record Conditions : Type 0 where
  pub admitted : Bool
  pub retry_after_ms : ℕ
  pub now : ℕ
  pub now_ms : ℕ
  pub binds_core : Bool
  pub binds_access : Bool
  pub dials_core : Bool
  pub dials_access : Bool
  pub number : ℕ

unfoldable pub base_config : String → String → ℕ → String → String → SessionConfig
base_config id codec rate task callback_url = record {
  id = id;
  source_type = "raw_rtp";
  ssrc = 0;
  payload_type = 0;
  codec = codec;
  sample_rate = rate;
  channels = 1;
  language = "";
  task = task;
  callback_url = callback_url;
  peer_id = "";
  track_id = "";
  remote_addr = "";
}

module _ {D J : Type 0} where
  unfoldable pub close_both : String → Server D J → Server D J
  close_both call_id s = record s {
    sessions = (close (taccess_id call_id) (close (tcore_id call_id) s.sessions).0).0;
  }

  -- Two ports and two listeners, from a pool of ports.
  unfoldable pub bind_from :
      String
      → Conditions
      → PortAllocator
      → Server D J
      → Server D J × Result Response (Option (ℕ × ℕ))
  unfolding close_both
  bind_from call_id w a s =
      let q1 = acquire a in
      elim q1.1 [
        | err _ ↦ (close_both call_id s, err (refused 503 10000))
        | ok p1 ↦
            let q2 = acquire q1.0 in
            elim q2.1 [
              | err _ ↦ (
                close_both call_id (record s { ports = some (release p1 q2.0) }),
                err (refused 503 10000),
              )
              | ok p2 ↦
                  if not w.binds_core
                  then (
                    close_both call_id (record s { ports = some (release p2 (release p1 q2.0)) }),
                    err (refused 500 0),
                  )
                  else if not w.binds_access
                  then (
                    close_both call_id (record s {
                      ports = some (release p2 q2.0);
                      listeners = (tcore_id call_id, p1) ∷ s.listeners;
                    }),
                    err (refused 500 0),
                  )
                  else (
                    record s {
                      ports = some q2.0;
                      listeners = (taccess_id call_id, p2) ∷ (tcore_id call_id, p1) ∷ s.listeners;
                    },
                    ok (some (p1, p2)),
                  )
            ]
      ]

  unfoldable pub bind_ports :
      String → Conditions → Server D J → Server D J × Result Response (Option (ℕ × ℕ))
  unfolding bind_from
  bind_ports call_id w s = elim s.ports [ none ↦ (s, ok none) | some a ↦ bind_from call_id w a s ]

  -- A listener's goroutine ends, its session's context being over, and gives its port back.
  unfoldable pub end_listener : ℕ → Server D J → Server D J
  end_listener n s = elim (get_elem? s.listeners n) [
    | none ↦ s
    | some (id, port) ↦ elim s.ports [
      | none ↦ s
      | some a ↦ record s { ports = some (release port a); listeners = remove_at n s.listeners }
    ]
  ]

  unfoldable pub get_call_session : String → Server D J → Response
  get_call_session call_id s = elim (get (taccess_id call_id) s.sessions) [
    | some sess ↦ found_session call_id sess
    | none ↦ elim (get (tcore_id call_id) s.sessions) [
      | some sess ↦ found_session call_id sess
      | none ↦ refused 404 0
    ]
  ]

  unfoldable pub delete_call_session : String → Server D J → Server D J × Response
  delete_call_session call_id s =
      let core = close (tcore_id call_id) s.sessions in
      let access = close (taccess_id call_id) core.0 in
      (
        record s { sessions = access.0 },
        elim core.1 [
          | some _ ↦ no_content
          | none ↦ elim access.1 [ some _ ↦ no_content | none ↦ refused 404 0 ]
        ],
      )

  -- `self` is the gateway's own entry.
  unfoldable pub heartbeat :
      ℕ → GatewayInfo → String → GatewayInfo → Server D J → Server D J × Response
  heartbeat now self id info s =
      if not (info.id == "") && not (info.id == id)
      then (s, refused 400 0)
      else let r = register now (record info { id = id }) s.registry in
        (
          record s { registry = if s.gateway_id == "" then r else register now self r },
          acknowledged,
        )

  -- One side of the result of a call's control: the session is patched, and its callback replaced.
  unfoldable pub patch_side : ℕ → String → String → MediaResources → Server D J → Server D J
  patch_side number id callback_url resources s =
      let r =
        update id
          (record {
            remote_addr = "";
            callback_url = callback_url;
            media_resources = some resources;
          })
          s.sessions in
      elim r.1 [
        | err _ ↦ s
        | ok _ ↦ record s {
          sessions = r.0;
          coord = (update_callback_sink number id callback_url s.coord).0;
        }
      ]

  -- `media` has the callback and the resource of each side, the core side first.
  unfoldable pub ctrl_result :
      ℕ
      → String
      → Option ((String × MediaResource) × (String × MediaResource))
      → Server D J
      → Server D J × Response
  unfolding patch_side get_call_session
  ctrl_result number call_id media s =
      let s' : Server D J = elim media [
        | none ↦ s
        | some (core, access) ↦
            patch_side (number + 1) (taccess_id call_id) access.0
              (record { t_core = none; t_access = some access.1 })
              (patch_side number (tcore_id call_id) core.0
                (record { t_core = some core.1; t_access = none }) s)
      ] in
      (s', get_call_session call_id s')

-- A new session that knows its gateway.
unfoldable pub open_session :
    String → ℕ → SessionConfig → Manager → Manager × Result SessionError Session
open_session gateway_id now cfg m =
    let r = create now cfg m in
    elim r.1 [
      | err e ↦ (m, err e)
      | ok sess ↦
          let named : Session = record sess { gateway_id = gateway_id } in
          (record r.0 { sessions = insert cfg.id named r.0.sessions }, ok named)
    ]

module _ {D J : Type 0} (open_decoder : String → ℕ → ℕ → Option (Decoder D))
    (new_jitter : JitterConfig → J) (to_lower : String → String) where
  -- Both pipelines, once the sessions and the ports are there. A session that is closed cancels its context, so what
  -- is left in its audio queue is read by nobody.
  unfoldable pub start_both :
      String
      → Conditions
      → Option (ℕ × ℕ)
      → Session
      → Session
      → Server D J
      → Result Fault (Server D J × Response)
  unfolding close_both
  start_both call_id w bound core access s =
      start open_decoder new_jitter w.dials_core w.now_ms w.number core s.coord >>= λ r1.
      elim r1.2 [
        | err _ ↦ ok (close_both call_id (record s { coord = r1.0 }), refused 400 0)
        | ok _ ↦
            start open_decoder new_jitter w.dials_access w.now_ms (w.number + 1) access r1.0
            >>= λ r2. elim r2.2 [
              | err _ ↦ ok (close_both call_id (record s { coord = r2.0 }), refused 400 0)
              | ok _ ↦ ok (record s { coord = r2.0 }, answered call_id bound)
            ]
      ]

  -- What follows the ports, the second session, and the first session.
  unfoldable pub after_ports :
      String
      → Conditions
      → Session
      → Session
      → Server D J × Result Response (Option (ℕ × ℕ))
      → Result Fault (Server D J × Response)
  unfolding start_both
  after_ports call_id w core access (s, err response) = ok (s, response)
  after_ports call_id w core access (s, ok bound) = start_both call_id w bound core access s

  unfoldable pub after_access :
      String
      → Conditions
      → Server D J
      → Manager
      → Session
      → Manager × Result SessionError Session
      → Result Fault (Server D J × Response)
  unfolding after_ports
  after_access call_id w s m core (m', err e) =
      ok (record s { sessions = (close (tcore_id call_id) m).0 }, refusal_of e)
  after_access call_id w s m core (m', ok access) =
      after_ports call_id w core access (bind_ports call_id w (record s { sessions = m' }))

  unfoldable pub after_core :
      String
      → Conditions
      → Server D J
      → SessionConfig
      → Manager × Result SessionError Session
      → Result Fault (Server D J × Response)
  unfolding after_access
  after_core call_id w s cfg (m, err e) = ok (s, refusal_of e)
  after_core call_id w s cfg (m, ok core) =
      after_access call_id w s m core (open_session s.gateway_id w.now cfg m)

  unfoldable pub handle_answer :
      String → String → Conditions → Server D J → Result Fault (Server D J × Response)
  unfolding after_core
  handle_answer call_id service w s = elim (service_to_codec to_lower service) [
    | none ↦ ok (s, acknowledged)
    | some (codec, rate) ↦
        let cfg = λ (id : String). base_config id codec rate service s.result_callback_url in
        if not w.admitted
        then ok (s, refused 503 w.retry_after_ms)
        else after_core call_id w s (cfg (taccess_id call_id))
            (open_session s.gateway_id w.now (cfg (tcore_id call_id)) s.sessions)
  ]
