-- ===== src/Control/Calls/Answering.antt =====
-- The sessions and ports of an ANSWER (internal/controlplane/handler.go).
use Prim.Native.String.{String}
use media_ai.Prelude.{
  ℕ, zero, suc, ◌+◌, ◌≡◌, ◌≢◌, refl, sym, ap, ◌∙◌, subst, inl, inr, ◌⊎◌, Bool, true, false, not,
  Option, none, some, List, [], ◌∷◌, length, if_so, if_not, if◌then◌else◌, Result, ok, err, ◌>>=◌,
  Fault, arith, Bool-cases, Option-cases,
}
use media_ai.Prelude.Assoc.{
  text_key, Key-cases, insert, lookup, delete, lookup-insert_self, lookup-insert_ne,
  lookup-delete_self, lookup-delete_ne,
}
use media_ai.Channel.{Chan}
use media_ai.Media.{AudioChunk}
use media_ai.Session.{Session}
use media_ai.Session.Manager.{
  Manager, SessionConfig, SessionError, create, close, get, count, new_session,
}
use media_ai.Session.Manager.Routing.{IsAdded, create_outcome}
use media_ai.Jitter.Buffer.{Config as JitterConfig}
use media_ai.Pipeline.Chain.{Decoder, new_chain}
use media_ai.Result.HttpCallback.{HttpCallbackSink}
use media_ai.Coordinator.{Coordinator, StartError, start, pool_config}
use media_ai.Coordinator.Start.{Result-cases, start_total}
use media_ai.Control.Ports.{PortAllocator, acquire, release}
use media_ai.Control.Calls.{
  Server, Response, acknowledged, refused, answered, found_session, no_content, tcore_id,
  taccess_id, refusal_of, Conditions, base_config, service_to_codec, close_both, bind_from,
  bind_ports, open_session, start_both, after_ports, after_access, after_core, handle_answer,
}
pub mod Outcomes

pub get-close_self : (id : String) (m : Manager) → get id (close id m).0 ≡ none
unfolding get close
get-close_self id m = elim (Option-cases (lookup id m.sessions)) [
  | inl unknown ↦ rw (unknown, close) unknown
  | inr (s, known) ↦ rw (known, close) (lookup-delete_self id m.sessions)
]

get-close_ne : (id j : String) (m : Manager) → j ≢ id → get j (close id m).0 ≡ get j m
unfolding get close
get-close_ne id j m other = elim (Option-cases (lookup id m.sessions)) [
  | inl unknown ↦ rw (unknown, close) refl
  | inr (s, known) ↦ rw (known, close) (lookup-delete_ne id j m.sessions other)
]

-- `sess` is new in `m'` under `id`, and the other sessions are those of `m`.
pub record IsOpened (id : String) (sess : Session) (m m' : Manager) : Type 0 where
  pub absent : get id m ≡ none
  pub here : get id m' ≡ some sess
  pub kept : (j : String) → j ≢ id → get j m' ≡ get j m

pub open_session-cases :
    (gateway_id : String) (now : ℕ) (cfg : SessionConfig) (m : Manager)
    → ((e : SessionError) × (open_session gateway_id now cfg m ≡ (m, err e)))
      ⊎ ((m' : Manager) × (sess : Session) × (open_session gateway_id now cfg m ≡ (m', ok sess))
          × IsOpened cfg.id sess m m')
unfolding open_session get new_session
open_session-cases gateway_id now cfg m = elim (create_outcome now cfg m) [
  | inl (full, ran) ↦ inl (_, ap named ran)
  | inr (inl (room, taken, ran)) ↦ inl (_, ap named ran)
  | inr (inr (room, fresh, made, added)) ↦
      let sess : Session = record (new_session m.cfg now cfg) { gateway_id = gateway_id } in
      let made_of : Manager = (create now cfg m).0 in
      inr (
        record made_of { sessions = insert cfg.id sess made_of.sessions },
        sess,
        rw (made, open_session) refl,
        record {
          absent = fresh;
          here = lookup-insert_self cfg.id sess made_of.sessions;
          kept = λ j other. lookup-insert_ne cfg.id j sess made_of.sessions other ∙ added.1 j other;
        },
      )
]
  where
    named : Manager × Result SessionError Session → Manager × Result SessionError Session
    named r = elim r.1 [
      | err e ↦ (m, err e)
      | ok sess ↦ (
        record r.0 {
          sessions = insert cfg.id (record sess { gateway_id = gateway_id }) r.0.sessions;
        },
        ok (record sess { gateway_id = gateway_id }),
      )
    ]

-- Two sessions opened one after the other and both closed again.
pub closed_again :
    (core access : String) (s1 s2 : Session) (m m1 m2 : Manager)
    → IsOpened core s1 m m1
    → IsOpened access s2 m1 m2
    → (j : String) → get j (close access (close core m2).0).0 ≡ get j m
closed_again core access s1 s2 m m1 m2 first second j = elim (Key-cases j access) [
  | inl is_access ↦
      let not_core : access ≢ core =
        λ e. clash (subst (λ i. get i m1 ≡ some s1) (sym e) first.here) second.absent in
      subst (λ i. get i (close access (close core m2).0).0 ≡ get i m) (sym is_access)
        (get-close_self access (close core m2).0
          ∙ sym (sym (first.kept access not_core) ∙ second.absent))
  | inr other ↦ get-close_ne access j (close core m2).0 other ∙ elim (Key-cases j core) [
    | inl is_core ↦
        subst (λ i. get i (close core m2).0 ≡ get i m) (sym is_core)
          (get-close_self core m2 ∙ sym first.absent)
    | inr apart ↦ get-close_ne core j m2 apart ∙ second.kept j other ∙ first.kept j apart
  ]
]
  where
    clash : {o : Option Session} → o ≡ some s1 → o ≡ none → ⊥
    clash h g = ground arith

pub still_core :
    (call_id : String) (s1 s2 : Session) (m m1 m2 : Manager)
    → IsOpened (tcore_id call_id) s1 m m1
    → IsOpened (taccess_id call_id) s2 m1 m2
    → get (tcore_id call_id) m2 ≡ some s1
still_core call_id s1 s2 m m1 m2 first second =
    second.kept (tcore_id call_id)
      (λ e. clash (subst (λ i. get i m1 ≡ some s1) e first.here) second.absent)
    ∙ first.here
  where
    clash : {o : Option Session} → o ≡ some s1 → o ≡ none → ⊥
    clash h g = ground arith

pub closed_core :
    (core : String) (s1 : Session) (m m1 : Manager)
    → IsOpened core s1 m m1
    → (j : String) → get j (close core m1).0 ≡ get j m
closed_core core s1 m m1 first j = elim (Key-cases j core) [
  | inl is_core ↦
      subst (λ i. get i (close core m1).0 ≡ get i m) (sym is_core)
        (get-close_self core m1 ∙ sym first.absent)
  | inr apart ↦ get-close_ne core j m1 apart ∙ first.kept j apart
]

module _ {D J : Type 0} where
  -- The ports of the pool and those with a listener.
  pub ports_in_all : Server D J → ℕ
  ports_in_all s = elim s.ports [ none ↦ 0 | some a ↦ length a.free ] + length s.listeners

  -- A server after the ports were dealt with: no port is lost, and either the call is refused and both sessions are
  -- closed, or the sessions are as before.
  abbrev pub Bound : String → Server D J → Server D J × Result Response (Option (ℕ × ℕ)) → Type 0
  Bound call_id s (s', answer) =
      (ports_in_all s' ≡ ports_in_all s)
      × (((code : ℕ) × (retry : ℕ) × (answer ≡ err (refused code retry))
            × (s'.sessions ≡ (close_both call_id s).sessions))
          ⊎ ((bound : Option (ℕ × ℕ)) × (answer ≡ ok bound) × (s'.sessions ≡ s.sessions)))

  bind_from-Bound :
      (call_id : String) (w : Conditions) (free : List ℕ) (total : ℕ) (s : Server D J)
      → s.ports ≡ some (record { free = free; total = total })
      → Bound call_id s (bind_from call_id w (record { free = free; total = total }) s)
  unfolding ports_in_all bind_from close_both acquire release
  bind_from-Bound call_id w [] total s pooled = (refl, inl (503, 10000, refl, refl))
  bind_from-Bound call_id w (p1 ∷ []) total s pooled =
      (rw pooled refl, inl (503, 10000, refl, refl))
  bind_from-Bound call_id w (p1 ∷ p2 ∷ rest) total s pooled = elim (Bool-cases w.binds_core) [
    | inr unbound ↦
        subst (Bound call_id s) (sym (if_so _ (ap not unbound)))
          (rw pooled refl, inl (500, 0, refl, refl))
    | inl bound_core ↦
        subst (Bound call_id s) (sym (if_not _ (ap not bound_core)))
          (elim (Bool-cases w.binds_access) [
            | inr unbound ↦
                subst (Bound call_id s) (sym (if_so _ (ap not unbound)))
                  (rw pooled (omega arith), inl (500, 0, refl, refl))
            | inl bound_access ↦
                subst (Bound call_id s) (sym (if_not _ (ap not bound_access)))
                  (rw pooled (omega arith), inr (some (p1, p2), refl, refl))
          ])
  ]

  pub bind_ports-Bound :
      (call_id : String) (w : Conditions) (s : Server D J)
      → Bound call_id s (bind_ports call_id w s)
  unfolding bind_ports
  bind_ports-Bound call_id w s = elim (Option-cases s.ports) [
    | inl without ↦ subst (Bound call_id s) (sym (ap choose without)) (refl, inr (none, refl, refl))
    | inr (a, pooled) ↦
        subst (Bound call_id s) (sym (ap choose pooled))
          (bind_from-Bound call_id w a.free a.total s pooled)
  ]
    where
      choose : Option PortAllocator → Server D J × Result Response (Option (ℕ × ℕ))
      choose o = elim o [ none ↦ (s, ok none) | some a ↦ bind_from call_id w a s ]
