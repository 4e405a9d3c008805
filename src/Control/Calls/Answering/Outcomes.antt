-- ===== src/Control/Calls/Answering/Outcomes.antt =====
-- How an ANSWER is settled (internal/controlplane/handler.go).
use Prim.Native.String.{String}
use media_ai.Prelude.{
  ℕ, ◌+◌, ◌≡◌, refl, sym, ap, ◌∙◌, subst, inl, inr, ◌⊎◌, not, Option, some, if_so, if_not, Result,
  ok, err, Fault, arith, Bool-cases, Option-cases,
}
use media_ai.Prelude.Assoc.{text_key}
use media_ai.Session.{Session}
use media_ai.Session.Manager.{Manager, SessionConfig, SessionError, close, get, count}
use media_ai.Jitter.Buffer.{Config as JitterConfig}
use media_ai.Pipeline.Chain.{Decoder}
use media_ai.Coordinator.Start.{Result-cases, start_total}
use media_ai.Control.Calls.{
  Server, Response, acknowledged, refused, answered, found_session, no_content, tcore_id,
  taccess_id, refusal_of, Conditions, base_config, service_to_codec, close_both, bind_ports,
  open_session, start_both, after_ports, after_access, after_core, handle_answer,
}
use media_ai.Control.Calls.Answering.{
  IsOpened, open_session-cases, closed_again, still_core, closed_core, ports_in_all, Bound,
  bind_ports-Bound,
}

abbrev pub Settled : {D J : Type 0} → String → Server D J → Server D J → Response → Type 0
Settled call_id s s' acknowledged = s' ≡ s
Settled call_id s s' (refused code retry) = (j : String) → get j s'.sessions ≡ get j s.sessions
Settled call_id s s' (answered id bound) =
    ((core : Session) × (get (tcore_id call_id) s'.sessions ≡ some core))
    × ((access : Session) × (get (taccess_id call_id) s'.sessions ≡ some access))
Settled call_id s s' (found_session id sess) = ⊥
Settled call_id s s' no_content = ⊥

refusal-Settled :
    {D J : Type 0} (call_id : String) (e : SessionError) (s s' : Server D J)
    → ((j : String) → get j s'.sessions ≡ get j s.sessions)
    → Settled call_id s s' (refusal_of e)
refusal-Settled call_id SessionError.duplicate_id s s' same = same
refusal-Settled call_id SessionError.max_sessions_reached s s' same = same
refusal-Settled call_id SessionError.not_found s s' same = same

module _ {D J : Type 0} (open_decoder : String → ℕ → ℕ → Option (Decoder D))
    (new_jitter : JitterConfig → J) (to_lower : String → String) where
  start_both-cases :
      (call_id : String) (w : Conditions) (bound : Option (ℕ × ℕ)) (core access : Session)
      (s : Server D J)
      → (s' : Server D J) × (response : Response) × (start_both open_decoder new_jitter to_lower
            call_id w bound core access s
          ≡ ok (s', response))
        × (ports_in_all s' ≡ ports_in_all s)
        × (((response ≡ refused 400 0) × (s'.sessions ≡ (close_both call_id s).sessions))
            ⊎ ((response ≡ answered call_id bound) × (s'.sessions ≡ s.sessions)))
  unfolding start_both close_both ports_in_all
  start_both-cases call_id w bound core access s =
      let (c1, left1, answer1, ran1) =
        start_total open_decoder new_jitter w.dials_core w.now_ms w.number core s.coord in
      elim (Result-cases answer1) [
        | inr (e, failed) ↦ (
          close_both call_id (record s { coord = c1 }),
          refused 400 0,
          rw (ran1, failed) refl,
          refl,
          inl (refl, refl),
        )
        | inl (sink, started) ↦
            let (c2, left2, answer2, ran2) =
              start_total open_decoder new_jitter w.dials_access w.now_ms (w.number + 1) access
                c1 in
            elim (Result-cases answer2) [
              | inr (e, failed) ↦ (
                close_both call_id (record s { coord = c2 }),
                refused 400 0,
                rw (ran1, started, ran2, failed) refl,
                refl,
                inl (refl, refl),
              )
              | inl (sink', started') ↦ (
                record s { coord = c2 },
                answered call_id bound,
                rw (ran1, started, ran2, started') refl,
                refl,
                inr (refl, refl),
              )
            ]
      ]

  -- Without a fault, without losing a port, and settled.
  abbrev Handled : String → Server D J → Result Fault (Server D J × Response) → Type 0
  Handled call_id s result =
      (s' : Server D J) × (response : Response) × (result ≡ ok (s', response))
      × (ports_in_all s' ≡ ports_in_all s)
      × Settled call_id s s' response

  after_ports-Handled :
      (call_id : String) (w : Conditions) (core access : Session) (s : Server D J) (m1 m2 : Manager)
      → IsOpened (tcore_id call_id) core s.sessions m1
      → IsOpened (taccess_id call_id) access m1 m2
      → (q : Server D J × Result Response (Option (ℕ × ℕ)))
      → Bound call_id (record s { sessions = m2 }) q
      → Handled call_id s (after_ports open_decoder new_jitter to_lower call_id w core access q)
  unfolding after_ports close_both ports_in_all
  after_ports-Handled call_id w core access s m1 m2 first second (s', err response)
        (count, inl (code, retry, refusal, closed)) =
      let same : response ≡ refused code retry =
        ap (λ (r : Result Response (Option (ℕ × ℕ))). elim r [ err e ↦ e | ok b ↦ response ])
          refusal in
      (
        s',
        refused code retry,
        ap (λ r. ok (s', r)) same,
        count,
        λ j.
            ap (get j) closed
            ∙ closed_again (tcore_id call_id) (taccess_id call_id) core access s.sessions m1 m2
                first second j,
      )
  after_ports-Handled call_id w core access s m1 m2 first second (s', err response)
        (count, inr (bound, clash, same)) =
      absurd (ground arith)
  after_ports-Handled call_id w core access s m1 m2 first second (s', ok bound)
        (count, inl (code, retry, clash, closed)) =
      absurd (ground arith)
  after_ports-Handled call_id w core access s m1 m2 first second (s', ok bound)
        (count, inr (bound', is_ok, same)) =
      let (after, response, ran, ports, outcome) =
        start_both-cases call_id w bound core access s' in
      elim outcome [
        | inl (refusal, closed) ↦ (
          after,
          refused 400 0,
          ran ∙ ap (λ r. ok (after, r)) refusal,
          ports ∙ count,
          λ j.
              ap (get j) closed
              ∙ ap (λ m. get j (close (taccess_id call_id) (close (tcore_id call_id) m).0).0) same
              ∙ closed_again (tcore_id call_id) (taccess_id call_id) core access s.sessions m1 m2
                  first second j,
        )
        | inr (answer, kept) ↦
            let all = kept ∙ same in
            (
              after,
              answered call_id bound,
              ran ∙ ap (λ r. ok (after, r)) answer,
              ports ∙ count,
              (
                (
                  core,
                  ap (get (tcore_id call_id)) all
                      ∙ still_core call_id core access s.sessions m1 m2 first second,
                ),
                (access, ap (get (taccess_id call_id)) all ∙ second.here),
              ),
            )
      ]

  after_core-Handled :
      (call_id : String) (w : Conditions) (s : Server D J) (cfg : SessionConfig) (core : Session)
      (m1 : Manager)
      → cfg.id ≡ taccess_id call_id
      → IsOpened (tcore_id call_id) core s.sessions m1
      → Handled call_id s
          (after_core open_decoder new_jitter to_lower call_id w s cfg (m1, ok core))
  unfolding after_core after_access ports_in_all
  after_core-Handled call_id w s cfg core m1 is_access first =
      elim (open_session-cases s.gateway_id w.now cfg m1) [
        | inl (e, refusal) ↦
            let s' : Server D J = record s { sessions = (close (tcore_id call_id) m1).0 } in
            (
              s',
              refusal_of e,
              ap (after_access open_decoder new_jitter to_lower call_id w s m1 core) refusal,
              refl,
              refusal-Settled call_id e s s'
                  (closed_core (tcore_id call_id) core s.sessions m1 first),
            )
        | inr (m2, access, opened, second) ↦
            subst (Handled call_id s)
              (sym (ap (after_access open_decoder new_jitter to_lower call_id w s m1 core) opened))
              (after_ports-Handled call_id w core access s m1 m2 first
                (subst (λ id. IsOpened id access m1 m2) is_access second)
                (bind_ports call_id w (record s { sessions = m2 }))
                (bind_ports-Bound call_id w (record s { sessions = m2 })))
      ]

  -- An ANSWER is handled without a fault, and no port is lost: afterwards the free ports and those with a listener are
  -- as many as before. An acknowledgement leaves the server as it was; a refusal, whatever it is for, leaves under every
  -- id the session, if any, that was there before; and an answer leaves both sessions of the call.
  pub handle_answer_settles :
      (call_id service : String) (w : Conditions) (s : Server D J)
      → (s' : Server D J) × (response : Response) × (handle_answer open_decoder new_jitter to_lower
            call_id service w s
          ≡ ok (s', response))
        × (ports_in_all s' ≡ ports_in_all s)
        × Settled call_id s s' response
  unfolding handle_answer base_config after_core
  handle_answer_settles call_id service w s =
      elim (Option-cases (service_to_codec to_lower service)) [
        | inl other ↦ (s, acknowledged, rw (other, handle_answer) refl, refl, refl)
        | inr ((codec, rate), known) ↦ elim (Bool-cases w.admitted) [
          | inr overloaded ↦ (
            s,
            refused 503 w.retry_after_ms,
            rw (known, handle_answer) (if_so _ (ap not overloaded)),
            refl,
            λ j. refl,
          )
          | inl admitted ↦
              let cfg = λ (id : String). base_config id codec rate service s.result_callback_url in
              let next =
                after_core open_decoder new_jitter to_lower call_id w s
                  (cfg (taccess_id call_id)) in
              let entered : handle_answer open_decoder new_jitter to_lower call_id service w s
                  ≡ next (open_session s.gateway_id w.now (cfg (tcore_id call_id)) s.sessions) =
                rw (known, handle_answer) (if_not _ (ap not admitted)) in
              elim (open_session-cases s.gateway_id w.now (cfg (tcore_id call_id)) s.sessions) [
                | inl (e, refusal) ↦ (
                  s,
                  refusal_of e,
                  entered ∙ ap next refusal,
                  refl,
                  refusal-Settled call_id e s s (λ j. refl),
                )
                | inr (m1, core, opened, first) ↦
                    subst (Handled call_id s) (sym (entered ∙ ap next opened))
                      (after_core-Handled call_id w s (cfg (taccess_id call_id)) core m1 refl first)
              ]
        ]
      ]
