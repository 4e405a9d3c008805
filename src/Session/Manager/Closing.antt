-- ===== src/Session/Manager/Closing.antt =====
-- What closing a session does, and which sessions stay reachable by their SSRC
-- (internal/session/manager.go).
use Prim.Native.String.{String}
use media_ai.Prelude.{
  ℕ, ◌+◌, ◌%◌, ◌^◌, ◌≡◌, refl, ◌∙◌, ◌≢◌, inl, inr, true, none, some, length, arith, Bool-cases,
  Option-cases, leb,
}
use media_ai.Prelude.Assoc.{
  text_key, word_key, lookup, lookup-delete_ne, lookup-delete_self, length-delete, beq_of_ne,
}
use media_ai.Session.{Session, Status, set_status}
use media_ai.Session.Manager.{
  Manager, SessionConfig, drop_index, get_by, new_session, admit_session, create, get, get_by_ssrc,
  remove_session, close, count,
}
use media_ai.Session.Manager.Index.{IsComplete, put_index-IsComplete, drop_index-IsComplete}
use media_ai.Session.Manager.Lifecycle.{IsWellFormed}

-- Closing an unknown id changes nothing and reports it. Closing a live session hands the session back
-- closed and with its context cancelled, removes it and no other, lowers the count by one and raises
-- `closedTotal` by one modulo 2 ^ 64.
pub close_outcome :
    (id : String) (m : Manager)
    → IsWellFormed m
    → (get id m ≡ none → close id m ≡ (m, none))
      × ((s : Session)
          → get id m ≡ some s
          → ((close id m).1 ≡ some (record s { cancelled = true; status = Status.closed }))
            × (get id (close id m).0 ≡ none)
            × ((j : String) → j ≢ id → get j (close id m).0 ≡ get j m)
            × (count (close id m).0 + 1 ≡ count m)
            × ((close id m).0.closed_total ≡ (m.closed_total + 1) % 2 ^ 64))
unfolding close get count remove_session set_status
close_outcome id m w = (
  λ h. rw (h, close) refl,
  λ s h. (
    rw (h, close) refl,
    rw (h, close) (lookup-delete_self id m.sessions),
    λ j other. rw (h, close) (lookup-delete_ne id j m.sessions other),
    rw (h, close) (omega (arith, length-delete id m.sessions w.distinct h)),
    rw (h, close) refl,
  ),
)

-- Every live session whose SSRC is not 0 is the one that the index has for this SSRC.
abbrev pub FindsEverySsrc : Manager → Type 0
FindsEverySsrc m = IsComplete 0 (λ (s : Session). s.ssrc) m.ssrc_index m.sessions

close-FindsEverySsrc :
    (id : String) (m : Manager) → FindsEverySsrc m → FindsEverySsrc (close id m).0
unfolding close remove_session set_status
close-FindsEverySsrc id m all = elim (Option-cases (lookup id m.sessions)) [
  | inl absent ↦ rw (absent, close) all
  | inr (s, live) ↦
      rw (live, close) (drop_index-IsComplete 0 (λ t. t.ssrc) m.ssrc_index m.sessions id s live all)
]

unused-lookup :
    (k : ℕ) (m : Manager)
    → IsWellFormed m
    → ((id : String) (s : Session) → get id m ≡ some s → s.ssrc ≢ k)
    → lookup k m.ssrc_index ≡ none
unfolding get
unused-lookup k m w unused = elim (Option-cases (lookup k m.ssrc_index)) [
  | inl missing ↦ missing
  | inr (id, entry) ↦
      let (s, live, key, nonzero) = w.by_ssrc k id entry in absurd (unused id s live key)
]

create-FindsEverySsrc :
    (now : ℕ) (cfg : SessionConfig) (m : Manager)
    → lookup cfg.ssrc m.ssrc_index ≡ none
    → FindsEverySsrc m
    → FindsEverySsrc (create now cfg m).0
unfolding create admit_session
create-FindsEverySsrc now cfg m unused all =
    elim (Bool-cases (leb m.cfg.max_sessions (length m.sessions))) [
      | inl full ↦ rw full all
      | inr room ↦ elim (Option-cases (lookup cfg.id m.sessions)) [
        | inr (t, taken) ↦ rw (room, taken) all
        | inl fresh ↦
            rw (room, fresh, create)
              (put_index-IsComplete 0 (λ t. t.ssrc) m.ssrc_index m.sessions
                (new_session m.cfg now cfg).id (new_session m.cfg now cfg)
                (unfold new_session in fresh) (unfold new_session in unused) all)
      ]
    ]

-- In a well-formed manager where every live session with an SSRC is found by it, this stays so when
-- any session is closed, and when a session is created whose SSRC no live session has.
pub FindsEverySsrc-kept :
    (m : Manager)
    → IsWellFormed m
    → FindsEverySsrc m
    → ((id : String) → FindsEverySsrc (close id m).0)
      × ((now : ℕ) (cfg : SessionConfig)
          → ((id : String) (s : Session) → get id m ≡ some s → s.ssrc ≢ cfg.ssrc)
          → FindsEverySsrc (create now cfg m).0)
FindsEverySsrc-kept m w all = (
  λ id. close-FindsEverySsrc id m all,
  λ now cfg unused. create-FindsEverySsrc now cfg m (unused-lookup cfg.ssrc m w unused) all,
)

-- Two live sessions share an SSRC: once either is closed, the other is still live, and is not
-- found by the SSRC any more, so its packets are no longer routed by it.
pub close-shared_ssrc :
    (m : Manager) (id : String) (s t : Session)
    → get id m ≡ some s
    → get t.id m ≡ some t
    → t.id ≢ id
    → s.ssrc ≡ t.ssrc
    → t.ssrc ≢ 0
    → (get t.id (close id m).0 ≡ some t) × (get_by_ssrc t.ssrc (close id m).0 ≡ none)
unfolding close get get_by_ssrc remove_session set_status drop_index
close-shared_ssrc m id s t h k other same nonzero = (
  rw (h, close) (lookup-delete_ne id t.id m.sessions other ∙ k),
  rw (h, close)
      (rw (same, beq_of_ne t.ssrc 0 nonzero, lookup-delete_self t.ssrc m.ssrc_index, get_by) refl),
)
