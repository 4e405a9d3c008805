-- ===== src/Session/Manager/Collect.antt =====
-- The collection of idle sessions (`gc` and `isIdle`, internal/session/manager.go and session.go).
use Prim.Native.String.{String}
use media_ai.Prelude.{
  ℕ, ◌+◌, ◌<◌, ◌≡◌, refl, ◌∙◌, subst, ◌≢◌, inl, inr, Bool, false, ◌||◌, none, some, List, [], ◌∷◌,
  arith, Bool-cases, Option-cases, if◌then◌else◌,
}
use media_ai.Prelude.Assoc.{
  text_key, ◌==◌, lookup, HasDistinctKeys, lookup-delete, Key-cases, beq_of_eq, beq_of_ne,
}
use media_ai.Session.{Session, Status, is_idle}
use media_ai.Session.Manager.{Manager, get, remove_session, close, close_all, expired, gc}
use media_ai.Session.Manager.Lifecycle.{IsWellFormed}

abbrev holds : String → List String → Bool
holds id [] = false
holds id (j ∷ ids) = (j == id) || holds id ids

lookup-close :
    (id j : String) (m : Manager)
    → lookup j (close id m).0.sessions ≡ (if id == j then none else lookup j m.sessions)
unfolding close remove_session
lookup-close id j m = elim (Option-cases (lookup id m.sessions)) [
  | inl absent ↦ elim (Key-cases id j) [
    | inl same ↦ rw (beq_of_eq id j same, absent, close) (ground (arith, λ (p : id ≡ j). p))
    | inr other ↦ rw (beq_of_ne id j other, absent, close) refl
  ]
  | inr (s, live) ↦ rw (live, close) (lookup-delete id j m.sessions)
]

lookup-close_all :
    (ids : List String) (id : String) (m : Manager)
    → lookup id (close_all ids m).sessions ≡ (if holds id ids then none else lookup id m.sessions)
unfolding close_all
lookup-close_all [] id m = refl
lookup-close_all (j ∷ ids) id m =
    ground (arith, lookup-close_all ids id (close j m).0, lookup-close j id m)

holds-expired :
    (now timeout : ℕ) (id : String) (sessions : List (String × Session))
    → HasDistinctKeys sessions
    → holds id (expired now timeout sessions)
      ≡ (elim (lookup id sessions) [ none ↦ false | some s ↦ is_idle now timeout s ])
unfolding expired lookup
holds-expired now timeout id [] d = refl
holds-expired now timeout id ((j, s) ∷ rest) d = elim (Key-cases j id) [
  | inl same ↦
      let gone : lookup id rest ≡ none = subst (λ x. lookup x rest ≡ none) same d.0 in
      let unlisted : holds id (expired now timeout rest) ≡ false =
        holds-expired now timeout id rest d.1 ∙ (rw gone refl) in
      rw (beq_of_eq j id same) (ground (arith, beq_of_eq j id same))
  | inr other ↦
      rw (beq_of_ne j id other)
        (ground (arith, holds-expired now timeout id rest d.1, beq_of_ne j id other))
]

-- The session has not begun to close, and its last packet came more than the timeout ago.
abbrev pub IsExpired : ℕ → ℕ → Session → Type 0
IsExpired now timeout s =
    (s.status ≢ Status.closing) × (s.status ≢ Status.closed) × (s.last_packet_at + timeout < now)

-- A collection at `now` closes exactly the sessions that are expired then: an expired session is not
-- found afterwards, one that is not expired is found unchanged, and no session appears.
pub get-gc :
    (now : ℕ) (m : Manager) (id : String)
    → IsWellFormed m
    → (get id m ≡ none → get id (gc now m) ≡ none)
      × ((s : Session)
          → get id m ≡ some s
          → IsExpired now m.cfg.idle_timeout s
          → get id (gc now m) ≡ none)
      × ((s : Session)
          → get id m ≡ some s
          → ¬ IsExpired now m.cfg.idle_timeout s
          → get id (gc now m) ≡ some s)
unfolding get gc is_idle
get-gc now m id w = (
  λ h. found ∙ rw (listed, h) refl,
  λ s h e. found ∙ rw (listed, h) (ground arith),
  λ s h e.
      found
      ∙ rw (listed, h)
          (elim (Bool-cases (is_idle now m.cfg.idle_timeout s)) [
            | inl y ↦ absurd (e (ground arith))
            | inr n ↦ rw n refl
          ]),
)
  where
    found : lookup id (gc now m).sessions ≡ (
        if holds id (expired now m.cfg.idle_timeout m.sessions) then none else lookup id m.sessions)
    found = lookup-close_all (expired now m.cfg.idle_timeout m.sessions) id m

    listed :
        holds id (expired now m.cfg.idle_timeout m.sessions)
        ≡ (elim (lookup id m.sessions) [ none ↦ false | some s ↦ is_idle now m.cfg.idle_timeout s ])
    listed = holds-expired now m.cfg.idle_timeout id m.sessions w.distinct
