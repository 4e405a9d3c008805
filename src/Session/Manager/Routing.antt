-- ===== src/Session/Manager/Routing.antt =====
-- What the lookups of the session manager find, and what create and close change of it
-- (internal/session/manager.go).
use Prim.Native.String.{String}
use media_ai.Prelude.{
  ℕ, ◌+◌, ◌≤◌, ◌<◌, ◌≡◌, refl, sym, ◌∙◌, ap, subst, ◌≢◌, ◌⊎◌, inl, inr, none, some, List, length,
  arith, Bool-cases, Option-cases, leb, ok, err,
}
use media_ai.Prelude.Assoc.{
  Key, text_key, word_key, lookup, insert, lookup-insert_self, lookup-insert_ne, length-insert_new,
  beq_of_ne,
}
use media_ai.Session.{Session}
use media_ai.Session.Manager.{
  Manager, SessionConfig, put_index, get_by, new_session, admit_session, create, get, get_by_ssrc,
  get_by_addr, get_by_peer_id, get_by_track_id, max_sessions_reached, duplicate_id, count,
}
use media_ai.Session.Manager.Index.{IsSound}
use media_ai.Session.Manager.Lifecycle.{IsWellFormed}

get_by-put_index :
    {K : Type 0} ⦃e : Key K⦄ (zero key : K) (id : String) (s : Session) (index : List (K × String))
    (sessions : List (String × Session))
    → key ≢ zero
    → get_by key (put_index zero key id index) (insert id s sessions) ≡ some s
unfolding get_by put_index
get_by-put_index zero key id s index sessions nonzero =
    rw (beq_of_ne key zero nonzero, lookup-insert_self key id index, get_by)
      (lookup-insert_self id s sessions)

-- Where a session is found once it is admitted.
abbrev pub IsRouted : Session → Manager → Type 0
IsRouted s m =
    (s.ssrc ≢ 0 → get_by_ssrc s.ssrc m ≡ some s)
    × (s.remote_addr ≢ "" → get_by_addr s.remote_addr m ≡ some s)
    × (s.peer_id ≢ "" → get_by_peer_id s.peer_id m ≡ some s)
    × (s.track_id ≢ "" → get_by_track_id s.track_id m ≡ some s)

admit_session-IsRouted : (m : Manager) (s : Session) → IsRouted s (admit_session m s)
unfolding admit_session get_by_ssrc get_by_addr get_by_peer_id get_by_track_id
admit_session-IsRouted m s = (
  get_by-put_index 0 s.ssrc s.id s m.ssrc_index m.sessions,
  get_by-put_index "" s.remote_addr s.id s m.addr_index m.sessions,
  get_by-put_index "" s.peer_id s.id s m.peer_index m.sessions,
  get_by-put_index "" s.track_id s.id s m.track_index m.sessions,
)

-- What it means that `m'` is `m` with the session `s` added.
abbrev pub IsAdded : Session → Manager → Manager → Type 0
IsAdded s m m' =
    (get s.id m' ≡ some s)
    × ((id : String) → id ≢ s.id → get id m' ≡ get id m)
    × (count m' ≡ count m + 1)
    × IsRouted s m'

admit_session-IsAdded :
    (m : Manager) (s : Session) → get s.id m ≡ none → IsAdded s m (admit_session m s)
unfolding admit_session get count
admit_session-IsAdded m s fresh = (
  lookup-insert_self s.id s m.sessions,
  λ id other. lookup-insert_ne s.id id s m.sessions other,
  length-insert_new s.id s m.sessions fresh ∙ omega arith,
  admit_session-IsRouted m s,
)

-- `create` answers in one of three ways. At the limit it reports `max_sessions_reached`, else under
-- an id in use `duplicate_id`, and both times the manager stays as it was. Otherwise the new session
-- is stored under its id, every other id keeps what it had, the count grows by one, and the session
-- is found by each of its SSRC, remote address, peer id and track id that is not the zero value.
pub create_outcome :
    (now : ℕ) (cfg : SessionConfig) (m : Manager)
    → ((m.cfg.max_sessions ≤ count m) × (create now cfg m ≡ (m, err max_sessions_reached)))
      ⊎ ((count m < m.cfg.max_sessions)
          × (get cfg.id m ≢ none)
          × (create now cfg m ≡ (m, err duplicate_id)))
      ⊎ ((count m < m.cfg.max_sessions)
          × (get cfg.id m ≡ none)
          × ((create now cfg m).1 ≡ ok (new_session m.cfg now cfg))
          × IsAdded (new_session m.cfg now cfg) m (create now cfg m).0)
unfolding create get count
create_outcome now cfg m = elim (Bool-cases (leb m.cfg.max_sessions (length m.sessions))) [
  | inl full ↦ inl (ground arith, rw full)
  | inr room ↦ elim (Option-cases (lookup cfg.id m.sessions)) [
    | inr (t, taken) ↦ inr (inl (ground arith, ground arith, rw (room, taken)))
    | inl fresh ↦ inr (
        inr (
          ground arith,
          fresh,
          rw (room, fresh) refl,
          rw (room, fresh, create)
              (admit_session-IsAdded m (new_session m.cfg now cfg) (unfold new_session in fresh)),
        ))
  ]
]

-- In a well-formed manager a lookup by SSRC, remote address, peer id or track id finds only a live
-- session that has this key, and the zero value finds none.
pub get_by_sound :
    (m : Manager) (s : Session)
    → IsWellFormed m
    → ((k : ℕ) → get_by_ssrc k m ≡ some s → (get s.id m ≡ some s) × (s.ssrc ≡ k) × (k ≢ 0))
      × ((k : String)
          → get_by_addr k m ≡ some s
          → (get s.id m ≡ some s) × (s.remote_addr ≡ k) × (k ≢ ""))
      × ((k : String)
          → get_by_peer_id k m ≡ some s
          → (get s.id m ≡ some s) × (s.peer_id ≡ k) × (k ≢ ""))
      × ((k : String)
          → get_by_track_id k m ≡ some s
          → (get s.id m ≡ some s) × (s.track_id ≡ k) × (k ≢ ""))
unfolding get_by_ssrc get_by_addr get_by_peer_id get_by_track_id get
get_by_sound m s w = (
  λ k h. through 0 (λ t. t.ssrc) m.ssrc_index w.by_ssrc k h,
  λ k h. through "" (λ t. t.remote_addr) m.addr_index w.by_addr k h,
  λ k h. through "" (λ t. t.peer_id) m.peer_index w.by_peer k h,
  λ k h. through "" (λ t. t.track_id) m.track_index w.by_track k h,
)
  where
    through :
        {K : Type 0} ⦃e : Key K⦄ (zero : K) (key_of : Session → K) (index : List (K × String))
        → IsSound zero key_of index m.sessions
        → (k : K) → get_by k index m.sessions ≡ some s
        → (lookup s.id m.sessions ≡ some s) × (key_of s ≡ k) × (k ≢ zero)
    through zero key_of index sound k h = elim (Option-cases (lookup k index)) [
      | inl missing ↦ absurd (ground arith)
      | inr (id, entry) ↦
          let live : lookup id m.sessions ≡ some s = rw (entry, get_by) at h in
          let (t, found, key, nonzero) = sound k id entry in
          let is_s : t ≡ s = ground arith in
          (
            subst (λ x. lookup x m.sessions ≡ some s) (sym (w.named id s live)) live,
            sym (ap key_of is_s) ∙ key,
            nonzero,
          )
    ]
