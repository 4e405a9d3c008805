-- ===== src/Session/Manager/Lifecycle.antt =====
-- What every operation of the session manager keeps: the limit, the names, sound indices, and the
-- balance of the two counters (internal/session/manager.go).
use Prim.Native.String.{String}
use media_ai.Prelude.{
  ℕ, ◌+◌, ◌%◌, ◌^◌, ◌≤◌, ◌<◌, ◌≡◌, refl, sym, ◌∙◌, subst, ◌≢◌, inl, inr, true, none, some, List, [],
  ◌∷◌, length, arith, Bool-cases, Option-cases, leb,
}
use media_ai.Prelude.Assoc.{
  text_key, word_key, lookup, insert, Key-cases, HasDistinctKeys, insert-HasDistinctKeys,
  delete-HasDistinctKeys, length-delete, length-insert_live, length-insert_new, lookup-insert_self,
  lookup-insert_ne, lookup-delete_found,
}
use media_ai.Session.{Session}
use media_ai.Session.Manager.{
  Manager, ManagerConfig, SessionConfig, SessionPatch, new_manager, new_session, admit_session,
  create, remove_session, close, patch_session, patch_addr_index, changes_addr, update, expired,
  close_all, gc,
}
use media_ai.Session.Manager.Index.{
  IsSound, put_index-IsSound, drop_index-IsSound, insert-IsSound_same, readdress-IsSound,
}

pub record IsWellFormed (m : Manager) : Type 0 where
  pub named : (id : String) (s : Session) → lookup id m.sessions ≡ some s → s.id ≡ id
  pub distinct : HasDistinctKeys m.sessions
  pub within_limit : length m.sessions ≤ m.cfg.max_sessions
  pub balanced : m.created_total ≡ (m.closed_total + length m.sessions) % 2 ^ 64
  pub by_ssrc : IsSound 0 (λ (s : Session). s.ssrc) m.ssrc_index m.sessions
  pub by_addr : IsSound "" (λ (s : Session). s.remote_addr) m.addr_index m.sessions
  pub by_peer : IsSound "" (λ (s : Session). s.peer_id) m.peer_index m.sessions
  pub by_track : IsSound "" (λ (s : Session). s.track_id) m.track_index m.sessions

pub new_manager-IsWellFormed : (cfg : ManagerConfig) → IsWellFormed (new_manager cfg)
unfolding new_manager lookup
new_manager-IsWellFormed cfg = record {
  named = λ id s h. absurd (ground arith);
  distinct = tt;
  within_limit = omega arith;
  balanced = refl;
  by_ssrc = λ k id h. absurd (ground arith);
  by_addr = λ k id h. absurd (ground arith);
  by_peer = λ k id h. absurd (ground arith);
  by_track = λ k id h. absurd (ground arith);
}

insert-named :
    (sessions : List (String × Session)) (new : String) (s : Session)
    → s.id ≡ new
    → ((id : String) (t : Session) → lookup id sessions ≡ some t → t.id ≡ id)
    → (id : String) (t : Session) → lookup id (insert new s sessions) ≡ some t
    → t.id ≡ id
insert-named sessions new s name named id t h = elim (Key-cases id new) [
  | inl same ↦
      let here : some s ≡ some t =
        sym (lookup-insert_self new s sessions)
        ∙ subst (λ x. lookup x (insert new s sessions) ≡ some t) same h in
      let is_s : s ≡ t = ground arith in subst (λ (x : Session). x.id ≡ id) is_s (name ∙ sym same)
  | inr other ↦ named id t (sym (lookup-insert_ne new id s sessions other) ∙ h)
]

admit_session-IsWellFormed :
    (m : Manager) (s : Session)
    → lookup s.id m.sessions ≡ none
    → length m.sessions < m.cfg.max_sessions
    → IsWellFormed m
    → IsWellFormed (admit_session m s)
unfolding admit_session
admit_session-IsWellFormed m s fresh room w = record {
  named = insert-named m.sessions s.id s refl w.named;
  distinct = insert-HasDistinctKeys s.id s m.sessions w.distinct;
  within_limit = omega (arith, length-insert_new s.id s m.sessions fresh);
  balanced = omega (arith, length-insert_new s.id s m.sessions fresh, w.balanced);
  by_ssrc = put_index-IsSound 0 (λ t. t.ssrc) m.ssrc_index m.sessions s.id s fresh w.by_ssrc;
  by_addr =
      put_index-IsSound "" (λ t. t.remote_addr) m.addr_index m.sessions s.id s fresh w.by_addr;
  by_peer = put_index-IsSound "" (λ t. t.peer_id) m.peer_index m.sessions s.id s fresh w.by_peer;
  by_track =
      put_index-IsSound "" (λ t. t.track_id) m.track_index m.sessions s.id s fresh w.by_track;
}

pub create-IsWellFormed :
    (now : ℕ) (cfg : SessionConfig) (m : Manager)
    → IsWellFormed m
    → IsWellFormed (create now cfg m).0
unfolding create
create-IsWellFormed now cfg m w = elim (Bool-cases (leb m.cfg.max_sessions (length m.sessions))) [
  | inl full ↦ rw full w
  | inr room ↦ elim (Option-cases (lookup cfg.id m.sessions)) [
    | inl fresh ↦
        rw (room, fresh)
          (admit_session-IsWellFormed m (new_session m.cfg now cfg) (unfold new_session in fresh)
            (ground arith) w)
    | inr (s, taken) ↦ rw (room, taken) w
  ]
]

remove_session-IsWellFormed :
    (id : String) (s : Session) (m : Manager)
    → lookup id m.sessions ≡ some s
    → IsWellFormed m
    → IsWellFormed (remove_session id s m)
unfolding remove_session
remove_session-IsWellFormed id s m live w = record {
  named = λ j t h. w.named j t (lookup-delete_found id j m.sessions h).1;
  distinct = delete-HasDistinctKeys id m.sessions w.distinct;
  within_limit = omega (arith, length-delete id m.sessions w.distinct live, w.within_limit);
  balanced = omega (arith, length-delete id m.sessions w.distinct live, w.balanced);
  by_ssrc = drop_index-IsSound 0 (λ t. t.ssrc) m.ssrc_index m.sessions id s live w.by_ssrc;
  by_addr = drop_index-IsSound "" (λ t. t.remote_addr) m.addr_index m.sessions id s live w.by_addr;
  by_peer = drop_index-IsSound "" (λ t. t.peer_id) m.peer_index m.sessions id s live w.by_peer;
  by_track = drop_index-IsSound "" (λ t. t.track_id) m.track_index m.sessions id s live w.by_track;
}

pub close-IsWellFormed : (id : String) (m : Manager) → IsWellFormed m → IsWellFormed (close id m).0
unfolding close
close-IsWellFormed id m w = elim (Option-cases (lookup id m.sessions)) [
  | inl absent ↦ rw (absent, close) w
  | inr (s, live) ↦ rw (live, close) (remove_session-IsWellFormed id s m live w)
]

moves-ne_empty : (p : SessionPatch) (s : Session) → changes_addr p s ≡ true → p.remote_addr ≢ ""
unfolding changes_addr
moves-ne_empty p s moves = ground (arith, text_key.same_iff p.remote_addr "")

patch_addr_index-IsSound :
    (id : String) (p : SessionPatch) (s : Session) (m : Manager)
    → lookup id m.sessions ≡ some s
    → IsWellFormed m
    → IsSound ""
        (λ (t : Session). t.remote_addr)
        (patch_addr_index id p s m.addr_index)
        (insert id (patch_session p s) m.sessions)
unfolding patch_addr_index patch_session
patch_addr_index-IsSound id p s m live w = elim (Bool-cases (changes_addr p s)) [
  | inl moves ↦ rw moves (
      readdress-IsSound "" (λ t. t.remote_addr) m.addr_index m.sessions id s _ live
        (moves-ne_empty p s moves) w.by_addr)
  | inr stays ↦ rw stays (
      insert-IsSound_same "" (λ t. t.remote_addr) m.addr_index m.sessions id s _ live refl
        w.by_addr)
]

pub update-IsWellFormed :
    (id : String) (p : SessionPatch) (m : Manager) → IsWellFormed m → IsWellFormed (update id p m).0
unfolding update
update-IsWellFormed id p m w = elim (Option-cases (lookup id m.sessions)) [
  | inl absent ↦ rw (absent, update) w
  | inr (s, live) ↦
      rw (live, update)
        (record {
          named = insert-named m.sessions id (patch_session p s) (w.named id s live) w.named;
          distinct = insert-HasDistinctKeys id (patch_session p s) m.sessions w.distinct;
          within_limit =
              omega
                (arith, length-insert_live id (patch_session p s) m.sessions live, w.within_limit);
          balanced =
              omega (arith, length-insert_live id (patch_session p s) m.sessions live, w.balanced);
          by_ssrc =
              insert-IsSound_same 0 (λ t. t.ssrc) m.ssrc_index m.sessions id s (patch_session p s)
                live refl w.by_ssrc;
          by_addr = patch_addr_index-IsSound id p s m live w;
          by_peer =
              insert-IsSound_same "" (λ t. t.peer_id) m.peer_index m.sessions id s
                (patch_session p s) live refl w.by_peer;
          by_track =
              insert-IsSound_same "" (λ t. t.track_id) m.track_index m.sessions id s
                (patch_session p s) live refl w.by_track;
        })
]

close_all-IsWellFormed :
    (ids : List String) (m : Manager) → IsWellFormed m → IsWellFormed (close_all ids m)
unfolding close_all
close_all-IsWellFormed [] m w = w
close_all-IsWellFormed (id ∷ ids) m w =
    close_all-IsWellFormed ids (close id m).0 (close-IsWellFormed id m w)

pub gc-IsWellFormed : (now : ℕ) (m : Manager) → IsWellFormed m → IsWellFormed (gc now m)
unfolding gc
gc-IsWellFormed now m w = close_all-IsWellFormed (expired now m.cfg.idle_timeout m.sessions) m w
