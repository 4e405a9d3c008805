-- ===== src/Session/Manager/History.antt =====
-- Any sequence of calls of the session manager, in the order in which its lock lets them through
-- (internal/session/manager.go).
use Prim.Native.String.{String}
use media_ai.Prelude.{ℕ, List, [], ◌∷◌}
use media_ai.Session.Manager.{
  Manager, ManagerConfig, SessionConfig, SessionPatch, new_manager, create, close, update, gc,
}
use media_ai.Session.Manager.Lifecycle.{
  IsWellFormed, new_manager-IsWellFormed, create-IsWellFormed, close-IsWellFormed,
  update-IsWellFormed, gc-IsWellFormed,
}

pub data Call : Type 0 where
  create_at : ℕ → SessionConfig → Call
  close_id : String → Call
  update_id : String → SessionPatch → Call
  gc_at : ℕ → Call

unfoldable pub apply : Call → Manager → Manager
apply (create_at now cfg) m = (create now cfg m).0
apply (close_id id) m = (close id m).0
apply (update_id id p) m = (update id p m).0
apply (gc_at now) m = gc now m

unfoldable pub run : List Call → Manager → Manager
run [] m = m
run (c ∷ cs) m = run cs (apply c m)

apply-IsWellFormed : (c : Call) (m : Manager) → IsWellFormed m → IsWellFormed (apply c m)
unfolding apply
apply-IsWellFormed (create_at now cfg) m w = create-IsWellFormed now cfg m w
apply-IsWellFormed (close_id id) m w = close-IsWellFormed id m w
apply-IsWellFormed (update_id id p) m w = update-IsWellFormed id p m w
apply-IsWellFormed (gc_at now) m w = gc-IsWellFormed now m w

run_keeps : (cs : List Call) (m : Manager) → IsWellFormed m → IsWellFormed (run cs m)
unfolding run
run_keeps [] m w = w
run_keeps (c ∷ cs) m w = run_keeps cs (apply c m) (apply-IsWellFormed c m w)

-- After any sequence of create, close, update and gc calls on a new manager, the manager holds at
-- most `max_sessions` sessions, each under its own id and once; `createdTotal` is `closedTotal` plus
-- the number of live sessions modulo 2 ^ 64; and every entry of the four indices has a key that is
-- not the zero value and leads to a live session that has this key.
pub run-IsWellFormed :
    (cfg : ManagerConfig) (cs : List Call) → IsWellFormed (run cs (new_manager cfg))
run-IsWellFormed cfg cs = run_keeps cs (new_manager cfg) (new_manager-IsWellFormed cfg)
