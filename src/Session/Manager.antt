-- ===== src/Session/Manager.antt =====
-- The session manager (internal/session/manager.go). Each method runs under the manager's lock, so
-- it is a function from state to state; Go's maps are association lists. The counters are uint64.
use Prim.Native.String.{String}
use media_ai.Prelude.{
  ℕ, ◌+◌, ◌%◌, ◌^◌, ◌≤◌, ◌≡◌, Bool, true, false, Option, none, some, List, [], ◌∷◌, leb, length,
  if◌then◌else◌, not, ◌&&◌, Result, ok, err,
}
use media_ai.Prelude.Assoc.{Key, ◌==◌, word_key, text_key, lookup, insert, delete}
use media_ai.Media.{MediaResources}
use media_ai.Channel.{make}
use media_ai.Session.{Session, Status, set_status, is_idle}
mod Index
pub mod Lifecycle
pub mod Routing
pub mod Collect
pub mod Closing
pub mod History
mod Tests

pub data SessionError : Type 0 where
  max_sessions_reached duplicate_id not_found : SessionError

pub record ManagerConfig : Type 0 where
  pub max_sessions : ℕ
  pub idle_timeout : ℕ
  pub packet_queue_size : ℕ
  pub audio_queue_size : ℕ
  pub result_queue_size : ℕ
  pub gc_interval : ℕ

pub record SessionConfig : Type 0 where
  pub id : String
  pub source_type : String
  pub ssrc : ℕ
  pub payload_type : ℕ
  pub codec : String
  pub sample_rate : ℕ
  pub channels : ℕ
  pub language : String
  pub task : String
  pub callback_url : String
  pub peer_id : String
  pub track_id : String
  pub remote_addr : String

pub record SessionPatch : Type 0 where
  pub remote_addr : String
  pub callback_url : String
  pub media_resources : Option MediaResources

pub record Manager : Type 0 where
  pub cfg : ManagerConfig
  pub sessions : List (String × Session)
  pub ssrc_index : List (ℕ × String)
  pub addr_index : List (String × String)
  pub peer_index : List (String × String)
  pub track_index : List (String × String)
  pub created_total : ℕ
  pub closed_total : ℕ

unfoldable pub new_manager : ManagerConfig → Manager
new_manager cfg = record {
  cfg = cfg;
  sessions = [];
  ssrc_index = [];
  addr_index = [];
  peer_index = [];
  track_index = [];
  created_total = 0;
  closed_total = 0;
}

module _ {K : Type 0} ⦃e : Key K⦄ where
  -- if key != zero { index[key] = id }
  unfoldable pub put_index : K → K → String → List (K × String) → List (K × String)
  put_index zero key id index = if key == zero then index else insert key id index

  -- if key != zero { delete(index, key) }
  unfoldable pub drop_index : K → K → List (K × String) → List (K × String)
  drop_index zero key index = if key == zero then index else delete key index

  -- id, ok := index[key]; if !ok { return nil, false }; s, ok := sessions[id]
  unfoldable pub get_by : K → List (K × String) → List (String × Session) → Option Session
  get_by key index sessions = elim (lookup key index) [ none ↦ none | some id ↦ lookup id sessions ]

unfoldable pub new_session : ManagerConfig → ℕ → SessionConfig → Session
new_session c now cfg = record {
  id = cfg.id;
  source_type = cfg.source_type;
  ssrc = cfg.ssrc;
  payload_type = cfg.payload_type;
  codec = cfg.codec;
  sample_rate = cfg.sample_rate;
  channels = cfg.channels;
  language = cfg.language;
  task = cfg.task;
  callback_url = cfg.callback_url;
  peer_id = cfg.peer_id;
  track_id = cfg.track_id;
  remote_addr = cfg.remote_addr;
  media_resources = none;
  packet_queue = make c.packet_queue_size;
  audio_queue = make c.audio_queue_size;
  result_queue = make c.result_queue_size;
  gateway_id = "";
  created_at = now;
  cancelled = false;
  last_packet_at = now;
  status = Status.created;
}

admit_session : Manager → Session → Manager
admit_session m s = record m {
  sessions = insert s.id s m.sessions;
  ssrc_index = put_index 0 s.ssrc s.id m.ssrc_index;
  addr_index = put_index "" s.remote_addr s.id m.addr_index;
  peer_index = put_index "" s.peer_id s.id m.peer_index;
  track_index = put_index "" s.track_id s.id m.track_index;
  created_total = (m.created_total + 1) % 2 ^ 64;
}

unfoldable pub create : ℕ → SessionConfig → Manager → Manager × Result SessionError Session
unfolding admit_session
create now cfg m =
    if leb m.cfg.max_sessions (length m.sessions)
    then (m, err max_sessions_reached)
    else elim (lookup cfg.id m.sessions) [
      | some _ ↦ (m, err duplicate_id)
      | none ↦ let s = new_session m.cfg now cfg in (admit_session m s, ok s)
    ]

unfoldable pub get : String → Manager → Option Session
get id m = lookup id m.sessions

unfoldable pub get_by_ssrc : ℕ → Manager → Option Session
unfolding get_by
get_by_ssrc ssrc m = get_by ssrc m.ssrc_index m.sessions

unfoldable pub get_by_addr : String → Manager → Option Session
unfolding get_by
get_by_addr addr m = get_by addr m.addr_index m.sessions

unfoldable pub get_by_peer_id : String → Manager → Option Session
unfolding get_by
get_by_peer_id peer_id m = get_by peer_id m.peer_index m.sessions

unfoldable pub get_by_track_id : String → Manager → Option Session
unfolding get_by
get_by_track_id track_id m = get_by track_id m.track_index m.sessions

remove_session : String → Session → Manager → Manager
remove_session id s m = record m {
  sessions = delete id m.sessions;
  ssrc_index = drop_index 0 s.ssrc m.ssrc_index;
  addr_index = drop_index "" s.remote_addr m.addr_index;
  peer_index = drop_index "" s.peer_id m.peer_index;
  track_index = drop_index "" s.track_id m.track_index;
  closed_total = (m.closed_total + 1) % 2 ^ 64;
}

-- The session that was closed is returned as those see it who still hold it: its context is
-- cancelled and its status has passed closing and reached closed.
unfoldable pub close : String → Manager → Manager × Option Session
unfolding remove_session set_status
close id m = elim (lookup id m.sessions) [
  | none ↦ (m, none)
  | some s ↦
      let closing = set_status Status.closing s in
      (
        remove_session id closing m,
        some (set_status Status.closed (record closing { cancelled = true })),
      )
]

changes_addr : SessionPatch → Session → Bool
changes_addr p s = not (p.remote_addr == "") && not (p.remote_addr == s.remote_addr)

patch_session : SessionPatch → Session → Session
patch_session p s = record s {
  remote_addr = if changes_addr p s then p.remote_addr else s.remote_addr;
  callback_url = if p.callback_url == "" then s.callback_url else p.callback_url;
  media_resources = elim p.media_resources [ none ↦ s.media_resources | some r ↦ some r ];
}

patch_addr_index : String → SessionPatch → Session → List (String × String) → List (String × String)
patch_addr_index id p s index =
    if changes_addr p s then insert p.remote_addr id (drop_index "" s.remote_addr index) else index

-- The session is a shared object, so the patched session is the one that the map holds from now on.
unfoldable pub update : String → SessionPatch → Manager → Manager × Result SessionError Session
unfolding patch_session patch_addr_index changes_addr
update id p m = elim (lookup id m.sessions) [
  | none ↦ (m, err not_found)
  | some s ↦ (
    record m {
      sessions = insert id (patch_session p s) m.sessions;
      addr_index = patch_addr_index id p s m.addr_index;
    },
    ok (patch_session p s),
  )
]

pub count : Manager → ℕ
count m = length m.sessions

-- The scan of `gc`, in the order of the list; Go leaves the order of a map open.
expired : ℕ → ℕ → List (String × Session) → List String
expired now timeout [] = []
expired now timeout ((id, s) ∷ rest) =
    if is_idle now timeout s then id ∷ expired now timeout rest else expired now timeout rest

close_all : List String → Manager → Manager
close_all [] m = m
close_all (id ∷ ids) m = close_all ids (close id m).0

-- The source lets other calls in between the scan and the closings; such a collection is a sequence of `close`.
unfoldable pub gc : ℕ → Manager → Manager
unfolding expired close_all
gc now m = close_all (expired now m.cfg.idle_timeout m.sessions) m
