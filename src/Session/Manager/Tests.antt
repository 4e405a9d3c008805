-- ===== src/Session/Manager/Tests.antt =====
-- The session manager at concrete calls (internal/session/manager.go).
use Prim.Native.String.{String}
use media_ai.Prelude.{
  ℕ, ◌+◌, ◌%◌, ◌^◌, ◌≤◌, ◌<◌, ◌≡◌, refl, ◌≢◌, ◌⊎◌, true, none, some, List, [], ◌∷◌, ok, err, arith,
}
use media_ai.Prelude.Assoc.{text_key, word_key, lookup, insert, beq_of_eq}
use media_ai.Session.{Session, Status}
use media_ai.Session.Manager.{
  Manager, ManagerConfig, SessionConfig, new_manager, new_session, create, get, get_by_ssrc,
  get_by_addr, get_by_peer_id, get_by_track_id, close, count, gc, max_sessions_reached,
  duplicate_id,
}
use media_ai.Session.Manager.Lifecycle.{IsWellFormed}
use media_ai.Session.Manager.History.{Call, create_at, run, apply, run-IsWellFormed}
use media_ai.Session.Manager.Routing.{create_outcome, get_by_sound, IsAdded}
use media_ai.Session.Manager.Collect.{IsExpired, get-gc}
use media_ai.Session.Manager.Closing.{
  close_outcome, FindsEverySsrc, FindsEverySsrc-kept, close-shared_ssrc,
}

b-ne-a : ◌≢◌ {A = String} "b" "a"
b-ne-a e = ground (arith, beq_of_eq {K = String} "b" "a" e)

abbrev two_at_most : ManagerConfig
two_at_most = record {
  max_sessions = 2;
  idle_timeout = 30;
  packet_queue_size = 4;
  audio_queue_size = 4;
  result_queue_size = 4;
  gc_interval = 5;
}

abbrev call : String → ℕ → SessionConfig
call id ssrc = record {
  id = id;
  source_type = "raw_rtp";
  ssrc = ssrc;
  payload_type = 0;
  codec = "PCMU";
  sample_rate = 8000;
  channels = 1;
  language = "vi";
  task = "transcribe";
  callback_url = "";
  peer_id = "";
  track_id = "";
  remote_addr = "";
}

abbrev both_share : List Call
both_share = create_at 1 (call "a" 7) ∷ create_at 2 (call "b" 7) ∷ []

abbrev one_call : List Call
one_call = create_at 1 (call "a" 7) ∷ []

abbrev shared : Manager
shared = run both_share (new_manager two_at_most)

abbrev single : Manager
single = run one_call (new_manager two_at_most)

abbrev first : Session
first = new_session two_at_most 1 (call "a" 7)

abbrev second : Session
second = new_session two_at_most 2 (call "b" 7)

first_stored : get "a" shared ≡ some first
unfolding run apply create get new_manager new_session lookup insert
first_stored = refl

second_stored : get "b" shared ≡ some second
unfolding run apply create get new_manager new_session lookup insert
second_stored = refl

run-IsWellFormed_example : IsWellFormed (run both_share (new_manager two_at_most))
run-IsWellFormed_example = run-IsWellFormed two_at_most both_share

create_outcome_example :
    ((single.cfg.max_sessions ≤ count single)
      × (create 2 (call "b" 8) single ≡ (single, err max_sessions_reached)))
    ⊎ ((count single < single.cfg.max_sessions)
        × (get "b" single ≢ none)
        × (create 2 (call "b" 8) single ≡ (single, err duplicate_id)))
    ⊎ ((count single < single.cfg.max_sessions)
        × (get "b" single ≡ none)
        × ((create 2 (call "b" 8) single).1 ≡ ok (new_session single.cfg 2 (call "b" 8)))
        × IsAdded (new_session single.cfg 2 (call "b" 8)) single (create 2 (call "b" 8) single).0)
create_outcome_example = create_outcome 2 (call "b" 8) single

get_by_sound_example :
    ((k : ℕ)
      → get_by_ssrc k shared ≡ some second
      → (get "b" shared ≡ some second) × (7 ≡ k) × (k ≢ 0))
    × ((k : String)
        → get_by_addr k shared ≡ some second
        → (get "b" shared ≡ some second) × ("" ≡ k) × (k ≢ ""))
    × ((k : String)
        → get_by_peer_id k shared ≡ some second
        → (get "b" shared ≡ some second) × ("" ≡ k) × (k ≢ ""))
    × ((k : String)
        → get_by_track_id k shared ≡ some second
        → (get "b" shared ≡ some second) × ("" ≡ k) × (k ≢ ""))
unfolding new_session
get_by_sound_example = get_by_sound shared second (run-IsWellFormed two_at_most both_share)

close_outcome_example :
    (get "a" shared ≡ none → close "a" shared ≡ (shared, none))
    × ((s : Session)
        → get "a" shared ≡ some s
        → ((close "a" shared).1 ≡ some (record s { cancelled = true; status = Status.closed }))
          × (get "a" (close "a" shared).0 ≡ none)
          × ((j : String) → j ≢ "a" → get j (close "a" shared).0 ≡ get j shared)
          × (count (close "a" shared).0 + 1 ≡ count shared)
          × ((close "a" shared).0.closed_total ≡ (shared.closed_total + 1) % 2 ^ 64))
close_outcome_example = close_outcome "a" shared (run-IsWellFormed two_at_most both_share)

empty-FindsEverySsrc : FindsEverySsrc (new_manager two_at_most)
unfolding new_manager lookup
empty-FindsEverySsrc = λ id s h nonzero. absurd (ground arith)

FindsEverySsrc-kept_example :
    ((id : String) → FindsEverySsrc (close id (new_manager two_at_most)).0)
    × ((now : ℕ) (cfg : SessionConfig)
        → ((id : String) (s : Session)
            → get id (new_manager two_at_most) ≡ some s
            → s.ssrc ≢ cfg.ssrc)
        → FindsEverySsrc (create now cfg (new_manager two_at_most)).0)
unfolding new_manager run
FindsEverySsrc-kept_example =
    FindsEverySsrc-kept (new_manager two_at_most) (run-IsWellFormed two_at_most [])
      empty-FindsEverySsrc

close-shared_ssrc_example :
    (get "b" (close "a" shared).0 ≡ some second) × (get_by_ssrc 7 (close "a" shared).0 ≡ none)
unfolding new_session
close-shared_ssrc_example =
    close-shared_ssrc shared "a" first second first_stored second_stored b-ne-a refl
      (λ e. ground arith)

get-gc_example :
    (get "b" shared ≡ none → get "b" (gc 40 shared) ≡ none)
    × ((s : Session)
        → get "b" shared ≡ some s
        → IsExpired 40 shared.cfg.idle_timeout s
        → get "b" (gc 40 shared) ≡ none)
    × ((s : Session)
        → get "b" shared ≡ some s
        → ¬ IsExpired 40 shared.cfg.idle_timeout s
        → get "b" (gc 40 shared) ≡ some s)
get-gc_example = get-gc 40 shared "b" (run-IsWellFormed two_at_most both_share)
