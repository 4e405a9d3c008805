-- ===== src/Ingress/Tests.antt =====
-- A datagram for a session that is found by its SSRC (internal/ingress/rawrtp/packet_handler.go).
use media_ai.Prelude.{
  ℕ, ◌%◌, ◌^◌, ◌≡◌, ◌⊎◌, false, Option, some, List, [], ◌∷◌, ◌≤◌, drop, none, length, leb,
  if◌then◌else◌, ok, arith,
}
use media_ai.Session.{Session}
use media_ai.Session.Manager.{Manager, ManagerConfig, SessionConfig, new_manager}
use media_ai.Session.Manager.History.{create_at, run, run-IsWellFormed}
use media_ai.Ingress.Handle.{
  Header, Ingress, handle, handled, packet_of, session_codec_info, BelongsTo, IsQueued,
  handle_routes,
}

-- A parser that reads 12 bytes of header with the SSRC 7.
abbrev reads_seven : List ℕ → Option (Header × ℕ)
reads_seven b =
    if leb 12 (length b)
    then some (
      record {
        version = 2;
        marker = false;
        payload_type = 0;
        sequence_number = 5;
        timestamp = 800;
        ssrc = 7;
      },
      12,
    )
    else none

reads_seven_inside :
    (d : List ℕ) (hdr : Header) (offset : ℕ)
    → reads_seven d ≡ some (hdr, offset)
    → offset ≤ length d
reads_seven_inside d hdr offset h = ground arith

abbrev datagram : List ℕ
datagram = 128 ∷ 0 ∷ 0 ∷ 5 ∷ 0 ∷ 0 ∷ 3 ∷ 32 ∷ 0 ∷ 0 ∷ 0 ∷ 7 ∷ 1 ∷ 2 ∷ []

abbrev config : ManagerConfig
config = record {
  max_sessions = 2;
  idle_timeout = 30;
  packet_queue_size = 4;
  audio_queue_size = 4;
  result_queue_size = 4;
  gc_interval = 5;
}

abbrev call : SessionConfig
call = record {
  id = "a";
  source_type = "raw_rtp";
  ssrc = 7;
  payload_type = 0;
  codec = "PCMU";
  sample_rate = 8000;
  channels = 1;
  language = "vi";
  task = "transcribe";
  callback_url = "";
  peer_id = "";
  track_id = "";
  remote_addr = "";
}

abbrev live : Manager
live = run (create_at 1 call ∷ []) (new_manager config)

abbrev zeros : Ingress
zeros = record { routed = 0; dropped_parse = 0; dropped_unknown_ssrc = 0; dropped_queue_full = 0 }

handle_routes_example :
    (g : Ingress) × (m : Manager) × (handle reads_seven 5000000 datagram "x:1" zeros live
      ≡ ok (g, m))
    × (handled g % 2 ^ 64 ≡ 1)
    × (((m ≡ live) × (g.routed ≡ 0))
        ⊎ ((hdr : Header) × (offset : ℕ) × (s : Session) × (reads_seven datagram
              ≡ some (hdr, offset))
            × (hdr.version ≡ 2)
            × BelongsTo hdr.ssrc "x:1" live s
            × (g.routed ≡ 1)
            × IsQueued
                (packet_of 5000000 hdr (drop offset datagram) (session_codec_info s))
                s
                live
                m))
handle_routes_example =
    handle_routes reads_seven 5000000 datagram "x:1" zeros live reads_seven_inside
      (run-IsWellFormed config (create_at 1 call ∷ []))
