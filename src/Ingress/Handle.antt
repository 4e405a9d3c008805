-- ===== src/Ingress/Handle.antt =====
-- The handling of one datagram (internal/ingress/rawrtp/packet_handler.go): parse, route, copy, queue.
-- The header parser is a library's: `unmarshal` gives the header and the offset of the payload. A
-- session is a shared object that the manager's map holds, so sending to its queue changes the map.
use Prim.Native.String.{String}
use media_ai.Prelude.{
  ℕ, ◌+◌, ◌/◌, ◌%◌, ◌^◌, ◌≤◌, ◌<◌, ◌≡◌, ◌≢◌, ◌⊎◌, refl, ◌∙◌, Bool, not, Option, none, some, List,
  [], ◌∷◌, ◌++◌, ltb, ◌==◌, length, drop, if◌then◌else◌, arith, inl, inr, Bool-cases, Option-cases,
  Result, ok, err, Fault, panics, le→ltb_false, ap,
}
use media_ai.Prelude.Assoc.{text_key, word_key, insert, lookup-insert_self, lookup-insert_ne}
use media_ai.Media.{MediaPacket}
use media_ai.Channel.{Chan, try_send}
use media_ai.Session.{Session}
use media_ai.Session.Manager.{Manager, get, get_by_ssrc, get_by_addr}
use media_ai.Session.Manager.Lifecycle.{IsWellFormed}
use media_ai.Session.Manager.Routing.{get_by_sound}

pub record Header : Type 0 where
  pub version : ℕ
  pub marker : Bool
  pub payload_type : ℕ
  pub sequence_number : ℕ
  pub timestamp : ℕ
  pub ssrc : ℕ

-- The counters, all uint64.
pub record Ingress : Type 0 where
  pub routed : ℕ
  pub dropped_parse : ℕ
  pub dropped_unknown_ssrc : ℕ
  pub dropped_queue_full : ℕ

pub record CodecInfo : Type 0 where
  pub session_id : String
  pub source_type : String
  pub codec : String
  pub sample_rate : ℕ
  pub channels : ℕ

unfoldable pub session_codec_info : Session → CodecInfo
session_codec_info s = record {
  session_id = s.id;
  source_type = s.source_type;
  codec = s.codec;
  sample_rate = s.sample_rate;
  channels = s.channels;
}

route_by_ssrc : ℕ → Manager → Option Session
route_by_ssrc ssrc m = if ssrc == 0 then none else get_by_ssrc ssrc m

-- By SSRC if it is not 0, then by the sender's address.
pub route : ℕ → String → Manager → Option Session
route ssrc addr m = elim (route_by_ssrc ssrc m) [ some s ↦ some s | none ↦ get_by_addr addr m ]

unfoldable pub packet_of : ℕ → Header → List ℕ → CodecInfo → MediaPacket
packet_of now hdr payload info = record {
  session_id = info.session_id;
  source_type = info.source_type;
  ssrc = hdr.ssrc;
  payload_type = hdr.payload_type;
  sequence = hdr.sequence_number;
  timestamp = hdr.timestamp;
  marker = hdr.marker;
  payload = payload;
  received_at_ms = now / 1000000;
  codec = info.codec;
  sample_rate = info.sample_rate;
  channels = info.channels;
}

-- m.sessions[id].PacketQueue = queue
set_queue : Session → Chan MediaPacket → Manager → Manager
set_queue s queue m = record m {
  sessions = insert s.id (record s { packet_queue = queue }) m.sessions;
}

pub deliver : MediaPacket → Session → Ingress → Manager → Ingress × Manager
unfolding set_queue
deliver pkt s g m = elim (try_send pkt s.packet_queue) [
  | some queue ↦ (record g { routed = (g.routed + 1) % 2 ^ 64 }, set_queue s queue m)
  | none ↦ (record g { dropped_queue_full = (g.dropped_queue_full + 1) % 2 ^ 64 }, m)
]

-- make([]byte, len(b)-offset) panics where the offset is beyond the datagram.
module _ (unmarshal : List ℕ → Option (Header × ℕ)) where
  unfoldable pub handle : ℕ → List ℕ → String → Ingress → Manager → Result Fault (Ingress × Manager)
  unfolding route route_by_ssrc deliver session_codec_info packet_of
  handle now b addr g m = elim (unmarshal b) [
    | none ↦ ok (record g { dropped_parse = (g.dropped_parse + 1) % 2 ^ 64 }, m)
    | some (hdr, offset) ↦
        if not (hdr.version == 2)
        then ok (record g { dropped_parse = (g.dropped_parse + 1) % 2 ^ 64 }, m)
        else elim (route hdr.ssrc addr m) [
          | none ↦ ok (record g { dropped_unknown_ssrc = (g.dropped_unknown_ssrc + 1) % 2 ^ 64 }, m)
          | some s ↦
              if ltb (length b) offset
              then err panics
              else ok (deliver (packet_of now hdr (drop offset b) (session_codec_info s)) s g m)
        ]
  ]

-- The session that a packet belongs to: the one found by its SSRC, if that is not 0, else the one
-- found by the address.
abbrev pub BelongsTo : ℕ → String → Manager → Session → Type 0
BelongsTo ssrc addr m s =
    ((ssrc ≢ 0) × (s.ssrc ≡ ssrc) × (get_by_ssrc ssrc m ≡ some s))
    ⊎ (((ssrc ≡ 0) ⊎ (get_by_ssrc ssrc m ≡ none)) × (s.remote_addr ≡ addr) × (addr ≢ ""))

route_by_ssrc-none :
    (ssrc : ℕ) (m : Manager)
    → route_by_ssrc ssrc m ≡ none
    → (ssrc ≡ 0) ⊎ (get_by_ssrc ssrc m ≡ none)
unfolding route_by_ssrc
route_by_ssrc-none ssrc m h = ground arith

route_by_ssrc-found :
    (ssrc : ℕ) (m : Manager) (s : Session)
    → route_by_ssrc ssrc m ≡ some s
    → (ssrc ≢ 0) × (get_by_ssrc ssrc m ≡ some s)
unfolding route_by_ssrc
route_by_ssrc-found ssrc m s h = ground arith

route-BelongsTo :
    (ssrc : ℕ) (addr : String) (m : Manager) (s : Session)
    → IsWellFormed m
    → route ssrc addr m ≡ some s
    → (get s.id m ≡ some s) × BelongsTo ssrc addr m s
unfolding route
route-BelongsTo ssrc addr m s w h =
    let (by_ssrc, by_addr, by_peer, by_track) = get_by_sound m s w in
    elim (Option-cases (route_by_ssrc ssrc m)) [
      | inl unknown ↦
          let (live, addr_is, some_addr) = by_addr addr (rw (unknown, route) at h) in
          (live, inr (route_by_ssrc-none ssrc m unknown, addr_is, some_addr))
      | inr (t, found) ↦
          let this : some t ≡ some s = rw (found, route) at h in
          let (nonzero, indexed) = route_by_ssrc-found ssrc m s (found ∙ this) in
          let (live, ssrc_is, other) = by_ssrc ssrc indexed in
          (live, inl (nonzero, ssrc_is, indexed))
    ]

-- What it means that exactly the queue of `s` has got exactly `pkt`, at its end and within its capacity.
abbrev pub IsQueued : MediaPacket → Session → Manager → Manager → Type 0
IsQueued pkt s m m' =
    (length s.packet_queue.items < s.packet_queue.cap)
    × (get s.id m'
        ≡ some (record s {
          packet_queue = record s.packet_queue { items = s.packet_queue.items ++ pkt ∷ [] };
        }))
    × ((j : String) → j ≢ s.id → get j m' ≡ get j m)

deliver-cases :
    (pkt : MediaPacket) (s : Session) (g : Ingress) (m : Manager)
    → ((deliver pkt s g m
          ≡ (record g { dropped_queue_full = (g.dropped_queue_full + 1) % 2 ^ 64 }, m))
        × (s.packet_queue.cap ≤ length s.packet_queue.items))
      ⊎ (((deliver pkt s g m).0 ≡ record g { routed = (g.routed + 1) % 2 ^ 64 })
          × IsQueued pkt s m (deliver pkt s g m).1)
unfolding deliver get try_send
deliver-cases pkt s g m =
    let grown : Chan MediaPacket = record s.packet_queue {
      items = s.packet_queue.items ++ pkt ∷ [];
    } in
    elim (Bool-cases (ltb (length s.packet_queue.items) s.packet_queue.cap)) [
      | inr full ↦
          let kept : try_send pkt s.packet_queue ≡ none = rw full refl in
          inl (rw (kept, deliver) refl, ground arith)
      | inl room ↦
          let sent : try_send pkt s.packet_queue ≡ some grown = rw room refl in
          inr (
            rw (sent, deliver) refl,
            (
              ground arith,
              rw (sent, deliver)
                  (lookup-insert_self s.id (record s { packet_queue = grown }) m.sessions),
              λ j other.
                  rw (sent, deliver)
                    (lookup-insert_ne s.id j (record s { packet_queue = grown }) m.sessions other),
            ),
          )
    ]

abbrev pub handled : Ingress → ℕ
handled g = g.routed + g.dropped_parse + g.dropped_unknown_ssrc + g.dropped_queue_full

-- On a well-formed manager, and with a parser whose payload offset is never beyond the datagram, a datagram is handled
-- without a panic and counted by exactly one of the four counters. Either the sessions stay as they are and
-- `routed` does not change, or the datagram has an RTP header of version 2, its session is the one found by its SSRC, and
-- by the sender's address only if the SSRC is 0 or unknown; then `routed` is one more, the queue of this session has the
-- packet at its end, within its capacity, with the fields of the header, the bytes behind it and the codec of the
-- session, and no other session changes.
pub handle_routes :
    (unmarshal : List ℕ → Option (Header × ℕ)) (now : ℕ) (b : List ℕ) (addr : String) (g : Ingress)
    (m : Manager)
    → ((d : List ℕ) (hdr : Header) (offset : ℕ)
        → unmarshal d ≡ some (hdr, offset)
        → offset ≤ length d)
    → IsWellFormed m
    → (g' : Ingress) × (m' : Manager) × (handle unmarshal now b addr g m ≡ ok (g', m'))
      × (handled g' % 2 ^ 64 ≡ (handled g + 1) % 2 ^ 64)
      × (((m' ≡ m) × (g'.routed ≡ g.routed))
          ⊎ ((hdr : Header) × (offset : ℕ) × (s : Session) × (unmarshal b ≡ some (hdr, offset))
              × (hdr.version ≡ 2)
              × BelongsTo hdr.ssrc addr m s
              × (g'.routed ≡ (g.routed + 1) % 2 ^ 64)
              × IsQueued (packet_of now hdr (drop offset b) (session_codec_info s)) s m m'))
unfolding handle
handle_routes unmarshal now b addr g m inside w = elim (Option-cases (unmarshal b)) [
  | inl malformed ↦ (
    record g { dropped_parse = (g.dropped_parse + 1) % 2 ^ 64 },
    m,
    rw (malformed, handle) refl,
    omega arith,
    inl (refl, refl),
  )
  | inr ((hdr, offset), parsed) ↦ elim (Bool-cases (hdr.version == 2)) [
    | inr other ↦ (
      record g { dropped_parse = (g.dropped_parse + 1) % 2 ^ 64 },
      m,
      rw (parsed, other, handle) refl,
      omega arith,
      inl (refl, refl),
    )
    | inl two ↦ elim (Option-cases (route hdr.ssrc addr m)) [
      | inl unknown ↦ (
        record g { dropped_unknown_ssrc = (g.dropped_unknown_ssrc + 1) % 2 ^ 64 },
        m,
        rw (parsed, two, unknown, handle) refl,
        omega arith,
        inl (refl, refl),
      )
      | inr (s, found) ↦
          let pkt = packet_of now hdr (drop offset b) (session_codec_info s) in
          let (live, belongs) = route-BelongsTo hdr.ssrc addr m s w found in
          let fits = le→ltb_false (length b) offset (inside b hdr offset parsed) in
          let same : handle unmarshal now b addr g m ≡ ok (deliver pkt s g m) =
            rw (parsed, two, found, fits, handle) refl in
          elim (deliver-cases pkt s g m) [
            | inl (is_full, full) ↦ (
              record g { dropped_queue_full = (g.dropped_queue_full + 1) % 2 ^ 64 },
              m,
              same ∙ ap (λ r. ok r) is_full,
              omega arith,
              inl (refl, refl),
            )
            | inr (counted, queued) ↦ (
              (deliver pkt s g m).0,
              (deliver pkt s g m).1,
              same,
              rw counted (omega arith),
              inr (hdr, offset, s, parsed, ground arith, belongs, rw counted refl, queued),
            )
          ]
    ]
  ]
]
