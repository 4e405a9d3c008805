-- ===== src/Ingress.antt =====
-- The raw RTP ingress (internal/ingress/rawrtp): the handling of one datagram. The sockets and
-- the WebRTC ingress are not modelled.
pub mod Handle
mod Tests
