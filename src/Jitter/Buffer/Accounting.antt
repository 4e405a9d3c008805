-- ===== src/Jitter/Buffer/Accounting.antt =====
-- The counters of the jitter buffer (internal/jitter/buffer.go).
use media_ai.Prelude.{ℕ, ◌+◌, ◌≤◌, ◌≡◌, ◌⊎◌, refl, ap, ◌∙◌, inl, some, arith}
use media_ai.Media.{MediaPacket}
use media_ai.Channel.{Chan}
use media_ai.Jitter.Buffer.{
  HeapOps, FloatOps, Buffer, Entry, u64, accept, push, round, release, discard, declare_lost,
  advance, begin, flush,
}
use media_ai.Jitter.Buffer.Rounds.{flush_rule}

module _ (heap : HeapOps) (float : FloatOps) where
  open heap use {Heap, size, top, size-pop, size-push, size-empty}
  open float use {Float}

  -- Packets that are released, dropped or still in the heap.
  abbrev pub accounted : Buffer Heap Float → ℕ
  accounted b = b.released + b.dropped + size b.h

  -- Every push, accepted or not, accounts for exactly one more packet.
  pub push-accounted :
      (now : ℕ) (pkt : MediaPacket) (b : Buffer Heap Float)
      → u64 (accounted (push heap float now pkt b).0) ≡ u64 (accounted b + 1)
  unfolding push accept
  push-accounted now pkt b = ground (arith, size-push (record { pkt = pkt; arrived_at = now }) b.h)

  round-accounted :
      (now : ℕ) (e : Entry) (b : Buffer Heap Float) (out : Chan MediaPacket)
      → top b.h ≡ some e
      → u64 (accounted (round heap float now e b out).0.0) ≡ u64 (accounted b)
  unfolding round release discard declare_lost advance
  round-accounted now e b out h = ground (arith, size-pop e b.h)

  begin-accounted :
      (now : ℕ) (b : Buffer Heap Float) → accounted (begin heap float now b) ≡ accounted b
  unfolding begin
  begin-accounted now b = ground arith

  pub flush-accounted :
      (now : ℕ) (b : Buffer Heap Float) (out : Chan MediaPacket)
      (r : Buffer Heap Float × Chan MediaPacket)
      → flush heap float now b out ≡ some r
      → u64 (accounted r.0) ≡ u64 (accounted b)
  flush-accounted now b out r e =
      flush_rule heap float (λ b' out'. u64 (accounted b') ≡ u64 (accounted b))
        (λ b' out'. u64 (accounted b') ≡ u64 (accounted b)) now
        (λ t b' out' h p. round-accounted now t b' out' h ∙ p) (λ b' out' p. p) b out r
        (λ set. refl) (λ t found unset. ap u64 (begin-accounted now b)) refl e

  -- How many packets a flush may still declare lost, having declared some already.
  abbrev HasLostOne : ℕ → Buffer Heap Float → Buffer Heap Float → Type 0
  HasLostOne now b b' = (b'.lost ≡ b.lost) ⊎ ((b'.lost ≡ u64 (b.lost + 1)) × (now ≤ b'.hold_until))

  round-HasLostOne :
      (now : ℕ) (e : Entry) (b b' : Buffer Heap Float) (out : Chan MediaPacket)
      → HasLostOne now b b'
      → HasLostOne now b (round heap float now e b' out).0.0
  unfolding round release discard declare_lost advance
  round-HasLostOne now e b b' out h = ground arith

  -- A flush declares at most one packet lost, however large the gap before the next packet is.
  pub flush_loses_one :
      (now : ℕ) (b : Buffer Heap Float) (out : Chan MediaPacket)
      (r : Buffer Heap Float × Chan MediaPacket)
      → flush heap float now b out ≡ some r
      → (r.0.lost ≡ b.lost) ⊎ (r.0.lost ≡ u64 (b.lost + 1))
  unfolding begin
  flush_loses_one now b out r e =
      flush_rule heap float (λ b' out'. HasLostOne now b b')
        (λ b' out'. (b'.lost ≡ b.lost) ⊎ (b'.lost ≡ u64 (b.lost + 1))) now
        (λ t b' out' h p. round-HasLostOne now t b b' out' p) (λ b' out' p. ground arith) b out r
        (λ set. inl refl) (λ t found unset. inl (begin-lost now b)) (inl refl) e
    where
      begin-lost : (now : ℕ) (b : Buffer Heap Float) → (begin heap float now b).lost ≡ b.lost
      begin-lost now b = ground arith
