-- ===== src/Jitter/Buffer.antt =====
-- The jitter buffer (internal/jitter/buffer.go). Push and flush run under the buffer's lock, so each
-- is a function from state to state. Times are nanoseconds. Go's container/heap and its float64
-- are not code of the repository: they are the parameters `HeapOps` and `FloatOps`.
use media_ai.Prelude.{
  ℕ, zero, suc, ◌+◌, ◌-◌, ◌*◌, ◌/◌, ◌%◌, ◌^◌, ◌≤◌, ◌<◌, ◌≡◌, Bool, true, false, not, ◌&&◌, ◌||◌,
  Option, none, some, ltb, leb, ◌==◌, if◌then◌else◌,
}
use media_ai.Prelude.Int.{ℤ, pos, negsuc, ◌-ℤ◌, int32, wrap, abs, ltb_ℤ}
use media_ai.Media.{MediaPacket}
use media_ai.Channel.{Chan, try_send}
use media_ai.Jitter.Sequence.{seq_diff}
mod Rounds
pub mod Accounting
pub mod Order
pub mod Delivery
mod Tests

pub record Entry : Type 0 where
  pub pkt : MediaPacket
  pub arrived_at : ℕ

-- container/heap over the packets: `top` is h[0], `push` and `pop` are heap.Push and heap.Pop.
-- What the buffer's accounts need of them is documented: a push adds one entry, a pop
-- removes the one at the top.
pub record HeapOps : Type 1 where
  pub Heap : Type 0
  pub empty : Heap
  pub size : Heap → ℕ
  pub top : Heap → Option Entry
  pub push : Entry → Heap → Heap
  pub pop : Heap → Heap
  pub size-empty : size empty ≡ 0
  pub size-push : (e : Entry) (h : Heap) → size (push e h) ≡ suc (size h)
  pub size-pop : (e : Entry) (h : Heap) → top h ≡ some e → suc (size (pop h)) ≡ size h
  pub top-none : (h : Heap) → top h ≡ none → size h ≡ 0

-- float64: only the operations that the running jitter estimate uses.
pub record FloatOps : Type 1 where
  pub Float : Type 0
  pub zero_float : Float
  pub of_nat : ℕ → Float
  pub add : Float → Float → Float
  pub sub : Float → Float → Float
  pub div : Float → Float → Float
  pub to_uint32 : Float → ℕ

pub record Config : Type 0 where
  pub buffer_ms : ℕ
  pub max_late_ms : ℕ
  pub packet_time_ms : ℕ

unfoldable pub default_config : Config
default_config = record { buffer_ms = 60; max_late_ms = 120; packet_time_ms = 20 }

pub record Stats : Type 0 where
  pub received : ℕ
  pub released : ℕ
  pub dropped : ℕ
  pub lost : ℕ
  pub jitter : ℕ

-- The inter-arrival jitter state of RFC 3550.
pub record JitterState (F : Type 0) : Type 0 where
  pub sample_rate : ℕ
  pub last_arrival : ℕ
  pub last_send : ℕ  -- uint32
  pub has_last : Bool
  pub value : F

pub record Buffer (H F : Type 0) : Type 0 where
  pub cfg : Config
  pub h : H
  pub started : Bool
  pub first_at : ℕ
  pub next_set : Bool
  pub next_expected : ℕ  -- uint16
  pub hold_until : ℕ
  pub has_processed : Bool
  pub last_processed : ℕ  -- uint16
  pub jitter : JitterState F
  pub received : ℕ  -- uint64
  pub released : ℕ  -- uint64
  pub dropped : ℕ  -- uint64
  pub lost : ℕ  -- uint64

abbrev pub u64 : ℕ → ℕ
u64 n = n % 2 ^ 64

abbrev pub ms : ℕ → ℕ
ms n = n * 1000000

abbrev is_zero : ℤ → Bool
is_zero (pos n) = n == 0
is_zero (negsuc n) = false

module _ (heap : HeapOps) (float : FloatOps) where
  open heap use {Heap, empty, size, top, push as heap_push, pop as heap_pop}
  open float use {Float, zero_float, of_nat, add, sub, div, to_uint32}

  unfoldable pub new_buffer : Config → Buffer Heap Float
  new_buffer cfg = record {
    cfg = cfg;
    h = empty;
    started = false;
    first_at = 0;
    next_set = false;
    next_expected = 0;
    hold_until = 0;
    has_processed = false;
    last_processed = 0;
    jitter = record {
      sample_rate = 0;
      last_arrival = 0;
      last_send = 0;
      has_last = false;
      value = zero_float;
    };
    received = 0;
    released = 0;
    dropped = 0;
    lost = 0;
  }

  -- |D| of RFC 3550 §6.4.1: the send difference is taken as an int32, so timestamps may wrap.
  unfoldable pub transit_change : ℕ → ℕ → ℕ → ℕ → ℕ
  unfolding ◌-ℤ◌ wrap
  transit_change arrival last_arrival send last_send =
      abs (pos arrival -ℤ pos last_arrival -ℤ int32 (pos ((send + 2 ^ 32 - last_send) % 2 ^ 32)))

  unfoldable pub update_jitter : MediaPacket → JitterState Float → JitterState Float
  unfolding transit_change
  update_jitter pkt j =
      let rate = if j.sample_rate == 0 then pkt.sample_rate else j.sample_rate in
      let arrival = pkt.received_at_ms * rate / 1000 in
      let d = transit_change arrival j.last_arrival pkt.timestamp j.last_send in
      let smoothed = add j.value (div (sub (of_nat d) j.value) (of_nat 16)) in
      if pkt.sample_rate == 0 then j else record {
        sample_rate = rate;
        last_arrival = arrival;
        last_send = pkt.timestamp;
        has_last = true;
        value = if j.has_last then smoothed else j.value;
      }

  abbrev is_processed : MediaPacket → Buffer Heap Float → Bool
  is_processed pkt b =
      b.has_processed && not (ltb_ℤ (pos 0) (seq_diff pkt.sequence b.last_processed))

  accept : ℕ → MediaPacket → Buffer Heap Float → Buffer Heap Float
  accept now pkt b = record b {
    h = heap_push (record { pkt = pkt; arrived_at = now }) b.h;
    received = u64 (b.received + 1);
    first_at = if b.started then b.first_at else now;
    started = true;
    jitter = update_jitter pkt b.jitter;
  }

  unfoldable pub push : ℕ → MediaPacket → Buffer Heap Float → Buffer Heap Float × Bool
  unfolding accept
  push now pkt b =
      if ltb (ms b.cfg.max_late_ms) (now - ms pkt.received_at_ms)
      then (record b { dropped = u64 (b.dropped + 1) }, false)
      else if is_processed pkt b
      then (record b { dropped = u64 (b.dropped + 1) }, false)
      else (accept now pkt b, true)

  -- What the release of the expected packet, and the loss of it, have in common.
  advance : ℕ → Buffer Heap Float → Buffer Heap Float
  advance now b = record b {
    last_processed = b.next_expected;
    has_processed = true;
    next_expected = (b.next_expected + 1) % 65536;
    hold_until = now + ms b.cfg.buffer_ms;
  }

  release :
      ℕ → MediaPacket → Buffer Heap Float → Chan MediaPacket → Buffer Heap Float × Chan MediaPacket
  unfolding advance
  release now pkt b out = elim (try_send pkt out) [
    | some out' ↦ (
      record (advance now (record b { h = heap_pop b.h })) { released = u64 (b.released + 1) },
      out',
    )
    | none ↦ (
      record (advance now (record b { h = heap_pop b.h })) { dropped = u64 (b.dropped + 1) },
      out,
    )
  ]

  discard : Buffer Heap Float → Buffer Heap Float
  discard b = record b { h = heap_pop b.h; dropped = u64 (b.dropped + 1) }

  declare_lost : ℕ → Buffer Heap Float → Buffer Heap Float
  unfolding advance
  declare_lost now b = record (advance now b) { lost = u64 (b.lost + 1) }

  -- One round of the release loop: the next state and whether the loop goes on.
  pub round :
      ℕ
      → Entry
      → Buffer Heap Float
      → Chan MediaPacket
      → (Buffer Heap Float × Chan MediaPacket) × Bool
  unfolding release discard declare_lost
  round now e b out =
      let diff = seq_diff e.pkt.sequence b.next_expected in
      if is_zero diff
      then (release now e.pkt b out, true)
      else if ltb_ℤ diff (pos 0)
      then ((discard b, out), true)
      else if ltb b.hold_until now
      then ((declare_lost now b, out), true)
      else ((b, out), false)

  -- `none` means that the fuel ran out.
  pub release_loop :
      ℕ → ℕ → Buffer Heap Float → Chan MediaPacket → Option (Buffer Heap Float × Chan MediaPacket)
  release_loop zero now b out = none
  release_loop (suc fuel) now b out = elim (top b.h) [
    | none ↦ some (b, out)
    | some e ↦
        let ((b', out'), goes_on) = round now e b out in
        let rest = release_loop fuel now b' out' in if goes_on then rest else some (b', out')
  ]

  -- The first flush after the accumulation window starts at the top of the heap.
  pub begin : ℕ → Buffer Heap Float → Buffer Heap Float
  begin now b = elim (top b.h) [
    | none ↦ b
    | some e ↦ record b {
      next_expected = e.pkt.sequence;
      next_set = true;
      hold_until = now + ms b.cfg.buffer_ms;
    }
  ]

  abbrev fuel_for : Buffer Heap Float → ℕ
  fuel_for b = 2 * size b.h + 2

  unfoldable pub flush :
      ℕ → Buffer Heap Float → Chan MediaPacket → Option (Buffer Heap Float × Chan MediaPacket)
  unfolding begin release_loop round
  flush now b out =
      if not b.started || size b.h == 0
      then some (b, out)
      else if b.next_set
      then release_loop (fuel_for b) now b out
      else if ltb now (b.first_at + ms b.cfg.buffer_ms)
      then some (b, out)
      else release_loop (fuel_for b) now (begin now b) out

  pub stats : Buffer Heap Float → Stats
  stats b = record {
    received = b.received;
    released = b.released;
    dropped = b.dropped;
    lost = b.lost;
    jitter = to_uint32 b.jitter.value;
  }
