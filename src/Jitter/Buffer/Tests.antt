-- ===== src/Jitter/Buffer/Tests.antt =====
-- The jitter buffer over a sorted list as its heap (internal/jitter/buffer.go).
use media_ai.Prelude.{
  ℕ, suc, ◌+◌, ◌-◌, ◌*◌, ◌/◌, ◌%◌, ◌^◌, ◌≤◌, ◌≡◌, refl, ◌⊎◌, true, false, Option, none, some, List,
  [], ◌∷◌, length, if◌then◌else◌, arith,
}
use media_ai.Media.{MediaPacket}
use media_ai.Channel.{Chan, make}
use media_ai.Jitter.Sequence.{seq_less}
use media_ai.Jitter.Buffer.{Entry, HeapOps, FloatOps, Buffer, default_config, new_buffer, push, u64}
use media_ai.Jitter.Buffer.Rounds.{flush_total}
use media_ai.Jitter.Buffer.Accounting.{flush_loses_one}
use media_ai.Jitter.Buffer.Order.{Ascending}
use media_ai.Jitter.Buffer.Delivery.{
  Event, arrive, tick, read, Line, sent, moves, start, run, run-Ascending, run-accounted,
}

sorted_push : Entry → List Entry → List Entry
sorted_push e [] = e ∷ []
sorted_push e (f ∷ rest) =
    if seq_less e.pkt.sequence f.pkt.sequence then e ∷ f ∷ rest else f ∷ sorted_push e rest

head? : List Entry → Option Entry
head? [] = none
head? (e ∷ rest) = some e

tail : List Entry → List Entry
tail [] = []
tail (e ∷ rest) = rest

length-sorted_push : (e : Entry) (h : List Entry) → length (sorted_push e h) ≡ suc (length h)
unfolding sorted_push
length-sorted_push e [] = refl
length-sorted_push e (f ∷ rest) = ground (arith, length-sorted_push e rest)

length-tail : (e : Entry) (h : List Entry) → head? h ≡ some e → suc (length (tail h)) ≡ length h
unfolding head? tail
length-tail e [] found = absurd (ground arith)
length-tail e (f ∷ rest) found = refl

head?-none : (h : List Entry) → head? h ≡ none → length h ≡ 0
unfolding head?
head?-none [] missing = refl
head?-none (e ∷ rest) missing = absurd (ground arith)

abbrev list_heap : HeapOps
list_heap = record {
  Heap = List Entry;
  empty = [];
  size = length;
  top = head?;
  push = sorted_push;
  pop = tail;
  size-empty = refl;
  size-push = length-sorted_push;
  size-pop = λ e h. length-tail e h;
  top-none = head?-none;
}

-- Whole numbers in place of floats.
abbrev whole : FloatOps
whole = record {
  Float = ℕ;
  zero_float = 0;
  of_nat = λ n. n;
  add = λ a b. a + b;
  sub = λ a b. a - b;
  div = λ a b. a / b;
  to_uint32 = λ a. a % 2 ^ 32;
}

abbrev packet : ℕ → MediaPacket
packet sequence = record {
  session_id = "s";
  source_type = "raw_rtp";
  ssrc = 7;
  payload_type = 0;
  sequence = sequence;
  timestamp = 160 * sequence;
  marker = false;
  payload = [];
  received_at_ms = 1000;
  codec = "PCMU";
  sample_rate = 8000;
  channels = 1;
}

-- Packet 65535 was released at 1.1 s and packet 2 waits behind the missing packets 0 and 1.
abbrev gap : Buffer (List Entry) ℕ
gap =
    record (push list_heap whole 1000000000 (packet 2)
      (new_buffer list_heap whole default_config)).0 {
        next_set = true;
        next_expected = 0;
        hold_until = 1160000000;
      }

abbrev after_gap : Buffer (List Entry) ℕ × Chan MediaPacket
after_gap = (flush_total list_heap whole 1200000000 gap (make 4)).0

-- Two packets in the wrong order, a tick when the window is over, and a read.
abbrev events : List Event
events =
    arrive 1000000000 (packet 0)
    ∷ arrive 1001000000 (packet 65535)
    ∷ tick 1100000000
    ∷ read
    ∷ arrive 1101000000 (packet 65535)
    ∷ []

flush_loses_one_example : (after_gap.0.lost ≡ gap.lost) ⊎ (after_gap.0.lost ≡ u64 (gap.lost + 1))
flush_loses_one_example =
    flush_loses_one list_heap whole 1200000000 gap (make 4) after_gap
      (flush_total list_heap whole 1200000000 gap (make 4)).1

run-Ascending_example :
    (l : Line (List Entry) ℕ) × (run list_heap whole events (start list_heap whole default_config 4)
      ≡ some l)
    × (base : ℕ) × (n : ℕ) × (n ≤ moves events)
    × Ascending base 0 n (sent l)
run-Ascending_example = run-Ascending list_heap whole default_config 4 events

run-accounted_example :
    (l : Line (List Entry) ℕ) × (run list_heap whole events (start list_heap whole default_config 4)
      ≡ some l)
    × (u64 (l.buffer.released + l.buffer.dropped + length l.buffer.h) ≡ 3)
run-accounted_example = run-accounted list_heap whole default_config 4 events
