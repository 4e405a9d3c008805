-- ===== src/Ai/Stream.antt =====
-- One stream to a recogniser (internal/ai/grpc_client.go): the goroutines that send and receive, as the steps
-- they take. The client is an interface: what its calls answer is given from outside. A step that a
-- goroutine can take only while it runs leaves the state alone once it has returned.
use media_ai.Prelude.{
  ℕ, ◌+◌, ◌-◌, ◌*◌, ◌%◌, ◌^◌, Bool, true, false, not, ◌&&◌, ◌||◌, Option, none, some, List, [], ◌∷◌,
  ◌++◌, ltb, ◌==◌, if◌then◌else◌,
}
use media_ai.Media.{AudioChunk, RecognitionResult}
pub mod Endings
pub mod Results
pub mod Reconnect

-- `client_error n` is any other error of the client or of the dialer.
pub data StreamError : Type 0 where
  first_chunk_timeout unexpected_eof recv_idle_timeout eof canceled deadline_exceeded : StreamError
  client_error : ℕ → StreamError

pub record Config : Type 0 where
  pub max_active_streams : ℕ
  pub queue_size : ℕ
  pub send_timeout : ℕ
  pub stream_timeout : ℕ
  pub max_retries : ℕ
  pub retry_backoff : ℕ
  pub first_chunk_timeout : ℕ
  pub recv_idle_timeout : ℕ

unfoldable pub default_config : Config
default_config = record {
  max_active_streams = 1000;
  queue_size = 20;
  send_timeout = 500000000;
  stream_timeout = 300000000000;
  max_retries = 3;
  retry_backoff = 1000000000;
  first_chunk_timeout = 3000000000;
  recv_idle_timeout = 30000000000;
}

-- The counters are uint64; `first_result_ms` is 0 until a result is there.
pub record Stream : Type 0 where
  pub opened_at_ms : ℕ
  pub failure : Option StreamError
  pub retries : ℕ
  pub send_errors : ℕ
  pub recv_errors : ℕ
  pub end_of_stream_sent : Bool
  pub first_result_ms : ℕ

pub record StreamStats : Type 0 where
  pub send_errors : ℕ
  pub recv_errors : ℕ
  pub retries : ℕ
  pub first_result_ms : ℕ

abbrev pub u64 : ℕ → ℕ
u64 n = n % 2 ^ 64

unfoldable pub stats : Stream → StreamStats
stats s = record {
  send_errors = s.send_errors;
  recv_errors = s.recv_errors;
  retries = s.retries;
  first_result_ms = s.first_result_ms;
}

-- The first error stays.
unfoldable pub set_err : StreamError → Stream → Stream
set_err e s = elim s.failure [ none ↦ record s { failure = some e } | some _ ↦ s ]

unfoldable pub clear_err : Stream → Stream
clear_err s = record s { failure = none }

unfoldable pub is_ctx_err : StreamError → Bool
is_ctx_err canceled = true
is_ctx_err deadline_exceeded = true
is_ctx_err first_chunk_timeout = false
is_ctx_err unexpected_eof = false
is_ctx_err recv_idle_timeout = false
is_ctx_err eof = false
is_ctx_err (client_error n) = false

-- One connection: the stream, whether the pair's context is done, whether each goroutine runs, whether the timer
-- of the first chunk is armed, and what was sent, received, handed on, and given up.
pub record Pair : Type 0 where
  pub stream : Stream
  pub done : Bool
  pub sending : Bool
  pub receiving : Bool
  pub armed : Bool
  pub sent : List AudioChunk
  pub received : List RecognitionResult
  pub delivered : List RecognitionResult
  pub given_up : List RecognitionResult

unfoldable pub new_pair : Config → Stream → Pair
new_pair cfg s = record {
  stream = record s { end_of_stream_sent = false };
  done = false;
  sending = true;
  receiving = true;
  armed = ltb 0 cfg.first_chunk_timeout;
  sent = [];
  received = [];
  delivered = [];
  given_up = [];
}

-- What `sendWithTimeout` sees first: the client's answer, the timeout, or the end of the context.
pub data Answer : Type 0 where
  accepted timed_out cancelled_send : Answer
  refused : StreamError → Answer

unfoldable pub send_with_timeout : Config → Answer → Option StreamError
send_with_timeout cfg accepted = none
send_with_timeout cfg (refused e) = some e
send_with_timeout cfg timed_out = if cfg.send_timeout == 0 then none else some deadline_exceeded
send_with_timeout cfg cancelled_send = if cfg.send_timeout == 0 then none else some canceled

pub data SendEvent : Type 0 where
  timer input_closed context_done : SendEvent
  input : AudioChunk → Answer → SendEvent

-- runSend returns, and CloseSend follows; the receiver may run before the deferred pairCancel does.
pub stop_sending : Pair → Pair
stop_sending p = record p { sending = false }

-- The deferred pairCancel of the sender's goroutine.
unfoldable pub cancel_after_send : Pair → Pair
cancel_after_send p = if p.sending then p else record p { done = true }

pub send_failed : StreamError → Pair → Pair
unfolding stop_sending set_err is_ctx_err
send_failed e p =
    if is_ctx_err e
    then stop_sending p
    else stop_sending (record p {
      stream = set_err e (record p.stream { send_errors = u64 (p.stream.send_errors + 1) });
    })

pub chunk_sent : AudioChunk → Pair → Pair
chunk_sent chunk p = record p {
  sent = p.sent ++ chunk ∷ [];
  stream = record p.stream {
    end_of_stream_sent = p.stream.end_of_stream_sent || chunk.end_of_stream;
  };
}

-- A round of the loop of runSend.
pub send_round : Config → SendEvent → Pair → Pair
unfolding send_failed chunk_sent stop_sending set_err send_with_timeout
send_round cfg context_done p = if p.done then stop_sending p else p
send_round cfg timer p =
    if p.armed then stop_sending (record p { stream = set_err first_chunk_timeout p.stream }) else p
send_round cfg input_closed p = stop_sending p
send_round cfg (input chunk answer) p = elim (send_with_timeout cfg answer) [
  | none ↦ chunk_sent chunk (record p { armed = false })
  | some e ↦ send_failed e (record p { armed = false })
]

unfoldable pub run_send : Config → SendEvent → Pair → Pair
unfolding send_round
run_send cfg event p = if p.sending then send_round cfg event p else p

-- What `recvWithTimeout` answers, the time of a result, whether the first select hands it on, and whether it
-- gets room before the context is done.
pub data RecvEvent : Type 0 where
  result : RecognitionResult → ℕ → Bool → Bool → RecvEvent
  recv_failed : StreamError → RecvEvent
  idle context_done_recv : RecvEvent

-- runRecv returns, and the pair's context is cancelled.
pub stop_receiving : Pair → Pair
stop_receiving p = record p { receiving = false; done = true }

pub count_recv_error : StreamError → Pair → Pair
unfolding set_err
count_recv_error e p = record p {
  stream = set_err e (record p.stream { recv_errors = u64 (p.stream.recv_errors + 1) });
}

pub recv_error : StreamError → Pair → Pair
unfolding count_recv_error stop_receiving
recv_error e p = if p.done then stop_receiving p else elim e [
  | eof ↦
      if p.stream.end_of_stream_sent
      then stop_receiving p
      else stop_receiving (count_recv_error unexpected_eof p)
  | first_chunk_timeout ↦ stop_receiving (count_recv_error first_chunk_timeout p)
  | unexpected_eof ↦ stop_receiving (count_recv_error unexpected_eof p)
  | recv_idle_timeout ↦ stop_receiving (count_recv_error recv_idle_timeout p)
  | canceled ↦ stop_receiving (count_recv_error canceled p)
  | deadline_exceeded ↦ stop_receiving (count_recv_error deadline_exceeded p)
  | client_error n ↦ stop_receiving (count_recv_error (client_error n) p)
]

-- A result and what becomes of it. Only a final one waits for room.
pub deliver : RecognitionResult → Bool → Bool → Pair → Pair
unfolding stop_receiving
deliver r room room_later p =
    if room
    then record p { delivered = p.delivered ++ r ∷ [] }
    else if p.done
    then stop_receiving (record p { given_up = p.given_up ++ r ∷ [] })
    else if not r.is_final
    then record p { given_up = p.given_up ++ r ∷ [] }
    else if room_later
    then record p { delivered = p.delivered ++ r ∷ [] }
    else stop_receiving (record p { given_up = p.given_up ++ r ∷ [] })

unfoldable pub note_result : RecognitionResult → ℕ → Pair → Pair
note_result r now p = record p {
  received = p.received ++ r ∷ [];
  stream = record p.stream {
    first_result_ms =
        if p.stream.first_result_ms == 0
        then now - p.stream.opened_at_ms
        else p.stream.first_result_ms;
  };
}

-- A round of the loop of runRecv.
pub recv_round : Config → RecvEvent → Pair → Pair
unfolding deliver recv_error note_result
recv_round cfg context_done_recv p =
    if p.done && ltb 0 cfg.recv_idle_timeout then recv_error canceled p else p
recv_round cfg idle p = if ltb 0 cfg.recv_idle_timeout then recv_error recv_idle_timeout p else p
recv_round cfg (recv_failed e) p = recv_error e p
recv_round cfg (result r now room room_later) p = deliver r room room_later (note_result r now p)

unfoldable pub run_recv : Config → RecvEvent → Pair → Pair
unfolding recv_round
run_recv cfg event p = if p.receiving then recv_round cfg event p else p
