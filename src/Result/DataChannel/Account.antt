-- ===== src/Result/DataChannel/Account.antt =====
-- Sequences of sends over a data channel (internal/result/datachannel.go).
use Prim.Native.String.{String}
use media_ai.Prelude.{
  ℕ, ◌+◌, ◌%◌, ◌^◌, ◌≡◌, refl, ◌∙◌, Bool, true, false, Option, none, some, List, [], ◌∷◌,
  if◌then◌else◌, arith,
}
use media_ai.Media.{RecognitionResult}
use media_ai.Result.DataChannel.{
  DataChannelSink, Surroundings, Sent, took, failed, not_open, buffer_full, not_encoded, not_sent,
  is_congested, add_dropped, new_message, send, send_text,
}

abbrev pub Call : Type 0
Call = Surroundings × RecognitionResult

unfoldable pub run : List Call → DataChannelSink → DataChannelSink × List Sent
run [] s = (s, [])
run ((w, r) ∷ calls) s =
    let one = send w r s in let rest = run calls one.0 in (rest.0, one.1 ∷ rest.1)

-- How many of the outcomes are texts that the channel took.
pub taken : List Sent → ℕ
taken [] = 0
taken (took b ∷ l) = 1 + taken l
taken (failed e ∷ l) = taken l

-- How many the sink gave up before it encoded them.
pub refused : List Sent → ℕ
refused [] = 0
refused (took b ∷ l) = refused l
refused (failed not_open ∷ l) = 1 + refused l
refused (failed buffer_full ∷ l) = 1 + refused l
refused (failed not_encoded ∷ l) = refused l
refused (failed not_sent ∷ l) = refused l

-- Between the two sinks the counters rise by what the outcomes say, and the rest stays.
pub record IsAccounted (outcomes : List Sent) (s s' : DataChannelSink) : Type 0 where
  pub sent : s'.sent % 2 ^ 64 ≡ (s.sent + taken outcomes) % 2 ^ 64
  pub dropped : s'.dropped % 2 ^ 64 ≡ (s.dropped + refused outcomes) % 2 ^ 64
  pub sess_id : s'.sess_id ≡ s.sess_id
  pub max_buffer : s'.max_buffer ≡ s.max_buffer

abbrev IsSettled : DataChannelSink → DataChannelSink × Sent → Type 0
IsSettled s one = IsAccounted (one.1 ∷ []) s one.0

if-IsSettled :
    (b : Bool) (s : DataChannelSink) {x y : DataChannelSink × Sent}
    → IsSettled s x
    → IsSettled s y
    → IsSettled s (if b then x else y)
if-IsSettled true s x y = x
if-IsSettled false s x y = y

unchanged-IsAccounted :
    (s : DataChannelSink) (outcomes : List Sent)
    → taken outcomes ≡ 0
    → refused outcomes ≡ 0
    → IsAccounted outcomes s s
unchanged-IsAccounted s outcomes t r = record {
  sent = omega arith;
  dropped = omega arith;
  sess_id = refl;
  max_buffer = refl;
}

add_dropped-IsAccounted :
    (s : DataChannelSink) (outcomes : List Sent)
    → taken outcomes ≡ 0
    → refused outcomes ≡ 1
    → IsAccounted outcomes s (add_dropped s)
add_dropped-IsAccounted s outcomes t r = record {
  sent = omega arith;
  dropped = omega arith;
  sess_id = refl;
  max_buffer = refl;
}

send_text-IsSettled :
    (w : Surroundings) (s : DataChannelSink) (m : Option String) → IsSettled s (send_text w s m)
unfolding send_text taken refused
send_text-IsSettled w s none = unchanged-IsAccounted s _ refl refl
send_text-IsSettled w s (some b) =
    if-IsSettled (w.takes b) s
      record { sent = omega arith; dropped = omega arith; sess_id = refl; max_buffer = refl }
      (unchanged-IsAccounted s _ refl refl)

send-IsSettled :
    (w : Surroundings) (r : RecognitionResult) (s : DataChannelSink) → IsSettled s (send w r s)
unfolding send taken refused
send-IsSettled w r s =
    if-IsSettled w.is_open s
      (if-IsSettled (is_congested w s) s (add_dropped-IsAccounted s _ refl refl)
        (send_text-IsSettled w s (w.marshal (new_message r))))
      (add_dropped-IsAccounted s _ refl refl)

taken_cons : (x : Sent) (l : List Sent) → taken (x ∷ l) ≡ taken (x ∷ []) + taken l
unfolding taken
taken_cons (took b) l = omega arith
taken_cons (failed e) l = omega arith

refused_cons : (x : Sent) (l : List Sent) → refused (x ∷ l) ≡ refused (x ∷ []) + refused l
unfolding refused
refused_cons (took b) l = omega arith
refused_cons (failed not_open) l = omega arith
refused_cons (failed buffer_full) l = omega arith
refused_cons (failed not_encoded) l = omega arith
refused_cons (failed not_sent) l = omega arith

-- In any sequence of sends, whatever the channel and JSON answer, `sent` rises by the texts that the channel took and
-- `dropped` by the sends that found the channel not open or its buffer full, both modulo 2 ^ 64; a failed encoding or
-- a text that the channel did not take counts for neither.
run_accounts :
    (calls : List Call) (s : DataChannelSink) → IsAccounted (run calls s).1 s (run calls s).0
unfolding run taken refused
run_accounts [] s = record {
  sent = omega arith;
  dropped = omega arith;
  sess_id = refl;
  max_buffer = refl;
}
run_accounts ((w, r) ∷ calls) s =
    let one = send-IsSettled w r s in
    let rest = run_accounts calls (send w r s).0 in
    let x = (send w r s).1 in
    let l = (run calls (send w r s).0).1 in
    record {
      sent = omega (arith, taken_cons x l, one.sent, rest.sent);
      dropped = omega (arith, refused_cons x l, one.dropped, rest.dropped);
      sess_id = rest.sess_id ∙ one.sess_id;
      max_buffer = rest.max_buffer ∙ one.max_buffer;
    }
