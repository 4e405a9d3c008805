-- ===== src/Audio/Chunker.antt =====
-- Fixed-length chunks of PCM (internal/audio/chunker.go).
use Prim.Native.String.{String}
use media_ai.Prelude.{
  ℕ, zero, suc, ◌+◌, ◌-◌, ◌*◌, ◌/◌, ◌≤◌, ◌<◌, ◌≡◌, Bool, true, false, ◌&&◌, Option, none, some,
  List, [], ◌∷◌, ◌++◌, ltb, leb, ◌==◌, length, take, drop, if◌then◌else◌, Result, ok, err, ◌>>=◌,
  Fault, panics, out_of_fuel,
}
use media_ai.Prelude.Int.{ℤ}
use media_ai.Audio.Pcm.{int16_to_s16le}
pub mod Drain
pub mod Stamps
mod Tests

pub record Chunk : Type 0 where
  pub session_id : String
  pub stream_id : String
  pub pcm : List ℕ
  pub sample_rate : ℕ
  pub channels : ℕ
  pub rtp_timestamp : ℕ  -- uint32
  pub duration_ms : ℕ

pub record ChunkerConfig : Type 0 where
  pub sample_rate : ℕ
  pub channels : ℕ
  pub chunk_ms : ℕ

pub record Chunker : Type 0 where
  pub cfg : ChunkerConfig
  pub session_id : String
  pub stream_id : String
  pub buf : List ℤ
  pub chunk_samps : ℕ
  pub cur_rtp_ts : ℕ  -- uint32

unfoldable pub new_chunker : ChunkerConfig → String → String → Chunker
new_chunker cfg session_id stream_id = record {
  cfg = record cfg { channels = if cfg.channels == 0 then 1 else cfg.channels };
  session_id = session_id;
  stream_id = stream_id;
  buf = [];
  chunk_samps = cfg.sample_rate * cfg.chunk_ms / 1000;
  cur_rtp_ts = 0;
}

pub buffered : Chunker → ℕ
buffered c = length c.buf

pub chunk_of : List ℤ → Chunker → Chunk
chunk_of samples c = record {
  session_id = c.session_id;
  stream_id = c.stream_id;
  pcm = int16_to_s16le samples;
  sample_rate = c.cfg.sample_rate;
  channels = c.cfg.channels;
  rtp_timestamp = c.cur_rtp_ts;
  duration_ms = length samples * 1000 / c.cfg.sample_rate;
}

-- The division by the sample rate panics at 0.
unfoldable pub emit : List ℤ → Chunker → Result Fault Chunk
unfolding chunk_of
emit samples c = if c.cfg.sample_rate == 0 then err panics else ok (chunk_of samples c)

-- The body of the loop of `Push` behind the emission: what stays in the buffer, and whose
-- timestamp the next chunk carries. Truncated `-` gives the 0 that the code assigns.
pub consume : ℕ → ℕ → Chunker → Chunker
consume old_count rtp_ts c = record c {
  buf = drop c.chunk_samps c.buf;
  cur_rtp_ts = if ltb 0 old_count && leb old_count c.chunk_samps then rtp_ts else c.cur_rtp_ts;
}

pub drain : ℕ → ℕ → ℕ → Chunker → Result Fault (Chunker × List Chunk)
unfolding consume
drain zero old_count rtp_ts c = err out_of_fuel
drain (suc fuel) old_count rtp_ts c =
    let rest = drain fuel (old_count - c.chunk_samps) rtp_ts (consume old_count rtp_ts c) in
    if leb c.chunk_samps (length c.buf)
    then (emit (take c.chunk_samps c.buf) c >>= λ k. rest >>= λ r. ok (r.0, k ∷ r.1))
    else ok (c, [])

-- The samples appended to the buffer, before any chunk is emitted.
pub append_samples : List ℤ → ℕ → Chunker → Chunker
append_samples pcm rtp_ts c = record c {
  buf = c.buf ++ pcm;
  cur_rtp_ts = if length c.buf == 0 then rtp_ts else c.cur_rtp_ts;
}

-- `push` with the rounds of its loop bounded by `fuel`.
pub push_within : ℕ → List ℤ → ℕ → Chunker → Result Fault (Chunker × List Chunk)
unfolding drain append_samples
push_within fuel pcm rtp_ts c =
    let c' = append_samples pcm rtp_ts c in
    if length pcm == 0
    then ok (c, [])
    else if ltb (length c'.buf) c'.chunk_samps
    then ok (c', [])
    else drain fuel (length c.buf) rtp_ts c'

unfoldable pub push : List ℤ → ℕ → Chunker → Result Fault (Chunker × List Chunk)
unfolding push_within
push pcm rtp_ts c = push_within (length c.buf + length pcm + 1) pcm rtp_ts c

unfoldable pub flush : Chunker → Result Fault (Chunker × Option Chunk)
unfolding emit
flush c =
    if length c.buf == 0
    then ok (c, none)
    else (emit c.buf c >>= λ k. ok (record c { buf = [] }, some k))
