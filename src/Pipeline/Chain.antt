-- ===== src/Pipeline/Chain.antt =====
-- The chain of one session (internal/pipeline/audio_pipeline.go): decode, resample, chunk, send. Its
-- methods run under its lock. The decoder is an interface: a state and `decode`, where `none` is an
-- error. A send to `audioOut` blocks until there is room or the session's context is done, so what
-- a call sends is a list, cut short where the context is done before. The debug dump of
-- the samples is left out.
use Prim.Native.String.{String}
use media_ai.Prelude.{
  ℕ, ◌==◌, Bool, true, false, Option, none, some, List, [], ◌∷◌, map, length, take, if◌then◌else◌,
  Result, ok, err, ◌>>=◌, Fault,
}
use media_ai.Prelude.Int.{ℤ}
use media_ai.Media.{MediaPacket, AudioChunk}
use media_ai.Channel.{Chan, try_send}
use media_ai.Audio.Resampler.{Resampler, new_resampler, resample}
use media_ai.Audio.Chunker.{Chunk, Chunker, new_chunker, push, flush as chunker_flush}
pub mod Stream
pub mod Sound

pub record SessionConfig : Type 0 where
  pub codec : String
  pub sample_rate : ℕ
  pub channels : ℕ
  pub out_sample_rate : ℕ
  pub out_channels : ℕ
  pub chunk_ms : ℕ
  pub session_id : String
  pub stream_id : String

-- A decoder that has been opened: its state and what it says of its output.
pub record Decoder (D : Type 0) : Type 0 where
  pub state : D
  pub sample_rate : ℕ
  pub channels : ℕ

pub record Chain (D : Type 0) : Type 0 where
  pub decoder : Decoder D
  pub resampler : Resampler
  pub chunker : Chunker
  pub done : Bool  -- the session's context

unfoldable pub audio_chunk : Bool → Chunk → AudioChunk
audio_chunk end_of_stream c = record {
  session_id = c.session_id;
  stream_id = c.stream_id;
  pcm = c.pcm;
  sample_rate = c.sample_rate;
  channels = c.channels;
  rtp_timestamp = c.rtp_timestamp;
  duration_ms = c.duration_ms;
  end_of_stream = end_of_stream;
}

-- The chunks that go out: all, or as many as do before the context is done.
abbrev pub sent_before : Option ℕ → List AudioChunk → List AudioChunk
sent_before none chunks = chunks
sent_before (some n) chunks = take n chunks

-- The rest of the buffer as a last chunk, if there is room for it at once.
unfoldable pub flush :
    {D : Type 0} → Chain D → Chan AudioChunk → Result Fault (Chain D × Chan AudioChunk)
flush sp out = chunker_flush sp.chunker >>= λ c. ok (
  record sp { chunker = c.0 },
  elim c.1 [
    | none ↦ out
    | some chunk ↦ elim (try_send (audio_chunk true chunk) out) [ none ↦ out | some out' ↦ out' ]
  ],
)

module _ {D : Type 0} (decode : D → List ℕ → D × Option (List ℤ)) where
  -- What the resampler and the chunker make of decoded samples.
  pub cut : Option ℕ → List ℤ → ℕ → Chain D → Result Fault (Chain D × List AudioChunk)
  cut until pcm rtp_ts sp = resample pcm sp.resampler >>= λ r. push r.1 rtp_ts sp.chunker >>= λ c.
      ok (
        record sp { resampler = r.0; chunker = c.0 },
        sent_before until (map (audio_chunk false) c.1),
      )

  -- The chain after a packet, what it has sent, and whether decoding succeeded.
  unfoldable pub process :
      Option ℕ → MediaPacket → Chain D → Result Fault (Chain D × List AudioChunk × Bool)
  unfolding cut
  process until pkt sp =
      let (state, decoded) = decode sp.decoder.state pkt.payload in
      let sp' : Chain D = record sp { decoder = record sp.decoder { state = state } } in
      if sp.done then ok (sp, [], true) else elim decoded [
        | none ↦ ok (sp', [], false)
        | some pcm ↦
            if length pcm == 0
            then ok (sp', [], true)
            else (cut until pcm pkt.timestamp sp' >>= λ r. ok (r.0, r.1, true))
      ]

-- `open_decoder` is codec.New; `none` is its error.
unfoldable pub new_chain :
    {D : Type 0} → (String → ℕ → ℕ → Option (Decoder D)) → SessionConfig → Option (Chain D)
new_chain open_decoder cfg = elim (open_decoder cfg.codec cfg.sample_rate cfg.channels) [
  | none ↦ none
  | some dec ↦ some (record {
    decoder = dec;
    resampler = new_resampler dec.sample_rate dec.channels cfg.out_sample_rate;
    chunker =
        new_chunker
          (record {
            sample_rate = cfg.out_sample_rate;
            channels = cfg.out_channels;
            chunk_ms = cfg.chunk_ms;
          })
          cfg.session_id cfg.stream_id;
    done = false;
  })
]
