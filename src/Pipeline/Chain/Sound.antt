-- ===== src/Pipeline/Chain/Sound.antt =====
-- The chain whatever its context does (internal/pipeline/audio_pipeline.go): no call faults.
use Prim.Native.String.{String}
use media_ai.Prelude.{
  if_so, if_not, ℕ, ◌*◌, ◌/◌, ◌<◌, ◌≡◌, ◌==◌, refl, ◌∙◌, subst, inl, inr, Bool, true, false, Option,
  none, some, List, [], map, length, ok, arith, Bool-cases, Option-cases, some-injective,
}
use media_ai.Prelude.Int.{ℤ}
use media_ai.Media.{MediaPacket, AudioChunk}
use media_ai.Channel.{Chan, try_send}
use media_ai.Audio.Resampler.{new_resampler}
use media_ai.Audio.Chunker.{new_chunker, flush as chunker_flush, chunk_of}
use media_ai.Audio.Chunker.Drain.{IsReady, push_cuts, emit-ok}
use media_ai.Pipeline.Chain.{
  Chain, Decoder, SessionConfig, audio_chunk, sent_before, cut, process, flush, new_chain,
}
use media_ai.Pipeline.Chain.Stream.{IsAligned, resample-IsAligned}

pub record IsSound {D : Type 0} (sp : Chain D) : Type 0 where
  pub aligned : IsAligned sp.resampler
  pub ready : IsReady sp.chunker

module _ {D : Type 0} (decode : D → List ℕ → D × Option (List ℤ)) where
  pub process-IsSound :
      (until : Option ℕ) (pkt : MediaPacket) (sp : Chain D)
      → IsSound sp
      → (sp' : Chain D) × (chunks : List AudioChunk) × (good : Bool) × (process decode until pkt sp
          ≡ ok (sp', chunks, good))
        × IsSound sp'
  unfolding process cut
  process-IsSound until pkt sp sound =
      let state = (decode sp.decoder.state pkt.payload).0 in
      let sp' : Chain D = record sp { decoder = record sp.decoder { state = state } } in
      let same : IsSound sp' = record { aligned = sound.aligned; ready = sound.ready } in
      elim (Bool-cases sp.done) [
        | inl over ↦ (sp, [], true, if_so _ over, sound)
        | inr working ↦ elim (Option-cases (decode sp.decoder.state pkt.payload).1) [
          | inl failed ↦ (sp', [], false, if_not _ working ∙ rw failed refl, same)
          | inr (pcm, decoded) ↦ elim (Bool-cases (length pcm == 0)) [
            | inl silent ↦ (sp', [], true, if_not _ working ∙ rw (decoded, silent) refl, same)
            | inr heard ↦
                let (r', out, resampled, aligned, rate, out_rate, count) =
                  resample-IsAligned pcm sp.resampler sound.aligned (ground arith) in
                let (c', ks, pushed, ready, full, bytes) =
                  push_cuts out pkt.timestamp sp.chunker sound.ready in
                (
                  record sp' { resampler = r'; chunker = c' },
                  sent_before until (map (audio_chunk false) ks),
                  true,
                  if_not _ working ∙ rw (decoded, heard, resampled, pushed) refl,
                  record { aligned = aligned; ready = ready },
                )
          ]
        ]
      ]

pub flush-IsSound :
    {D : Type 0} (sp : Chain D) (out : Chan AudioChunk)
    → IsSound sp
    → (sp' : Chain D) × (out' : Chan AudioChunk) × (flush sp out ≡ ok (sp', out')) × IsSound sp'
unfolding flush chunker_flush
flush-IsSound sp out sound = elim (Bool-cases (length sp.chunker.buf == 0)) [
  | inl empty ↦ (sp, out, rw empty refl, sound)
  | inr some_left ↦ (
    record sp { chunker = record sp.chunker { buf = [] } },
    elim (try_send (audio_chunk true (chunk_of sp.chunker.buf sp.chunker)) out) [
      | none ↦ out
      | some out' ↦ out'
    ],
    rw (some_left, emit-ok sp.chunker.buf sp.chunker sound.ready.has_rate) refl,
    record {
      aligned = sound.aligned;
      ready = record {
        cuts = sound.ready.cuts;
        has_rate = sound.ready.has_rate;
        short = sound.ready.cuts;
      };
    },
  )
]

-- What a session asks of its configuration: mono output of its decoder, and rates that are not 0.
pub record IsUsable {D : Type 0} (open_decoder : String → ℕ → ℕ → Option (Decoder D))
    (cfg : SessionConfig) : Type 0 where
  pub mono :
      (dec : Decoder D)
      → open_decoder cfg.codec cfg.sample_rate cfg.channels ≡ some dec
      → (dec.channels ≡ 1) × (0 < dec.sample_rate)
  pub out_rate : 0 < cfg.out_sample_rate
  pub cuts : 0 < cfg.out_sample_rate * cfg.chunk_ms / 1000

pub new_chain-IsSound :
    {D : Type 0} (open_decoder : String → ℕ → ℕ → Option (Decoder D)) (cfg : SessionConfig)
    (sp : Chain D)
    → IsUsable open_decoder cfg
    → new_chain open_decoder cfg ≡ some sp
    → IsSound sp
unfolding new_chain new_resampler new_chunker
new_chain-IsSound open_decoder cfg sp usable made =
    elim (Option-cases (open_decoder cfg.codec cfg.sample_rate cfg.channels)) [
      | inl failed ↦ absurd (ground arith)
      | inr (dec, opened) ↦
          let (mono, rate) = usable.mono dec opened in
          subst IsSound (some-injective (rw (opened, new_chain) at made)) (record {
            aligned = record { mono = mono; rate = rate; within = rate; at_start = λ e. refl };
            ready = record { cuts = usable.cuts; has_rate = usable.out_rate; short = usable.cuts };
          })
    ]
