-- ===== src/Codec/Select.antt =====
-- The choice of a decoder by the name of the codec (internal/codec/decoder.go), and the constructors that it calls in
-- opus.go, amr.go, amr_wb_opencore.go, amr_wb_stub.go and evs.go. strings.ToUpper, the Opus library and opencore-amrwb are
-- parameters, and so is the build tag.
use Prim.Native.String.{String}
use media_ai.Prelude.{
  ℕ, ◌*◌, ◌/◌, ◌<◌, ◌≡◌, ◌⊎◌, inl, inr, refl, ◌∙◌, Bool, true, Option, none, some, Result, ok, err,
  if◌then◌else◌, if_so, if_not, ltb, arith, Bool-cases, Option-cases,
}
use media_ai.Prelude.Assoc.{text_key, ◌==◌}
use media_ai.Codec.G711.{G711Decoder, G711Kind, pcmu, pcma}
use media_ai.Codec.Amr.{AmrVariant, amr_nb, amr_wb}

pub record AmrDecoder : Type 0 where
  pub variant : AmrVariant
  pub sample_rate : ℕ
  pub channels : ℕ

pub record EvsDecoder : Type 0 where
  pub sample_rate : ℕ
  pub channels : ℕ

-- The libraries: pion's Opus, and D_IF_init of opencore-amrwb with `none` for nil, which only a build with the tag
-- opencore_amrwb calls.
pub record Libraries : Type 1 where
  pub to_upper : String → String
  pub Opus : Type 0
  pub new_decoder_with_output : ℕ → ℕ → Result String Opus
  pub has_opencore : Bool
  pub DecoderState : Type 0
  pub d_if_init : Option DecoderState

pub data CodecError : Type 0 where
  unsupported_codec opus_refused : String → CodecError
  d_if_init_nil : CodecError

-- `buf` is the length of the buffer for the longest frame.
pub record OpusDecoder (O : Type 0) : Type 0 where
  pub d : O
  pub sample_rate : ℕ
  pub channels : ℕ
  pub buf : ℕ

pub record AmrWbDecoder (S : Type 0) : Type 0 where
  pub state : S
  pub sample_rate : ℕ
  pub channels : ℕ

module _ (libraries : Libraries) where
  open libraries use {
    to_upper, Opus, new_decoder_with_output, has_opencore, DecoderState, d_if_init,
  }

  pub data AnyDecoder : Type 0 where
    g711 : G711Decoder → AnyDecoder
    opus : OpusDecoder Opus → AnyDecoder
    amr : AmrDecoder → AnyDecoder
    opencore : AmrWbDecoder DecoderState → AnyDecoder
    evs : EvsDecoder → AnyDecoder

  unfoldable pub sample_rate_of : AnyDecoder → ℕ
  sample_rate_of (g711 d) = d.sample_rate
  sample_rate_of (opus d) = d.sample_rate
  sample_rate_of (amr d) = d.sample_rate
  sample_rate_of (opencore d) = d.sample_rate
  sample_rate_of (evs d) = d.sample_rate

  unfoldable pub channels_of : AnyDecoder → ℕ
  channels_of (g711 d) = d.channels
  channels_of (opus d) = d.channels
  channels_of (amr d) = d.channels
  channels_of (opencore d) = d.channels
  channels_of (evs d) = d.channels

  abbrev pub or_default : ℕ → ℕ → ℕ
  or_default n preset = if ltb 0 n then n else preset

  unfoldable pub new_opus_decoder : ℕ → ℕ → Result CodecError AnyDecoder
  new_opus_decoder rate channels = elim (new_decoder_with_output rate channels) [
    | err e ↦ err (opus_refused e)
    | ok d ↦ ok (
        opus record {
          d = d;
          sample_rate = rate;
          channels = channels;
          buf = rate * 120 / 1000 * channels;
        })
  ]

  unfoldable pub new_amr_wb_decoder : ℕ → ℕ → Result CodecError AnyDecoder
  new_amr_wb_decoder rate channels =
      if has_opencore
      then elim d_if_init [
        | none ↦ err d_if_init_nil
        | some state ↦
            ok (opencore record { state = state; sample_rate = rate; channels = channels })
      ]
      else ok (amr record { variant = amr_wb; sample_rate = rate; channels = channels })

  unfoldable pub new_amr_decoder : AmrVariant → ℕ → ℕ → Result CodecError AnyDecoder
  unfolding new_amr_wb_decoder
  new_amr_decoder amr_wb rate channels = new_amr_wb_decoder rate channels
  new_amr_decoder amr_nb rate channels =
      ok (amr record { variant = amr_nb; sample_rate = rate; channels = channels })

  unfoldable pub new_g711 : G711Kind → ℕ → ℕ → Result CodecError AnyDecoder
  new_g711 kind rate channels = ok (
      g711 record {
        kind = kind;
        sample_rate = or_default rate 8000;
        channels = or_default channels 1;
      })

  unfoldable pub new_decoder : String → ℕ → ℕ → Result CodecError AnyDecoder
  unfolding new_g711 new_amr_decoder new_opus_decoder
  new_decoder codec rate channels =
      let name = to_upper codec in
      let width = or_default channels 1 in
      if name == "PCMU"
      then new_g711 pcmu rate channels
      else if name == "PCMA"
      then new_g711 pcma rate channels
      else if name == "OPUS"
      then new_opus_decoder (or_default rate 48000) width
      else if name == "AMR"
      then new_amr_decoder amr_nb (or_default rate 8000) width
      else if name == "AMR-WB"
      then new_amr_decoder amr_wb (or_default rate 16000) width
      else if name == "EVS"
      then ok (evs record { sample_rate = or_default rate 16000; channels = width })
      else err (unsupported_codec codec)

  -- The codecs and their default sample rates.
  pub data Supported : String → ℕ → Type 0 where
    pcmu_name : Supported "PCMU" 8000
    pcma_name : Supported "PCMA" 8000
    opus_name : Supported "OPUS" 48000
    amr_name : Supported "AMR" 8000
    amr_wb_name : Supported "AMR-WB" 16000
    evs_name : Supported "EVS" 16000

  -- The codec that a decoder is for.
  abbrev pub codec_of : AnyDecoder → String
  codec_of (g711 d) = elim d.kind [ pcmu ↦ "PCMU" | pcma ↦ "PCMA" ]
  codec_of (opus d) = "OPUS"
  codec_of (amr d) = elim d.variant [ amr_nb ↦ "AMR" | amr_wb ↦ "AMR-WB" ]
  codec_of (opencore d) = "AMR-WB"
  codec_of (evs d) = "EVS"

  -- A decoder for a codec, with what was asked for, 0 being the default.
  pub record IsFor (name : String) (preset rate channels : ℕ) (d : AnyDecoder) : Type 0 where
    pub codec : codec_of d ≡ name
    pub rate_given : 0 < rate → sample_rate_of d ≡ rate
    pub rate_default : rate ≡ 0 → sample_rate_of d ≡ preset
    pub width_given : 0 < channels → channels_of d ≡ channels
    pub width_default : channels ≡ 0 → channels_of d ≡ 1

  -- The two ways in which a library refuses.
  pub data Refuses (name : String) (rate channels : ℕ) : CodecError → Type 0 where
    by_opus :
        (e : String)
        → name ≡ "OPUS"
        → new_decoder_with_output rate channels ≡ err e
        → Refuses name rate channels (opus_refused e)
    by_opencore :
        name ≡ "AMR-WB"
        → has_opencore ≡ true
        → d_if_init ≡ none
        → Refuses name rate channels d_if_init_nil

  abbrev pub Outcome : String → ℕ → ℕ → ℕ → Result CodecError AnyDecoder → Type 0
  Outcome name preset rate channels r =
      ((d : AnyDecoder) × (r ≡ ok d) × IsFor name preset rate channels d)
      ⊎ ((e : CodecError) × (r ≡ err e)
          × Refuses name (or_default rate preset) (or_default channels 1) e)

  made-IsFor :
      (name : String) (preset rate channels : ℕ) (d : AnyDecoder)
      → codec_of d ≡ name
      → sample_rate_of d ≡ or_default rate preset
      → channels_of d ≡ or_default channels 1
      → IsFor name preset rate channels d
  made-IsFor name preset rate channels d is_for r c = record {
    codec = is_for;
    rate_given = λ h. ground arith;
    rate_default = λ h. ground arith;
    width_given = λ h. ground arith;
    width_default = λ h. ground arith;
  }

  Opus-cases : (r : Result String Opus) → ((e : String) × (r ≡ err e)) ⊎ ((d : Opus) × (r ≡ ok d))
  Opus-cases (err e) = inl (e, refl)
  Opus-cases (ok d) = inr (d, refl)

  new_opus_decoder_lem :
      (rate channels : ℕ)
      → Outcome "OPUS" 48000 rate channels
          (new_opus_decoder (or_default rate 48000) (or_default channels 1))
  unfolding new_opus_decoder sample_rate_of channels_of
  new_opus_decoder_lem rate channels =
      elim (Opus-cases (new_decoder_with_output (or_default rate 48000) (or_default channels 1))) [
        | inl (e, refused) ↦
            inr (opus_refused e, rw (refused, new_opus_decoder) refl, by_opus e refl refused)
        | inr (d, made) ↦
            let decoder = opus record {
              d = d;
              sample_rate = or_default rate 48000;
              channels = or_default channels 1;
              buf = or_default rate 48000 * 120 / 1000 * or_default channels 1;
            } in
            inl (
              decoder,
              rw (made, new_opus_decoder) refl,
              made-IsFor "OPUS" 48000 rate channels decoder refl refl refl,
            )
      ]

  new_amr_wb_decoder_lem :
      (rate channels : ℕ)
      → Outcome "AMR-WB" 16000 rate channels
          (new_amr_wb_decoder (or_default rate 16000) (or_default channels 1))
  unfolding new_amr_wb_decoder sample_rate_of channels_of
  new_amr_wb_decoder_lem rate channels = elim (Bool-cases has_opencore) [
    | inr stub ↦
        let decoder = amr record {
          variant = amr_wb;
          sample_rate = or_default rate 16000;
          channels = or_default channels 1;
        } in
        inl (decoder, if_not _ stub, made-IsFor "AMR-WB" 16000 rate channels decoder refl refl refl)
    | inl tagged ↦ elim (Option-cases d_if_init) [
      | inl missing ↦
          inr (d_if_init_nil, if_so _ tagged ∙ rw missing refl, by_opencore refl tagged missing)
      | inr (state, there) ↦
          let decoder = opencore record {
            state = state;
            sample_rate = or_default rate 16000;
            channels = or_default channels 1;
          } in
          inl (
            decoder,
            if_so _ tagged ∙ rw there refl,
            made-IsFor "AMR-WB" 16000 rate channels decoder refl refl refl,
          )
    ]
  ]

  -- Where the name in upper case is that of a supported codec, `New` makes a decoder for this codec, with the sample rate
  -- and the channels asked for, the codec's default rate where the rate is 0, and one channel where the channels are 0;
  -- it returns an error only where the Opus library refuses these, or where D_IF_init returns nil in a build
  -- with opencore-amrwb.
  pub new_decoder_lem :
      (codec name : String) (preset rate channels : ℕ)
      → Supported name preset
      → to_upper codec ≡ name
      → Outcome name preset rate channels (new_decoder codec rate channels)
  unfolding new_decoder new_g711 new_amr_decoder sample_rate_of channels_of
  new_decoder_lem codec _ _ rate channels pcmu_name is =
      rw (is, new_decoder) (inl (_, refl, made-IsFor "PCMU" 8000 rate channels _ refl refl refl))
  new_decoder_lem codec _ _ rate channels pcma_name is =
      rw (is, new_decoder) (inl (_, refl, made-IsFor "PCMA" 8000 rate channels _ refl refl refl))
  new_decoder_lem codec _ _ rate channels amr_name is =
      rw (is, new_decoder) (inl (_, refl, made-IsFor "AMR" 8000 rate channels _ refl refl refl))
  new_decoder_lem codec _ _ rate channels evs_name is =
      rw (is, new_decoder) (inl (_, refl, made-IsFor "EVS" 16000 rate channels _ refl refl refl))
  new_decoder_lem codec _ _ rate channels opus_name is =
      rw (is, new_decoder) (new_opus_decoder_lem rate channels)
  new_decoder_lem codec _ _ rate channels amr_wb_name is =
      rw (is, new_decoder) (new_amr_wb_decoder_lem rate channels)
