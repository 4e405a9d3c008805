-- ===== src/Codec/Tests.antt =====
-- The codecs at concrete payloads (internal/codec).
use media_ai.Prelude.{ℕ, ◌≡◌, true, false, [], ◌∷◌, ◌++◌, none, arith, refl, ok, err}
use media_ai.Codec.Select.{
  Libraries, Outcome, unsupported_codec, amr_wb_name, new_decoder, new_decoder_lem,
}
use media_ai.Codec.G711.{
  G711Decoder, pcmu, decode_ulaw, decode_alaw, ulaw_reference, alaw_reference, negated,
  decode_ulaw_lem, decode_alaw_lem,
}
use media_ai.Codec.Amr.{AmrFrameInfo, amr_nb, parse_amr_frames}
use media_ai.Codec.Amr.Frames.{toc_bytes, frame_bytes, parse_amr_frames-frame_bytes}

decode_ulaw_lem_example : decode_ulaw 0 ≡ negated (ulaw_reference 0)
decode_ulaw_lem_example = decode_ulaw_lem 0 (omega arith)

decode_alaw_lem_example : decode_alaw 0xaa ≡ alaw_reference 0xaa
decode_alaw_lem_example = decode_alaw_lem 0xaa (omega arith)

abbrev narrow : G711Decoder
narrow = record { kind = pcmu; sample_rate = 8000; channels = 1 }

-- A silence descriptor and a frame without data.
abbrev sid : AmrFrameInfo
sid = record { ft = 8; quality = true; payload = 1 ∷ 2 ∷ 3 ∷ 4 ∷ 5 ∷ [] }

abbrev no_data : AmrFrameInfo
no_data = record { ft = 15; quality = false; payload = [] }

parse_amr_frames-frame_bytes_example :
    parse_amr_frames
      (240 ∷ (toc_bytes sid (no_data ∷ []) ++ (frame_bytes (sid ∷ no_data ∷ []) ++ 9 ∷ [])))
      amr_nb
    ≡ (sid ∷ no_data ∷ [], none)
parse_amr_frames-frame_bytes_example =
    parse_amr_frames-frame_bytes amr_nb 240 sid (no_data ∷ []) (9 ∷ []) (omega arith)

-- Names in upper case, an Opus library that refuses nothing, and a build without opencore-amrwb.
abbrev plain_build : Libraries
plain_build = record {
  to_upper = λ name. name;
  Opus = ℕ × ℕ;
  new_decoder_with_output = λ rate channels. ok (rate, channels);
  has_opencore = false;
  DecoderState = ℕ;
  d_if_init = none;
}

new_decoder_lem_example :
    Outcome plain_build "AMR-WB" 16000 0 2 (new_decoder plain_build "AMR-WB" 0 2)
new_decoder_lem_example = new_decoder_lem plain_build "AMR-WB" "AMR-WB" 16000 0 2 amr_wb_name refl

new_decoder_unsupported : new_decoder plain_build "G729" 0 0 ≡ err (unsupported_codec "G729")
unfolding new_decoder
new_decoder_unsupported = refl
