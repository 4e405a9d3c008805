-- ===== src/Audio/Chunker/Tests.antt =====
-- The chunker with chunks of two samples (internal/audio/chunker.go).
use media_ai.Prelude.{
  ◌*◌, ◌≡◌, refl, List, [], ◌∷◌, ◌++◌, length, drop, All, ok, err, out_of_fuel, arith,
}
use media_ai.Prelude.Int.{ℤ, pos, negsuc}
use media_ai.Audio.Pcm.{int16_to_s16le}
use media_ai.Audio.Chunker.{Chunk, Chunker, new_chunker, push_within, push}
use media_ai.Audio.Chunker.Drain.{IsReady, joined, push_cuts}
use media_ai.Audio.Chunker.Stamps.{block_heads, stamps, TracksSources, push_stamps, push_hangs}

-- One sample is left over from a packet with the timestamp 90.
abbrev partial : Chunker
partial = record {
  cfg = record { sample_rate = 1000; channels = 1; chunk_ms = 2 };
  session_id = "s";
  stream_id = "t";
  buf = pos 1 ∷ [];
  chunk_samps = 2;
  cur_rtp_ts = 90;
}

abbrev zero_length : Chunker
zero_length = new_chunker (record { sample_rate = 1000; channels = 1; chunk_ms = 0 }) "s" "t"

abbrev four : List ℤ
four = pos 2 ∷ negsuc 2 ∷ pos 4 ∷ pos 5 ∷ []

partial-IsReady : IsReady partial
partial-IsReady = record { cuts = omega arith; has_rate = omega arith; short = omega arith }

push_cuts_example :
    (c' : Chunker) × (ks : List Chunk) × (push four 160 partial ≡ ok (c', ks))
    × IsReady c'
    × All (λ (k : Chunk). length k.pcm ≡ 4) ks
    × (joined ks ++ int16_to_s16le c'.buf ≡ int16_to_s16le (pos 1 ∷ four))
push_cuts_example = push_cuts four 160 partial partial-IsReady

push_stamps_example :
    (c' : Chunker) × (ks : List Chunk) × (push four 160 partial ≡ ok (c', ks))
    × (stamps ks ≡ block_heads (length ks) 2 (90 ∷ 160 ∷ 160 ∷ 160 ∷ 160 ∷ []))
    × TracksSources c' (drop (length ks * 2) (90 ∷ 160 ∷ 160 ∷ 160 ∷ 160 ∷ []))
push_stamps_example =
    push_stamps four 160 partial (90 ∷ []) partial-IsReady (omega arith)
      (record { same_length = refl; first = λ h. refl })

push_hangs_example : push_within 9 four 160 zero_length ≡ err out_of_fuel
unfolding new_chunker
push_hangs_example = push_hangs 9 four 160 zero_length refl (omega arith) (omega arith)
