-- ===== src/Audio/Resampler/Tests.antt =====
-- The resampler on a packet at 8 kHz (internal/audio/resampler.go).
use media_ai.Prelude.{◌+◌, ◌*◌, ◌<◌, ◌≡◌, refl, List, [], ◌∷◌, ◌++◌, length, ok, err, panics, arith}
use media_ai.Prelude.Int.{ℤ, pos, negsuc}
use media_ai.Audio.Resampler.{Resampler, resample}
use media_ai.Audio.Resampler.Phase.{linear_resample_phase, resample_split, resample_panics}

abbrev up : Resampler
up = record { in_rate = 8000; in_ch = 1; out_rate = 16000; phase_num = 0 }

abbrev stereo : Resampler
stereo = record { in_rate = 48000; in_ch = 2; out_rate = 16000; phase_num = 0 }

abbrev three : List ℤ
three = pos 100 ∷ negsuc 49 ∷ pos 7 ∷ []

linear_resample_phase_example :
    (r' : Resampler) × (out : List ℤ) × (resample three up ≡ ok (r', out))
    × (r'.in_rate ≡ 8000)
    × (r'.in_ch ≡ 1)
    × (r'.out_rate ≡ 16000)
    × (r'.phase_num < 8000)
    × (0 + length out * 8000 ≡ 3 * 16000 + r'.phase_num)
linear_resample_phase_example =
    linear_resample_phase three up refl (omega arith) (omega arith) (omega arith) (omega arith)

resample_split_example :
    (r₁ r₂ r' : Resampler) × (out₁ out₂ out : List ℤ) × (resample three up ≡ ok (r₁, out₁))
    × (resample three r₁ ≡ ok (r₂, out₂))
    × (resample (three ++ three) up ≡ ok (r', out))
    × (length out ≡ length out₁ + length out₂)
    × (r'.phase_num ≡ r₂.phase_num)
resample_split_example =
    resample_split three three up refl (omega arith) (omega arith) (omega arith) (omega arith)
      (omega arith)

resample_panics_example : resample (pos 1 ∷ []) stereo ≡ err panics
resample_panics_example =
    resample_panics (pos 1 ∷ []) stereo (omega arith) (omega arith) (omega arith) (omega arith)
