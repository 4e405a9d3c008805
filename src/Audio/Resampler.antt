-- ===== src/Audio/Resampler.antt =====
-- Resampling to mono with an integer phase (internal/audio/resampler.go). Rates, channels and the
-- phase are not negative; the int64 products stay below 2 ^ 63 for every packet that RTP carries,
-- so they are exact here.
use media_ai.Prelude.{
  ℕ, zero, suc, ◌+◌, ◌-◌, ◌*◌, ◌/◌, ◌%◌, Bool, true, false, List, [], ◌∷◌, ltb, leb, ◌==◌, length,
  take, drop, get_or, if◌then◌else◌, Result, ok, err, ◌>>=◌, Fault, panics, out_of_fuel,
}
use media_ai.Prelude.Int.{ℤ, pos, negsuc, ◌+ℤ◌, ◌-ℤ◌, sub_ℕ, quot, int16, int32, wrap}
pub mod Phase
mod Tests

pub record Resampler : Type 0 where
  pub in_rate : ℕ
  pub in_ch : ℕ
  pub out_rate : ℕ
  pub phase_num : ℕ

unfoldable pub new_resampler : ℕ → ℕ → ℕ → Resampler
new_resampler in_rate in_ch out_rate = record {
  in_rate = in_rate;
  in_ch = in_ch;
  out_rate = out_rate;
  phase_num = 0;
}

unfoldable pub reset : Resampler → Resampler
reset r = record r { phase_num = 0 }

-- sum += int32(in[…]) over the channels of one frame
sum32 : ℤ → List ℤ → ℤ
sum32 acc [] = acc
sum32 acc (s ∷ rest) = sum32 (int32 (acc +ℤ s)) rest

-- The mean of each of `frames` frames of `ch` interleaved samples.
mix_frames : ℕ → ℕ → List ℤ → List ℤ
mix_frames zero ch samples = []
mix_frames (suc frames) ch samples =
    int16 (quot (sum32 (pos 0) (take ch samples)) ch) ∷ mix_frames frames ch (drop ch samples)

-- `len(in) / inCh` panics on 0 channels.
unfoldable pub to_mono : Resampler → List ℤ → Result Fault (List ℤ)
unfolding mix_frames sum32 quot ◌+ℤ◌ wrap
to_mono r samples =
    if r.in_ch == 1
    then ok samples
    else if r.in_ch == 0
    then err panics
    else ok (mix_frames (length samples / r.in_ch) r.in_ch samples)

-- d * k
scale : ℤ → ℕ → ℤ
scale (pos n) k = pos (n * k)
scale (negsuc n) k = sub_ℕ 0 (suc n * k)

-- int16(s0 + (s1-s0)*fracNum/outRate)
interpolate : ℤ → ℤ → ℕ → ℕ → ℤ
interpolate s0 s1 frac out_rate = int16 (s0 +ℤ quot (scale (s1 -ℤ s0) frac) out_rate)

-- The output sample at a phase below the limit; `last` is mono[n-1].
pub sample_at : List ℤ → ℤ → ℕ → ℕ → ℤ
unfolding interpolate scale quot ◌+ℤ◌ ◌-ℤ◌ wrap
sample_at mono last out_rate phase =
    let idx = phase / out_rate in
    let frac = phase % out_rate in
    if leb (length mono - 1) idx
    then last
    else if frac == 0
    then get_or mono idx (pos 0)
    else interpolate (get_or mono idx (pos 0)) (get_or mono (idx + 1) (pos 0)) frac out_rate

-- The loop, from a phase on; it returns the samples and the phase at its end.
pub resample_loop : ℕ → (ℕ → ℤ) → ℕ → ℕ → ℕ → Result Fault (List ℤ × ℕ)
resample_loop zero sample in_rate limit phase = err out_of_fuel
resample_loop (suc fuel) sample in_rate limit phase =
    let rest = resample_loop fuel sample in_rate limit (phase + in_rate) in
    if ltb phase limit then (rest >>= λ r. ok (sample phase ∷ r.0, r.1)) else ok ([], phase)

-- The capacity `n*outRate/inRate + 2` panics at an input rate of 0, `mono[n-1]` on no samples.
unfoldable pub linear_resample : Resampler → List ℤ → Result Fault (Resampler × List ℤ)
unfolding resample_loop sample_at
linear_resample r mono =
    let limit = length mono * r.out_rate in
    let last = get_or mono (length mono - 1) (pos 0) in
    if r.in_rate == 0
    then err panics
    else if length mono == 0
    then err panics
    else (resample_loop (limit + 1) (sample_at mono last r.out_rate) r.in_rate limit r.phase_num
        >>= λ s. ok (record r { phase_num = s.1 - limit }, s.0))

unfoldable pub resample : List ℤ → Resampler → Result Fault (Resampler × List ℤ)
unfolding to_mono linear_resample
resample samples r =
    if length samples == 0
    then ok (r, [])
    else (to_mono r samples >>= λ mono.
        if r.in_rate == r.out_rate
        then ok (record r { phase_num = 0 }, mono)
        else linear_resample r mono)
