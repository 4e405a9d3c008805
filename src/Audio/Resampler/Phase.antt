-- ===== src/Audio/Resampler/Phase.antt =====
-- How many samples come out, and the phase that is carried on (internal/audio/resampler.go).
use media_ai.Prelude.{
  ℕ, zero, suc, ◌+◌, ◌-◌, ◌*◌, ◌/◌, ◌≤◌, ◌<◌, ◌≡◌, ◌≢◌, refl, ap, sym, inl, inr, true, false, List,
  [], ◌∷◌, ◌++◌, arith, ltb, ltb→lt, ltb_false→le, ◌==◌, Bool-cases, length, length-append, get_or,
  ok, err, panics,
}
use media_ai.Prelude.Int.{ℤ, pos}
use media_ai.Audio.Resampler.{
  Resampler, to_mono, sample_at, resample_loop, linear_resample, resample,
}

resample_loop_total :
    (fuel : ℕ) (sample : ℕ → ℤ) (in_rate limit phase : ℕ)
    → 0 < in_rate
    → limit - phase < fuel
    → (out : List ℤ) × (last : ℕ) × (resample_loop fuel sample in_rate limit phase ≡ ok (out, last))
      × (last ≡ phase + length out * in_rate)
      × (limit ≤ last)
      × (phase < limit + in_rate → last < limit + in_rate)
unfolding resample_loop
resample_loop_total zero sample in_rate limit phase rate enough = absurd (omega arith)
resample_loop_total (suc fuel) sample in_rate limit phase rate enough =
    elim (Bool-cases (ltb phase limit)) [
      | inr done ↦
          ([], phase, rw (done, resample_loop) refl, omega arith, ltb_false→le _ _ done, λ h. h)
      | inl more ↦
          let (out, last, ran, steps, ends, carry) =
            resample_loop_total fuel sample in_rate limit (phase + in_rate) rate
              (omega (arith, ltb→lt _ _ more)) in
          (
            sample phase ∷ out,
            last,
            rw (more, ran, resample_loop) refl,
            omega (arith, steps),
            ends,
            λ h. carry (omega (arith, ltb→lt _ _ more)),
          )
    ]

-- One packet of mono samples at an input rate other than the output rate is resampled without a
-- panic. Phases count input positions in units of 1 / outRate: the outputs advance the phase by
-- inRate each, the packet takes its n * outRate off, and what remains is carried on, below inRate.
pub linear_resample_phase :
    (mono : List ℤ) (r : Resampler)
    → r.in_ch ≡ 1
    → 0 < r.in_rate
    → r.in_rate ≢ r.out_rate
    → r.phase_num < r.in_rate
    → 0 < length mono
    → (r' : Resampler) × (out : List ℤ) × (resample mono r ≡ ok (r', out))
      × (r'.in_rate ≡ r.in_rate)
      × (r'.in_ch ≡ r.in_ch)
      × (r'.out_rate ≡ r.out_rate)
      × (r'.phase_num < r.in_rate)
      × (r.phase_num + length out * r.in_rate ≡ length mono * r.out_rate + r'.phase_num)
unfolding resample linear_resample to_mono
linear_resample_phase mono r one rate differ phase some_in =
    let given : (length mono == 0) ≡ false = ground arith in
    let is_mono : (r.in_ch == 1) ≡ true = ground arith in
    let rates : (r.in_rate == r.out_rate) ≡ false = ground arith in
    let runs : (r.in_rate == 0) ≡ false = ground arith in
    let limit = length mono * r.out_rate in
    let (out, last, ran, steps, ends, carry) =
      resample_loop_total (limit + 1)
        (sample_at mono (get_or mono (length mono - 1) (pos 0)) r.out_rate) r.in_rate limit
        r.phase_num rate (omega arith) in
    (
      record r { phase_num = last - limit },
      out,
      rw (given, is_mono) (rw (rates, runs, given, ran) refl),
      refl,
      refl,
      refl,
      omega (arith, carry (omega arith)),
      omega (arith, steps, ends),
    )

mul_step : (d a b : ℕ) → a < b → a * d + d ≤ b * d
mul_step d a b h = grind arith

div_unique : (d a b p q : ℕ) → p < d → q < d → a * d + p ≡ b * d + q → (a ≡ b) × (p ≡ q)
div_unique d a b p q hp hq e = elim (Bool-cases (ltb a b)) [
  | inl below ↦ absurd (omega (arith, mul_step d a b (ltb→lt _ _ below)))
  | inr at_least ↦ elim (Bool-cases (ltb b a)) [
    | inl above ↦ absurd (omega (arith, mul_step d b a (ltb→lt _ _ above)))
    | inr at_most ↦
        let same : a ≡ b = omega (arith, ltb_false→le _ _ at_least, ltb_false→le _ _ at_most) in
        (same, omega (arith, ap (λ (t : ℕ). t * d) same))
  ]
]

-- Splitting a stream of mono samples into packets does not change how many samples come out, nor
-- the phase after them: a packet and then a second one give as many samples as both in one packet.
pub resample_split :
    (xs ys : List ℤ) (r : Resampler)
    → r.in_ch ≡ 1
    → 0 < r.in_rate
    → r.in_rate ≢ r.out_rate
    → r.phase_num < r.in_rate
    → 0 < length xs
    → 0 < length ys
    → (r₁ r₂ r' : Resampler) × (out₁ out₂ out : List ℤ) × (resample xs r ≡ ok (r₁, out₁))
      × (resample ys r₁ ≡ ok (r₂, out₂))
      × (resample (xs ++ ys) r ≡ ok (r', out))
      × (length out ≡ length out₁ + length out₂)
      × (r'.phase_num ≡ r₂.phase_num)
resample_split xs ys r one rate differ phase some_xs some_ys =
    let (r₁, out₁, ran₁, in₁, ch₁, or₁, carry₁, total₁) =
      linear_resample_phase xs r one rate differ phase some_xs in
    let (r₂, out₂, ran₂, in₂, ch₂, or₂, carry₂, total₂) =
      linear_resample_phase ys r₁ (omega arith) (omega arith) (omega arith) (omega arith) some_ys in
    let (r', out, ran, in', ch', or', carry, total) =
      linear_resample_phase (xs ++ ys) r one rate differ phase
        (omega (arith, length-append xs ys)) in
    let (same_count, same_phase) =
      div_unique r.in_rate (length out) (length out₁ + length out₂) r₂.phase_num r'.phase_num
        (omega arith) carry
        (omega (
          arith,
          total,
          total₁,
          total₂,
          ap (λ (t : ℕ). length out₂ * t) in₁,
          ap (λ (t : ℕ). length ys * t) or₁,
          ap (λ (t : ℕ). t * r.out_rate) (length-append xs ys),
        )) in
    (r₁, r₂, r', out₁, out₂, out, ran₁, ran₂, ran, same_count, sym same_phase)

-- Several channels, but fewer samples than channels: at different rates the call panics, since
-- no frame is left for `mono[n-1]`.
pub resample_panics :
    (samples : List ℤ) (r : Resampler)
    → 0 < length samples
    → length samples < r.in_ch
    → r.in_ch ≢ 1
    → r.in_rate ≢ r.out_rate
    → resample samples r ≡ err panics
unfolding resample linear_resample to_mono
resample_panics samples r given few several differ =
    let some_in : (length samples == 0) ≡ false = ground arith in
    let mixes : (r.in_ch == 1) ≡ false = ground arith in
    let divides : (r.in_ch == 0) ≡ false = ground arith in
    let rates : (r.in_rate == r.out_rate) ≡ false = ground arith in
    let no_frame : length samples / r.in_ch ≡ 0 = grind arith in
    rw (some_in, mixes) (rw (divides, rates, no_frame) (ground arith))
