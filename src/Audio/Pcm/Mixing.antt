-- ===== src/Audio/Pcm/Mixing.antt =====
-- Mixing and the peak (internal/audio/pcm.go).
use Prim.Native.Nat.{max}
use media_ai.Prelude.{
  ℕ, suc, ◌≤◌, ◌<◌, ◌≡◌, refl, ap, sym, ◌∙◌, true, false, List, [], ◌∷◌, arith, min, length, All,
  inl, inr, Bool-cases,
}
use media_ai.Prelude.Int.{
  ℤ, pos, negsuc, ◌+ℤ◌, ◌-ℤ◌, ◌≤ℤ◌, int32, wrap, abs, IsInt16, IsInt32, int32_of_IsInt32, +ℤ_comm,
}
use media_ai.Audio.Pcm.{clamp16, mix_mono, peak_from, peak, peak_next, ends, neg16}

-- `clamp16` is the nearest int16: the value itself in the range, else the end of the range on its side.
pub clamp16_nearest :
    (v : ℤ)
    → IsInt16 (clamp16 v)
      × (IsInt16 v → clamp16 v ≡ v)
      × (pos 32767 ≤ℤ v → clamp16 v ≡ pos 32767)
      × (v ≤ℤ negsuc 32767 → clamp16 v ≡ negsuc 32767)
unfolding clamp16 wrap
clamp16_nearest (pos n) = ground arith
clamp16_nearest (negsuc n) = ground arith

sum-IsInt32 : (a b : ℤ) → IsInt16 a → IsInt16 b → IsInt32 (a +ℤ b)
unfolding ◌+ℤ◌
sum-IsInt32 a b ha hb = ground arith

clamp_sum-wrap :
    (a b : ℤ) → IsInt16 a → IsInt16 b → clamp16 (int32 (int32 a +ℤ int32 b)) ≡ clamp16 (a +ℤ b)
clamp_sum-wrap a b ha hb =
    rw
      (
        int32_of_IsInt32 a (omega arith),
        int32_of_IsInt32 b (omega arith),
        int32_of_IsInt32 (a +ℤ b) (sum-IsInt32 a b ha hb),
      )
      refl

-- Sample by sample sums, each clamped to int16.
unfoldable pub clamped_sums : List ℤ → List ℤ → List ℤ
clamped_sums (a ∷ as') (b ∷ bs) = clamp16 (a +ℤ b) ∷ clamped_sums as' bs
clamped_sums _ _ = []

mix_mono-clamped_sums :
    (as' bs : List ℤ) → All IsInt16 as' → All IsInt16 bs → mix_mono as' bs ≡ clamped_sums as' bs
unfolding mix_mono clamped_sums
mix_mono-clamped_sums [] bs ha hb = refl
mix_mono-clamped_sums (a ∷ as') [] ha hb = refl
mix_mono-clamped_sums (a ∷ as') (b ∷ bs) ha hb =
    rw (clamp_sum-wrap a b ha.0 hb.0, mix_mono-clamped_sums as' bs ha.1 hb.1) refl

mix_mono-IsInt16 : (as' bs : List ℤ) → All IsInt16 (mix_mono as' bs)
unfolding mix_mono
mix_mono-IsInt16 [] bs = tt
mix_mono-IsInt16 (a ∷ as') [] = tt
mix_mono-IsInt16 (a ∷ as') (b ∷ bs) =
    ((clamp16_nearest (int32 (int32 a +ℤ int32 b))).0, mix_mono-IsInt16 as' bs)

length-mix_mono : (as' bs : List ℤ) → length (mix_mono as' bs) ≡ min (length as') (length bs)
unfolding mix_mono
length-mix_mono [] bs = omega arith
length-mix_mono (a ∷ as') [] = omega arith
length-mix_mono (a ∷ as') (b ∷ bs) = omega (arith, length-mix_mono as' bs)

clamped_sums_comm : (as' bs : List ℤ) → clamped_sums as' bs ≡ clamped_sums bs as'
unfolding clamped_sums
clamped_sums_comm [] [] = refl
clamped_sums_comm [] (b ∷ bs) = refl
clamped_sums_comm (a ∷ as') [] = refl
clamped_sums_comm (a ∷ as') (b ∷ bs) = rw (+ℤ_comm a b, clamped_sums_comm as' bs) refl

-- Mixing int16 samples never wraps: it is the exact sum of each pair of samples, clamped to int16.
-- The result has the length of the shorter input, and does not depend on the order of the two.
pub mix_mono_lem :
    (as' bs : List ℤ)
    → All IsInt16 as'
    → All IsInt16 bs
    → (mix_mono as' bs ≡ clamped_sums as' bs)
      × All IsInt16 (mix_mono as' bs)
      × (length (mix_mono as' bs) ≡ min (length as') (length bs))
      × (mix_mono as' bs ≡ mix_mono bs as')
mix_mono_lem as' bs ha hb = (
  mix_mono-clamped_sums as' bs ha hb,
  mix_mono-IsInt16 as' bs,
  length-mix_mono as' bs,
  mix_mono-clamped_sums as' bs ha hb
      ∙ clamped_sums_comm as' bs
      ∙ sym (mix_mono-clamped_sums bs as' hb ha),
)

-- The magnitude that `Peak` reports for a sample.
abbrev pub magnitude : ℤ → ℕ
magnitude s = min (abs s) 32767

-- The largest magnitude, 0 of none.
unfoldable pub max_magnitude : List ℤ → ℕ
max_magnitude [] = 0
max_magnitude (x ∷ xs) = max (magnitude x) (max_magnitude xs)

max_magnitude-le : (xs : List ℤ) → max_magnitude xs ≤ 32767
unfolding max_magnitude
max_magnitude-le [] = omega arith
max_magnitude-le (x ∷ xs) = omega (arith, max_magnitude-le xs)

neg16-negsuc : (n : ℕ) → n < 32767 → neg16 (negsuc n) ≡ pos (suc n)
unfolding ◌-ℤ◌ wrap
neg16-negsuc n h = ground arith

peak_next_lem :
    (p : ℕ) (s : ℤ)
    → IsInt16 s
    → ends s ≡ false
    → (magnitude s ≡ abs s) × (peak_next (pos p) s ≡ pos (max p (abs s)))
unfolding ends peak_next
peak_next_lem p (pos n) h e = ground arith
peak_next_lem p (negsuc n) h e =
    let small : n < 32767 = ground arith in (omega arith, rw (neg16-negsuc n small) (ground arith))

ends-magnitude : (s : ℤ) → ends s ≡ true → magnitude s ≡ 32767
unfolding ends
ends-magnitude (pos n) e = ground arith
ends-magnitude (negsuc n) e = ground arith

peak_from_lem :
    (p : ℕ) (xs : List ℤ)
    → p ≤ 32767
    → All IsInt16 xs
    → peak_from (pos p) xs ≡ pos (max p (max_magnitude xs))
unfolding peak_from max_magnitude
peak_from_lem p [] hp h = ap pos (omega arith)
peak_from_lem p (s ∷ xs) hp h = elim (Bool-cases (ends s)) [
  | inl last ↦ rw last (ap pos (omega (arith, ends-magnitude s last, max_magnitude-le xs)))
  | inr more ↦
      let (exact, next) = peak_next_lem p s h.0 more in
      rw (more, next) (peak_from_lem (max p (abs s)) xs (omega arith) h.1 ∙ ap pos (omega arith))
]

-- `Peak` of int16 samples is their largest magnitude, where that of -32768 counts as 32767, and 0 of
-- no samples; so it is an int16 and never negative, although it stops at the first -32768.
pub peak-max_magnitude :
    (xs : List ℤ) → All IsInt16 xs → (peak xs ≡ pos (max_magnitude xs)) × (max_magnitude xs ≤ 32767)
unfolding peak
peak-max_magnitude xs h = (peak_eq xs h, max_magnitude-le xs)
  where
    peak_eq : (xs : List ℤ) → All IsInt16 xs → peak xs ≡ pos (max_magnitude xs)
    peak_eq xs h = peak_from_lem 0 xs (omega arith) h ∙ ap pos (omega arith)
