-- ===== src/Audio/Pcm.antt =====
-- PCM samples and their S16LE bytes (internal/audio/pcm.go). A sample is an integer in the range of
-- int16, a byte a number below 256; a nil slice is the empty list. `Energy` and `IsSilence`
-- are float64 arithmetic and are not modelled.
use media_ai.Prelude.{
  ℕ, zero, suc, ◌+◌, ◌-◌, ◌*◌, ◌/◌, ◌%◌, ◌≤◌, ◌<◌, ◌≡◌, Bool, ◌&&◌, List, [], ◌∷◌, ltb, ◌==◌,
  length, if◌then◌else◌, Result, ok, err,
}
use media_ai.Prelude.Int.{ℤ, pos, negsuc, ◌+ℤ◌, ◌-ℤ◌, ltb_ℤ, int16, int32, wrap}
pub mod Coding
pub mod Mixing
mod Tests

pub data PcmError : Type 0 where
  odd_byte_count : PcmError

-- int16(w) and uint16(s)
abbrev pub int16_of_word : ℕ → ℤ
int16_of_word w = if ltb w 32768 then pos w else negsuc (65535 - w)

abbrev pub word_of_int16 : ℤ → ℕ
word_of_int16 (pos n) = n % 65536
word_of_int16 (negsuc n) = 65535 - n % 65536

-- for i := range out { out[i] = int16(binary.LittleEndian.Uint16(b[i*2:])) }
decode_pairs : List ℕ → List ℤ
decode_pairs [] = []
decode_pairs (lo ∷ []) = []
decode_pairs (lo ∷ hi ∷ rest) = int16_of_word (lo + 256 * hi) ∷ decode_pairs rest

unfoldable pub s16le_to_int16 : List ℕ → Result PcmError (List ℤ)
unfolding decode_pairs
s16le_to_int16 b =
    if length b == 0
    then ok []
    else if length b % 2 == 0
    then ok (decode_pairs b)
    else err odd_byte_count

unfoldable pub int16_to_s16le : List ℤ → List ℕ
int16_to_s16le [] = []
int16_to_s16le (s ∷ samples) =
    word_of_int16 s % 256 ∷ word_of_int16 s / 256 ∷ int16_to_s16le samples

unfoldable pub clamp16 : ℤ → ℤ
clamp16 v =
    if ltb_ℤ (pos 32767) v
    then pos 32767
    else if ltb_ℤ v (negsuc 32767)
    then negsuc 32767
    else int16 v

unfoldable pub mix_mono : List ℤ → List ℤ → List ℤ
unfolding clamp16 ◌+ℤ◌ wrap
mix_mono (a ∷ as') (b ∷ bs) = clamp16 (int32 (int32 a +ℤ int32 b)) ∷ mix_mono as' bs
mix_mono _ _ = []

-- -s on int16
abbrev neg16 : ℤ → ℤ
neg16 s = int16 (pos 0 -ℤ s)

-- s == -32768, which has no negation on int16 and ends the loop of `Peak`
ends : ℤ → Bool
ends s = ltb_ℤ s (pos 0) && word_of_int16 s == 32768

-- The peak after one more sample.
peak_next : ℤ → ℤ → ℤ
peak_next peak s =
    if ltb_ℤ s (pos 0)
    then (if ltb_ℤ peak (neg16 s) then neg16 s else peak)
    else if ltb_ℤ peak s
    then s
    else peak

peak_from : ℤ → List ℤ → ℤ
unfolding ends peak_next
peak_from peak [] = peak
peak_from peak (s ∷ samples) =
    let rest = peak_from (peak_next peak s) samples in if ends s then pos 32767 else rest

unfoldable pub peak : List ℤ → ℤ
unfolding peak_from ◌-ℤ◌ wrap
peak samples = peak_from (pos 0) samples
