-- ===== src/Audio/Pcm/Coding.antt =====
-- Encoding and decoding of S16LE (internal/audio/pcm.go).
use media_ai.Prelude.{
  ℕ, ◌+◌, ◌*◌, ◌/◌, ◌%◌, ◌<◌, ◌≡◌, ◌↔◌, refl, List, [], ◌∷◌, ◌++◌, arith, length, ok, err, All,
}
use media_ai.Prelude.Int.{ℤ, pos, negsuc, IsInt16}
use media_ai.Audio.Pcm.{
  odd_byte_count, int16_of_word, word_of_int16, decode_pairs, s16le_to_int16, int16_to_s16le,
}

abbrev pub IsByte : ℕ → Type 0
IsByte b = b < 256

pub length-int16_to_s16le : (xs : List ℤ) → length (int16_to_s16le xs) ≡ 2 * length xs
unfolding int16_to_s16le
length-int16_to_s16le [] = omega arith
length-int16_to_s16le (x ∷ xs) = omega (arith, length-int16_to_s16le xs)

int16_of_word_of_int16 : (s : ℤ) → IsInt16 s → int16_of_word (word_of_int16 s) ≡ s
int16_of_word_of_int16 (pos n) h = ground arith
int16_of_word_of_int16 (negsuc n) h = ground arith

word_of_int16_of_word : (w : ℕ) → w < 65536 → word_of_int16 (int16_of_word w) ≡ w
word_of_int16_of_word w h = ground arith

split_word : (w : ℕ) → w % 256 + 256 * (w / 256) ≡ w
split_word w = omega arith

decode_pairs-int16_to_s16le : (xs : List ℤ) → All IsInt16 xs → decode_pairs (int16_to_s16le xs) ≡ xs
unfolding decode_pairs int16_to_s16le
decode_pairs-int16_to_s16le [] h = refl
decode_pairs-int16_to_s16le (x ∷ xs) h =
    rw
      (
        split_word (word_of_int16 x),
        int16_of_word_of_int16 x h.0,
        decode_pairs-int16_to_s16le xs h.1,
      )
      refl

int16_to_s16le-decode_pairs :
    (b : List ℕ) → All IsByte b → length b % 2 ≡ 0 → int16_to_s16le (decode_pairs b) ≡ b
unfolding decode_pairs int16_to_s16le
int16_to_s16le-decode_pairs [] h e = refl
int16_to_s16le-decode_pairs (lo ∷ []) h e = absurd (omega arith)
int16_to_s16le-decode_pairs (lo ∷ hi ∷ rest) h e =
    rw
      (
        word_of_int16_of_word (lo + 256 * hi) (omega arith),
        int16_to_s16le-decode_pairs rest h.1.1 (omega arith),
      )
      (ground arith)

length-decode_pairs : (b : List ℕ) → length b % 2 ≡ 0 → 2 * length (decode_pairs b) ≡ length b
unfolding decode_pairs
length-decode_pairs [] e = omega arith
length-decode_pairs (lo ∷ []) e = absurd (omega arith)
length-decode_pairs (lo ∷ hi ∷ rest) e = omega (arith, length-decode_pairs rest)

-- Samples in the range of int16 are read back from their S16LE bytes as they were.
pub s16le_to_int16-int16_to_s16le :
    (xs : List ℤ) → All IsInt16 xs → s16le_to_int16 (int16_to_s16le xs) ≡ ok xs
unfolding s16le_to_int16 int16_to_s16le
s16le_to_int16-int16_to_s16le [] h = refl
s16le_to_int16-int16_to_s16le (x ∷ xs) h =
    ground (arith, length-int16_to_s16le (x ∷ xs), decode_pairs-int16_to_s16le (x ∷ xs) h)

-- Decoding fails exactly on an odd number of bytes. Otherwise it gives half as many samples,
-- and encoding these gives the bytes back.
pub s16le_to_int16_outcome :
    (b : List ℕ)
    → All IsByte b
    → ((s16le_to_int16 b ≡ err odd_byte_count) ↔ (length b % 2 ≡ 1))
      × (length b % 2 ≡ 0
          → (xs : List ℤ) × (s16le_to_int16 b ≡ ok xs)
            × (2 * length xs ≡ length b)
            × (int16_to_s16le xs ≡ b))
unfolding s16le_to_int16 int16_to_s16le decode_pairs
s16le_to_int16_outcome [] h =
    ((λ e. absurd (ground arith), λ e. absurd (omega arith)), λ e. ([], refl, omega arith, refl))
s16le_to_int16_outcome (x ∷ b) h = (
  (λ e. ground arith, λ e. ground arith),
  λ e. (
    decode_pairs (x ∷ b),
    ground arith,
    length-decode_pairs (x ∷ b) e,
    int16_to_s16le-decode_pairs (x ∷ b) h e,
  ),
)

pub int16_to_s16le-append :
    (xs ys : List ℤ) → int16_to_s16le (xs ++ ys) ≡ int16_to_s16le xs ++ int16_to_s16le ys
unfolding int16_to_s16le
int16_to_s16le-append [] ys = refl
int16_to_s16le-append (x ∷ xs) ys = rw (int16_to_s16le-append xs ys) refl
