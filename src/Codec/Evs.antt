-- ===== src/Codec/Evs.antt =====
-- The payload formats of EVS (internal/codec/evs.go). The sizes are a Go map, whose loop visits the
-- entries in any order: `entries` is the order of one run.
use Prim.Native.Nat.{bit_and}
use media_ai.Prelude.{
  ℕ, ◌<◌, ◌≡◌, ◌≢◌, ◌↔◌, ◌⊎◌, inl, inr, refl, sym, ◌∙◌, Bool, true, false, List, [], ◌∷◌, ◌==◌,
  ==_iff, length, if◌then◌else◌, arith, Bool-cases, not,
}

pub data EvsPayloadFormat : Type 0 where
  evs_compact evs_header_full : EvsPayloadFormat

abbrev pub evs_primary_frame_bytes : List (ℕ × ℕ)
evs_primary_frame_bytes =
    (2800, 7)
    ∷ (5900, 24)
    ∷ (7200, 27)
    ∷ (8000, 29)
    ∷ (9600, 33)
    ∷ (13200, 47)
    ∷ (16400, 57)
    ∷ (24400, 83)
    ∷ (32000, 107)
    ∷ (48000, 160)
    ∷ (64000, 213)
    ∷ (96000, 320)
    ∷ (128000, 426)
    ∷ []

-- for _, size := range …: does one of them match?
has_size : List (ℕ × ℕ) → ℕ → Bool
has_size [] n = false
has_size ((rate, size) ∷ rest) n = if n == size then true else has_size rest n

unfoldable pub detect_evs_format : List (ℕ × ℕ) → List ℕ → EvsPayloadFormat
unfolding has_size
detect_evs_format entries [] = evs_compact
detect_evs_format entries (b ∷ bytes) =
    if not (bit_and b 0x80 == 0)
    then evs_header_full
    else if has_size entries (length (b ∷ bytes))
    then evs_compact
    else evs_header_full

unfoldable pub evs_primary_bitrate : List (ℕ × ℕ) → ℕ → ℕ
evs_primary_bitrate [] n = 0
evs_primary_bitrate ((rate, size) ∷ rest) n = if n == size then rate else evs_primary_bitrate rest n

-- An order in which the loop may visit the map: entries of the map, each of them there.
abbrev pub IsEntry : ℕ × ℕ → List (ℕ × ℕ) → Type 0
IsEntry e [] = ⊥
IsEntry e (x ∷ xs) = ((x.0 ≡ e.0) × (x.1 ≡ e.1)) ⊎ IsEntry e xs

abbrev pub IsOrder : List (ℕ × ℕ) → Type 0
IsOrder entries =
    (rate size : ℕ) → IsEntry (rate, size) entries ↔ IsEntry (rate, size) evs_primary_frame_bytes

-- A rate is positive, and belongs to one size.
rate_positive : (rate size : ℕ) → IsEntry (rate, size) evs_primary_frame_bytes → 0 < rate
rate_positive rate size h = ground arith

rate_unique :
    (rate rate' size : ℕ)
    → IsEntry (rate, size) evs_primary_frame_bytes
    → IsEntry (rate', size) evs_primary_frame_bytes
    → rate ≡ rate'
rate_unique rate rate' size h k = ground arith

bitrate-cases :
    (entries : List (ℕ × ℕ)) (n : ℕ)
    → ((rate : ℕ) × (evs_primary_bitrate entries n ≡ rate)
        × IsEntry (rate, n) entries
        × (has_size entries n ≡ true))
      ⊎ ((evs_primary_bitrate entries n ≡ 0)
          × (has_size entries n ≡ false)
          × ((rate : ℕ) → ¬ IsEntry (rate, n) entries))
unfolding evs_primary_bitrate has_size
bitrate-cases [] n = inr (refl, refl, λ rate e. e)
bitrate-cases ((rate, size) ∷ rest) n = elim (Bool-cases (n == size)) [
  | inl same ↦ rw same (inl (rate, refl, inl (refl, sym ((==_iff n size).0 same)), refl))
  | inr other ↦ elim (bitrate-cases rest n) [
    | inl (found, is_found, entry, has) ↦ inl (found, rw other is_found, inr entry, rw other has)
    | inr (zero_rate, missing, absent) ↦ inr (
      rw other zero_rate,
      rw other missing,
      λ r e. elim e [ inl here ↦ ground arith | inr later ↦ absent r later ],
    )
  ]
]

-- In whatever order the map of sizes is visited, `EVSPrimaryBitrate` gives the rate of the entry with
-- that size, or 0 if there is none, so the order does not matter; and `DetectEVSFormat` calls a
-- payload with at least one byte compact exactly when the first bit is not set and the bitrate
-- of its length is not 0.
pub evs_primary_bitrate_lem :
    (entries : List (ℕ × ℕ)) (b : ℕ) (bytes : List ℕ)
    → IsOrder entries
    → ((rate size : ℕ)
        → IsEntry (rate, size) evs_primary_frame_bytes
        → evs_primary_bitrate entries size ≡ rate)
      × ((n : ℕ) → evs_primary_bitrate entries n ≡ evs_primary_bitrate evs_primary_frame_bytes n)
      × ((detect_evs_format entries (b ∷ bytes) ≡ evs_compact)
          ↔ ((bit_and b 0x80 ≡ 0) × (evs_primary_bitrate entries (length (b ∷ bytes)) ≢ 0)))
unfolding detect_evs_format
evs_primary_bitrate_lem entries b bytes order = (known, same, detects)
  where
    known :
        (rate size : ℕ)
        → IsEntry (rate, size) evs_primary_frame_bytes
        → evs_primary_bitrate entries size ≡ rate
    known rate size entry = elim (bitrate-cases entries size) [
      | inl (r, is_r, found, has) ↦ is_r ∙ rate_unique r rate size ((order r size).0 found) entry
      | inr (zero_rate, missing, absent) ↦ absurd (absent rate ((order rate size).1 entry))
    ]

    same : (n : ℕ) → evs_primary_bitrate entries n ≡ evs_primary_bitrate evs_primary_frame_bytes n
    same n = elim (bitrate-cases evs_primary_frame_bytes n) [
      | inl (r, is_r, found, has) ↦ known r n found ∙ sym is_r
      | inr (zero_rate, missing, absent) ↦ elim (bitrate-cases entries n) [
        | inl (r, is_r, found, has) ↦ absurd (absent r ((order r n).0 found))
        | inr (zero_rate', missing', absent') ↦ zero_rate' ∙ sym zero_rate
      ]
    ]

    detects :
        (detect_evs_format entries (b ∷ bytes) ≡ evs_compact)
        ↔ ((bit_and b 0x80 ≡ 0) × (evs_primary_bitrate entries (length (b ∷ bytes)) ≢ 0))
    detects = elim (bitrate-cases entries (length (b ∷ bytes))) [
      | inl (r, is_r, found, has) ↦
          let positive =
            rate_positive r (length (b ∷ bytes)) ((order r (length (b ∷ bytes))).0 found) in
          (λ e. (ground arith, omega arith), λ e. ground arith)
      | inr (zero_rate, missing, absent) ↦ (λ e. absurd (ground arith), λ e. absurd (e.1 zero_rate))
    ]
