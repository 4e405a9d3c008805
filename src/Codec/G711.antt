-- ===== src/Codec/G711.antt =====
-- G.711 expansion (internal/codec/g711.go). The 256-entry tables are filled from `decodeUlaw` and
-- `decodeAlaw` at start-up, so a table look-up is a call of these. `x << n` is x * 2 ^ n, `x >> 4` is
-- x / 16, and the complement of a byte is its difference to 255.
use Prim.Native.Nat.{bit_and, bit_xor}
use media_ai.Prelude.{
  ℕ, zero, suc, ◌+◌, ◌-◌, ◌*◌, ◌/◌, ◌%◌, ◌^◌, ◌<◌, ◌≡◌, refl, Bool, true, ◌&&◌, List, [], ◌∷◌, ltb,
  ◌==◌, length, get_or, if◌then◌else◌, All, arith, map,
}
use media_ai.Prelude.Int.{
  ℤ, pos, negsuc, sub_ℕ, int16, wrap, IsInt16, pos_part, neg_part, eq_of_parts,
}

pub data G711Kind : Type 0 where
  pcmu pcma : G711Kind

abbrev pub exp_lut : List ℕ
exp_lut = 0 ∷ 132 ∷ 396 ∷ 924 ∷ 1980 ∷ 4092 ∷ 8316 ∷ 16764 ∷ []

-- if sign != 0 { return int16(mag) }; return int16(-mag)
abbrev signed : ℕ → ℕ → ℤ
signed sign mag = if sign == 0 then int16 (sub_ℕ 0 mag) else int16 (pos mag)

unfoldable pub decode_ulaw : ℕ → ℤ
unfolding wrap
decode_ulaw wire =
    let u = 255 - wire in
    let exp = bit_and u 0x70 / 16 in
    let mantissa = bit_and u 0x0f in
    signed (bit_and u 0x80) (get_or exp_lut exp 0 + mantissa * 2 ^ (exp + 3))

unfoldable pub decode_alaw : ℕ → ℤ
unfolding wrap
decode_alaw wire =
    let a = bit_xor wire 0x55 in
    let exp = bit_and a 0x70 / 16 in
    let mantissa = bit_and a 0x0f in
    signed (bit_and a 0x80)
      (if exp == 0 then mantissa * 16 + 8 else (mantissa * 16 + 264) * 2 ^ (exp - 1))

pub record G711Decoder : Type 0 where
  pub kind : G711Kind
  pub sample_rate : ℕ
  pub channels : ℕ

abbrev pub table : G711Kind → ℕ → ℤ
table pcmu = decode_ulaw
table pcma = decode_alaw

expand : G711Kind → List ℕ → List ℤ
expand kind [] = []
expand kind (b ∷ bs) = table kind b ∷ expand kind bs

-- The error of the Go signature is always nil.
unfoldable pub decode : G711Decoder → List ℕ → List ℤ
unfolding expand
decode d payload = expand d.kind payload

-- A test of every byte, and of what it says of one.
every : ℕ → (ℕ → Bool) → Bool
every zero p = true
every (suc n) p = p n && every n p

every-at : (n : ℕ) (p : ℕ → Bool) (x : ℕ) → every n p ≡ true → x < n → p x ≡ true
unfolding every
every-at zero p x h below = absurd (omega arith)
every-at (suc n) p x h below = ground (arith, every-at n p x)

same_ℤ : ℤ → ℤ → Bool
same_ℤ a b = pos_part a + neg_part b == pos_part b + neg_part a

same_ℤ-eq : (a b : ℤ) → same_ℤ a b ≡ true → a ≡ b
unfolding same_ℤ
same_ℤ-eq a b h = eq_of_parts a b (ground arith)

abbrev pub negated : ℤ → ℤ
negated v = sub_ℕ (neg_part v) (pos_part v)

-- The µ-law of ITU-T G.711 by arithmetic: with v the complement of the byte, three bits of v are the
-- exponent e and four the mantissa m of the magnitude (8 m + 132) 2^e - 132, and the byte itself
-- has its first bit set (so v has not) for a positive value.
abbrev pub ulaw_reference : ℕ → ℤ
ulaw_reference w =
    let v = 255 - w in
    let mag = (8 * (v % 16) + 132) * 2 ^ (v / 16 % 8) - 132 in
    if ltb v 128 then pos mag else sub_ℕ 0 mag

ulaw_agrees : every 256 (λ w. same_ℤ (decode_ulaw w) (negated (ulaw_reference w))) ≡ true
unfolding every same_ℤ decode_ulaw wrap
ulaw_agrees = refl

-- On every byte `decodeUlaw`, with its table of offsets and its bit operations, has the magnitude of
-- the µ-law of ITU-T G.711 and the opposite sign: the waveform is decoded upside down.
pub decode_ulaw_lem : (w : ℕ) → w < 256 → decode_ulaw w ≡ negated (ulaw_reference w)
decode_ulaw_lem w below =
    same_ℤ-eq (decode_ulaw w) (negated (ulaw_reference w))
      (every-at 256 (λ x. same_ℤ (decode_ulaw x) (negated (ulaw_reference x))) w ulaw_agrees below)

-- The A-law of ITU-T G.711 by arithmetic, with v the byte after every second bit is toggled: the
-- magnitude is that of a line with 16 per step below 256, and doubles its step with each exponent.
abbrev pub alaw_reference : ℕ → ℤ
alaw_reference w =
    let v = bit_xor w 0x55 in
    let e = v / 16 % 8 in
    let mag =
      if e == 0 then 16 * (v % 16) + 8 else 2 ^ (e + 7) + 2 ^ (e + 3) * (v % 16) + 2 ^ (e + 2) in
    if ltb v 128 then sub_ℕ 0 mag else pos mag

alaw_agrees : every 256 (λ w. same_ℤ (decode_alaw w) (alaw_reference w)) ≡ true
unfolding every same_ℤ decode_alaw wrap
alaw_agrees = refl

-- On every byte `decodeAlaw` is the expansion of the A-law of ITU-T G.711, sign and magnitude.
pub decode_alaw_lem : (w : ℕ) → w < 256 → decode_alaw w ≡ alaw_reference w
decode_alaw_lem w below =
    same_ℤ-eq (decode_alaw w) (alaw_reference w)
      (every-at 256 (λ x. same_ℤ (decode_alaw x) (alaw_reference x)) w alaw_agrees below)

abbrev is_int16 : ℤ → Bool
is_int16 (pos n) = ltb n 32768
is_int16 (negsuc n) = ltb n 32768

ranges : (kind : G711Kind) → every 256 (λ w. is_int16 (table kind w)) ≡ true
unfolding every decode_ulaw decode_alaw wrap
ranges pcmu = refl
ranges pcma = refl

symmetric :
    (kind : G711Kind)
    → every 256 (λ w. same_ℤ (table kind (bit_xor w 0x80)) (negated (table kind w))) ≡ true
unfolding every same_ℤ decode_ulaw decode_alaw wrap
symmetric pcmu = refl
symmetric pcma = refl

is_int16-IsInt16 : (v : ℤ) → is_int16 v ≡ true → IsInt16 v
is_int16-IsInt16 (pos n) h = ground arith
is_int16-IsInt16 (negsuc n) h = ground arith

-- For both laws, a payload of bytes gives one sample per byte, each an int16, and toggling the
-- first bit of a byte negates its sample.
pub decode_lem :
    (d : G711Decoder) (payload : List ℕ)
    → All (λ b. b < 256) payload
    → (length (decode d payload) ≡ length payload)
      × All IsInt16 (decode d payload)
      × (decode d (map (λ b. bit_xor b 0x80) payload) ≡ map negated (decode d payload))
unfolding decode expand
decode_lem d [] bytes = (refl, tt, refl)
decode_lem d (b ∷ bs) bytes =
    let (size, fits, flips) = decode_lem d bs bytes.1 in
    (
      omega arith,
      (
        is_int16-IsInt16 (table d.kind b)
            (every-at 256 (λ w. is_int16 (table d.kind w)) b (ranges d.kind) bytes.0),
        fits,
      ),
      rw
          (
            flips,
            same_ℤ-eq (table d.kind (bit_xor b 0x80)) (negated (table d.kind b)) (
                every-at 256
                  (λ w. same_ℤ (table d.kind (bit_xor w 0x80)) (negated (table d.kind w))) b
                  (symmetric d.kind) bytes.0),
          )
          refl,
    )
