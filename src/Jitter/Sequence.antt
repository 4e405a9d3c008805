-- ===== src/Jitter/Sequence.antt =====
-- RTP sequence numbers, which wrap at 2 ^ 16 (internal/jitter/sequence.go).
use media_ai.Prelude.{ℕ, suc, ◌+◌, ◌-◌, ◌%◌, ◌<◌, ◌≡◌, ◌≢◌, ◌↔◌, ◌⊎◌, Bool, true, false, arith}
use media_ai.Prelude.Int.{ℤ, pos, negsuc, int16, wrap, ltb_ℤ}

-- int(int16(a - b)), where the subtraction is that of uint16: modulo 2 ^ 16
unfoldable pub seq_diff : ℕ → ℕ → ℤ
unfolding wrap
seq_diff a b = int16 (pos ((a + (65536 - b % 65536)) % 65536))

unfoldable pub seq_less : ℕ → ℕ → Bool
unfolding seq_diff
seq_less a b = ltb_ℤ (seq_diff a b) (pos 0)

pub seq_diff-zero : (a b : ℕ) → seq_diff a b ≡ pos 0 → a % 65536 ≡ b % 65536
unfolding seq_diff
seq_diff-zero a b h = ground arith

-- `seq_diff` recovers the distance by which a sequence number lies ahead of another, or behind it,
-- also where the 16 bits have wrapped in between: up to 32767 ahead and up to 32768 behind.
pub seq_diff_lem :
    (b k : ℕ)
    → b < 65536
    → (k < 32768 → seq_diff ((b + k) % 65536) b ≡ pos k)
      × (k < 32768 → seq_diff b ((b + suc k) % 65536) ≡ negsuc k)
unfolding seq_diff
seq_diff_lem b k h = (λ p. ground arith, λ p. ground arith)

-- Of two different sequence numbers each is less than the other exactly when they are 32768 apart;
-- at any other distance exactly one of them is less.
pub seq_less_cases :
    (a b : ℕ)
    → a < 65536
    → b < 65536
    → a ≢ b
    → (((seq_less a b ≡ true) × (seq_less b a ≡ true)) ↔ (((a + 32768) % 65536) ≡ b))
      × (((a + 32768) % 65536) ≢ b
          → ((seq_less a b ≡ true) × (seq_less b a ≡ false))
            ⊎ ((seq_less a b ≡ false) × (seq_less b a ≡ true)))
unfolding seq_less
seq_less_cases a b ha hb ne = ((λ h. ground arith, λ h. ground arith), λ h. ground arith)
