-- ===== src/Jitter/Buffer/Order.antt =====
-- The order in which the jitter buffer hands packets on (`Push`, `Run` and `flush` of
-- internal/jitter/buffer.go), over every interleaving of arrivals, ticks and reads.
use media_ai.Prelude.{
  ℕ, suc, ◌+◌, ◌%◌, ◌≤◌, ◌<◌, ◌⊎◌, ◌≡◌, refl, ap, ◌∙◌, sym, subst, inl, inr, true, false, some,
  List, [], ◌∷◌, ◌++◌, append_assoc, arith, ltb, Bool-cases, Option-cases,
}
use media_ai.Media.{MediaPacket}
use media_ai.Channel.{Chan, try_send}
use media_ai.Jitter.Sequence.{seq_diff, seq_diff-zero}
use media_ai.Prelude.Int.{ℤ, pos, negsuc, ltb_ℤ}
use media_ai.Jitter.Buffer.{
  HeapOps, FloatOps, Buffer, Entry, round, release, discard, declare_lost, advance, begin, flush,
  is_zero,
}
use media_ai.Jitter.Buffer.Rounds.{flush_rule}

-- The packets carry sequence numbers base + k with k rising from `lo` and below `hi`; counted
-- without the wrap at 2 ^ 16.
abbrev pub Ascending : ℕ → ℕ → ℕ → List MediaPacket → Type 0
Ascending base lo hi [] = lo ≤ hi
Ascending base lo hi (p ∷ ps) =
    (k : ℕ) × (lo ≤ k) × (p.sequence % 65536 ≡ (base + k) % 65536) × Ascending base (suc k) hi ps

Ascending-suc :
    (base lo hi : ℕ) (ps : List MediaPacket)
    → Ascending base lo hi ps
    → Ascending base lo (suc hi) ps
Ascending-suc base lo hi [] h = omega arith
Ascending-suc base lo hi (p ∷ ps) (k, above, same, rest) =
    (k, above, same, Ascending-suc base (suc k) hi ps rest)

Ascending-snoc :
    (base lo hi : ℕ) (ps : List MediaPacket) (p : MediaPacket)
    → p.sequence % 65536 ≡ (base + hi) % 65536
    → Ascending base lo hi ps
    → Ascending base lo (suc hi) (ps ++ p ∷ [])
Ascending-snoc base lo hi [] p e h = (hi, h, e, omega arith)
Ascending-snoc base lo hi (q ∷ ps) p e (k, above, same, rest) =
    (k, above, same, Ascending-snoc base (suc k) hi ps p e rest)

is_zero-eq : (z : ℤ) → is_zero z ≡ true → z ≡ pos 0
is_zero-eq (pos n) h = ground arith
is_zero-eq (negsuc n) h = ground arith

module _ (heap : HeapOps) (float : FloatOps) where
  open heap use {Heap, size, top, size-pop}
  open float use {Float}

  -- What was sent so far is ascending, and the expected number is the next one after it. The numbers passed so far and
  -- the packets in the heap are at most `k`.
  abbrev pub InStep : ℕ → List MediaPacket → Buffer Heap Float → Type 0
  InStep k sent b =
      (base : ℕ) × (n : ℕ) × Ascending base 0 n sent
      × (b.next_expected % 65536 ≡ (base + n) % 65536)
      × (n + size b.h ≤ k)

  abbrev pub IsOrdered : ℕ → List MediaPacket → Buffer Heap Float → Type 0
  IsOrdered k sent b =
      (b.next_set ≡ false → (sent ≡ []) × (size b.h ≤ k)) × (b.next_set ≡ true → InStep k sent b)

  -- In a flush, one number more may be passed, and after that the wait is not over.
  abbrev InFlush : ℕ → ℕ → List MediaPacket → Buffer Heap Float → Type 0
  InFlush k now sent b = InStep k sent b ⊎ (InStep (suc k) sent b × (now ≤ b.hold_until))

  -- What a round leaves: the wait is not over where it was not before, or it has passed one number more.
  abbrev AfterRound : ℕ → ℕ → List MediaPacket → Buffer Heap Float → Buffer Heap Float → Type 0
  AfterRound k now sent b b' =
      (InStep k sent b' × (now ≤ b.hold_until → now ≤ b'.hold_until))
      ⊎ (InStep (suc k) sent b' × (now ≤ b'.hold_until) × (b.hold_until < now))

  release-InStep :
      (k : ℕ) (taken : List MediaPacket) (now : ℕ) (e : Entry) (b : Buffer Heap Float)
      (out : Chan MediaPacket)
      → top b.h ≡ some e
      → e.pkt.sequence % 65536 ≡ b.next_expected % 65536
      → InStep k (taken ++ out.items) b
      → InStep k
          (taken ++ (release heap float now e.pkt b out).1.items)
          (release heap float now e.pkt b out).0
  unfolding release advance try_send
  release-InStep k taken now t b out found e (base, n, asc, next, room) =
      let p = t.pkt in
      let smaller = size-pop t b.h found in
      elim (Option-cases (try_send p out)) [
        | inl full ↦
            rw (full, release)
              (
                base,
                suc n,
                Ascending-suc base 0 n (taken ++ out.items) asc,
                omega arith,
                omega (arith, smaller),
              )
        | inr (out', sent) ↦
            let grown : out'.items ≡ out.items ++ p ∷ [] = ground arith in
            rw (sent, release)
              (
                base,
                suc n,
                subst (λ l. Ascending base 0 (suc n) l)
                    (sym (ap (λ l. taken ++ l) grown ∙ sym (append_assoc taken out.items (p ∷ []))))
                    (Ascending-snoc base 0 n (taken ++ out.items) p (e ∙ next) asc),
                omega arith,
                omega (arith, smaller),
              )
      ]

  release-hold_until :
      (now : ℕ) (p : MediaPacket) (b : Buffer Heap Float) (out : Chan MediaPacket)
      → now ≤ (release heap float now p b out).0.hold_until
  unfolding release advance
  release-hold_until now p b out = ground arith

  round-next_set :
      (now : ℕ) (e : Entry) (b : Buffer Heap Float) (out : Chan MediaPacket)
      → (round heap float now e b out).0.0.next_set ≡ b.next_set
  unfolding round release discard declare_lost advance
  round-next_set now e b out = ground arith

  round-AfterRound :
      (k : ℕ) (taken : List MediaPacket) (now : ℕ) (e : Entry) (b : Buffer Heap Float)
      (out : Chan MediaPacket)
      → top b.h ≡ some e
      → InStep k (taken ++ out.items) b
      → AfterRound k now
          (taken ++ (round heap float now e b out).0.1.items)
          b
          (round heap float now e b out).0.0
  unfolding round discard declare_lost advance
  round-AfterRound k taken now e b out found (base, n, asc, next, room) =
      let diff = seq_diff e.pkt.sequence b.next_expected in
      let smaller = size-pop e b.h found in
      elim (Bool-cases (is_zero diff)) [
        | inl same ↦
            rw (same, round)
              (inl (
                release-InStep k taken now e b out found
                    (seq_diff-zero e.pkt.sequence b.next_expected (is_zero-eq diff same))
                    (base, n, asc, next, room),
                λ h. release-hold_until now e.pkt b out,
              ))
        | inr other ↦ elim (Bool-cases (ltb_ℤ diff (pos 0))) [
          | inl old ↦
              rw (other, old, round) (inl ((base, n, asc, next, omega (arith, smaller)), λ h. h))
          | inr ahead ↦ elim (Bool-cases (ltb b.hold_until now)) [
            | inl over ↦
                rw (other, ahead, over, round)
                  (inr (
                    (
                      base,
                      suc n,
                      Ascending-suc base 0 n (taken ++ out.items) asc,
                      omega arith,
                      omega arith,
                    ),
                    omega arith,
                    ground arith,
                  ))
            | inr waits ↦ rw (other, ahead, waits, round) (inl ((base, n, asc, next, room), λ h. h))
          ]
        ]
      ]

  round-InFlush :
      (k : ℕ) (taken : List MediaPacket) (now : ℕ) (e : Entry) (b : Buffer Heap Float)
      (out : Chan MediaPacket)
      → top b.h ≡ some e
      → InFlush k now (taken ++ out.items) b
      → InFlush k now
          (taken ++ (round heap float now e b out).0.1.items)
          (round heap float now e b out).0.0
  round-InFlush k taken now e b out found (inl h) =
      elim (round-AfterRound k taken now e b out found h) [
        | inl (kept, waits) ↦ inl kept
        | inr (more, waits, was_over) ↦ inr (more, waits)
      ]
  round-InFlush k taken now e b out found (inr (h, waiting)) =
      elim (round-AfterRound (suc k) taken now e b out found h) [
        | inl (kept, waits) ↦ inr (kept, waits waiting)
        | inr (more, waits, was_over) ↦ absurd (omega arith)
      ]

  InStep-mono :
      (k m : ℕ) (sent : List MediaPacket) (b b' : Buffer Heap Float)
      → b'.next_expected ≡ b.next_expected
      → size b'.h + k ≤ size b.h + m
      → InStep k sent b
      → InStep m sent b'
  InStep-mono k m sent b b' same grows (base, n, asc, next, room) =
      (base, n, asc, ap (λ (x : ℕ). x % 65536) same ∙ next, omega arith)

  pub IsOrdered-mono :
      (k m : ℕ) (sent : List MediaPacket) (b b' : Buffer Heap Float)
      → b'.next_set ≡ b.next_set
      → b'.next_expected ≡ b.next_expected
      → size b'.h + k ≤ size b.h + m
      → IsOrdered k sent b
      → IsOrdered m sent b'
  IsOrdered-mono k m sent b b' set same grows h = (
    λ unset. ((h.0 (sym set ∙ unset)).0, omega (arith, (h.0 (sym set ∙ unset)).1)),
    λ is_set. InStep-mono k m sent b b' same grows (h.1 (sym set ∙ is_set)),
  )

  InFlush-InStep :
      (k now : ℕ) (sent : List MediaPacket) (b : Buffer Heap Float)
      → InFlush k now sent b
      → InStep (suc k) sent b
  InFlush-InStep k now sent b (inl h) = InStep-mono k (suc k) sent b b refl (omega arith) h
  InFlush-InStep k now sent b (inr (h, waiting)) = h

  pub flush-IsOrdered :
      (k : ℕ) (taken : List MediaPacket) (now : ℕ) (b : Buffer Heap Float) (out : Chan MediaPacket)
      (r : Buffer Heap Float × Chan MediaPacket)
      → flush heap float now b out ≡ some r
      → IsOrdered k (taken ++ out.items) b
      → IsOrdered (suc k) (taken ++ r.1.items) r.0
  unfolding begin
  flush-IsOrdered k taken now b out r e h =
      flush_rule heap float
        (λ b' out'. (b'.next_set ≡ true) × InFlush k now (taken ++ out'.items) b')
        (λ b' out'. IsOrdered (suc k) (taken ++ out'.items) b') now
        (λ t b' out' found p.
          (round-next_set now t b' out' ∙ p.0, round-InFlush k taken now t b' out' found p.1))
        (λ b' out' p. (
          λ unset. absurd (ground arith),
          λ set. InFlush-InStep k now (taken ++ out'.items) b' p.1,
        ))
        b out r (λ set. (set, inl (h.1 set)))
        (λ t found unset.
          let (none_sent, room) = h.0 unset in
          rw (found, begin)
            (
              refl,
              inl (
                t.pkt.sequence,
                0,
                subst (λ l. Ascending t.pkt.sequence 0 0 l) (sym none_sent) (omega arith),
                omega arith,
                omega arith,
              ),
            ))
        (IsOrdered-mono k (suc k) (taken ++ out.items) b b refl refl (omega arith) h) e
