-- ===== src/Jitter/Buffer/Rounds.antt =====
-- The release loop of the jitter buffer (`flush`, internal/jitter/buffer.go): it ends, and what each
-- round keeps holds at its end.
use media_ai.Prelude.{
  ℕ, zero, suc, ◌+◌, ◌*◌, ◌<◌, ◌≡◌, refl, subst, not, ◌||◌, ◌==◌, inl, inr, true, false, some,
  arith, ltb, Bool-cases, Option-cases, if◌then◌else◌,
}
use media_ai.Media.{MediaPacket}
use media_ai.Channel.{Chan}
use media_ai.Jitter.Buffer.{
  HeapOps, FloatOps, Buffer, Entry, round, release, discard, declare_lost, advance, release_loop,
  begin, fuel_for, flush, ms,
}

module _ (heap : HeapOps) (float : FloatOps) where
  open heap use {Heap, size, top, size-pop, top-none}
  open float use {Float}

  -- 1 while the wait for the expected packet is over.
  abbrev overdue : ℕ → Buffer Heap Float → ℕ
  overdue now b = if ltb b.hold_until now then 1 else 0

  abbrev work : ℕ → Buffer Heap Float → ℕ
  work now b = 2 * size b.h + overdue now b

  round-work :
      (now : ℕ) (e : Entry) (b : Buffer Heap Float) (out : Chan MediaPacket)
      → top b.h ≡ some e
      → (round heap float now e b out).1 ≡ true
      → work now (round heap float now e b out).0.0 < work now b
  unfolding round release discard declare_lost advance
  round-work now e b out h goes_on = ground (arith, size-pop e b.h)

  pub release_loop_total :
      (fuel now : ℕ) (b : Buffer Heap Float) (out : Chan MediaPacket)
      → work now b < fuel
      → (r : Buffer Heap Float × Chan MediaPacket) × (release_loop heap float fuel now b out
          ≡ some r)
  unfolding release_loop
  release_loop_total zero now b out h = absurd (omega arith)
  release_loop_total (suc fuel) now b out h = elim (Option-cases (top b.h)) [
    | inl empty ↦ ((b, out), rw (empty, release_loop) refl)
    | inr (e, found) ↦
        let next = round heap float now e b out in
        elim (Bool-cases next.1) [
          | inl goes_on ↦
              rw (found, goes_on, release_loop)
                (release_loop_total fuel now next.0.0 next.0.1
                  (omega (arith, round-work now e b out found goes_on)))
          | inr stops ↦ (next.0, rw (found, stops, release_loop) refl)
        ]
  ]

  pub release_loop_keeps {κ} :
      (P : Buffer Heap Float → Chan MediaPacket → Type κ) (now : ℕ)
      → ((e : Entry) (b : Buffer Heap Float) (out : Chan MediaPacket)
          → top b.h ≡ some e
          → P b out
          → P (round heap float now e b out).0.0 (round heap float now e b out).0.1)
      → (fuel : ℕ) (b : Buffer Heap Float) (out : Chan MediaPacket)
        (r : Buffer Heap Float × Chan MediaPacket)
      → release_loop heap float fuel now b out ≡ some r
      → P b out
      → P r.0 r.1
  unfolding release_loop
  release_loop_keeps P now keep zero b out r e p = absurd (ground arith)
  release_loop_keeps P now keep (suc fuel) b out r e p = elim (Option-cases (top b.h)) [
    | inl empty ↦
        let same : some (b, out) ≡ some r = rw (empty, release_loop) at e in
        subst (λ (x : Buffer Heap Float × Chan MediaPacket). P x.0 x.1) (ground arith) p
    | inr (t, found) ↦
        let next = round heap float now t b out in
        let kept = keep t b out found p in
        elim (Bool-cases next.1) [
          | inl goes_on ↦
              release_loop_keeps P now keep fuel next.0.0 next.0.1 r
                (rw (found, goes_on, release_loop) at e) kept
          | inr stops ↦
              let same : some next.0 ≡ some r = rw (found, stops, release_loop) at e in
              subst (λ (x : Buffer Heap Float × Chan MediaPacket). P x.0 x.1) (ground arith) kept
        ]
  ]

  begin-work :
      (now : ℕ) (b : Buffer Heap Float) → work now (begin heap float now b) < fuel_for heap float b
  unfolding begin
  begin-work now b = ground arith

  -- A flush always ends: the fuel that it is given, twice the number of buffered packets and two
  -- more, is enough for its loop.
  pub flush_total :
      (now : ℕ) (b : Buffer Heap Float) (out : Chan MediaPacket)
      → (r : Buffer Heap Float × Chan MediaPacket) × (flush heap float now b out ≡ some r)
  unfolding flush
  flush_total now b out = elim (Bool-cases (not b.started || size b.h == 0)) [
    | inl idle ↦ ((b, out), rw idle refl)
    | inr busy ↦ elim (Bool-cases b.next_set) [
      | inl set ↦
          simp (busy, set) (release_loop_total (fuel_for heap float b) now b out (ground arith))
      | inr unset ↦ elim (Bool-cases (ltb now (b.first_at + ms b.cfg.buffer_ms))) [
        | inl early ↦ ((b, out), simp (busy, unset, early) refl)
        | inr due ↦
            simp (busy, unset, due)
              (release_loop_total (fuel_for heap float b) now (begin heap float now b) out
                (begin-work now b))
      ]
    ]
  ]

  -- The rule for a flush: `P` holds when its loop starts and is kept by each round, and `Q` holds
  -- where the loop is not run and follows from `P` where it is.
  pub flush_rule {κ} :
      (P Q : Buffer Heap Float → Chan MediaPacket → Type κ) (now : ℕ)
      → ((e : Entry) (b : Buffer Heap Float) (out : Chan MediaPacket)
          → top b.h ≡ some e
          → P b out
          → P (round heap float now e b out).0.0 (round heap float now e b out).0.1)
      → ((b : Buffer Heap Float) (out : Chan MediaPacket) → P b out → Q b out)
      → (b : Buffer Heap Float) (out : Chan MediaPacket) (r : Buffer Heap Float × Chan MediaPacket)
      → (b.next_set ≡ true → P b out)
      → ((e : Entry) → top b.h ≡ some e → b.next_set ≡ false → P (begin heap float now b) out)
      → Q b out
      → flush heap float now b out ≡ some r
      → Q r.0 r.1
  unfolding flush
  flush_rule P Q now keep finish b out r set_start start q e =
      elim (Bool-cases (not b.started || size b.h == 0)) [
        | inl idle ↦ unmoved (rw idle at e)
        | inr busy ↦ elim (Bool-cases b.next_set) [
          | inl set ↦ finish r.0 r.1 (
              release_loop_keeps P now keep (fuel_for heap float b) b out r (simp (busy, set) at e)
                (set_start set))
          | inr unset ↦ elim (Bool-cases (ltb now (b.first_at + ms b.cfg.buffer_ms))) [
            | inl early ↦ unmoved (simp (busy, unset, early) at e)
            | inr due ↦ elim (Option-cases (top b.h)) [
              | inl empty ↦ absurd (ground (arith, top-none b.h))
              | inr (t, found) ↦ finish r.0 r.1 (
                  release_loop_keeps P now keep (fuel_for heap float b) (begin heap float now b) out
                    r (simp (busy, unset, due) at e) (start t found unset))
            ]
          ]
        ]
      ]
    where
      unmoved : some (b, out) ≡ some r → Q r.0 r.1
      unmoved same =
          subst (λ (x : Buffer Heap Float × Chan MediaPacket). Q x.0 x.1) (ground arith) q
