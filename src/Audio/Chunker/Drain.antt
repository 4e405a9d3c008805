-- ===== src/Audio/Chunker/Drain.antt =====
-- What a call of `Push` cuts off (internal/audio/chunker.go).
use media_ai.Prelude.{
  ℕ, zero, suc, ◌+◌, ◌-◌, ◌*◌, ◌≤◌, ◌<◌, ◌≡◌, refl, ap, ◌∙◌, sym, subst, inl, inr, List, [], ◌∷◌,
  ◌++◌, append_assoc, append-nil, arith, ltb, leb, ◌==◌, Bool-cases, leb→le, ltb→lt, length-eq-zero,
  length, take, drop, take-append-drop, length-take, length-drop, length-append, All, if◌then◌else◌,
  ok,
}
use media_ai.Prelude.Int.{ℤ}
use media_ai.Audio.Pcm.{int16_to_s16le}
use media_ai.Audio.Pcm.Coding.{length-int16_to_s16le, int16_to_s16le-append}
use media_ai.Audio.Chunker.{
  Chunk, Chunker, ChunkerConfig, chunk_of, emit, consume, drain, append_samples, push_within, push,
}

-- The chunker can cut: a chunk has a sample, and the buffer holds less than a chunk.
pub record IsReady (c : Chunker) : Type 0 where
  pub cuts : 0 < c.chunk_samps
  pub has_rate : 0 < c.cfg.sample_rate
  pub short : length c.buf < c.chunk_samps

abbrev pub joined : List Chunk → List ℕ
joined [] = []
joined (k ∷ ks) = k.pcm ++ joined ks

-- `c'` and the chunks `ks` are what `c` is cut into.
pub record IsCut (c c' : Chunker) (ks : List Chunk) : Type 0 where
  pub same_cfg : c'.cfg ≡ c.cfg
  pub same_samps : c'.chunk_samps ≡ c.chunk_samps
  pub short : length c'.buf < c.chunk_samps
  pub full : All (λ (k : Chunk). length k.pcm ≡ 2 * c.chunk_samps) ks
  pub bytes : joined ks ++ int16_to_s16le c'.buf ≡ int16_to_s16le c.buf
  pub samples : length ks * c.chunk_samps + length c'.buf ≡ length c.buf

pub emit-ok :
    (samples : List ℤ) (c : Chunker)
    → 0 < c.cfg.sample_rate
    → emit samples c ≡ ok (chunk_of samples c)
unfolding emit
emit-ok samples c h = ground arith

consume-buf :
    (old_count rtp_ts : ℕ) (c : Chunker)
    → (consume old_count rtp_ts c).buf ≡ drop c.chunk_samps c.buf
unfolding consume
consume-buf old_count rtp_ts c = refl

-- Cutting one chunk off and the rest after it is cutting the whole.
consume-IsCut :
    (old_count rtp_ts : ℕ) (c c' : Chunker) (ks : List Chunk)
    → c.chunk_samps ≤ length c.buf
    → IsCut (consume old_count rtp_ts c) c' ks
    → IsCut c c' (chunk_of (take c.chunk_samps c.buf) c ∷ ks)
unfolding consume chunk_of
consume-IsCut old_count rtp_ts c c' ks enough cut = record {
  same_cfg = cut.same_cfg;
  same_samps = cut.same_samps;
  short = cut.short;
  full = (length-int16_to_s16le front ∙ omega (arith, length-take c.chunk_samps c.buf), cut.full);
  bytes =
      append_assoc (int16_to_s16le front) (joined ks) (int16_to_s16le c'.buf)
      ∙ ap (λ l. int16_to_s16le front ++ l) cut.bytes
      ∙ sym (int16_to_s16le-append front (drop c.chunk_samps c.buf))
      ∙ ap int16_to_s16le (take-append-drop c.chunk_samps c.buf);
  samples = omega (arith, cut.samples, length-drop c.chunk_samps c.buf);
}
  where
    front : List ℤ
    front = take c.chunk_samps c.buf

-- The first chunk carries `first`, the others carry `rtp_ts`, and so does what follows them.
abbrev pub Stamped : ℕ → ℕ → Chunker → List Chunk → Type 0
Stamped rtp_ts first c' [] = c'.cur_rtp_ts ≡ first
Stamped rtp_ts first c' (k ∷ ks) =
    (k.rtp_timestamp ≡ first)
    × All (λ (j : Chunk). j.rtp_timestamp ≡ rtp_ts) ks
    × (c'.cur_rtp_ts ≡ rtp_ts)

Stamped-All :
    (rtp_ts : ℕ) (c' : Chunker) (ks : List Chunk)
    → Stamped rtp_ts rtp_ts c' ks
    → All (λ (j : Chunk). j.rtp_timestamp ≡ rtp_ts) ks × (c'.cur_rtp_ts ≡ rtp_ts)
Stamped-All rtp_ts c' [] h = (tt, h)
Stamped-All rtp_ts c' (k ∷ ks) h = ((h.0, h.1), h.2)

consume-stamp :
    (old_count rtp_ts : ℕ) (c : Chunker)
    → old_count ≤ c.chunk_samps
    → (old_count ≡ 0 → c.cur_rtp_ts ≡ rtp_ts)
    → (consume old_count rtp_ts c).cur_rtp_ts ≡ rtp_ts
unfolding consume
consume-stamp old_count rtp_ts c within fresh = ground (arith, fresh)

pub drain_cuts :
    (fuel old_count rtp_ts : ℕ) (c : Chunker)
    → 0 < c.chunk_samps
    → 0 < c.cfg.sample_rate
    → length c.buf < fuel
    → old_count ≤ c.chunk_samps
    → (old_count ≡ 0 → c.cur_rtp_ts ≡ rtp_ts)
    → (c' : Chunker) × (ks : List Chunk) × (drain fuel old_count rtp_ts c ≡ ok (c', ks))
      × IsCut c c' ks
      × Stamped rtp_ts c.cur_rtp_ts c' ks
unfolding drain consume chunk_of
drain_cuts zero old_count rtp_ts c cuts rate enough within fresh = absurd (omega arith)
drain_cuts (suc fuel) old_count rtp_ts c cuts rate enough within fresh =
    elim (Bool-cases (leb c.chunk_samps (length c.buf))) [
      | inr less ↦ (
        c,
        [],
        rw (less, drain) refl,
        record {
          same_cfg = refl;
          same_samps = refl;
          short = ground arith;
          full = tt;
          bytes = refl;
          samples = omega arith;
        },
        refl,
      )
      | inl more ↦
          let c₁ = consume old_count rtp_ts c in
          let stamp = consume-stamp old_count rtp_ts c within fresh in
          let (c', ks, ran, cut, stamped) =
            drain_cuts fuel (old_count - c.chunk_samps) rtp_ts c₁ cuts rate
              (omega (arith, length-drop c.chunk_samps c.buf, leb→le _ _ more)) (omega arith)
              (λ e. stamp) in
          let (all_new, cur) =
            Stamped-All rtp_ts c' ks (subst (λ x. Stamped rtp_ts x c' ks) stamp stamped) in
          (
            c',
            chunk_of (take c.chunk_samps c.buf) c ∷ ks,
            rw (more, emit-ok (take c.chunk_samps c.buf) c rate, ran, drain) refl,
            consume-IsCut old_count rtp_ts c c' ks (leb→le _ _ more) cut,
            (refl, all_new, cur),
          )
    ]

-- The whole of a `Push`: what it returns, cut from the old buffer and the new samples.
pub push_total :
    (pcm : List ℤ) (rtp_ts : ℕ) (c : Chunker)
    → IsReady c
    → (c' : Chunker) × (ks : List Chunk) × (push pcm rtp_ts c ≡ ok (c', ks))
      × IsCut (record c { buf = c.buf ++ pcm }) c' ks
      × (0 < length pcm → Stamped rtp_ts (if length c.buf == 0 then rtp_ts else c.cur_rtp_ts) c' ks)
unfolding push push_within append_samples
push_total pcm rtp_ts c ready = elim (Bool-cases (length pcm == 0)) [
  | inl none_new ↦
      let no_new = length-eq-zero pcm (ground arith) in
      let same : c.buf ++ pcm ≡ c.buf = ap (λ l. c.buf ++ l) no_new ∙ append-nil c.buf in
      (
        c,
        [],
        rw none_new refl,
        record {
          same_cfg = refl;
          same_samps = refl;
          short = ready.short;
          full = tt;
          bytes = ap int16_to_s16le (sym same);
          samples = omega (arith, ap (λ (l : List ℤ). length l) same);
        },
        λ h. absurd (ground arith),
      )
  | inr some_new ↦
      let c₀ = append_samples pcm rtp_ts c in
      elim (Bool-cases (ltb (length c₀.buf) c₀.chunk_samps)) [
        | inl less ↦ (
          c₀,
          [],
          rw (some_new, less) refl,
          record {
            same_cfg = refl;
            same_samps = refl;
            short = ltb→lt _ _ less;
            full = tt;
            bytes = refl;
            samples = omega arith;
          },
          λ h. refl,
        )
        | inr enough ↦
            let (c', ks, ran, cut, stamped) =
              drain_cuts (length c.buf + length pcm + 1) (length c.buf) rtp_ts c₀ ready.cuts
                ready.has_rate (omega (arith, length-append c.buf pcm)) (omega (arith, ready.short))
                (λ e. ground arith) in
            (
              c',
              ks,
              rw (some_new, enough) ran,
              record {
                same_cfg = cut.same_cfg;
                same_samps = cut.same_samps;
                short = cut.short;
                full = cut.full;
                bytes = cut.bytes;
                samples = cut.samples;
              },
              λ h. stamped,
            )
      ]
]

-- On a chunker that can cut, `Push` returns: its loop ends within the buffered samples plus one.
-- Each chunk is full, what stays is less than a chunk, so the next call can cut too, and the
-- bytes of the chunks and of what stays are those of the old buffer and the new samples, in order.
pub push_cuts :
    (pcm : List ℤ) (rtp_ts : ℕ) (c : Chunker)
    → IsReady c
    → (c' : Chunker) × (ks : List Chunk) × (push pcm rtp_ts c ≡ ok (c', ks))
      × IsReady c'
      × All (λ (k : Chunk). length k.pcm ≡ 2 * c.chunk_samps) ks
      × (joined ks ++ int16_to_s16le c'.buf ≡ int16_to_s16le (c.buf ++ pcm))
push_cuts pcm rtp_ts c ready =
    let (c', ks, ran, cut, stamped) = push_total pcm rtp_ts c ready in
    (
      c',
      ks,
      ran,
      record {
        cuts = omega (arith, cut.same_samps, ready.cuts);
        has_rate =
            subst (λ (x : ChunkerConfig). 0 < x.sample_rate) (sym cut.same_cfg) ready.has_rate;
        short = omega (arith, cut.same_samps, cut.short);
      },
      cut.full,
      cut.bytes,
    )
