-- ===== src/Pipeline/Chain/Stream.antt =====
-- A stream of packets through the chain (internal/pipeline/audio_pipeline.go).
use media_ai.Prelude.{
  if_not, ℕ, ◌+◌, ◌*◌, ◌<◌, ◌≡◌, ◌==◌, refl, sym, ap, ◌∙◌, subst, if◌then◌else◌, inl, inr, Bool,
  true, false, Option, none, some, List, [], ◌∷◌, ◌++◌, append_assoc, append-nil, map, length,
  length-append, Result, ok, ◌>>=◌, Fault, arith, Bool-cases, Option-cases,
}
use media_ai.Prelude.Int.{ℤ}
use media_ai.Media.{MediaPacket, AudioChunk}
use media_ai.Audio.Pcm.{int16_to_s16le}
use media_ai.Audio.Pcm.Coding.{int16_to_s16le-append}
use media_ai.Audio.Resampler.{Resampler, resample, to_mono}
use media_ai.Audio.Resampler.Phase.{linear_resample_phase}
use media_ai.Audio.Chunker.{Chunk}
use media_ai.Audio.Chunker.Drain.{IsReady, joined, push_cuts}
use media_ai.Pipeline.Chain.{Chain, Decoder, audio_chunk, cut, process}

-- The resampler takes mono input, and its phase is carried, or 0 where the rates are the same.
pub record IsAligned (r : Resampler) : Type 0 where
  pub mono : r.in_ch ≡ 1
  pub rate : 0 < r.in_rate
  pub within : r.phase_num < r.in_rate
  pub at_start : r.in_rate ≡ r.out_rate → r.phase_num ≡ 0

pub resample-IsAligned :
    (pcm : List ℤ) (r : Resampler)
    → IsAligned r
    → 0 < length pcm
    → (r' : Resampler) × (out : List ℤ) × (resample pcm r ≡ ok (r', out))
      × IsAligned r'
      × (r'.in_rate ≡ r.in_rate)
      × (r'.out_rate ≡ r.out_rate)
      × (r.phase_num + length out * r.in_rate ≡ length pcm * r.out_rate + r'.phase_num)
unfolding resample to_mono
resample-IsAligned pcm r aligned some_in = elim (Bool-cases (r.in_rate == r.out_rate)) [
  | inr differ ↦
      let (r', out, ran, rate, ch, out_rate, within, count) =
        linear_resample_phase pcm r aligned.mono aligned.rate (ground arith) aligned.within
          some_in in
      (
        r',
        out,
        ran,
        record {
          mono = omega (arith, ch, aligned.mono);
          rate = omega (arith, rate, aligned.rate);
          within = omega (arith, rate, within);
          at_start = λ e. absurd (ground arith);
        },
        rate,
        out_rate,
        count,
      )
  | inl same ↦
      let given : (length pcm == 0) ≡ false = ground arith in
      let is_mono : (r.in_ch == 1) ≡ true = ground (arith, aligned.mono) in
      let rates : r.in_rate ≡ r.out_rate = ground arith in
      (
        record r { phase_num = 0 },
        pcm,
        rw (given, is_mono) (rw same refl),
        record {
          mono = aligned.mono;
          rate = aligned.rate;
          within = aligned.rate;
          at_start = λ e. refl;
        },
        refl,
        refl,
        omega (arith, aligned.at_start rates, ap (λ (t : ℕ). length pcm * t) rates),
      )
]

-- The chain works: its context is not done, and its parts can go on.
pub record IsLive {D : Type 0} (sp : Chain D) : Type 0 where
  pub open_context : sp.done ≡ false
  pub aligned : IsAligned sp.resampler
  pub ready : IsReady sp.chunker

abbrev pub pcm_of : List AudioChunk → List ℕ
pcm_of [] = []
pcm_of (k ∷ ks) = k.pcm ++ pcm_of ks

pcm_of-audio_chunk : (ks : List Chunk) → pcm_of (map (audio_chunk false) ks) ≡ joined ks
unfolding audio_chunk
pcm_of-audio_chunk [] = refl
pcm_of-audio_chunk (k ∷ ks) = rw (pcm_of-audio_chunk ks) refl

pcm_of-append : (ks ls : List AudioChunk) → pcm_of (ks ++ ls) ≡ pcm_of ks ++ pcm_of ls
pcm_of-append [] ls = refl
pcm_of-append (k ∷ ks) ls =
    rw (pcm_of-append ks ls) (sym (append_assoc k.pcm (pcm_of ks) (pcm_of ls)))

abbrev pub total : List (List ℤ) → ℕ
total [] = 0
total (pcm ∷ blocks) = length pcm + total blocks

total-append : (bs cs : List (List ℤ)) → total (bs ++ cs) ≡ total bs + total cs
total-append [] cs = omega arith
total-append (b ∷ bs) cs = omega (arith, total-append bs cs)

-- The resampler takes the blocks one after the other, from `r` to `r'`, and yields `out`.
abbrev pub ResampledTo : List (List ℤ) → Resampler → Resampler → List ℤ → Type 0
ResampledTo [] r r' out = (r' ≡ r) × (out ≡ [])
ResampledTo (pcm ∷ blocks) r r' out =
    (x : Resampler) × (y : List ℤ) × (z : List ℤ) × (resample pcm r ≡ ok (x, y))
    × ResampledTo blocks x r' z
    × (out ≡ y ++ z)

ResampledTo-append :
    (bs cs : List (List ℤ)) (r r' after : Resampler) (out new : List ℤ)
    → ResampledTo bs r r' out
    → ResampledTo cs r' after new
    → ResampledTo (bs ++ cs) r after (out ++ new)
ResampledTo-append [] cs r r' after out new (same, nothing) k =
    subst (λ (x : Resampler). ResampledTo cs x after (out ++ new)) same
      (subst (ResampledTo cs r' after) (ap (λ l. l ++ new) (sym nothing)) k)
ResampledTo-append (b ∷ bs) cs r r' after out new (x, y, z, ran, rest, split) k = (
  x,
  y,
  z ++ new,
  ran,
  ResampledTo-append bs cs x r' after z new rest k,
  ap (λ l. l ++ new) split ∙ append_assoc y z new,
)

-- `sp'` and the chunks are what `sp` makes of the blocks of decoded samples, which are resampled to `out`.
pub record IsMade {D : Type 0} (blocks : List (List ℤ)) (out : List ℤ) (sp sp' : Chain D)
    (chunks : List AudioChunk) : Type 0 where
  pub live : IsLive sp'
  pub resampled : ResampledTo blocks sp.resampler sp'.resampler out
  pub same_rate : sp'.resampler.in_rate ≡ sp.resampler.in_rate
  pub same_out_rate : sp'.resampler.out_rate ≡ sp.resampler.out_rate
  pub bytes :
      pcm_of chunks ++ int16_to_s16le sp'.chunker.buf ≡ int16_to_s16le (sp.chunker.buf ++ out)
  pub counted :
      sp.resampler.phase_num + length out * sp.resampler.in_rate
      ≡ total blocks * sp.resampler.out_rate + sp'.resampler.phase_num

-- A packet that yields no samples changes the decoder alone.
skip-IsMade :
    {D : Type 0} (state : D) (sp : Chain D)
    → IsLive sp
    → IsMade [] [] sp (record sp { decoder = record sp.decoder { state = state } }) []
skip-IsMade state sp live = record {
  live = record { open_context = live.open_context; aligned = live.aligned; ready = live.ready };
  resampled = (refl, refl);
  same_rate = refl;
  same_out_rate = refl;
  bytes = sym (ap int16_to_s16le (append-nil sp.chunker.buf));
  counted = omega arith;
}

IsMade-trans :
    {D : Type 0} {n m : List (List ℤ)} {out new : List ℤ} {sp sp' after : Chain D}
    {chunks more : List AudioChunk}
    → IsMade n out sp sp' chunks
    → IsMade m new sp' after more
    → IsMade (n ++ m) (out ++ new) sp after (chunks ++ more)
IsMade-trans {n} {m} {out} {new} {sp} {sp'} {after} {chunks} {more} made made_then = record {
  live = made_then.live;
  resampled =
      ResampledTo-append n m sp.resampler sp'.resampler after.resampler out new made.resampled
        made_then.resampled;
  same_rate = made_then.same_rate ∙ made.same_rate;
  same_out_rate = made_then.same_out_rate ∙ made.same_out_rate;
  bytes =
      ap (λ (l : List ℕ). l ++ int16_to_s16le after.chunker.buf) (pcm_of-append chunks more)
      ∙ append_assoc (pcm_of chunks) (pcm_of more) (int16_to_s16le after.chunker.buf)
      ∙ ap (λ (l : List ℕ). pcm_of chunks ++ l)
          (made_then.bytes ∙ int16_to_s16le-append sp'.chunker.buf new)
      ∙ sym (append_assoc (pcm_of chunks) (int16_to_s16le sp'.chunker.buf) (int16_to_s16le new))
      ∙ ap (λ (l : List ℕ). l ++ int16_to_s16le new) made.bytes
      ∙ sym (int16_to_s16le-append (sp.chunker.buf ++ out) new)
      ∙ ap int16_to_s16le (append_assoc sp.chunker.buf out new);
  counted = omega (
    arith,
    ap (λ (t : ℕ). t * sp.resampler.in_rate) (length-append out new),
    ap (λ (t : ℕ). t * sp.resampler.out_rate) (total-append n m),
    made.counted,
    rw (made.same_rate, made.same_out_rate) at made_then.counted,
  );
}

module _ {D : Type 0} (decode : D → List ℕ → D × Option (List ℤ)) where
  cut-IsMade :
      (pcm : List ℤ) (rtp_ts : ℕ) (sp : Chain D)
      → IsLive sp
      → 0 < length pcm
      → (sp' : Chain D) × (chunks : List AudioChunk) × (out : List ℤ) × (cut decode none pcm rtp_ts
            sp
          ≡ ok (sp', chunks))
        × IsMade (pcm ∷ []) out sp sp' chunks
        × (sp'.decoder ≡ sp.decoder)
  unfolding cut
  cut-IsMade pcm rtp_ts sp live some_in =
      let (r', out, resampled, aligned, rate, out_rate, count) =
        resample-IsAligned pcm sp.resampler live.aligned some_in in
      let (c', ks, pushed, ready, full, bytes) = push_cuts out rtp_ts sp.chunker live.ready in
      (
        record sp { resampler = r'; chunker = c' },
        map (audio_chunk false) ks,
        out,
        rw (resampled, pushed) refl,
        record {
          live = record { open_context = live.open_context; aligned = aligned; ready = ready };
          resampled = (r', out, [], resampled, (refl, refl), sym (append-nil out));
          same_rate = rate;
          same_out_rate = out_rate;
          bytes = ap (λ l. l ++ int16_to_s16le c'.buf) (pcm_of-audio_chunk ks) ∙ bytes;
          counted = count ∙ ap (λ (t : ℕ). t * sp.resampler.out_rate + r'.phase_num) (omega arith);
        },
        refl,
      )

  -- The block of samples that the chain's decoder finds in a packet, none where it fails or finds no samples.
  abbrev pub block_of : D → MediaPacket → List (List ℤ)
  block_of state pkt = elim (decode state pkt.payload).1 [
    | none ↦ []
    | some pcm ↦ if length pcm == 0 then [] else pcm ∷ []
  ]

  process-IsMade :
      (pkt : MediaPacket) (sp : Chain D)
      → IsLive sp
      → (sp' : Chain D) × (chunks : List AudioChunk) × (good : Bool) × (out : List ℤ) × (process
            decode none pkt sp
          ≡ ok (sp', chunks, good))
        × IsMade (block_of sp.decoder.state pkt) out sp sp' chunks
        × (sp'.decoder.state ≡ (decode sp.decoder.state pkt.payload).0)
  unfolding process
  process-IsMade pkt sp live =
      let state = (decode sp.decoder.state pkt.payload).0 in
      let sp' : Chain D = record sp { decoder = record sp.decoder { state = state } } in
      let working = live.open_context in
      let unmade = skip-IsMade state sp live in
      elim (Option-cases (decode sp.decoder.state pkt.payload).1) [
        | inl failed ↦ (
          sp',
          [],
          false,
          [],
          if_not _ working ∙ rw failed refl,
          rw (failed, block_of) unmade,
          refl,
        )
        | inr (pcm, decoded) ↦ elim (Bool-cases (length pcm == 0)) [
          | inl silent ↦ (
            sp',
            [],
            true,
            [],
            if_not _ working ∙ rw (decoded, silent) refl,
            rw (decoded, silent, block_of) unmade,
            refl,
          )
          | inr heard ↦
              let (after, chunks, out, ran, made, kept) =
                cut-IsMade pcm pkt.timestamp sp' unmade.live (ground arith) in
              (
                after,
                chunks,
                true,
                out,
                if_not _ working ∙ rw (decoded, heard, ran) refl,
                rw (decoded, heard, block_of)
                    (record {
                      live = made.live;
                      resampled = made.resampled;
                      same_rate = made.same_rate;
                      same_out_rate = made.same_out_rate;
                      bytes = made.bytes;
                      counted = made.counted;
                    }),
                ap (λ (d : Decoder D). d.state) kept,
              )
        ]
      ]

  -- A list of packets one after the other: the chain, and all that it has sent.
  unfoldable pub process_all : List MediaPacket → Chain D → Result Fault (Chain D × List AudioChunk)
  process_all [] sp = ok (sp, [])
  process_all (pkt ∷ pkts) sp =
      process decode none pkt sp >>= λ r. process_all pkts r.0 >>= λ q. ok (q.0, r.1 ++ q.1)

  -- The blocks of samples that the decoder makes of a list of packets.
  abbrev pub decoded : D → List MediaPacket → List (List ℤ)
  decoded state [] = []
  decoded state (pkt ∷ pkts) = block_of state pkt ++ decoded (decode state pkt.payload).0 pkts

  -- A chain whose context stays open, whose decoder is mono, whose input rate is not 0, whose phase is below the input
  -- rate, and 0 where the rates are the same, and whose chunker can cut takes any packets one after the other without a
  -- panic, and is again such a chain. The bytes that it has sent and those of the samples left in its buffer are, in order,
  -- the bytes of what was in its buffer and of `out`, which is what the resampler makes of the blocks of samples decoded
  -- from the packets, one after the other; its rates stay, and the phase before plus the length of `out` times the input
  -- rate is the number of samples decoded times the output rate, plus the phase after.
  pub process_all_stream :
      (pkts : List MediaPacket) (sp : Chain D)
      → IsLive sp
      → (sp' : Chain D) × (chunks : List AudioChunk) × (out : List ℤ) × (process_all pkts sp
          ≡ ok (sp', chunks))
        × IsMade (decoded sp.decoder.state pkts) out sp sp' chunks
  unfolding process_all
  process_all_stream [] sp live = (
    sp,
    [],
    [],
    refl,
    record {
      live = live;
      resampled = (refl, refl);
      same_rate = refl;
      same_out_rate = refl;
      bytes = sym (ap int16_to_s16le (append-nil sp.chunker.buf));
      counted = omega arith;
    },
  )
  process_all_stream (pkt ∷ pkts) sp live =
      let (sp', chunks, good, out, ran, made, state) = process-IsMade pkt sp live in
      let (after, more, new, ran_all, made_all) = process_all_stream pkts sp' made.live in
      (
        after,
        chunks ++ more,
        out ++ new,
        rw (ran, ran_all) refl,
        rw⁻¹ state (IsMade-trans made made_all),
      )
