-- ===== src/Audio/Chunker/Stamps.antt =====
-- The timestamps of the chunks, and the chunk length of 0 (internal/audio/chunker.go).
use media_ai.Prelude.{
  ℕ, zero, suc, ◌-◌, ◌*◌, ◌≤◌, ◌<◌, ◌≡◌, refl, ap, ◌∙◌, sym, subst, true, false, Option, some, List,
  [], ◌∷◌, ◌++◌, arith, ltb, leb, ◌==◌, length, get_elem?, take, drop, replicate, length-replicate,
  length-append, All, if◌then◌else◌, ok, err, out_of_fuel,
}
use media_ai.Prelude.Int.{ℤ}
use media_ai.Audio.Chunker.{Chunk, Chunker, consume, drain, append_samples, push_within, push}
use media_ai.Audio.Chunker.Drain.{IsReady, IsCut, Stamped, push_total, emit-ok}

-- The first elements of the first `n` blocks of `size` elements each.
abbrev pub block_heads : ℕ → ℕ → List ℕ → List (Option ℕ)
block_heads zero size tags = []
block_heads (suc n) size tags = get_elem? tags 0 ∷ block_heads n size (drop size tags)

abbrev pub stamps : List Chunk → List (Option ℕ)
stamps [] = []
stamps (k ∷ ks) = some k.rtp_timestamp ∷ stamps ks

-- `tags` names, for each buffered sample, the timestamp of the packet that it came in: the
-- current timestamp is that of the first.
pub record TracksSources (c : Chunker) (tags : List ℕ) : Type 0 where
  pub same_length : length tags ≡ length c.buf
  pub first : 0 < length tags → get_elem? tags 0 ≡ some c.cur_rtp_ts

replicate_ap : (m n t : ℕ) → m ≡ n → replicate m t ≡ replicate n t
replicate_ap m n t e = ap (λ (x : ℕ). replicate x t) e

drop-replicate : (k m t : ℕ) → drop k (replicate m t) ≡ replicate (m - k) t
drop-replicate zero m t = replicate_ap m (m - 0) t (omega arith)
drop-replicate (suc k) zero t = replicate_ap 0 (0 - suc k) t (omega arith)
drop-replicate (suc k) (suc m) t =
    drop-replicate k m t ∙ replicate_ap (m - k) (suc m - suc k) t (omega arith)

drop-append_ge :
    (k : ℕ) (tags rest : List ℕ)
    → length tags ≤ k
    → drop k (tags ++ rest) ≡ drop (k - length tags) rest
drop-append_ge k [] rest h = ap (λ (x : ℕ). drop x rest) (omega arith)
drop-append_ge zero (t ∷ tags) rest h = absurd (omega arith)
drop-append_ge (suc k) (t ∷ tags) rest h =
    drop-append_ge k tags rest (omega arith) ∙ ap (λ (x : ℕ). drop x rest) (omega arith)

-- Behind the old samples all are new.
drop-sources :
    (k n t : ℕ) (tags : List ℕ)
    → length tags ≤ k
    → drop k (tags ++ replicate n t) ≡ replicate (n - (k - length tags)) t
drop-sources k n t tags h =
    drop-append_ge k tags (replicate n t) h ∙ drop-replicate (k - length tags) n t

head-replicate : (m t : ℕ) → 0 < m → get_elem? (replicate m t) 0 ≡ some t
head-replicate zero t h = absurd (omega arith)
head-replicate (suc m) t h = refl

block_heads-replicate :
    (ks : List Chunk) (size m t : ℕ)
    → 0 < size
    → length ks * size ≤ m
    → All (λ (j : Chunk). j.rtp_timestamp ≡ t) ks
    → stamps ks ≡ block_heads (length ks) size (replicate m t)
block_heads-replicate [] size m t h fits all = refl
block_heads-replicate (k ∷ ks) size m t h fits all =
    let more : length ks * size ≤ m - size = omega arith in
    let some_left : 0 < m = grind arith in
    rw (head-replicate m t some_left, drop-replicate size m t, all.0)
      (ap (λ l. some t ∷ l) (block_heads-replicate ks size (m - size) t h more all.1))

none_cut : (size : ℕ) → 0 ≡ 0 * size
none_cut size = omega arith

module _ (pcm : List ℤ) (rtp_ts : ℕ) (c : Chunker) (tags : List ℕ) where
  abbrev sources : List ℕ
  sources = tags ++ replicate (length pcm) rtp_ts

  abbrev first_stamp : ℕ
  first_stamp = if length c.buf == 0 then rtp_ts else c.cur_rtp_ts

  length-sources : TracksSources c tags → length sources ≡ length (c.buf ++ pcm)
  length-sources tracks = omega (
    arith,
    length-append tags (replicate (length pcm) rtp_ts),
    length-replicate (length pcm) rtp_ts,
    length-append c.buf pcm,
    tracks.same_length,
  )

  head-sources : 0 < length pcm → TracksSources c tags → get_elem? sources 0 ≡ some first_stamp
  head-sources some_new tracks = go tags tracks.same_length tracks.first
    where
      go :
          (l : List ℕ)
          → length l ≡ length c.buf
          → (0 < length l → get_elem? l 0 ≡ some c.cur_rtp_ts)
          → get_elem? (l ++ replicate (length pcm) rtp_ts) 0 ≡ some first_stamp
      go [] e h =
          let empty : (length c.buf == 0) ≡ true = ground arith in
          rw empty (head-replicate (length pcm) rtp_ts some_new)
      go (t ∷ l) e h =
          let filled : (length c.buf == 0) ≡ false = ground arith in rw filled (h (omega arith))

  cut-stamps :
      (c' : Chunker) (ks : List Chunk)
      → IsReady c
      → 0 < length pcm
      → TracksSources c tags
      → IsCut (record c { buf = c.buf ++ pcm }) c' ks
      → Stamped rtp_ts first_stamp c' ks
      → (stamps ks ≡ block_heads (length ks) c.chunk_samps sources)
        × TracksSources c' (drop (length ks * c.chunk_samps) sources)
  cut-stamps c' [] ready some_new tracks cut stamped = (
    refl,
    subst (λ (x : ℕ). TracksSources c' (drop x sources)) (none_cut c.chunk_samps)
        (record {
          same_length = omega (arith, length-sources tracks, cut.samples);
          first = λ h. head-sources some_new tracks ∙ ap some (sym stamped);
        }),
  )
  cut-stamps c' (k ∷ ks) ready some_new tracks cut stamped = (
    rw
        (
          head-sources some_new tracks,
          stamped.0,
          drop-sources c.chunk_samps (length pcm) rtp_ts tags
              (omega (arith, ready.short, tracks.same_length)),
        )
        (ap (λ l. some first_stamp ∷ l)
          (block_heads-replicate ks c.chunk_samps (length pcm - (c.chunk_samps - length tags))
            rtp_ts ready.cuts
            (omega (arith, cut.samples, length-append c.buf pcm, tracks.same_length, ready.short))
            stamped.1)),
    subst (λ l. TracksSources c' l)
        (sym (
          drop-sources (suc (length ks) * c.chunk_samps) (length pcm) rtp_ts tags
            (grind (arith, ready.short, tracks.same_length))))
        (record {
          same_length =
              length-replicate (length pcm - (suc (length ks) * c.chunk_samps - length tags)) rtp_ts
              ∙ omega
                  (arith, cut.samples, length-append c.buf pcm, tracks.same_length, ready.short);
          first = λ h.
              head-replicate (length pcm - (suc (length ks) * c.chunk_samps - length tags)) rtp_ts (
                omega (
                  arith,
                  length-replicate (length pcm - (suc (length ks) * c.chunk_samps - length tags))
                      rtp_ts,
                ))
              ∙ ap some (sym stamped.2);
        }),
  )

-- A call of `Push` on a chunker that can cut, with at least one new sample: each chunk that it
-- returns carries the timestamp of the packet that its first sample came in, and so does the
-- first sample of what stays for the next call.
pub push_stamps :
    (pcm : List ℤ) (rtp_ts : ℕ) (c : Chunker) (tags : List ℕ)
    → IsReady c
    → 0 < length pcm
    → TracksSources c tags
    → (c' : Chunker) × (ks : List Chunk) × (push pcm rtp_ts c ≡ ok (c', ks))
      × (stamps ks ≡ block_heads (length ks) c.chunk_samps (tags ++ replicate (length pcm) rtp_ts))
      × TracksSources c' (drop (length ks * c.chunk_samps) (tags ++ replicate (length pcm) rtp_ts))
push_stamps pcm rtp_ts c tags ready some_new tracks =
    let (c', ks, ran, cut, stamped) = push_total pcm rtp_ts c ready in
    let (heads, tracks') =
      cut-stamps pcm rtp_ts c tags c' ks ready some_new tracks cut (stamped some_new) in
    (c', ks, ran, heads, tracks')

drain_hangs :
    (fuel old_count rtp_ts : ℕ) (c : Chunker)
    → c.chunk_samps ≡ 0
    → 0 < c.cfg.sample_rate
    → drain fuel old_count rtp_ts c ≡ err out_of_fuel
unfolding drain consume
drain_hangs zero old_count rtp_ts c no_samps rate = refl
drain_hangs (suc fuel) old_count rtp_ts c no_samps rate =
    let goes_on : leb c.chunk_samps (length c.buf) ≡ true = ground arith in
    let again =
      drain_hangs fuel (old_count - c.chunk_samps) rtp_ts (consume old_count rtp_ts c) no_samps
        rate in
    rw (goes_on, emit-ok (take c.chunk_samps c.buf) c rate, again, drain) refl

-- With a chunk length of 0 samples and a sample rate, `Push` of any sample does not return: its loop
-- is not over after any number of rounds.
pub push_hangs :
    (fuel : ℕ) (pcm : List ℤ) (rtp_ts : ℕ) (c : Chunker)
    → c.chunk_samps ≡ 0
    → 0 < c.cfg.sample_rate
    → 0 < length pcm
    → push_within fuel pcm rtp_ts c ≡ err out_of_fuel
unfolding push_within append_samples
push_hangs fuel pcm rtp_ts c no_samps rate some_new =
    let enters : (length pcm == 0) ≡ false = ground arith in
    let loops : ltb (length (c.buf ++ pcm)) c.chunk_samps ≡ false = ground arith in
    rw (enters, loops)
      (drain_hangs fuel (length c.buf) rtp_ts (append_samples pcm rtp_ts c) no_samps rate)
