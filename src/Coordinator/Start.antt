-- ===== src/Coordinator/Start.antt =====
-- What a start of a session leaves behind (internal/coordinator/coordinator.go).
use Prim.Native.String.{String}
use media_ai.Prelude.{
  ℕ, ◌≡◌, refl, subst, inl, inr, ◌⊎◌, Bool, true, Option, none, some, some-injective, List, [], ◌∷◌,
  ◌++◌, length, get_elem?, update_at, if◌then◌else◌, Result, ok, err, arith, Bool-cases,
  Option-cases,
}
use media_ai.Prelude.Assoc.{
  text_key, ◌==◌, insert, lookup, delete, lookup-insert_self, lookup-delete_self,
}
use media_ai.Media.{AudioChunk}
use media_ai.Channel.{Chan}
use media_ai.Session.{Session}
use media_ai.Jitter.Buffer.{Config as JitterConfig}
use media_ai.Audio.Chunker.{new_chunker, flush as chunker_flush}
use media_ai.Pipeline.Chain.{Chain, Decoder, SessionConfig, new_chain, flush}
use media_ai.Pipeline.Pool.{
  WorkerPool, session_exists, no_codec, register_session, unregister_session,
}
use media_ai.Ai.Streams.{open_stream}
use media_ai.Ai.Streams.Entries.Survival.{open_stream-lookup}
use media_ai.Result.Dispatcher.{Dispatcher, sinks_of, register_sink, unregister_sinks}
use media_ai.Result.HttpCallback.{HttpCallbackSink}
use media_ai.Coordinator.{
  Coordinator, StartError, pool_error, ai_error, pool_config, callback_sink, add_callback, sink_of,
  start,
}

flush-new_chain :
    {D : Type 0} (open_decoder : String → ℕ → ℕ → Option (Decoder D)) (cfg : SessionConfig)
    (sp : Chain D) (out : Chan AudioChunk)
    → new_chain open_decoder cfg ≡ some sp
    → flush sp out ≡ ok (sp, out)
unfolding new_chain flush chunker_flush new_chunker
flush-new_chain open_decoder cfg sp out made =
    elim (Option-cases (open_decoder cfg.codec cfg.sample_rate cfg.channels)) [
      | inl failed ↦ absurd (ground arith)
      | inr (dec, opened) ↦
          subst (λ c. flush c out ≡ ok (c, out)) (some-injective (rw (opened, new_chain) at made))
            refl
    ]

get_elem?-last : {A : Type 0} (xs : List A) (a : A) → get_elem? (xs ++ a ∷ []) (length xs) ≡ some a
get_elem?-last [] a = refl
get_elem?-last (x ∷ xs) a = get_elem?-last xs a

-- A pool in which a session has just been registered is rolled back without a fault, and the session is out of it.
module _ {D : Type 0} (open_decoder : String → ℕ → ℕ → Option (Decoder D)) where
  unregister-register :
      (cfg : SessionConfig) (pool : WorkerPool D) (sp : Chain D) (out : Chan AudioChunk)
      → new_chain open_decoder cfg ≡ some sp
      → let entered : WorkerPool D = record pool {
        pipelines = insert cfg.session_id (length pool.heap) pool.pipelines;
        heap = pool.heap ++ sp ∷ [];
      } in
        (pool' : WorkerPool D) × (unregister_session cfg.session_id out entered
          ≡ ok (pool', out, true))
        × (lookup cfg.session_id pool'.pipelines ≡ none)
  unfolding unregister_session
  unregister-register cfg pool sp out made =
      let known = lookup-insert_self cfg.session_id (length pool.heap) pool.pipelines in
      let there = get_elem?-last pool.heap sp in
      (
        record pool {
          pipelines =
              delete cfg.session_id (insert cfg.session_id (length pool.heap) pool.pipelines);
          heap = update_at (length pool.heap) sp (pool.heap ++ sp ∷ []);
        },
        rw (known, there, flush-new_chain open_decoder cfg sp out made, unregister_session) refl,
        lookup-delete_self cfg.session_id (insert cfg.session_id (length pool.heap) pool.pipelines),
      )

pub Result-cases :
    {E A : Type 0} (r : Result E A) → ((a : A) × (r ≡ ok a)) ⊎ ((e : E) × (r ≡ err e))
Result-cases (ok a) = inl (a, refl)
Result-cases (err e) = inr (e, refl)

sinks_of-unregister : (id : String) (d : Dispatcher) → sinks_of id (unregister_sinks id d) ≡ []
unfolding sinks_of unregister_sinks
sinks_of-unregister id d = rw (lookup-delete_self id d.sinks, sinks_of) refl

module _ {D J : Type 0} (open_decoder : String → ℕ → ℕ → Option (Decoder D))
    (new_jitter : JitterConfig → J) where
  -- No part knows the session.
  pub record IsAbsent (id : String) (c c' : Coordinator D J) : Type 0 where
    pub no_pipeline : lookup id c'.pool.pipelines ≡ none
    pub no_sinks : sinks_of id c'.dispatcher ≡ []
    pub same_streams : c'.ai ≡ c.ai
    pub same_buffers : c'.jitter_bufs ≡ c.jitter_bufs

  -- Every part knows it.
  pub record IsWired (number : ℕ) (sess : Session) (c c' : Coordinator D J) : Type 0 where
    pub pipeline : (at : ℕ) × (lookup sess.id c'.pool.pipelines ≡ some at)
    pub stream : (at : ℕ) × (lookup sess.id c'.ai.streams ≡ some at)
    pub buffer : (buf : J) × (lookup sess.id c'.jitter_bufs ≡ some buf)
    pub sinks : sinks_of sess.id c'.dispatcher ≡ (
        if sess.callback_url == ""
        then sinks_of sess.id c.dispatcher
        else sinks_of sess.id c.dispatcher ++ callback_sink number ∷ [])

  abbrev pub Outcome :
      ℕ
      → Session
      → Coordinator D J
      → Coordinator D J
      → Result StartError (Option HttpCallbackSink)
      → Type 0
  Outcome number sess c c' (err e) = IsAbsent sess.id c c'
  Outcome number sess c c' (ok sink) = IsWired number sess c c'

  sinks_of-add_callback :
      (number : ℕ) (sess : Session) (d : Dispatcher)
      → sinks_of sess.id (add_callback number sess d) ≡ (
          if sess.callback_url == ""
          then sinks_of sess.id d
          else sinks_of sess.id d ++ callback_sink number ∷ [])
  unfolding add_callback register_sink sinks_of
  sinks_of-add_callback number sess d = elim (Bool-cases (sess.callback_url == "")) [
    | inl bare ↦ rw (bare, add_callback) refl
    | inr given ↦
        rw
          (
            given,
            add_callback,
            register_sink,
            lookup-insert_self sess.id (sinks_of sess.id d ++ callback_sink number ∷ []) d.sinks,
            sinks_of,
          )
          refl
  ]

  -- Where the pool does not know the session yet, `Start` does not fault, and it leaves the audio queue alone. If it
  -- returns an error, the pool and the dispatcher know nothing of the session, and the AI streams and the jitter buffers
  -- are as before. If it succeeds, the session has a pipeline, an AI stream and a jitter buffer, and its
  -- sinks are those of before and the callback sink, if it has a callback URL.
  pub start_rolls_back :
      (dials : Bool) (now_ms number : ℕ) (sess : Session) (c : Coordinator D J)
      → lookup sess.id c.pool.pipelines ≡ none
      → (c' : Coordinator D J) × (answer : Result StartError (Option HttpCallbackSink)) × (start
            open_decoder new_jitter dials now_ms number sess c
          ≡ ok (c', sess.audio_queue, answer))
        × Outcome number sess c c' answer
  unfolding start register_session pool_config
  start_rolls_back dials now_ms number sess c absent =
      let cfg : SessionConfig = pool_config c.cfg sess in
      let d : Dispatcher = add_callback number sess c.dispatcher in
      let gone = sinks_of-unregister sess.id d in
      elim (Option-cases (new_chain open_decoder cfg)) [
        | inl unknown ↦ (
          record c { dispatcher = unregister_sinks sess.id d },
          err (pool_error no_codec),
          rw (unknown, start, register_session) refl,
          record {
            no_pipeline = absent;
            no_sinks = gone;
            same_streams = refl;
            same_buffers = refl;
          },
        )
        | inr (sp, made) ↦
            let (pool', left, out_of_it) =
              unregister-register open_decoder cfg c.pool sp sess.audio_queue made in
            let entered : WorkerPool D = record c.pool {
              pipelines = insert sess.id (length c.pool.heap) c.pool.pipelines;
              heap = c.pool.heap ++ sp ∷ [];
            } in
            elim (Result-cases (open_stream dials now_ms sess.id c.ai)) [
              | inr (e, refused) ↦ (
                record c { pool = pool'; dispatcher = unregister_sinks sess.id d },
                err (ai_error e),
                rw (made, absent, refused, left, start, register_session) refl,
                record {
                  no_pipeline = out_of_it;
                  no_sinks = gone;
                  same_streams = refl;
                  same_buffers = refl;
                },
              )
              | inl ((ai, at), opened) ↦ (
                record c {
                  pool = entered;
                  ai = ai;
                  dispatcher = d;
                  jitter_bufs = insert sess.id (new_jitter c.cfg.jitter_config) c.jitter_bufs;
                },
                ok (sink_of c.cfg sess),
                rw (made, absent, opened, start, register_session) refl,
                record {
                  pipeline = (
                    length c.pool.heap,
                    lookup-insert_self sess.id (length c.pool.heap) c.pool.pipelines,
                  );
                  stream = (at, open_stream-lookup dials now_ms sess.id c.ai ai at opened);
                  buffer = (
                    new_jitter c.cfg.jitter_config,
                    lookup-insert_self sess.id (new_jitter c.cfg.jitter_config) c.jitter_bufs,
                  );
                  sinks = sinks_of-add_callback number sess c.dispatcher;
                },
              )
            ]
      ]

  -- Where the codec can be opened but the pool has the session already, since an earlier `Start` of it is running, `Start`
  -- returns an error, the running pipeline stays registered, and the session has no sink any more.
  pub start-second :
      (dials : Bool) (now_ms number at : ℕ) (sess : Session) (c : Coordinator D J) (sp : Chain D)
      → new_chain open_decoder (pool_config c.cfg sess) ≡ some sp
      → lookup sess.id c.pool.pipelines ≡ some at
      → (c' : Coordinator D J) × (start open_decoder new_jitter dials now_ms number sess c
          ≡ ok (c', sess.audio_queue, err (pool_error session_exists)))
        × (c'.pool ≡ c.pool)
        × (sinks_of sess.id c'.dispatcher ≡ [])
  unfolding start register_session pool_config
  start-second dials now_ms number at sess c sp made there = (
    record c { dispatcher = unregister_sinks sess.id (add_callback number sess c.dispatcher) },
    rw (made, there, start, register_session) refl,
    refl,
    sinks_of-unregister sess.id (add_callback number sess c.dispatcher),
  )

  -- `Start` does not fault, whatever the pool knows.
  pub start_total :
      (dials : Bool) (now_ms number : ℕ) (sess : Session) (c : Coordinator D J)
      → (c' : Coordinator D J) × (left : Chan AudioChunk) × (answer : Result StartError
          (Option HttpCallbackSink))
        × (start open_decoder new_jitter dials now_ms number sess c ≡ ok (c', left, answer))
  unfolding start register_session pool_config
  start_total dials now_ms number sess c = elim (Option-cases (lookup sess.id c.pool.pipelines)) [
    | inl absent ↦
        let (c', answer, ran, settled) = start_rolls_back dials now_ms number sess c absent in
        (c', sess.audio_queue, answer, ran)
    | inr (at, there) ↦ elim (Option-cases (new_chain open_decoder (pool_config c.cfg sess))) [
      | inr (sp, made) ↦
          let (c', ran, same, gone) = start-second dials now_ms number at sess c sp made there in
          (c', sess.audio_queue, err (pool_error session_exists), ran)
      | inl unknown ↦ (
        record c { dispatcher = unregister_sinks sess.id (add_callback number sess c.dispatcher) },
        sess.audio_queue,
        err (pool_error no_codec),
        rw (unknown, start, register_session) refl,
      )
    ]
  ]
