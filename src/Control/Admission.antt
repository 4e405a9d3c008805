-- ===== src/Control/Admission.antt =====
-- The admission checks (internal/controlplane/admission_controller.go). A quotient of two counts that
-- is compared with a constant is written with products. Rounding to float64 is monotone and takes
-- the exact quotient and the constant to the same value where they are equal, and counts below
-- 2 ^ 49 keep any other quotient apart from the constant, so the two comparisons agree. A
-- maximum of 0 gives +Inf (at least the threshold) or, with a count of 0, NaN (not).
use media_ai.Prelude.{
  ℕ, ◌*◌, ◌<◌, ◌≤◌, ◌≢◌, refl, List, [], ◌∷◌, All, ◌≡◌, ◌↔◌, ◌⊎◌, Bool, true, false, ◌&&◌, Option,
  none, some, ltb, leb, ◌==◌, if◌then◌else◌, arith, not,
}

-- What the controller reads of the components that it is wired to; `none` for one that is not set.
pub record Load : Type 0 where
  pub sessions : ℕ
  pub max_sessions : ℕ
  pub queue_len : ℕ
  pub queue_cap : ℕ
  pub streams : ℕ
  pub max_streams : ℕ
  pub live_workers : Option ℕ
  pub mem_threshold : ℕ
  pub alloc : ℕ
  pub free_ports : Option ℕ

pub data Reason : Type 0 where
  admitted session_capacity queue_pressure ai_stream_capacity no_ai_worker : Reason
  memory_pressure port_exhausted : Reason

pub record Verdict : Type 0 where
  pub is_ok : Bool
  pub retry_after_ms : ℕ
  pub reason : Reason

-- float64(count) / float64(max) >= percent / 100
abbrev pub reaches : ℕ → ℕ → ℕ → Bool
reaches percent count max = if max == 0 then not (count == 0) else leb (percent * max) (100 * count)

abbrev pub is_none_left : Option ℕ → Bool
is_none_left none = false
is_none_left (some n) = n == 0

reject : ℕ → Reason → Verdict
reject ms why = record { is_ok = false; retry_after_ms = ms; reason = why }

unfoldable pub check_with_reason : Load → Verdict
unfolding reject
check_with_reason l =
    if reaches 90 l.sessions l.max_sessions
    then reject 5000 session_capacity
    else if ltb 0 l.queue_cap && reaches 80 l.queue_len l.queue_cap
    then reject 1000 queue_pressure
    else if reaches 95 l.streams l.max_streams
    then reject 2000 ai_stream_capacity
    else if is_none_left l.live_workers
    then reject 3000 no_ai_worker
    else if ltb 0 l.mem_threshold && leb l.mem_threshold l.alloc
    then reject 5000 memory_pressure
    else if is_none_left l.free_ports
    then reject 10000 port_exhausted
    else record { is_ok = true; retry_after_ms = 0; reason = admitted }

pub check : Load → Bool × ℕ
check l = ((check_with_reason l).is_ok, (check_with_reason l).retry_after_ms)

is_none_left-some : (o : Option ℕ) → is_none_left o ≡ true → o ≡ some 0
is_none_left-some none h = absurd (ground arith)
is_none_left-some (some n) h = ground arith

is_none_left-ne : (o : Option ℕ) → is_none_left o ≡ false → o ≢ some 0
is_none_left-ne none h e = ground arith
is_none_left-ne (some n) h e = ground arith

-- The retry times of the documentation.
abbrev pub documented_retry : Reason → ℕ
documented_retry admitted = 0
documented_retry session_capacity = 5000
documented_retry queue_pressure = 1000
documented_retry ai_stream_capacity = 2000
documented_retry no_ai_worker = 3000
documented_retry memory_pressure = 5000
documented_retry port_exhausted = 10000

-- The limits in the order of the checks; `exceeds l why` is that the limit of `why` is reached.
abbrev pub Exceeds : Load → Reason → Type 0
Exceeds l admitted = Unit
Exceeds l session_capacity = 90 * l.max_sessions ≤ 100 * l.sessions
Exceeds l queue_pressure = (0 < l.queue_cap) × (80 * l.queue_cap ≤ 100 * l.queue_len)
Exceeds l ai_stream_capacity = 95 * l.max_streams ≤ 100 * l.streams
Exceeds l no_ai_worker = l.live_workers ≡ some 0
Exceeds l memory_pressure = (0 < l.mem_threshold) × (l.mem_threshold ≤ l.alloc)
Exceeds l port_exhausted = l.free_ports ≡ some 0

-- The limit of `why` is not reached.
abbrev pub HasRoom : Load → Reason → Type 0
HasRoom l admitted = Unit
HasRoom l session_capacity = 100 * l.sessions < 90 * l.max_sessions
HasRoom l queue_pressure = (l.queue_cap ≡ 0) ⊎ (100 * l.queue_len < 80 * l.queue_cap)
HasRoom l ai_stream_capacity = 100 * l.streams < 95 * l.max_streams
HasRoom l no_ai_worker = l.live_workers ≢ some 0
HasRoom l memory_pressure = (l.mem_threshold ≡ 0) ⊎ (l.alloc < l.mem_threshold)
HasRoom l port_exhausted = l.free_ports ≢ some 0

-- What is checked before.
abbrev pub earlier : Reason → List Reason
earlier session_capacity = []
earlier queue_pressure = session_capacity ∷ []
earlier ai_stream_capacity = session_capacity ∷ queue_pressure ∷ []
earlier no_ai_worker = session_capacity ∷ queue_pressure ∷ ai_stream_capacity ∷ []
earlier memory_pressure = session_capacity ∷ queue_pressure ∷ ai_stream_capacity ∷ no_ai_worker ∷ []
earlier port_exhausted =
    session_capacity ∷ queue_pressure ∷ ai_stream_capacity ∷ no_ai_worker ∷ memory_pressure ∷ []
earlier admitted =
    session_capacity ∷ queue_pressure ∷ ai_stream_capacity ∷ no_ai_worker ∷ memory_pressure
    ∷ port_exhausted ∷ []

pub record IsFor (l : Load) (v : Verdict) : Type 0 where
  pub reached : Exceeds l v.reason
  pub first : All (HasRoom l) (earlier v.reason)
  pub admits : (v.is_ok ≡ true) ↔ (v.reason ≡ admitted)
  pub retry_time : v.retry_after_ms ≡ documented_retry v.reason

if-IsFor :
    (l : Load) (b : Bool) (x y : Verdict)
    → (b ≡ true → IsFor l x)
    → (b ≡ false → IsFor l y)
    → IsFor l (if b then x else y)
if-IsFor l true x y h k = h refl
if-IsFor l false x y h k = k refl

reject-IsFor :
    (l : Load) (why : Reason)
    → why ≢ admitted
    → Exceeds l why
    → All (HasRoom l) (earlier why)
    → IsFor l (reject (documented_retry why) why)
unfolding reject
reject-IsFor l why other reached first = record {
  reached = reached;
  first = first;
  admits = (λ h. absurd (ground arith), λ h. absurd (other h));
  retry_time = refl;
}

-- Where the maxima of sessions and of streams are not 0, the reason is that of the first limit that is reached: sessions
-- at 90%, the queue (if it has any room) at 80%, streams at 95%, no worker alive where workers are registered, the heap at
-- its threshold if one is set, and no port free where there is a pool. A call is admitted exactly when
-- none is reached, and the retry time is always the documented one of the reason.
pub check_with_reason_lem :
    (l : Load) → 0 < l.max_sessions → 0 < l.max_streams → IsFor l (check_with_reason l)
unfolding check_with_reason
check_with_reason_lem l sessions streams =
    if-IsFor l (reaches 90 l.sessions l.max_sessions) _ _
      (λ full. reject-IsFor l session_capacity (λ h. ground arith) (ground arith) tt)
      (λ r.
        let a : HasRoom l session_capacity = ground arith in
        if-IsFor l (ltb 0 l.queue_cap && reaches 80 l.queue_len l.queue_cap) _ _
          (λ full. reject-IsFor l queue_pressure (λ h. ground arith) (ground arith) (a, tt))
          (λ r.
            let b : HasRoom l queue_pressure = ground arith in
            if-IsFor l (reaches 95 l.streams l.max_streams) _ _
              (λ full.
                reject-IsFor l ai_stream_capacity (λ h. ground arith) (ground arith) (a, (b, tt)))
              (λ r.
                let c : HasRoom l ai_stream_capacity = ground arith in
                if-IsFor l (is_none_left l.live_workers) _ _
                  (λ full.
                    reject-IsFor l no_ai_worker (λ h. ground arith)
                      (is_none_left-some l.live_workers full) (a, (b, (c, tt))))
                  (λ r.
                    let d = is_none_left-ne l.live_workers r in
                    if-IsFor l (ltb 0 l.mem_threshold && leb l.mem_threshold l.alloc) _ _
                      (λ full.
                        reject-IsFor l memory_pressure (λ h. ground arith) (ground arith)
                          (a, (b, (c, (d, tt)))))
                      (λ r.
                        let e : HasRoom l memory_pressure = ground arith in
                        if-IsFor l (is_none_left l.free_ports) _ _
                          (λ full.
                            reject-IsFor l port_exhausted (λ h. ground arith)
                              (is_none_left-some l.free_ports full) (a, (b, (c, (d, (e, tt))))))
                          (λ r. record {
                            reached = tt;
                            first = (a, (b, (c, (d, (e, (is_none_left-ne l.free_ports r, tt))))));
                            admits = (λ h. refl, λ h. refl);
                            retry_time = refl;
                          }))))))
