-- ===== src/Channel.antt =====
-- Go's buffered channels, as the non-blocking `select` with a `default` case sees them: a queue
-- of at most `cap` items, first in first out. A receiver that waits at the moment of a send
-- is the schedule in which it receives right after, so it needs no state of its own.
use media_ai.Prelude.{
  ℕ, suc, ◌≤◌, ◌≡◌, Option, none, some, List, [], ◌∷◌, ◌++◌, arith, ltb, length, length-append,
  if◌then◌else◌,
}

pub record Chan (A : Type 0) : Type 0 where
  pub cap : ℕ
  pub items : List A

module _ {A : Type 0} where
  -- make(chan A, cap)
  unfoldable pub make : ℕ → Chan A
  make n = record { cap = n; items = [] }

  -- select { case ch <- a: … default: … }; `none` is the default case
  unfoldable pub try_send : A → Chan A → Option (Chan A)
  try_send a ch =
      if ltb (length ch.items) ch.cap then some (record ch { items = ch.items ++ a ∷ [] }) else none

  -- case a := <-ch, when it is ready
  unfoldable pub try_recv : Chan A → Option (A × Chan A)
  try_recv ch = elim ch.items [ [] ↦ none | a ∷ rest ↦ some (a, record ch { items = rest }) ]

  abbrev pub Fits : Chan A → Type 0
  Fits ch = length ch.items ≤ ch.cap

  pub try_send-Fits : (a : A) (ch : Chan A) {ch' : Chan A} → try_send a ch ≡ some ch' → Fits ch'
  unfolding try_send
  try_send-Fits a ch h = ground (arith, length-append ch.items (a ∷ []))

  pub try_send-grows :
      (a : A) (ch queue : Chan A)
      → try_send a ch ≡ some queue
      → (length queue.items ≡ suc (length ch.items)) × (length queue.items ≤ queue.cap)
  unfolding try_send
  try_send-grows a ch queue h =
      (ground (arith, length-append ch.items (a ∷ [])), try_send-Fits a ch h)

  pub try_send-items :
      (a : A) (ch queue : Chan A) → try_send a ch ≡ some queue → queue.items ≡ ch.items ++ a ∷ []
  unfolding try_send
  try_send-items a ch queue h = ground arith

  pub try_recv-items :
      (ch : Chan A) (a : A) (queue : Chan A)
      → try_recv ch ≡ some (a, queue)
      → ch.items ≡ a ∷ queue.items
  unfolding try_recv
  try_recv-items ch a queue h = ground arith

  pub try_recv-shrinks :
      (ch : Chan A) (a : A) (queue : Chan A)
      → try_recv ch ≡ some (a, queue)
      → (suc (length queue.items) ≡ length ch.items) × (queue.cap ≡ ch.cap)
  unfolding try_recv
  try_recv-shrinks ch a queue h = ground arith
