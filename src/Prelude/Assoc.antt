-- ===== src/Prelude/Assoc.antt =====
-- Go's maps as association lists with distinct keys, over any key type with a Boolean equality.
use Prim.Native.String.{String}
use text.Mathlib.Text.{◌==◌ as same_text}
use text.Mathlib.TextEquality.{eq_iff as same_text_iff}
use media_ai.Prelude.{
  ℕ, suc, ◌≤◌, ◌≡◌, refl, ap, subst, ◌∙◌, ◌≢◌, ◌↔◌, ◌⊎◌, inl, inr, Bool-cases, Bool, true, false,
  Option, none, some, List, [], ◌∷◌, arith, ◌==◌ as same_number, ==_iff, length, All, if◌then◌else◌,
}

-- What a Go map asks of its keys: a test for being the same key.
pub record Key {ℓ} (K : Type ℓ) : Type ℓ where
  pub same : K → K → Bool
  pub same_iff : (i j : K) → (same i j ≡ true) ↔ (i ≡ j)

module _ {ℓ} {K : Type ℓ} ⦃key : Key K⦄ where
  infix 50 ◌==◌
  abbrev pub ◌==◌ : K → K → Bool
  i == j = key.same i j

-- uint32 keys and string keys
instance abbrev pub word_key : Key ℕ
word_key = record { same_iff = ==_iff; same = same_number }

instance abbrev pub text_key : Key String
text_key = record { same_iff = same_text_iff; same = same_text }

module _ {ℓ} {K V : Type ℓ} ⦃key : Key K⦄ where
  -- m[i] = new
  unfoldable pub insert : K → V → List (K × V) → List (K × V)
  insert i new [] = (i, new) ∷ []
  insert i new ((j, old) ∷ rest) = if j == i then (i, new) ∷ rest else (j, old) ∷ insert i new rest

  -- v, ok := m[i], with the `ok` flag as an option
  unfoldable pub lookup : K → List (K × V) → Option V
  lookup i [] = none
  lookup i ((j, value) ∷ rest) = if j == i then some value else lookup i rest

  -- delete(m, k)
  unfoldable pub delete : K → List (K × V) → List (K × V)
  delete k [] = []
  delete k ((j, w) ∷ m) = if j == k then delete k m else (j, w) ∷ delete k m

  pub lookup-insert :
      (here wanted : K) (new : V) (m : List (K × V))
      → lookup wanted (insert here new m) ≡ (if here == wanted then some new else lookup wanted m)
  unfolding insert lookup
  lookup-insert here wanted new [] = refl
  lookup-insert here wanted new ((j, old) ∷ rest) = ground (
    arith,
    lookup-insert here wanted new rest,
    key.same_iff j wanted,
    key.same_iff j here,
    key.same_iff here wanted,
  )

  pub lookup-delete :
      (k j : K) (m : List (K × V)) → lookup j (delete k m) ≡ (if k == j then none else lookup j m)
  unfolding lookup delete
  lookup-delete k j [] = ground arith
  lookup-delete k j ((i, w) ∷ m) =
      ground (arith, key.same_iff k j, key.same_iff i k, key.same_iff i j, lookup-delete k j m)

  pub length-insert_new :
      (k : K) (v : V) (m : List (K × V))
      → lookup k m ≡ none
      → length (insert k v m) ≡ suc (length m)
  unfolding lookup insert
  length-insert_new k v [] h = refl
  length-insert_new k v ((i, w) ∷ m) h = ground (arith, length-insert_new k v m)

  pub length-delete-le : (k : K) (m : List (K × V)) → length (delete k m) ≤ length m
  unfolding delete
  length-delete-le k [] = omega arith
  length-delete-le k ((i, w) ∷ m) = ground (arith, length-delete-le k m)

-- Equality of keys is decided by the test.
pub Key-cases {ℓ} : {K : Type ℓ} ⦃key : Key K⦄ (k j : K) → (k ≡ j) ⊎ (k ≢ j)
Key-cases ⦃key⦄ k j = elim (Bool-cases (k == j)) [
  | inl same ↦ inl ((key.same_iff k j).0 same)
  | inr other ↦ inr (λ p. ground (arith, key.same_iff k j))
]

module _ {ℓ} {K V : Type ℓ} ⦃key : Key K⦄ where
  pub lookup-insert_self : (k : K) (v : V) (m : List (K × V)) → lookup k (insert k v m) ≡ some v
  lookup-insert_self k v m = ground (arith, lookup-insert k k v m, key.same_iff k k)

  pub lookup-insert_ne :
      (k j : K) (v : V) (m : List (K × V)) → j ≢ k → lookup j (insert k v m) ≡ lookup j m
  lookup-insert_ne k j v m ne = ground (arith, lookup-insert k j v m, key.same_iff k j)

  pub lookup-delete_self : (k : K) (m : List (K × V)) → lookup k (delete k m) ≡ none
  lookup-delete_self k m = ground (arith, lookup-delete k k m, key.same_iff k k)

  pub lookup-delete_ne : (k j : K) (m : List (K × V)) → j ≢ k → lookup j (delete k m) ≡ lookup j m
  lookup-delete_ne k j m ne = ground (arith, lookup-delete k j m, key.same_iff k j)

  pub lookup-delete_found :
      (k j : K) (m : List (K × V)) {v : V}
      → lookup j (delete k m) ≡ some v
      → (j ≢ k) × (lookup j m ≡ some v)
  lookup-delete_found k j m h = ground (arith, lookup-delete k j m, key.same_iff k j)

  pub lookup-insert_fresh :
      (k j : K) (v : V) (m : List (K × V)) {w : V}
      → lookup k m ≡ none
      → lookup j m ≡ some w
      → lookup j (insert k v m) ≡ some w
  lookup-insert_fresh k j v m fresh h = ground (arith, lookup-insert k j v m, key.same_iff k j)

-- A key that is tested against the zero value.
pub beq_of_ne {ℓ} : {K : Type ℓ} ⦃key : Key K⦄ (k j : K) → k ≢ j → (k == j) ≡ false
beq_of_ne ⦃key⦄ k j ne = ground (arith, key.same_iff k j)

pub beq_of_eq {ℓ} : {K : Type ℓ} ⦃key : Key K⦄ (k j : K) → k ≡ j → (k == j) ≡ true
beq_of_eq ⦃key⦄ k j p = (key.same_iff k j).1 p

-- The keys of a Go map are distinct.
module _ {ℓ} {K V : Type ℓ} ⦃key : Key K⦄ where
  abbrev pub HasDistinctKeys : List (K × V) → Type ℓ
  HasDistinctKeys [] = Unit {ℓ}
  HasDistinctKeys ((k, v) ∷ m) = (lookup k m ≡ none) × HasDistinctKeys m

  delete_absent : (k : K) (m : List (K × V)) → lookup k m ≡ none → delete k m ≡ m
  unfolding lookup delete
  delete_absent k [] h = refl
  delete_absent k ((j, v) ∷ m) h = ground (arith, delete_absent k m)

  pub insert-HasDistinctKeys :
      (k : K) (v : V) (m : List (K × V)) → HasDistinctKeys m → HasDistinctKeys (insert k v m)
  unfolding lookup insert
  insert-HasDistinctKeys k v [] h = (refl, tt)
  insert-HasDistinctKeys k v ((j, w) ∷ m) h = elim (Key-cases j k) [
    | inl same ↦ rw (beq_of_eq j k same) (subst (λ x. lookup x m ≡ none) same h.0, h.1)
    | inr other ↦
        rw (beq_of_ne j k other)
          (lookup-insert_ne k j v m other ∙ h.0, insert-HasDistinctKeys k v m h.1)
  ]

  pub delete-HasDistinctKeys :
      (k : K) (m : List (K × V)) → HasDistinctKeys m → HasDistinctKeys (delete k m)
  unfolding delete
  delete-HasDistinctKeys k [] h = tt
  delete-HasDistinctKeys k ((j, w) ∷ m) h = elim (Key-cases j k) [
    | inl same ↦ rw (beq_of_eq j k same) (delete-HasDistinctKeys k m h.1)
    | inr other ↦
        rw (beq_of_ne j k other)
          (lookup-delete_ne k j m other ∙ h.0, delete-HasDistinctKeys k m h.1)
  ]

  pub length-delete :
      (k : K) (m : List (K × V)) {v : V}
      → HasDistinctKeys m
      → lookup k m ≡ some v
      → suc (length (delete k m)) ≡ length m
  unfolding lookup delete
  length-delete k [] d h = absurd (ground arith)
  length-delete k ((j, w) ∷ m) d h = elim (Key-cases j k) [
    | inl same ↦ rw (beq_of_eq j k same) (
        ap (λ (l : List (K × V)). suc (length l))
          (delete_absent k m (subst (λ x. lookup x m ≡ none) same d.0)))
    | inr other ↦
        rw (beq_of_ne j k other) (ap suc (length-delete k m d.1 (rw (beq_of_ne j k other) at h)))
  ]

  pub length-insert_live :
      (k : K) (v : V) (m : List (K × V)) {u : V}
      → lookup k m ≡ some u
      → length (insert k v m) ≡ length m
  unfolding lookup insert
  length-insert_live k v [] h = absurd (ground arith)
  length-insert_live k v ((j, w) ∷ m) {u} h = ground (arith, length-insert_live k v m {u = u})

module _ {ℓ κ} {K V : Type ℓ} ⦃key : Key K⦄ (P : K × V → Type κ) where
  pub All-insert : (k : K) (v : V) (m : List (K × V)) → P (k, v) → All P m → All P (insert k v m)
  unfolding insert
  All-insert k v [] p all = (p, tt)
  All-insert k v ((j, w) ∷ m) p all = elim (Bool-cases (j == k)) [
    | inl same ↦ rw (same, insert) (p, all.1)
    | inr other ↦ rw (other, insert) (all.0, All-insert k v m p all.1)
  ]

  pub All-delete : (k : K) (m : List (K × V)) → All P m → All P (delete k m)
  unfolding delete
  All-delete k [] all = tt
  All-delete k ((j, w) ∷ m) all = elim (Bool-cases (j == k)) [
    | inl same ↦ rw (same, delete) (All-delete k m all.1)
    | inr other ↦ rw (other, delete) (all.0, All-delete k m all.1)
  ]
