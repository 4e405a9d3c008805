-- ===== src/Prelude/Lists.antt =====
-- Lists measured and indexed by native numbers, under the library's names.
use Prim.Native.Nat.{ℕ, zero, suc, ◌+◌, ◌-◌, min}
use mathlib.Core.Path.{◌≡◌, refl, ap, subst}
use mathlib.Core.List.{List, [], ◌∷◌, ◌++◌, map}
use mathlib.Core.Option.{Option, none, some}
use media_ai.Prelude.Tests.{some-injective}
use native.Mathlib.Omega.{arith}

-- `P` at every element, as nested pairs.
module _ {ℓ κ} {A : Type ℓ} where
  abbrev pub All : (A → Type κ) → List A → Type κ
  All P [] = Unit
  All P (first ∷ others) = P first × All P others

module _ {ℓ} {A : Type ℓ} where
  abbrev pub length : List A → ℕ
  length [] = 0
  length (x ∷ xs) = suc (length xs)

  abbrev pub get_elem? : List A → ℕ → Option A
  get_elem? [] i = none
  get_elem? (x ∷ xs) zero = some x
  get_elem? (x ∷ xs) (suc i) = get_elem? xs i

  abbrev pub get_or : List A → ℕ → A → A
  get_or [] i d = d
  get_or (x ∷ xs) zero d = x
  get_or (x ∷ xs) (suc i) d = get_or xs i d

  abbrev pub take : ℕ → List A → List A
  take zero xs = []
  take (suc n) [] = []
  take (suc n) (x ∷ xs) = x ∷ take n xs

  abbrev pub drop : ℕ → List A → List A
  drop zero xs = xs
  drop (suc n) [] = []
  drop (suc n) (x ∷ xs) = drop n xs

  -- xs[n] = a
  abbrev pub update_at : ℕ → A → List A → List A
  update_at n a [] = []
  update_at zero a (x ∷ xs) = a ∷ xs
  update_at (suc n) a (x ∷ xs) = x ∷ update_at n a xs

  abbrev pub remove_at : ℕ → List A → List A
  remove_at n [] = []
  remove_at zero (x ∷ xs) = xs
  remove_at (suc n) (x ∷ xs) = x ∷ remove_at n xs

  abbrev pub replicate : ℕ → A → List A
  replicate zero a = []
  replicate (suc n) a = a ∷ replicate n a

module _ {ℓ} {A : Type ℓ} where
  pub length-append : (xs ys : List A) → length (xs ++ ys) ≡ length xs + length ys
  length-append [] ys = omega arith
  length-append (x ∷ xs) ys = omega (arith, length-append xs ys)

  pub take-append-drop : (n : ℕ) (xs : List A) → take n xs ++ drop n xs ≡ xs
  take-append-drop zero xs = refl
  take-append-drop (suc n) [] = refl
  take-append-drop (suc n) (x ∷ xs) = rw (take-append-drop n xs)

  pub length-take : (n : ℕ) (xs : List A) → length (take n xs) ≡ min n (length xs)
  length-take zero xs = omega arith
  length-take (suc n) [] = omega arith
  length-take (suc n) (x ∷ xs) = omega (arith, length-take n xs)

  pub length-drop : (n : ℕ) (xs : List A) → length (drop n xs) ≡ length xs - n
  length-drop zero xs = omega arith
  length-drop (suc n) [] = omega arith
  length-drop (suc n) (x ∷ xs) = omega (arith, length-drop n xs)

  pub length-replicate : (n : ℕ) (a : A) → length (replicate n a) ≡ n
  length-replicate zero a = refl
  length-replicate (suc n) a = ap suc (length-replicate n a)

  pub drop-nil : (n : ℕ) → drop {A = A} n [] ≡ []
  drop-nil zero = refl
  drop-nil (suc n) = refl

  pub length-eq-zero : (xs : List A) → length xs ≡ 0 → xs ≡ []
  length-eq-zero [] h = refl
  length-eq-zero (x ∷ xs) h = absurd (omega arith)

  pub take_of_length : (xs ys : List A) → take (length xs) (xs ++ ys) ≡ xs
  take_of_length [] ys = refl
  take_of_length (x ∷ xs) ys = ap (λ (l : List A). x ∷ l) (take_of_length xs ys)

  pub drop_of_length : (xs ys : List A) → drop (length xs) (xs ++ ys) ≡ ys
  drop_of_length [] ys = refl
  drop_of_length (x ∷ xs) ys = drop_of_length xs ys

  pub length-map {κ} : {B : Type κ} (xs : List A) (f : A → B) → length (map f xs) ≡ length xs
  length-map [] f = refl
  length-map (x ∷ xs) f = ap suc (length-map xs f)

  pub length-update_at : (n : ℕ) (a : A) (xs : List A) → length (update_at n a xs) ≡ length xs
  length-update_at n a [] = refl
  length-update_at zero a (x ∷ xs) = refl
  length-update_at (suc n) a (x ∷ xs) = ap suc (length-update_at n a xs)

  pub get_elem?-update_at :
      (n : ℕ) (a : A) (xs : List A) {b : A}
      → get_elem? xs n ≡ some b
      → get_elem? (update_at n a xs) n ≡ some a
  get_elem?-update_at n a [] h = absurd (ground arith)
  get_elem?-update_at zero a (x ∷ xs) h = refl
  get_elem?-update_at (suc n) a (x ∷ xs) h = get_elem?-update_at n a xs h

  pub length-remove_at :
      (n : ℕ) (xs : List A) {a : A}
      → get_elem? xs n ≡ some a
      → suc (length (remove_at n xs)) ≡ length xs
  length-remove_at n [] h = absurd (ground arith)
  length-remove_at zero (x ∷ xs) h = refl
  length-remove_at (suc n) (x ∷ xs) h = ap suc (length-remove_at n xs h)

module _ {ℓ κ} {A : Type ℓ} (P : A → Type κ) where
  pub All-update_at : (n : ℕ) (a : A) (xs : List A) → P a → All P xs → All P (update_at n a xs)
  All-update_at n a [] p ps = tt
  All-update_at zero a (x ∷ xs) p ps = (p, ps.1)
  All-update_at (suc n) a (x ∷ xs) p ps = (ps.0, All-update_at n a xs p ps.1)

  pub All-get_elem? : (n : ℕ) (xs : List A) {a : A} → All P xs → get_elem? xs n ≡ some a → P a
  All-get_elem? n [] ps h = absurd (ground arith)
  All-get_elem? zero (x ∷ xs) {a} ps h = subst P (some-injective h) ps.0
  All-get_elem? (suc n) (x ∷ xs) ps h = All-get_elem? n xs ps.1 h

  pub All-append : (xs ys : List A) → All P xs → All P ys → All P (xs ++ ys)
  All-append [] ys ps qs = qs
  All-append (x ∷ xs) ys ps qs = (ps.0, All-append xs ys ps.1 qs)

  pub All-every : ((a : A) → P a) → (xs : List A) → All P xs
  All-every every [] = tt
  All-every every (x ∷ xs) = (every x, All-every every xs)
