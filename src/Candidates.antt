-- ===== src/Candidates.antt =====
-- What the two registries share (internal/controlplane/gateway_selector.go, internal/ai/worker_registry.go):
-- a map of nodes, of which those that are not stale are listed, and a loop that keeps the best one so far.
use Prim.Native.String.{String}
use media_ai.Prelude.{
  ◌≡◌, refl, ap, subst, ◌⊎◌, inl, inr, Bool, true, false, not, ◌||◌, Option, none, some, List, [],
  ◌∷◌, Bool-cases, All, arith, some-injective, if◌then◌else◌,
}
use media_ai.Prelude.Assoc.{
  text_key, Key-cases, lookup, ◌==◌, beq_of_eq, beq_of_ne, HasDistinctKeys,
}

module _ {A : Type 0} where
  -- Go leaves the order of a map open; here it is that of the list.
  unfoldable pub fresh : (A → Bool) → List (String × A) → List A
  fresh is_stale [] = []
  fresh is_stale ((id, node) ∷ rest) =
      if is_stale node then fresh is_stale rest else node ∷ fresh is_stale rest

  -- The loop of `Select`; `best` is none until a node is found.
  unfoldable pub pick : (A → Bool) → (A → A → Bool) → Option A → List A → Option A
  pick is_out is_lighter best [] = best
  pick is_out is_lighter none (node ∷ rest) =
      if is_out node
      then pick is_out is_lighter none rest
      else pick is_out is_lighter (some node) rest
  pick is_out is_lighter (some best) (node ∷ rest) =
      if is_out node || not (is_lighter node best)
      then pick is_out is_lighter (some best) rest
      else pick is_out is_lighter (some node) rest

  abbrev pub IsIn : A → List A → Type 0
  IsIn a [] = ⊥
  IsIn a (x ∷ xs) = (x ≡ a) ⊎ IsIn a xs

  lookup-cons_fresh :
      (j : String) (node : A) (rest : List (String × A)) (id : String) (g : A)
      → lookup j rest ≡ none
      → lookup id rest ≡ some g
      → lookup id ((j, node) ∷ rest) ≡ some g
  unfolding lookup
  lookup-cons_fresh j node rest id g absent found = elim (Key-cases j id) [
    | inl same ↦
        let gone : lookup id rest ≡ none = subst (λ x. lookup x rest ≡ none) same absent in
        absurd (ground arith)
    | inr other ↦ rw (beq_of_ne j id other) found
  ]

  pub All-fresh {κ} :
      (P : A → Type κ) (is_stale : A → Bool) (nodes : List (String × A)) (id : String) {node : A}
      → All P (fresh is_stale nodes)
      → lookup id nodes ≡ some node
      → is_stale node ≡ false
      → P node
  unfolding fresh lookup
  All-fresh P is_stale [] id all h kept = absurd (ground arith)
  All-fresh P is_stale ((j, first) ∷ rest) id {node} all h kept =
      elim (Bool-cases (is_stale first)) [
        | inl stale ↦ elim (Bool-cases (j == id)) [
          | inl same ↦
              let this : first ≡ node = some-injective (rw same at h) in
              absurd (bool_clash (ap is_stale this) stale kept)
          | inr other ↦ All-fresh P is_stale rest id (rw stale at all) (rw other at h) kept
        ]
        | inr listed ↦ elim (Bool-cases (j == id)) [
          | inl same ↦ subst (λ x. P x) (some-injective (rw same at h)) (rw listed at all).0
          | inr other ↦ All-fresh P is_stale rest id (rw listed at all).1 (rw other at h) kept
        ]
      ]
    where
      bool_clash : {a b : Bool} → a ≡ b → a ≡ true → b ≡ false → ⊥
      bool_clash same t f = ground arith

  pub fresh-All {κ} :
      (P : A → Type κ) (is_stale : A → Bool) (nodes : List (String × A))
      → All (λ (entry : String × A). P entry.1) nodes
      → All P (fresh is_stale nodes)
  unfolding fresh
  fresh-All P is_stale [] all = tt
  fresh-All P is_stale ((j, first) ∷ rest) all = elim (Bool-cases (is_stale first)) [
    | inl stale ↦ rw (stale, fresh) (fresh-All P is_stale rest all.1)
    | inr listed ↦ rw (listed, fresh) (all.0, fresh-All P is_stale rest all.1)
  ]

  pub IsIn-fresh :
      (is_stale : A → Bool) (nodes : List (String × A)) (g : A)
      → HasDistinctKeys nodes
      → IsIn g (fresh is_stale nodes)
      → (id : String) × (lookup id nodes ≡ some g) × (is_stale g ≡ false)
  unfolding fresh lookup
  IsIn-fresh is_stale [] g d m = absurd m
  IsIn-fresh is_stale ((j, node) ∷ rest) g d m =
      let later : IsIn g (fresh is_stale rest)
          → (id : String) × (lookup id ((j, node) ∷ rest) ≡ some g) × (is_stale g ≡ false) =
        λ further.
          let (id, found, kept) = IsIn-fresh is_stale rest g d.1 further in
          (id, lookup-cons_fresh j node rest id g d.0 found, kept) in
      elim (Bool-cases (is_stale node)) [
        | inl stale ↦ later (rw stale at m)
        | inr kept ↦ elim (rw kept at m) [
          | inl here ↦
              (j, rw (beq_of_eq j j refl) (ap some here), subst (λ x. is_stale x ≡ false) here kept)
          | inr further ↦ later further
        ]
      ]

-- A comparison that orders the nodes that satisfy `Valid`.
pub record IsOrder {A : Type 0} (is_lighter : A → A → Bool) (Valid : A → Type 0) : Type 0 where
  pub least_self : (a : A) → is_lighter a a ≡ false
  pub asym : (a b : A) → is_lighter a b ≡ true → is_lighter b a ≡ false
  pub trans :
      (a b c : A)
      → Valid a
      → Valid b
      → Valid c
      → is_lighter b a ≡ false
      → is_lighter c b ≡ false
      → is_lighter c a ≡ false

module _ {A : Type 0} (is_out : A → Bool) (is_lighter : A → A → Bool) {Valid : A → Type 0}
    (order : IsOrder is_lighter Valid) where
  -- `g` is in, and no node of `l` that is in is lighter.
  abbrev pub IsBest : A → List A → Type 0
  IsBest g l = (is_out g ≡ false) × All (λ (h : A). is_out h ≡ false → is_lighter h g ≡ false) l

  pick-some :
      (best : A) (l : List A)
      → is_out best ≡ false
      → Valid best
      → All Valid l
      → (g : A) × (pick is_out is_lighter (some best) l ≡ some g)
        × IsBest g l
        × (is_lighter best g ≡ false)
        × Valid g
        × ((best ≡ g) ⊎ IsIn g l)
  unfolding pick
  pick-some best [] room ok_best valid =
      (best, refl, (room, tt), order.least_self best, ok_best, inl refl)
  pick-some best (node ∷ rest) room ok_best (ok_node, valid) = elim (Bool-cases (is_out node)) [
    | inl full ↦
        let (g, ran, (has_room, least), at_most, ok_g, from) =
          pick-some best rest room ok_best valid in
        (
          g,
          rw (full, pick) ran,
          (has_room, (λ e. absurd (ground arith), least)),
          at_most,
          ok_g,
          elim from [ inl e ↦ inl e | inr m ↦ inr (inr m) ],
        )
    | inr open_node ↦ elim (Bool-cases (is_lighter node best)) [
      | inl lighter ↦
          let (g, ran, (has_room, least), at_most, ok_g, from) =
            pick-some node rest open_node ok_node valid in
          (
            g,
            rw (open_node, lighter, pick) ran,
            (has_room, (λ e. at_most, least)),
            order.trans g node best ok_g ok_node ok_best at_most (order.asym node best lighter),
            ok_g,
            inr from,
          )
      | inr heavier ↦
          let (g, ran, (has_room, least), at_most, ok_g, from) =
            pick-some best rest room ok_best valid in
          (
            g,
            rw (open_node, heavier, pick) ran,
            (has_room, (λ e. order.trans g best node ok_g ok_best ok_node at_most heavier, least)),
            at_most,
            ok_g,
            elim from [ inl e ↦ inl e | inr m ↦ inr (inr m) ],
          )
    ]
  ]

  pub pick-cases :
      (l : List A)
      → All Valid l
      → ((pick is_out is_lighter none l ≡ none) × All (λ (h : A). is_out h ≡ true) l)
        ⊎ ((g : A) × (pick is_out is_lighter none l ≡ some g) × IsBest g l × IsIn g l)
  unfolding pick
  pick-cases [] valid = inl (refl, tt)
  pick-cases (node ∷ rest) (ok_node, valid) = elim (Bool-cases (is_out node)) [
    | inl full ↦ elim (pick-cases rest valid) [
      | inl (ran, all_full) ↦ inl (rw (full, pick) ran, (full, all_full))
      | inr (g, ran, (has_room, least), from) ↦
          inr (g, rw (full, pick) ran, (has_room, (λ e. absurd (ground arith), least)), inr from)
    ]
    | inr open_node ↦
        let (g, ran, (has_room, least), at_most, ok_g, from) =
          pick-some node rest open_node ok_node valid in
        inr (g, rw (open_node, pick) ran, (has_room, (λ e. at_most, least)), from)
  ]

  -- A node that the map has and that is neither stale nor out.
  abbrev pub IsCandidate : (A → Bool) → List (String × A) → String → A → Type 0
  IsCandidate is_stale nodes id h =
      (lookup id nodes ≡ some h) × (is_stale h ≡ false) × (is_out h ≡ false)

  pub pick-fresh :
      (is_stale : A → Bool) (nodes : List (String × A))
      → HasDistinctKeys nodes
      → All (λ (entry : String × A). Valid entry.1) nodes
      → ((pick is_out is_lighter none (fresh is_stale nodes) ≡ none)
          × ((id : String) (h : A) → ¬ IsCandidate is_stale nodes id h))
        ⊎ ((g : A) × (pick is_out is_lighter none (fresh is_stale nodes) ≡ some g)
            × ((id : String) × IsCandidate is_stale nodes id g)
            × ((id : String) (h : A) → IsCandidate is_stale nodes id h → is_lighter h g ≡ false))
  pick-fresh is_stale nodes distinct valid =
      elim (pick-cases (fresh is_stale nodes) (fresh-All Valid is_stale nodes valid)) [
        | inl (ran, all_full) ↦ inl (
          ran,
          λ id h c.
              let full = All-fresh (λ x. is_out x ≡ true) is_stale nodes id all_full c.0 c.1 in
              absurd (ground arith),
        )
        | inr (g, ran, (room, least), from) ↦
            let (id, found, kept) = IsIn-fresh is_stale nodes g distinct from in
            inr (
              g,
              ran,
              (id, (found, kept, room)),
              λ j h c.
                  All-fresh (λ x. is_out x ≡ false → is_lighter x g ≡ false) is_stale nodes j least
                    c.0 c.1 c.2,
            )
      ]
