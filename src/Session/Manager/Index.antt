-- ===== src/Session/Manager/Index.antt =====
-- The secondary indices of the session manager (`ssrcIndex`, `addrIndex`, `peerIndex` and
-- `trackIndex` of internal/session/manager.go), each over the key that a session has for it.
use Prim.Native.String.{String}
use media_ai.Prelude.{◌≡◌, sym, ◌∙◌, ap, subst, ◌≢◌, inl, inr, none, some, List, arith}
use media_ai.Prelude.Assoc.{
  Key, text_key, lookup, insert, delete, Key-cases, lookup-insert_self, lookup-insert_ne,
  lookup-delete_ne, lookup-delete_found, lookup-insert_fresh, beq_of_ne, beq_of_eq,
}
use media_ai.Session.Manager.{put_index, drop_index}

module _ {K S : Type 0} ⦃e : Key K⦄ (zero : K) (key_of : S → K) where
  -- Every entry leads to a live session that has the key.
  abbrev pub IsSound : List (K × String) → List (String × S) → Type 0
  IsSound index sessions =
      (k : K) (id : String)
      → lookup k index ≡ some id
      → (s : S) × (lookup id sessions ≡ some s) × (key_of s ≡ k) × (k ≢ zero)

  -- Every live session that has a key is found by it.
  abbrev pub IsComplete : List (K × String) → List (String × S) → Type 0
  IsComplete index sessions =
      (id : String) (s : S)
      → lookup id sessions ≡ some s
      → key_of s ≢ zero
      → lookup (key_of s) index ≡ some id

  -- An entry for a live session that has the key.
  enter-IsSound :
      (index : List (K × String)) (sessions : List (String × S)) (id : String) (s : S)
      → key_of s ≢ zero
      → lookup id sessions ≡ some s
      → IsSound index sessions
      → IsSound (insert (key_of s) id index) sessions
  enter-IsSound index sessions id s nonzero live sound k j h = elim (Key-cases k (key_of s)) [
    | inl same ↦
        let here : lookup (key_of s) (insert (key_of s) id index) ≡ some j =
          subst (λ x. lookup x (insert (key_of s) id index) ≡ some j) same h in
        let to_id : some id ≡ some j = sym (lookup-insert_self (key_of s) id index) ∙ here in
        (s, subst (λ x. lookup x sessions ≡ some s) (ground arith) live, sym same, ground arith)
    | inr other ↦ sound k j (sym (lookup-insert_ne (key_of s) k id index other) ∙ h)
  ]

  module _ (index : List (K × String)) (sessions : List (String × S)) (id : String) (s : S) where
    insert-IsSound_fresh :
        lookup id sessions ≡ none → IsSound index sessions → IsSound index (insert id s sessions)
    insert-IsSound_fresh fresh sound k j h =
        let (t, live, key, nonzero) = sound k j h in
        (t, lookup-insert_fresh id j s sessions fresh live, key, nonzero)

    pub put_index-IsSound :
        lookup id sessions ≡ none
        → IsSound index sessions
        → IsSound (put_index zero (key_of s) id index) (insert id s sessions)
    unfolding put_index
    put_index-IsSound fresh sound = elim (Key-cases (key_of s) zero) [
      | inl z ↦ rw (beq_of_eq (key_of s) zero z) (insert-IsSound_fresh fresh sound)
      | inr nz ↦ rw (beq_of_ne (key_of s) zero nz) (
          enter-IsSound index (insert id s sessions) id s nz (lookup-insert_self id s sessions)
            (insert-IsSound_fresh fresh sound))
    ]

    -- After the drop no entry leads to `id`, and the others are as they were.
    pub drop_index-lookup :
        (k : K) (j : String)
        → lookup id sessions ≡ some s
        → IsSound index sessions
        → lookup k (drop_index zero (key_of s) index) ≡ some j
        → (j ≢ id) × (lookup k index ≡ some j)
    unfolding drop_index
    drop_index-lookup k j live sound h = elim (Key-cases (key_of s) zero) [
      | inl z ↦
          let old : lookup k index ≡ some j = rw (beq_of_eq (key_of s) zero z) at h in
          let (t, found, key, nonzero) = sound k j old in (ground arith, old)
      | inr nz ↦
          let both =
            lookup-delete_found (key_of s) k index (rw (beq_of_ne (key_of s) zero nz) at h) in
          let (t, found, key, nonzero) = sound k j both.1 in (λ p. both.0 (ground arith), both.1)
    ]

    pub drop_index-IsSound :
        lookup id sessions ≡ some s
        → IsSound index sessions
        → IsSound (drop_index zero (key_of s) index) (delete id sessions)
    drop_index-IsSound live sound k j h =
        let (other, old) = drop_index-lookup k j live sound h in
        let (t, found, key, nonzero) = sound k j old in
        (t, lookup-delete_ne id j sessions other ∙ found, key, nonzero)

    put_index-keeps :
        (k : K) (j : String)
        → lookup (key_of s) index ≡ none
        → lookup k index ≡ some j
        → lookup k (put_index zero (key_of s) id index) ≡ some j
    unfolding put_index
    put_index-keeps k j unused found = elim (Key-cases (key_of s) zero) [
      | inl z ↦ rw (beq_of_eq (key_of s) zero z) found
      | inr nz ↦
          rw (beq_of_ne (key_of s) zero nz) (lookup-insert_fresh (key_of s) k id index unused found)
    ]

    pub put_index-IsComplete :
        lookup id sessions ≡ none
        → lookup (key_of s) index ≡ none
        → IsComplete index sessions
        → IsComplete (put_index zero (key_of s) id index) (insert id s sessions)
    unfolding put_index
    put_index-IsComplete fresh unused complete j t h nonzero = elim (Key-cases j id) [
      | inl same ↦
          let here : lookup id (insert id s sessions) ≡ some t =
            subst (λ x. lookup x (insert id s sessions) ≡ some t) same h in
          let to_s : some s ≡ some t = sym (lookup-insert_self id s sessions) ∙ here in
          let is_s : s ≡ t = ground arith in
          subst (λ x. lookup (key_of x) (put_index zero (key_of s) id index) ≡ some j) is_s
            (rw
              (beq_of_ne (key_of s) zero (λ p. nonzero (subst (λ x. key_of x ≡ zero) is_s p)), same)
              (lookup-insert_self (key_of s) id index))
      | inr other ↦
          let live : lookup j sessions ≡ some t =
            sym (lookup-insert_ne id j s sessions other) ∙ h in
          let found = complete j t live nonzero in put_index-keeps (key_of t) j unused found
    ]

    pub drop_index-IsComplete :
        lookup id sessions ≡ some s
        → IsComplete index sessions
        → IsComplete (drop_index zero (key_of s) index) (delete id sessions)
    unfolding drop_index
    drop_index-IsComplete live complete j t h nonzero =
        let (other, kept) = lookup-delete_found id j sessions h in
        let found = complete j t kept nonzero in
        elim (Key-cases (key_of s) zero) [
          | inl z ↦ rw (beq_of_eq (key_of s) zero z) found
          | inr nz ↦ rw (beq_of_ne (key_of s) zero nz) (
              lookup-delete_ne (key_of s) (key_of t) index (λ same.
                other (ground (arith, complete id s live nz, ap (λ x. lookup x index) same)))
              ∙ found)
        ]

  module _ (index : List (K × String)) (sessions : List (String × S)) (id : String) (s s' : S) where
    pub insert-IsSound_same :
        lookup id sessions ≡ some s
        → key_of s' ≡ key_of s
        → IsSound index sessions
        → IsSound index (insert id s' sessions)
    insert-IsSound_same live same sound k j h =
        let (t, found, key, nonzero) = sound k j h in
        elim (Key-cases j id) [
          | inl here ↦
              let is_s : some s ≡ some t =
                sym live ∙ subst (λ x. lookup x sessions ≡ some t) here found in
              (
                s',
                subst (λ x. lookup x (insert id s' sessions) ≡ some s') (sym here)
                    (lookup-insert_self id s' sessions),
                same ∙ ap key_of (ground arith) ∙ key,
                nonzero,
              )
          | inr other ↦ (t, lookup-insert_ne id j s' sessions other ∙ found, key, nonzero)
        ]

    pub readdress-IsSound :
        lookup id sessions ≡ some s
        → key_of s' ≢ zero
        → IsSound index sessions
        → IsSound (insert (key_of s') id (drop_index zero (key_of s) index)) (insert id s' sessions)
    readdress-IsSound live nonzero sound =
        enter-IsSound (drop_index zero (key_of s) index) (insert id s' sessions) id s' nonzero
          (lookup-insert_self id s' sessions)
          (λ k j h.
            let (other, old) = drop_index-lookup index sessions id s k j live sound h in
            let (t, found, key, some_key) = sound k j old in
            (t, lookup-insert_ne id j s' sessions other ∙ found, key, some_key))
