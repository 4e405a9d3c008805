-- ===== src/Control/Ports.antt =====
-- The pool of RTP ports (internal/controlplane/port_allocator.go): a stack whose top is the last
-- element of `free`. Every method runs under the lock, so it is a function from state to state.
-- The list here has the top first.
use media_ai.Prelude.{
  ℕ, zero, suc, ◌+◌, ◌-◌, ◌≤◌, ◌<◌, ◌≡◌, refl, ◌∙◌, ap, inl, inr, ◌||◌, ◌&&◌, Option, none, some,
  Option-cases, List, [], ◌∷◌, ltb, leb, ◌==◌, length, if◌then◌else◌, Result, ok, err, ◌↔◌, arith,
}

pub data PortError : Type 0 where
  no_ports_available invalid_range : PortError

pub record PortAllocator : Type 0 where
  pub free : List ℕ
  pub total : ℕ

-- The ports start, start + 1, … of a range of n, the last on top.
pub range_down : ℕ → ℕ → List ℕ
range_down start zero = []
range_down start (suc n) = (start + n) ∷ range_down start n

unfoldable pub new_port_allocator : ℕ → ℕ → Result PortError PortAllocator
unfolding range_down
new_port_allocator start end =
    if start == 0 || ltb end start
    then err invalid_range
    else ok (record {
      free = range_down start (end + 1 - start);
      total = length (range_down start (end + 1 - start));
    })

unfoldable pub acquire : PortAllocator → PortAllocator × Result PortError ℕ
acquire a = elim a.free [
  | [] ↦ (a, err no_ports_available)
  | port ∷ rest ↦ (record a { free = rest }, ok port)
]

unfoldable pub release : ℕ → PortAllocator → PortAllocator
release port a = record a { free = port ∷ a.free }

unfoldable pub available : PortAllocator → ℕ
available a = length a.free

-- How often a port is in a list.
abbrev pub occurrences : ℕ → List ℕ → ℕ
occurrences p [] = 0
occurrences p (q ∷ qs) = (if q == p then 1 else 0) + occurrences p qs

range_down-occurrences :
    (p start n : ℕ)
    → occurrences p (range_down start n) ≡ (if leb start p && ltb p (start + n) then 1 else 0)
unfolding range_down
range_down-occurrences p start zero = ground arith
range_down-occurrences p start (suc n) = ground (arith, range_down-occurrences p start n)

length-range_down : (start n : ℕ) → length (range_down start n) ≡ n
unfolding range_down
length-range_down start zero = refl
length-range_down start (suc n) = ap suc (length-range_down start n)

-- A caller of the pool: the ports that it holds, and the calls that it makes. It releases only
-- a port that it holds; the `release` of any other port is left out.
pub record Usage : Type 0 where
  pub pool : PortAllocator
  pub held : List ℕ

pub data Call : Type 0 where
  take_port : Call
  give_back : ℕ → Call

-- `held` less one entry of `p`, if there is one.
remove_one : ℕ → List ℕ → Option (List ℕ)
remove_one p [] = none
remove_one p (q ∷ qs) =
    let rest = remove_one p qs in
    if q == p then some qs else elim rest [ none ↦ none | some l ↦ some (q ∷ l) ]

pub apply : Call → Usage → Usage
apply take_port u = elim (acquire u.pool).1 [
  | err e ↦ u
  | ok p ↦ record { pool = (acquire u.pool).0; held = p ∷ u.held }
]
apply (give_back p) u = elim (remove_one p u.held) [
  | none ↦ u
  | some rest ↦ record { pool = release p u.pool; held = rest }
]

pub run : List Call → Usage → Usage
run [] u = u
run (c ∷ cs) u = run cs (apply c u)

abbrev pub copies : ℕ → Usage → ℕ
copies p u = occurrences p u.pool.free + occurrences p u.held

abbrev pub ports : Usage → ℕ
ports u = length u.pool.free + length u.held

remove_one-occurrences :
    (p q : ℕ) (l rest : List ℕ)
    → remove_one p l ≡ some rest
    → (occurrences q l ≡ (if p == q then 1 else 0) + occurrences q rest)
      × (length l ≡ suc (length rest))
unfolding remove_one
remove_one-occurrences p q [] rest h = absurd (ground arith)
remove_one-occurrences p q (x ∷ l) rest h = elim (Option-cases (remove_one p l)) [
  | inl missing ↦ ground arith
  | inr (m, found) ↦ ground (arith, remove_one-occurrences p q l m found)
]

take-conserves :
    (l : List ℕ) (total : ℕ) (held : List ℕ) (p : ℕ)
    → let u : Usage = record { pool = record { free = l; total = total }; held = held } in
      (copies p (apply take_port u) ≡ copies p u)
      × (ports (apply take_port u) ≡ ports u)
      × ((apply take_port u).pool.total ≡ total)
unfolding apply acquire
take-conserves [] total held p = (refl, refl, refl)
take-conserves (q ∷ l) total held p = (omega arith, omega arith, refl)

apply-conserves :
    (c : Call) (u : Usage) (p : ℕ)
    → (copies p (apply c u) ≡ copies p u)
      × (ports (apply c u) ≡ ports u)
      × ((apply c u).pool.total ≡ u.pool.total)
unfolding apply release
apply-conserves take_port u p = take-conserves u.pool.free u.pool.total u.held p
apply-conserves (give_back q) u p = elim (Option-cases (remove_one q u.held)) [
  | inl missing ↦ rw (missing, apply) (refl, refl, refl)
  | inr (rest, found) ↦
      let (count, size) = remove_one-occurrences q p u.held rest found in
      rw (found, apply) (omega arith, omega arith, refl)
]

run-conserves :
    (cs : List Call) (u : Usage) (p : ℕ)
    → (copies p (run cs u) ≡ copies p u)
      × (ports (run cs u) ≡ ports u)
      × ((run cs u).pool.total ≡ u.pool.total)
unfolding run
run-conserves [] u p = (refl, refl, refl)
run-conserves (c ∷ cs) u p =
    let (copies₁, ports₁, total₁) = apply-conserves c u p in
    let (copies₂, ports₂, total₂) = run-conserves cs (apply c u) p in
    (copies₂ ∙ copies₁, ports₂ ∙ ports₁, total₂ ∙ total₁)

-- The pool of a range, nothing handed out.
abbrev pub fresh_pool : ℕ → ℕ → Usage
fresh_pool start end = record {
  pool = record {
    free = range_down start (end + 1 - start);
    total = length (range_down start (end + 1 - start));
  };
  held = [];
}

acquire-fails : (a : PortAllocator) → ((acquire a).1 ≡ err no_ports_available) ↔ (length a.free ≡ 0)
unfolding acquire
acquire-fails a = ground arith

-- For a range that starts above 0 and is not empty the pool is made, and after any sequence of
-- acquires and of releases of held ports each port of the range is once in the pool or once held,
-- never both and never twice, and no other port is; the free and the held ports are `total` in number,
-- that of the range; and `acquire` fails exactly when all of them are held.
pub run-exclusive :
    (start end : ℕ) (cs : List Call) (p : ℕ)
    → 0 < start
    → start ≤ end
    → (new_port_allocator start end ≡ ok (fresh_pool start end).pool)
      × (copies p (run cs (fresh_pool start end)) ≡ (if leb start p && leb p end then 1 else 0))
      × (ports (run cs (fresh_pool start end)) ≡ end + 1 - start)
      × ((run cs (fresh_pool start end)).pool.total ≡ end + 1 - start)
      × (((acquire (run cs (fresh_pool start end)).pool).1 ≡ err no_ports_available)
          ↔ (length (run cs (fresh_pool start end)).held ≡ end + 1 - start))
unfolding new_port_allocator
run-exclusive start end cs p positive ordered =
    let n = end + 1 - start in
    let size = length-range_down start n in
    let (count, all_ports, total) = run-conserves cs (fresh_pool start end) p in
    let fails = acquire-fails (run cs (fresh_pool start end)).pool in
    (
      ground arith,
      count ∙ ground (arith, range_down-occurrences p start n),
      omega (arith, all_ports, size),
      total ∙ size,
      (
        λ e. omega (arith, all_ports, size, fails.0 e),
        λ e. fails.1 (omega (arith, all_ports, size)),
      ),
    )
