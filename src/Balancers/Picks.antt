-- ===== src/Balancers/Picks.antt =====
-- The healthy servers of a pool, and the loads that looking at them leaves.
use learn_system_design.Prelude.{
  ℕ, zero, suc, ◌+◌, ◌<◌, ◌≡◌, refl, true, Option, none, some, List, [], ◌∷◌, length, get_elem?,
  set, ltb, ◌==◌, arith, Bool-cases, inl, inr, ap, sym, ◌∙◌, subst, get_elem?-set_self,
  get_elem?-set_ne,
}
use learn_system_design.Prelude.Distinct.{is_in}
use learn_system_design.Balancers.{
  Server, healthy_at, healthy_from, unfinished, in_flight, load_at, load,
}

-- The server at this place is healthy.
abbrev pub IsHealthy : List Server → ℕ → Type 0
IsHealthy pool i = healthy_at (get_elem? pool i) ≡ true

pub is_in-healthy_from :
    (pool : List Server) (from i : ℕ)
    → is_in i (healthy_from from pool) ≡ true
    → (j : ℕ) × (i ≡ from + j) × IsHealthy pool j
unfolding healthy_from healthy_at
is_in-healthy_from [] from i e = ground (arith, e)
is_in-healthy_from (s ∷ pool) from i e =
    let later : is_in i (healthy_from (from + 1) pool) ≡ true
        → (j : ℕ) × (i ≡ from + j) × IsHealthy (s ∷ pool) j =
      λ h.
        (let (j, same, well) = is_in-healthy_from pool (from + 1) i h in
          (suc j, omega (arith, same), well)) in
    elim (Bool-cases s.healthy) [
      | inl well ↦ (elim (Bool-cases (i == from)) [
        | inl same ↦ (zero, ground (arith, same), well)
        | inr other ↦ later (ground (arith, e, well, other))
      ])
      | inr ill ↦ later (ground (arith, e, ill))
    ]

pub healthy_from-is_in :
    (pool : List Server) (from j : ℕ)
    → IsHealthy pool j
    → is_in (from + j) (healthy_from from pool) ≡ true
unfolding healthy_from healthy_at
healthy_from-is_in [] from j e = ground (arith, e)
healthy_from-is_in (s ∷ pool) from zero e = rw e (ground arith)
healthy_from-is_in (s ∷ pool) from (suc j) e =
    let rest = healthy_from-is_in pool (from + 1) j e in
    let same : from + suc j ≡ from + 1 + j = omega arith in
    let shifted = subst (λ i. is_in i (healthy_from (from + 1) pool) ≡ true) (sym same) rest in
    ground (arith, shifted)

-- How many requests a server has in flight.
abbrev pub load_of : ℕ → Option Server → ℕ
load_of now none = 0
load_of now (some s) = length (unfinished now s.active)

unfinished_twice :
    (now : ℕ) (active : List ℕ) → unfinished now (unfinished now active) ≡ unfinished now active
unfolding unfinished
unfinished_twice now [] = refl
unfinished_twice now (t ∷ active) = elim (Bool-cases (ltb now t)) [
  | inl more ↦ rw more (rw more (ap (λ (l : List ℕ). t ∷ l) (unfinished_twice now active)))
  | inr done ↦ rw done (unfinished_twice now active)
]

inside : (pool : List Server) (i : ℕ) (s : Server) → get_elem? pool i ≡ some s → i < length pool
inside [] i s e = ground (arith, e)
inside (x ∷ pool) zero s e = omega arith
inside (x ∷ pool) (suc i) s e = let h = inside pool i s e in omega arith

load_at-loads :
    (o : Option Server) (now i : ℕ) (pool : List Server)
    → get_elem? pool i ≡ o
    → ((load_at now o i pool).0 ≡ load_of now o)
      × ((j : ℕ)
          → load_of now (get_elem? (load_at now o i pool).1 j) ≡ load_of now (get_elem? pool j))
unfolding load_at in_flight
load_at-loads none now i pool e = (refl, λ j. refl)
load_at-loads (some s) now i pool e =
    let left = record s { active = unfinished now s.active } in
    (
      refl,
      λ j. elim (Bool-cases (i == j)) [
        | inl same ↦
            (let q : i ≡ j = ground arith in
              subst
                (λ k. load_of now (get_elem? (set pool i left) k) ≡ load_of now (get_elem? pool k))
                q
                (ap (load_of now) (get_elem?-set_self pool i left (inside pool i s e))
                  ∙ ap length (unfinished_twice now s.active)
                  ∙ sym (ap (load_of now) e)))
        | inr other ↦ ap (load_of now) (get_elem?-set_ne pool left (λ q. ground (arith, other, q)))
      ],
    )

pub load-loads :
    (now i : ℕ) (pool : List Server)
    → ((load now i pool).0 ≡ load_of now (get_elem? pool i))
      × ((j : ℕ) → load_of now (get_elem? (load now i pool).1 j) ≡ load_of now (get_elem? pool j))
unfolding load
load-loads now i pool = load_at-loads (get_elem? pool i) now i pool refl
