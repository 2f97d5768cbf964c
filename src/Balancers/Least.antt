-- ===== src/Balancers/Least.antt =====
-- The strategy of the fewest connections.
use learn_system_design.Prelude.{
  ℕ, ◌+◌, ◌≤◌, ◌≡◌, refl, Bool, true, some, List, [], ◌∷◌, get_elem?, ltb, ◌==◌, if◌then◌else◌,
  arith, Bool-cases, inl, inr, ◌⊎◌, sym, ◌∙◌, subst,
}
use learn_system_design.Prelude.Distinct.{is_in}
use learn_system_design.Balancers.{
  Server, healthy_from, load, least_from, least_of, least_connections,
}
use learn_system_design.Balancers.Picks.{
  IsHealthy, is_in-healthy_from, healthy_from-is_in, load_of, load-loads,
}

-- This server is one of these, and none of them has a lower load.
abbrev IsLeastOf : (ℕ → ℕ) → ℕ → List ℕ → Type 0
IsLeastOf loads r l = (is_in r l ≡ true) × ((j : ℕ) → is_in j l ≡ true → loads r ≤ loads j)

least_step :
    (loads : ℕ → ℕ) (best i b r : ℕ) (rest : List ℕ)
    → (b ≡ i) ⊎ (b ≡ best)
    → loads b ≤ loads best
    → loads b ≤ loads i
    → IsLeastOf loads r (b ∷ rest)
    → IsLeastOf loads r (best ∷ i ∷ rest)
least_step loads best i b r rest which low lower (member, least) =
    let first : loads r ≤ loads b = least b (ground arith) in
    (
      ground (arith, member, which),
      λ j h. elim (Bool-cases (j == best)) [
        | inl same ↦
            (let q : best ≡ j = ground arith in
              subst (λ k. loads r ≤ loads k) q (omega (arith, first, low)))
        | inr other ↦ elim (Bool-cases (j == i)) [
          | inl same ↦
              (let q : i ≡ j = ground arith in
                subst (λ k. loads r ≤ loads k) q (omega (arith, first, lower)))
          | inr neither ↦ least j (ground (arith, h, other, neither))
        ]
      ],
    )

least_from-least :
    (now best least : ℕ) (l : List ℕ) (pool : List Server)
    → least ≡ load_of now (get_elem? pool best)
    → IsLeastOf
        (λ j. load_of now (get_elem? pool j))
        (least_from now best least l pool).0
        (best ∷ l)
unfolding least_from
least_from-least now best least [] pool e = (
  ground arith,
  λ j h.
      (let same : best ≡ j = ground (arith, h) in
        subst (λ k. load_of now (get_elem? pool best) ≤ load_of now (get_elem? pool k)) same
          (omega arith)),
)
least_from-least now best least (i ∷ rest) pool e =
    let n = (load now i pool).0 in
    let after = (load now i pool).1 in
    let (mine, same) = load-loads now i pool in
    let before = λ (j : ℕ). load_of now (get_elem? pool j) in
    let back : (b : ℕ) (r : ℕ)
        → IsLeastOf (λ j. load_of now (get_elem? after j)) r (b ∷ rest)
        → IsLeastOf before r (b ∷ rest) =
      λ b r h. (h.0, λ j m. (let low = h.1 j m in omega (arith, low, same r, same j))) in
    let goal = λ (t : Bool).
      IsLeastOf before
        (least_from now (if t then i else best) (if t then n else least) rest after).0
        (best ∷ i ∷ rest) in
    elim (Bool-cases (ltb n least)) [
      | inl less ↦ subst goal (sym less) (
          least_step before best i i (least_from now i n rest after).0 rest (inl refl)
            (ground (arith, less, mine, e)) (omega arith)
            (back i (least_from now i n rest after).0
              (least_from-least now i n rest after (mine ∙ sym (same i)))))
      | inr more ↦ subst goal (sym more) (
          least_step before best i best (least_from now best least rest after).0 rest (inr refl)
            (omega arith) (ground (arith, more, mine, e))
            (back best (least_from now best least rest after).0
              (least_from-least now best least rest after (e ∙ sym (same best)))))
    ]

least_of-least :
    (now j : ℕ) (l : List ℕ) (pool : List Server)
    → is_in j l ≡ true
    → (i : ℕ) × (after : List Server) × (least_of now l pool ≡ some (i, after))
      × IsLeastOf (λ k. load_of now (get_elem? pool k)) i l
unfolding least_of
least_of-least now j [] pool e = ground (arith, e)
least_of-least now j (i ∷ rest) pool e =
    let n = (load now i pool).0 in
    let after = (load now i pool).1 in
    let (mine, same) = load-loads now i pool in
    let picked = least_from now i n rest after in
    let back : IsLeastOf (λ j. load_of now (get_elem? after j)) picked.0 (i ∷ rest)
        → IsLeastOf (λ j. load_of now (get_elem? pool j)) picked.0 (i ∷ rest) =
      λ h. (h.0, λ j m. (let low = h.1 j m in omega (arith, low, same picked.0, same j))) in
    let (member, low) = least_from-least now i n rest after (mine ∙ sym (same i)) in
    (picked.0, picked.1, refl, back (member, low))

-- If some server of a pool is healthy, `least_connections` does not raise, and picks a healthy server such that no healthy server has fewer requests in flight at that time.
pub least_connections-least :
    (now j : ℕ) (pool : List Server)
    → IsHealthy pool j
    → (i : ℕ) × (after : List Server) × (least_connections now pool ≡ some (i, after))
      × IsHealthy pool i
      × ((k : ℕ)
          → IsHealthy pool k
          → load_of now (get_elem? pool i) ≤ load_of now (get_elem? pool k))
unfolding least_connections
least_connections-least now j pool well =
    let there = healthy_from-is_in pool 0 j well in
    let (i, after, found, (member, low)) =
      least_of-least now (0 + j) (healthy_from 0 pool) pool there in
    let (k, same, healthy) = is_in-healthy_from pool 0 i member in
    let q : k ≡ i = omega (arith, same) in
    (
      i,
      after,
      found,
      subst (IsHealthy pool) q healthy,
      λ m h.
          (let p : 0 + m ≡ m = omega arith in
            low m (
              subst (λ t. is_in t (healthy_from 0 pool) ≡ true) p (healthy_from-is_in pool 0 m h))),
    )
