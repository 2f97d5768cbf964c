-- ===== src/Balancers/Rounds.antt =====
-- Rounds of a rotation in which all servers are healthy.
use learn_system_design.Prelude.{
  ℕ, zero, suc, ◌+◌, ◌*◌, ◌<◌, ◌≡◌, refl, Option, none, some, List, [], ◌∷◌, ◌++◌, length,
  get_elem?, ◌==◌, ◌>>=◌, if◌then◌else◌, arith, ap, sym, ◌∙◌, subst,
}
use learn_system_design.Balancers.{
  Server, Cycle, repeated, expanded_from, make_weighted_round_robin, cycle, begin_round, next_from,
  next, keep_trying, pick_in, pick_round,
}
use learn_system_design.Balancers.Picks.{IsHealthy}

-- So many picks in a row, and whom they pick.
unfoldable pub picks : ℕ → List Server → Cycle → Option (List ℕ × Cycle)
unfolding pick_round
picks zero pool c = some ([], c)
picks (suc m) pool c = do
  (i, c1) ← pick_round pool c
  (rest, c2) ← picks m pool c1
  some (i ∷ rest, c2)

-- So many rounds, each of as many picks as the rotation has places.
unfoldable pub rounds : ℕ → List Server → Cycle → Option (List ℕ × Cycle)
unfolding picks
rounds zero pool c = some ([], c)
rounds (suc k) pool c = do
  (l, c1) ← picks (length c.saved) pool c
  (rest, c2) ← rounds k pool c1
  some (l ++ rest, c2)

abbrev AllHealthy : List Server → List ℕ → Type 0
AllHealthy pool [] = Unit
AllHealthy pool (i ∷ l) = IsHealthy pool i × AllHealthy pool l

abbrev pub times : ℕ → List ℕ → ℕ
times i [] = 0
times i (j ∷ l) = let rest = times i l in if i == j then suc rest else rest

pick_in_first :
    (n i : ℕ) (pool : List Server) (c d : Cycle)
    → next c ≡ some (i, d)
    → IsHealthy pool i
    → pick_in (suc n) pool c ≡ some (i, d)
unfolding pick_in keep_trying
pick_in_first n i pool c d e well = rw (e, well) refl

picks-rest :
    (x : ℕ) (xs l : List ℕ) (pool : List Server)
    → AllHealthy pool l
    → picks (length l) pool (record { saved = x ∷ xs; rest = l })
      ≡ some (l, record { saved = x ∷ xs; rest = [] })
unfolding picks pick_round
picks-rest x xs [] pool h = refl
picks-rest x xs (i ∷ l) pool (well, h) =
    let first =
      pick_in_first (length xs) i pool (record { saved = x ∷ xs; rest = i ∷ l })
        (record { saved = x ∷ xs; rest = l }) (unfold next next_from in refl) well in
    rw (first, picks-rest x xs l pool h) refl

-- At the end of a round the next one begins.
picks_again :
    (x : ℕ) (xs : List ℕ) (pool : List Server)
    → AllHealthy pool (x ∷ xs)
    → picks (length (x ∷ xs)) pool (record { saved = x ∷ xs; rest = [] })
      ≡ some (x ∷ xs, record { saved = x ∷ xs; rest = [] })
unfolding picks pick_round
picks_again x xs pool (well, h) =
    let first =
      pick_in_first (length xs) x pool (record { saved = x ∷ xs; rest = [] })
        (record { saved = x ∷ xs; rest = xs }) (unfold next next_from begin_round in refl) well in
    rw (first, picks-rest x xs xs pool h) refl

times-append : (i : ℕ) (xs ys : List ℕ) → times i (xs ++ ys) ≡ times i xs + times i ys
times-append i [] ys = omega arith
times-append i (x ∷ xs) ys = ground (arith, times-append i xs ys)

rounds-times :
    (k x : ℕ) (xs : List ℕ) (pool : List Server)
    → AllHealthy pool (x ∷ xs)
    → (l : List ℕ) × (rounds k pool (record { saved = x ∷ xs; rest = [] })
        ≡ some (l, record { saved = x ∷ xs; rest = [] }))
      × ((i : ℕ) → times i l ≡ k * times i (x ∷ xs))
unfolding rounds
rounds-times zero x xs pool h = ([], refl, λ i. omega arith)
rounds-times (suc k) x xs pool h =
    let (l, more, counts) = rounds-times k x xs pool h in
    (
      (x ∷ xs) ++ l,
      rw (picks_again x xs pool h, more) refl,
      λ i.
          (let both = times-append i (x ∷ xs) l in
            let old = counts i in
            let total : suc k * times i (x ∷ xs) ≡ times i (x ∷ xs) + k * times i (x ∷ xs) =
              omega arith in
            both ∙ ap (λ t. times i (x ∷ xs) + t) old ∙ sym total),
    )

abbrev pub weight_of : Option Server → ℕ
weight_of none = 0
weight_of (some s) = s.weight

times-repeated : (i j w : ℕ) → times i (repeated w j) ≡ (if i == j then w else 0)
unfolding repeated
times-repeated i j zero = ground arith
times-repeated i j (suc w) = ground (arith, times-repeated i j w)

times_lower :
    (servers : List Server) (from i : ℕ) → i < from → times i (expanded_from from servers) ≡ 0
unfolding expanded_from
times_lower [] from i h = refl
times_lower (s ∷ servers) from i h = ground (
  arith,
  h,
  times-append i (repeated s.weight from) (expanded_from (from + 1) servers),
  times-repeated i from s.weight,
  times_lower servers (from + 1) i (omega (arith, h)),
)

times-expanded :
    (servers : List Server) (from j : ℕ)
    → times (from + j) (expanded_from from servers) ≡ weight_of (get_elem? servers j)
unfolding expanded_from
times-expanded [] from j = refl
times-expanded (s ∷ servers) from zero = ground (
  arith,
  times-append (from + 0) (repeated s.weight from) (expanded_from (from + 1) servers),
  times-repeated (from + 0) from s.weight,
  times_lower servers (from + 1) (from + 0) (omega arith),
)
times-expanded (s ∷ servers) from (suc j) =
    let same : from + suc j ≡ from + 1 + j = omega arith in
    let rest =
      ap (λ i. times i (expanded_from (from + 1) servers)) same
      ∙ times-expanded servers (from + 1) j in
    times-append (from + suc j) (repeated s.weight from) (expanded_from (from + 1) servers)
    ∙ ground (arith, rest, times-repeated (from + suc j) from s.weight)

AllHealthy-append :
    (pool : List Server) (xs ys : List ℕ)
    → AllHealthy pool xs
    → AllHealthy pool ys
    → AllHealthy pool (xs ++ ys)
AllHealthy-append pool [] ys h g = g
AllHealthy-append pool (x ∷ xs) ys (w, h) g = (w, AllHealthy-append pool xs ys h g)

repeated-AllHealthy :
    (pool : List Server) (n i : ℕ) → IsHealthy pool i → AllHealthy pool (repeated n i)
unfolding repeated
repeated-AllHealthy pool zero i h = tt
repeated-AllHealthy pool (suc n) i h = (h, repeated-AllHealthy pool n i h)

expanded-AllHealthy :
    (pool servers : List Server) (from : ℕ)
    → ((j : ℕ) → j < from + length servers → IsHealthy pool j)
    → AllHealthy pool (expanded_from from servers)
unfolding expanded_from
expanded-AllHealthy pool [] from h = tt
expanded-AllHealthy pool (s ∷ servers) from h =
    AllHealthy-append pool (repeated s.weight from) (expanded_from (from + 1) servers)
      (repeated-AllHealthy pool s.weight from (h from (omega arith)))
      (expanded-AllHealthy pool servers (from + 1) (λ j low. h j (omega (arith, low))))

order-times :
    (k : ℕ) (order : List ℕ) (pool : List Server)
    → AllHealthy pool order
    → (l : List ℕ) × (c : Cycle) × (rounds k pool (cycle order) ≡ some (l, c))
      × ((i : ℕ) → times i l ≡ k * times i order)
unfolding rounds cycle picks
order-times zero order pool h = ([], cycle order, refl, λ i. omega arith)
order-times (suc k) [] pool h =
    let (l, c, more, counts) = order-times k [] pool h in
    (l, c, rw more refl, λ i. (let e = counts i in e ∙ omega arith))
order-times (suc k) (x ∷ xs) pool h =
    let (l, more, counts) = rounds-times k x xs pool h in
    (
      (x ∷ xs) ++ l,
      record { saved = x ∷ xs; rest = [] },
      rw (picks-rest x xs (x ∷ xs) pool h, more) refl,
      λ i.
          (let total : suc k * times i (x ∷ xs) ≡ times i (x ∷ xs) + k * times i (x ∷ xs) =
              omega arith in
            times-append i (x ∷ xs) l ∙ ap (λ t. times i (x ∷ xs) + t) (counts i) ∙ sym total),
    )

-- While all servers are healthy, a new weighted round robin never raises in any number of rounds, each of as many picks as the weights add up to, and picks each server as often as its weight says, times the number of rounds.
pub weighted_rounds-times :
    (k : ℕ) (servers : List Server)
    → ((j : ℕ) → j < length servers → IsHealthy servers j)
    → (l : List ℕ) × (c : Cycle) × (rounds k servers (make_weighted_round_robin servers)
        ≡ some (l, c))
      × ((j : ℕ) → times j l ≡ k * weight_of (get_elem? servers j))
unfolding make_weighted_round_robin
weighted_rounds-times k servers h =
    let well = expanded-AllHealthy servers servers 0 (λ j low. h j (omega (arith, low))) in
    let (l, c, ran, counts) = order-times k (expanded_from 0 servers) servers well in
    (
      l,
      c,
      ran,
      λ j.
          (let same : 0 + j ≡ j = omega arith in
            counts j
            ∙ ap (λ t. k * t)
                (subst (λ i. times i (expanded_from 0 servers) ≡ weight_of (get_elem? servers j))
                  same (times-expanded servers 0 j))),
    )
