-- ===== src/Balancers/Serving.antt =====
-- A run over the requests.
use learn_system_design.Prelude.{
  ℕ, zero, suc, ◌≡◌, refl, Bool, true, false, Option, none, some, List, [], ◌∷◌, length, get_elem?,
  set, arith, ltb, if◌then◌else◌, ap, sym, ◌∙◌,
}
use learn_system_design.Balancers.{
  Server, Request, healthy_at, healthy_from, least_connections, accept_at, serve_all, load_at, load,
  least_from, least_of, accept, in_flight,
}
use learn_system_design.Balancers.Picks.{IsHealthy}
use learn_system_design.Balancers.Least.{least_connections-least}

-- Looking at a server's load, or giving it a request, changes no server's health.
set_health :
    (pool : List Server) (i : ℕ) (s after : Server) (j : ℕ)
    → get_elem? pool i ≡ some s
    → after.healthy ≡ s.healthy
    → healthy_at (get_elem? (set pool i after) j) ≡ healthy_at (get_elem? pool j)
unfolding healthy_at
set_health [] i s after j e h = refl
set_health (x ∷ pool) zero s after zero e h = h ∙ sym (ap healthy_at e)
set_health (x ∷ pool) zero s after (suc j) e h = refl
set_health (x ∷ pool) (suc i) s after zero e h = refl
set_health (x ∷ pool) (suc i) s after (suc j) e h = set_health pool i s after j e h

load_at_health :
    (o : Option Server) (now i : ℕ) (pool : List Server) (j : ℕ)
    → get_elem? pool i ≡ o
    → healthy_at (get_elem? (load_at now o i pool).1 j) ≡ healthy_at (get_elem? pool j)
unfolding load_at in_flight
load_at_health none now i pool j e = refl
load_at_health (some s) now i pool j e = set_health pool i s (in_flight now s).1 j e refl

load_health :
    (now i : ℕ) (pool : List Server) (j : ℕ)
    → healthy_at (get_elem? (load now i pool).1 j) ≡ healthy_at (get_elem? pool j)
unfolding load
load_health now i pool j = load_at_health (get_elem? pool i) now i pool j refl

least_from_health :
    (now best least : ℕ) (l : List ℕ) (pool : List Server) (j : ℕ)
    → healthy_at (get_elem? (least_from now best least l pool).1 j) ≡ healthy_at (get_elem? pool j)
unfolding least_from
least_from_health now best least [] pool j = refl
least_from_health now best least (i ∷ rest) pool j =
    let n = (load now i pool).0 in
    least_from_health now (if ltb n least then i else best) (if ltb n least then n else least) rest
      (load now i pool).1 j
    ∙ load_health now i pool j

least_of_health :
    (now : ℕ) (l : List ℕ) (pool : List Server) (i : ℕ) (after : List Server) (j : ℕ)
    → least_of now l pool ≡ some (i, after)
    → healthy_at (get_elem? after j) ≡ healthy_at (get_elem? pool j)
unfolding least_of
least_of_health now [] pool i after j e = ground (arith, e)
least_of_health now (x ∷ rest) pool i after j e =
    ap health_in (sym e)
    ∙ least_from_health now x (load now x pool).0 rest (load now x pool).1 j
    ∙ load_health now x pool j
  where
    health_in : Option (ℕ × List Server) → Bool
    health_in none = false
    health_in (some (k, p)) = healthy_at (get_elem? p j)

accept_at_healthy :
    (quotient : ℕ → ℕ → ℕ) (req : Request) (i : ℕ) (o : Option Server) (pool : List Server)
    → get_elem? pool i ≡ o
    → healthy_at o ≡ true
    → (latency : ℕ) × (after : List Server) × (accept_at quotient req i o pool
        ≡ some (latency, after))
      × ((j : ℕ) → healthy_at (get_elem? after j) ≡ healthy_at (get_elem? pool j))
unfolding accept_at accept healthy_at
accept_at_healthy quotient req i none pool e well = ground (arith, well)
accept_at_healthy quotient req i (some s) pool e well =
    let (latency, after) = accept quotient req.t req.work s in
    (latency, set pool i after, refl, λ j. set_health pool i s after j e refl)

-- While some server of the pool is healthy, `run` over `least_connections` does not raise: every request has a latency, and no server's health is changed.
pub serve_all-least_connections :
    (quotient : ℕ → ℕ → ℕ) (requests : List Request) (pool : List Server) (j : ℕ)
    → IsHealthy pool j
    → (latencies : List ℕ) × (last : List Server) × (serve_all quotient
          (λ req p. least_connections req.t p)
          requests
          pool
        ≡ some (latencies, last))
      × (length latencies ≡ length requests)
      × ((k : ℕ) → healthy_at (get_elem? last k) ≡ healthy_at (get_elem? pool k))
unfolding serve_all
serve_all-least_connections quotient [] pool j well = ([], pool, refl, refl, λ k. refl)
serve_all-least_connections quotient (req ∷ requests) pool j well =
    let (i, pool1, picked, healthy, least) = least_connections-least req.t j pool well in
    let same : (k : ℕ) → healthy_at (get_elem? pool1 k) ≡ healthy_at (get_elem? pool k) = λ k.
      least_of_health req.t (healthy_from 0 pool) pool i pool1 k
        (unfold least_connections in picked) in
    let (latency, pool2, taken, kept) =
      accept_at_healthy quotient req i (get_elem? pool1 i) pool1 refl (same i ∙ healthy) in
    let (rest, last, served, long, still) =
      serve_all-least_connections quotient requests pool2 j (kept j ∙ same j ∙ well) in
    (
      latency ∷ rest,
      last,
      rw (picked, taken, served) refl,
      ap suc long,
      λ k. still k ∙ kept k ∙ same k,
    )
