-- ===== src/Balancers.antt =====
-- 03_load_balancing/01_load_balancers.py: the servers and the strategies. A server is its index in the pool, and
-- a strategy returns `none` where Python would raise. What `work / self.speed` is, which places
-- `rng.sample` draws, and what `zlib.crc32` gives are arguments.
pub mod Picks
pub mod Rounds
pub mod Least
pub mod Health
pub mod Serving
mod Tests
use learn_system_design.Prelude.{
  ℕ, zero, suc, ◌+◌, ◌-◌, ◌*◌, ◌%◌, ◌≤◌, max, Bool, true, false, not, ◌&&◌, String, Option, none,
  some, List, [], ◌∷◌, ◌++◌, length, map, get_elem?, set, leb, ltb, ◌==◌, if◌then◌else◌, ◌>>=◌,
}

pub record Server : Type 0 where
  pub name : String
  pub speed : ℕ
  pub weight : ℕ
  pub active : List ℕ
  pub healthy : Bool
  pub handled : ℕ

-- `Server(name, speed, weight)`
unfoldable pub new_server : String → ℕ → ℕ → Server
new_server name speed weight = record {
  name = name;
  speed = speed;
  weight = weight;
  active = [];
  healthy = true;
  handled = 0;
}

unfoldable pub unfinished : ℕ → List ℕ → List ℕ
unfinished now [] = []
unfinished now (t ∷ active) =
    let rest = unfinished now active in if ltb now t then t ∷ rest else rest

-- `Server.in_flight`: the number, and the server without the requests that are finished
unfoldable pub in_flight : ℕ → Server → ℕ × Server
unfolding unfinished
in_flight now s = let left = unfinished now s.active in (length left, record s { active = left })

unfoldable pub latest : ℕ → List ℕ → ℕ
latest now [] = now
latest now (t ∷ active) = max t (latest now active)

-- `Server.accept`, with the quotient of floats: the latency, and the server
unfoldable pub accept : (ℕ → ℕ → ℕ) → ℕ → ℕ → Server → ℕ × Server
unfolding latest
accept quotient now work s =
    let finish = latest now s.active + quotient work s.speed in
    (finish - now, record s { active = s.active ++ finish ∷ []; handled = s.handled + 1 })

-- `itertools.cycle`: the elements, and those left of this round
pub record Cycle : Type 0 where
  pub saved : List ℕ
  pub rest : List ℕ

unfoldable pub cycle : List ℕ → Cycle
cycle order = record { saved = order; rest = order }

unfoldable pub begin_round : List ℕ → Cycle → Option (ℕ × Cycle)
begin_round [] c = none
begin_round (i ∷ rest) c = some (i, record c { rest = rest })

unfoldable pub next_from : List ℕ → Cycle → Option (ℕ × Cycle)
unfolding begin_round
next_from [] c = begin_round c.saved c
next_from (i ∷ rest) c = some (i, record c { rest = rest })

-- `next(cycle)`
unfoldable pub next : Cycle → Option (ℕ × Cycle)
unfolding next_from
next c = next_from c.rest c

unfoldable pub healthy_at : Option Server → Bool
healthy_at none = false
healthy_at (some s) = s.healthy

unfoldable pub keep_trying : Bool → ℕ → Cycle → Option (ℕ × Cycle) → Option (ℕ × Cycle)
keep_trying true i c rest = some (i, c)
keep_trying false i c rest = rest

-- The loop of both round robins, for so many servers.
unfoldable pub pick_in : ℕ → List Server → Cycle → Option (ℕ × Cycle)
unfolding next healthy_at keep_trying
pick_in zero pool c = none
pick_in (suc n) pool c = do
  (i, c1) ← next c
  keep_trying (healthy_at (get_elem? pool i)) i c1 (pick_in n pool c1)

-- `pick` of `make_round_robin` and of `make_weighted_round_robin`
unfoldable pub pick_round : List Server → Cycle → Option (ℕ × Cycle)
unfolding pick_in
pick_round pool c = pick_in (length c.saved) pool c

unfoldable pub repeated : ℕ → ℕ → List ℕ
repeated zero i = []
repeated (suc n) i = i ∷ repeated n i

unfoldable pub expanded_from : ℕ → List Server → List ℕ
unfolding repeated
expanded_from i [] = []
expanded_from i (s ∷ servers) = repeated s.weight i ++ expanded_from (i + 1) servers

unfoldable pub indices_from : ℕ → List Server → List ℕ
indices_from i [] = []
indices_from i (s ∷ servers) = i ∷ indices_from (i + 1) servers

-- `make_round_robin`
unfoldable pub make_round_robin : List Server → Cycle
unfolding indices_from cycle
make_round_robin servers = cycle (indices_from 0 servers)

-- `make_weighted_round_robin`
unfoldable pub make_weighted_round_robin : List Server → Cycle
unfolding expanded_from cycle
make_weighted_round_robin servers = cycle (expanded_from 0 servers)

-- The healthy servers of a pool.
unfoldable pub healthy_from : ℕ → List Server → List ℕ
healthy_from i [] = []
healthy_from i (s ∷ pool) =
    let rest = healthy_from (i + 1) pool in if s.healthy then i ∷ rest else rest

-- `in_flight` of the server at a place, in the pool
unfoldable pub load_at : ℕ → Option Server → ℕ → List Server → ℕ × List Server
unfolding in_flight
load_at now none i pool = (0, pool)
load_at now (some s) i pool = let (n, left) = in_flight now s in (n, set pool i left)

unfoldable pub load : ℕ → ℕ → List Server → ℕ × List Server
unfolding load_at
load now i pool = load_at now (get_elem? pool i) i pool

-- `min(…, key=…)`, after a first server and its load: a later one only if it has less
unfoldable pub least_from : ℕ → ℕ → ℕ → List ℕ → List Server → ℕ × List Server
unfolding load
least_from now best least [] pool = (best, pool)
least_from now best least (i ∷ rest) pool =
    let (n, after) = load now i pool in
    least_from now (if ltb n least then i else best) (if ltb n least then n else least) rest after

unfoldable pub least_of : ℕ → List ℕ → List Server → Option (ℕ × List Server)
unfolding load least_from
least_of now [] pool = none
least_of now (i ∷ rest) pool =
    let (n, after) = load now i pool in some (least_from now i n rest after)

-- `least_connections`
unfoldable pub least_connections : ℕ → List Server → Option (ℕ × List Server)
unfolding least_of healthy_from
least_connections now pool = least_of now (healthy_from 0 pool) pool

-- The less loaded of two servers.
unfoldable pub better_of : ℕ → Option ℕ → Option ℕ → List Server → Option (ℕ × List Server)
unfolding load
better_of now none b pool = none
better_of now (some a) none pool = none
better_of now (some a) (some b) pool =
    let (n, pool1) = load now a pool in
    let (m, pool2) = load now b pool1 in some (if leb n m then a else b, pool2)

-- `pick` of `make_power_of_two`, with the places that `rng.sample` draws from the healthy servers
unfoldable pub power_of_two : ℕ × ℕ → ℕ → List Server → Option (ℕ × List Server)
unfolding better_of healthy_from
power_of_two (x, y) now pool =
    let healthy = healthy_from 0 pool in
    if ltb 1 (length healthy)
    then better_of now (get_elem? healthy x) (get_elem? healthy y) pool
    else better_of now (get_elem? healthy 0) (get_elem? healthy 0) pool

-- `ip_hash`
unfoldable pub ip_hash : (String → ℕ) → String → List Server → Option ℕ
unfolding healthy_from
ip_hash crc32 client_ip pool =
    let healthy = healthy_from 0 pool in get_elem? healthy (crc32 client_ip % length healthy)

-- A request of the measurement.
pub record Request : Type 0 where
  pub t : ℕ
  pub work : ℕ
  pub client_ip : String

-- `server.accept`, in the pool
unfoldable pub accept_at :
    (ℕ → ℕ → ℕ) → Request → ℕ → Option Server → List Server → Option (ℕ × List Server)
unfolding accept
accept_at quotient req i none pool = none
accept_at quotient req i (some s) pool =
    let (latency, after) = accept quotient req.t req.work s in some (latency, set pool i after)

-- The loop of `run`, over a strategy that keeps no state of its own: the latencies, and the pool
unfoldable pub serve_all :
    (ℕ → ℕ → ℕ)
    → (Request → List Server → Option (ℕ × List Server))
    → List Request
    → List Server
    → Option (List ℕ × List Server)
unfolding accept_at
serve_all quotient pick [] pool = some ([], pool)
serve_all quotient pick (req ∷ requests) pool = do
  (i, pool1) ← pick req pool
  (latency, pool2) ← accept_at quotient req i (get_elem? pool1 i) pool1
  (rest, last) ← serve_all quotient pick requests pool2
  some (latency ∷ rest, last)
