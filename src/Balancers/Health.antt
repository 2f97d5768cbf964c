-- ===== src/Balancers/Health.antt =====
-- The strategies that look at no more than two of the healthy servers.
use learn_system_design.Prelude.{
  ℕ, zero, suc, ◌+◌, ◌%◌, ◌≤◌, ◌<◌, ◌≡◌, refl, Bool, true, String, some, List, [], ◌∷◌, length,
  get_elem?, leb, ltb, if◌then◌else◌, arith, Bool-cases, inl, inr, ap, ◌∙◌, subst,
}
use learn_system_design.Prelude.Distinct.{is_in}
use learn_system_design.Balancers.{Server, healthy_from, load, better_of, power_of_two, ip_hash}
use learn_system_design.Balancers.Picks.{
  IsHealthy, is_in-healthy_from, healthy_from-is_in, load_of, load-loads,
}

element :
    (l : List ℕ) (k : ℕ) → k < length l → (i : ℕ) × (get_elem? l k ≡ some i) × (is_in i l ≡ true)
element [] k h = ground (arith, h)
element (x ∷ l) zero h = (x, refl, ground arith)
element (x ∷ l) (suc k) h =
    let (i, e, m) = element l k (omega (arith, h)) in (i, e, ground (arith, m))

sound_member :
    (pool : List Server) (i : ℕ) → is_in i (healthy_from 0 pool) ≡ true → IsHealthy pool i
sound_member pool i m =
    let (j, same, well) = is_in-healthy_from pool 0 i m in
    let q : j ≡ i = omega (arith, same) in subst (IsHealthy pool) q well

sound_element :
    (pool : List Server) (k : ℕ)
    → k < length (healthy_from 0 pool)
    → (i : ℕ) × (get_elem? (healthy_from 0 pool) k ≡ some i) × IsHealthy pool i
sound_element pool k h =
    let (i, e, m) = element (healthy_from 0 pool) k h in (i, e, sound_member pool i m)

some_healthy : (pool : List Server) (j : ℕ) → IsHealthy pool j → 0 < length (healthy_from 0 pool)
some_healthy pool j well = filled (0 + j) (healthy_from 0 pool) (healthy_from-is_in pool 0 j well)
  where
    filled : (i : ℕ) (l : List ℕ) → is_in i l ≡ true → 0 < length l
    filled i [] m = ground (arith, m)
    filled i (x ∷ l) m = omega arith

-- If some server of a pool is healthy, `ip_hash` does not raise and picks a healthy one.
pub ip_hash-IsHealthy :
    (crc32 : String → ℕ) (client_ip : String) (pool : List Server) (j : ℕ)
    → IsHealthy pool j
    → (i : ℕ) × (ip_hash crc32 client_ip pool ≡ some i) × IsHealthy pool i
unfolding ip_hash
ip_hash-IsHealthy crc32 client_ip pool j well =
    let room = some_healthy pool j well in
    sound_element pool (crc32 client_ip % length (healthy_from 0 pool)) (omega (arith, room))

-- Of two servers the one that is picked is one of them, and neither has a lower load.
better_of-IsHealthy :
    (now a b : ℕ) (pool : List Server)
    → IsHealthy pool a
    → IsHealthy pool b
    → (i : ℕ) × (after : List Server) × (better_of now (some a) (some b) pool ≡ some (i, after))
      × IsHealthy pool i
      × (load_of now (get_elem? pool i) ≤ load_of now (get_elem? pool a))
      × (load_of now (get_elem? pool i) ≤ load_of now (get_elem? pool b))
unfolding better_of
better_of-IsHealthy now a b pool well fine =
    let n = (load now a pool).0 in
    let pool1 = (load now a pool).1 in
    let m = (load now b pool1).0 in
    let pool2 = (load now b pool1).1 in
    let (mine, same) = load-loads now a pool in
    let yours = (load-loads now b pool1).0 ∙ same b in
    elim (Bool-cases (leb n m)) [
      | inl less ↦ (
        a,
        pool2,
        ap (λ (t : Bool). some (if t then a else b, pool2)) less,
        well,
        omega arith,
        ground (arith, less, mine, yours),
      )
      | inr more ↦ (
        b,
        pool2,
        ap (λ (t : Bool). some (if t then a else b, pool2)) more,
        fine,
        ground (arith, more, mine, yours),
        omega arith,
      )
    ]

-- If some server of a pool is healthy and `rng.sample` draws places of the healthy servers, the power of two choices does not raise and picks a healthy server.
pub power_of_two-IsHealthy :
    (x y now j : ℕ) (pool : List Server)
    → IsHealthy pool j
    → (1 < length (healthy_from 0 pool)
        → (x < length (healthy_from 0 pool)) × (y < length (healthy_from 0 pool)))
    → (i : ℕ) × (after : List Server) × (power_of_two (x, y) now pool ≡ some (i, after))
      × IsHealthy pool i
unfolding power_of_two
power_of_two-IsHealthy x y now j pool well drawn =
    let room = some_healthy pool j well in
    elim (Bool-cases (ltb 1 (length (healthy_from 0 pool)))) [
      | inl several ↦
          (let (lx, ly) = drawn (ground (arith, several)) in
            let (a, ea, wa) = sound_element pool x lx in
            let (b, eb, wb) = sound_element pool y ly in
            let (i, after, e, w, low, lower) = better_of-IsHealthy now a b pool wa wb in
            (i, after, rw (several, ea, eb) e, w))
      | inr single ↦
          (let (a, ea, wa) = sound_element pool 0 room in
            let (i, after, e, w, low, lower) = better_of-IsHealthy now a a pool wa wa in
            (i, after, rw (single, ea) e, w))
    ]
