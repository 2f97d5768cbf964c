-- ===== src/Balancers/Tests.antt =====
-- The pool of the demonstration, and one with requests in flight and a server that is down.
use learn_system_design.Prelude.{
  ℕ, zero, suc, ◌*◌, ◌≤◌, ◌<◌, ◌≡◌, refl, true, false, some, List, [], ◌∷◌, length, get_elem?,
  arith,
}
use learn_system_design.Balancers.{
  Server, Cycle, new_server, healthy_at, least_connections, make_weighted_round_robin,
}
use learn_system_design.Balancers.Picks.{IsHealthy, load_of}
use learn_system_design.Balancers.Least.{least_connections-least}
use learn_system_design.Balancers.Rounds.{rounds, times, weight_of, weighted_rounds-times}

abbrev busy : List Server
busy =
    record { name = "s1"; speed = 2; weight = 2; active = 5 ∷ 9 ∷ []; healthy = true; handled = 2 }
    ∷ record { name = "s2"; speed = 2; weight = 2; active = []; healthy = false; handled = 7 }
    ∷ record {
      name = "s3";
      speed = 1;
      weight = 1;
      active = 3 ∷ 4 ∷ 8 ∷ [];
      healthy = true;
      handled = 3;
    }
    ∷ []

least_connections-least_example :
    (i : ℕ) × (after : List Server) × (least_connections 4 busy ≡ some (i, after))
    × IsHealthy busy i
    × ((k : ℕ) → IsHealthy busy k → load_of 4 (get_elem? busy i) ≤ load_of 4 (get_elem? busy k))
least_connections-least_example = least_connections-least 4 0 busy (unfold healthy_at in refl)

abbrev fresh_pool : List Server
fresh_pool = new_server "s1" 2 2 ∷ new_server "s2" 2 2 ∷ new_server "s4" 1 1 ∷ []

fresh_sound : (j : ℕ) → j < length fresh_pool → IsHealthy fresh_pool j
unfolding new_server healthy_at
fresh_sound zero h = refl
fresh_sound (suc zero) h = refl
fresh_sound (suc (suc zero)) h = refl
fresh_sound (suc (suc (suc j))) h = absurd (omega (arith, h))

weighted_rounds-times_example :
    (l : List ℕ) × (c : Cycle) × (rounds 2 fresh_pool (make_weighted_round_robin fresh_pool)
      ≡ some (l, c))
    × ((j : ℕ) → times j l ≡ 2 * weight_of (get_elem? fresh_pool j))
weighted_rounds-times_example = weighted_rounds-times 2 fresh_pool fresh_sound
