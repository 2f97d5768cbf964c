-- ===== src/Quorum/Stale.antt =====
-- `stale_read_rate`: the trials, with the samples of each. The keys and the values are numbers: "old" is 0
-- and "new" is 1.
use learn_system_design.Prelude.{
  ℕ, ◌+◌, Bool, true, false, Option, none, some, List, [], ◌∷◌, ℕ_discrete, ◌==◌, if◌then◌else◌,
}
use learn_system_design.Quorum.{new_store, Reply, not_enough, raised, value, put_value, get_value}

-- `s.get(...) != "new"`; `none` where `get` raises.
unfoldable is_stale : Reply ℕ → Option Bool
is_stale not_enough = some true
is_stale raised = none
is_stale (value none) = some true
is_stale (value (some v)) = some (if v == 1 then false else true)

-- One trial, with the replicas that the new write reaches and the order of the read's.
unfoldable trial : ℕ → ℕ → ℕ → List ℕ → List ℕ → Option Bool
unfolding is_stale new_store put_value get_value
trial n r w reached asked =
    let s1 = (put_value ℕ_discrete 0 0 none (new_store {K = ℕ} {V = ℕ} n r w)).0 in
    let s2 = (put_value ℕ_discrete 0 1 (some reached) s1).0 in
    is_stale (get_value ℕ_discrete 0 false asked s2).1

unfoldable tally : Option Bool → Option ℕ → Option ℕ
tally none rest = none
tally (some stale) none = none
tally (some stale) (some k) = some ((if stale then 1 else 0) + k)

-- How many trials are stale.
unfoldable stale_reads : ℕ → ℕ → ℕ → List (List ℕ × List ℕ) → Option ℕ
unfolding trial tally
stale_reads n r w [] = some 0
stale_reads n r w ((reached, asked) ∷ trials) =
    tally (trial n r w reached asked) (stale_reads n r w trials)
