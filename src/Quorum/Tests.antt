-- ===== src/Quorum/Tests.antt =====
-- Three replicas, with reads from two and writes to two.
use learn_system_design.Prelude.{
  ℕ, ◌≡◌, refl, arith, true, false, none, some, List, [], ◌∷◌, ℕ_discrete, ◌⊎◌,
}
use learn_system_design.Prelude.Dict.{get, put}
use learn_system_design.Quorum.{
  QuorumStore, new_store, or_none, stored, write, write_at, write_all, places, targets_of, is_up,
  only_up, not_enough, value, put_value, stored_at, newest_from, repair_one, repair, get_from,
  get_value, set_up, Action, put_action, up_action, perform, perform_all,
}
use learn_system_design.Quorum.Reads.{get_value-latest}

-- A value, then one that reaches two replicas only, of which one goes down.
abbrev before : List (Action ℕ ℕ)
before = put_action 5 10 none ∷ []

abbrev after : List (Action ℕ ℕ)
after = up_action 1 false ∷ put_action 6 99 none ∷ []

abbrev start : QuorumStore ℕ ℕ
start = perform_all ℕ_discrete before (new_store 3 2 2)

acked : (put_value ℕ_discrete 5 11 (some (0 ∷ 1 ∷ [])) start).1 ≡ true
unfolding perform_all perform put_value new_store targets_of places write_all write_at write stored
    or_none get put ℕ_discrete
acked = refl

abbrev final : QuorumStore ℕ ℕ
final = perform_all ℕ_discrete after (put_value ℕ_discrete 5 11 (some (0 ∷ 1 ∷ [])) start).0

newest_read : (get_value ℕ_discrete 5 true (2 ∷ 1 ∷ 0 ∷ []) final).1 ≡ value (some 11)
unfolding perform_all perform put_value new_store targets_of places write_all write_at write stored
    or_none get put ℕ_discrete set_up get_value only_up is_up get_from newest_from stored_at repair
    repair_one
newest_read = refl

repaired : (get_value ℕ_discrete 5 true (2 ∷ 1 ∷ 0 ∷ []) final).0.read_repairs ≡ 1
unfolding perform_all perform put_value new_store targets_of places write_all write_at write stored
    or_none get put ℕ_discrete set_up get_value only_up is_up get_from newest_from stored_at repair
    repair_one
repaired = refl

get_value-latest_example :
    ((get_value ℕ_discrete 5 true (2 ∷ 1 ∷ 0 ∷ []) final).1 ≡ value (some 11))
    ⊎ ((get_value ℕ_discrete 5 true (2 ∷ 1 ∷ 0 ∷ []) final).1 ≡ not_enough)
unfolding targets_of
get_value-latest_example =
    get_value-latest ℕ_discrete 3 2 2 before after 5 11 (some (0 ∷ 1 ∷ [])) true (2 ∷ 1 ∷ 0 ∷ [])
      (omega arith) (record { distinct = (refl, (refl, tt)); below = omega arith })
      (record { distinct = (refl, (refl, (refl, tt))); below = omega arith }) acked
      (omega arith, tt)
