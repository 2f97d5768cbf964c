-- ===== src/Sharding/Tests.antt =====
-- Six partitions on two nodes, and a third node.
use learn_system_design.Prelude.{◌≡◌, refl, some, [], ◌∷◌}
use learn_system_design.Prelude.Maps.{update}
use learn_system_design.Sharding.{
  LogicalSharding, new_logical, assigned_from, add_node, steal, distinct, counter,
}

abbrev six : LogicalSharding
six = record { n_partitions = 6; assignment = 0 ∷ 1 ∷ 0 ∷ 1 ∷ 0 ∷ 1 ∷ [] }

six_assigned : new_logical 6 (0 ∷ 1 ∷ []) ≡ some six
unfolding new_logical assigned_from
six_assigned = refl

third_takes_two :
    add_node 2 six ≡ (record { n_partitions = 6; assignment = 2 ∷ 2 ∷ 0 ∷ 1 ∷ 0 ∷ 1 ∷ [] }, 2)
unfolding add_node steal distinct counter update
third_takes_two = refl
