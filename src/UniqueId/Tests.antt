-- ===== src/UniqueId/Tests.antt =====
-- Runs of the id generators, and the theorems at inputs.
use learn_system_design.Prelude.{ℕ, ◌≡◌, ◌≢◌, refl, none, List, [], ◌∷◌, arith}
use learn_system_design.UniqueId.Snowflake.{Snowflake, init, pack, parse, next_id}
use learn_system_design.UniqueId.Snowflake.Fields.{parse-pack}
use learn_system_design.UniqueId.Snowflake.Order.{ids, Rises, ids_increase}
use learn_system_design.UniqueId.Tickets
use learn_system_design.UniqueId.Tickets.{ticket, tickets_disjoint}

-- A clock that stands still, falls back and goes on.
abbrev readings : List ℕ
readings = 1704067200005 ∷ 1704067200005 ∷ 1704067200004 ∷ 1704067200006 ∷ []

abbrev fresh : Snowflake
fresh = record { machine_id = 3; last_ms = none; sequence = 0 }

ids_of_readings : ids 4 fresh readings ≡ 20983808 ∷ 20983809 ∷ 25178112 ∷ []
unfolding ids next_id pack
ids_of_readings = refl

id_taken_apart :
    parse (pack 1704067200005 3 1)
    ≡ record { timestamp_ms = 1704067200005; machine = 3; sequence = 1 }
id_taken_apart = parse-pack 1704067200005 3 1 (omega arith) (omega arith) (omega arith)

ids_increase_example : Rises 0 (ids 4 fresh readings)
ids_increase_example = ids_increase 3 4 readings fresh (unfold init in refl) (omega arith)

tickets_disjoint_run : ticket 4 (Tickets.init 1 2) ≢ ticket 3 (Tickets.init 2 2)
tickets_disjoint_run = tickets_disjoint 1 2 2 4 3 (omega arith)
